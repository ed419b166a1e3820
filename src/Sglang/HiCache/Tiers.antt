-- ===== src/Sglang/HiCache/Tiers.antt =====
-- The plan that `_tier_plan` of bkvt/integrations/sglang/hicache_probe.py makes of a method's name.
use mathlib.Core.Bool.{false≢true}
use beyond_kvtransfer.Base.{
  ℕ, ◌+◌, ◌≡◌, ◌↔◌, ◌⊎◌, ◌≢◌, ◌++◌, ==_iff, inl, inr, refl, String, Bool, true, false, List, [],
  ◌∷◌, map, any_by, if◌then◌else◌, ◌==◌, string_eq, arith, Bool-cases,
}
use beyond_kvtransfer.Config.{lower}
use beyond_kvtransfer.Text.{Text, codes, contains}
use beyond_kvtransfer.Text.Occurs.{Occurs, SomeOccurs, contains_iff}
use beyond_kvtransfer.Sglang.HiCache.{Plan, load_plan, save_plan, mentions, tier_plan}

-- how near to the accelerator a tier is
abbrev pub nearness : String → ℕ
nearness tier = if tier == "HBM_LOCAL" then 2 else if tier == "DRAM_LOCAL" then 1 else 0

-- a load goes one tier nearer, and is a promotion
abbrev pub IsLoad : Plan → Type 0
IsLoad plan =
    (plan.direction ≡ "load")
    × (plan.kv_subtype ≡ "tier_promote")
    × (nearness plan.dst_tier ≡ nearness plan.src_tier + 1)

-- a save goes one tier farther, and is a demotion
abbrev pub IsSave : Plan → Type 0
IsSave plan =
    (plan.direction ≡ "save")
    × (plan.kv_subtype ≡ "tier_demote")
    × (nearness plan.src_tier ≡ nearness plan.dst_tier + 1)

-- one of the two tiers is the object store
abbrev pub IsStored : Plan → Type 0
IsStored plan = (plan.src_tier ≡ "OBJECT_STORE") ⊎ (plan.dst_tier ≡ "OBJECT_STORE")

abbrev pub storage_words : List String
storage_words = "l3" ∷ "storage" ∷ "file" ∷ "disk" ∷ "mooncake" ∷ []

abbrev pub load_words : List String
load_words = "load" ∷ "get" ∷ "restore" ∷ "promote" ∷ []

-- the method's name with small letters
abbrev pub name_of : String → Text
name_of method = map lower (codes method)

mentions_iff :
    (name : Text) (words : List String) → (mentions name words ≡ true) ↔ SomeOccurs words name
unfolding mentions any_by
mentions_iff name [] = (λ h. absurd cc, λ h. absurd h)
mentions_iff name (w ∷ ws) =
    let own = contains_iff (codes w) name in
    let rest = mentions_iff name ws in
    elim (Bool-cases (contains (codes w) name)) [
      | inl here ↦ (λ h. inl (own.0 here), λ h. ground (arith, here))
      | inr gone ↦ (
        λ h. inr (rest.0 (ground (arith, gone, h))),
        λ h. elim h [
          | inl occurs ↦ absurd (ground (arith, gone, own.1 occurs))
          | inr later ↦ ground (arith, rest.1 later)
        ],
      )
    ]

apart : (s t : String) → (s == t) ≡ false → s ≢ t
apart s t h e = let same : (s == t) ≡ true = (==_iff s t).1 e in absurd cc

-- what the plan is, by the three tests
abbrev planned : Bool → Bool → Bool → Plan
planned stored near far =
    if stored
    then (if near
        then load_plan "OBJECT_STORE" "DRAM_LOCAL"
        else save_plan "DRAM_LOCAL" "OBJECT_STORE")
    else if far
    then load_plan "DRAM_LOCAL" "HBM_LOCAL"
    else save_plan "HBM_LOCAL" "DRAM_LOCAL"

IsStored-iff : (stored near far : Bool) → IsStored (planned stored near far) ↔ (stored ≡ true)
IsStored-iff true true far = (λ h. refl, λ h. inl refl)
IsStored-iff true false far = (λ h. refl, λ h. inr refl)
IsStored-iff false near true = (
  λ h. elim h [ inl e ↦ absurd (apart _ _ refl e) | inr e ↦ absurd (apart _ _ refl e) ],
  λ h. absurd cc,
)
IsStored-iff false near false = (
  λ h. elim h [ inl e ↦ absurd (apart _ _ refl e) | inr e ↦ absurd (apart _ _ refl e) ],
  λ h. absurd cc,
)

IsLoad-iff :
    (stored near far : Bool)
    → IsLoad (planned stored near far) ↔ ((if stored then near else far) ≡ true)
IsLoad-iff true true far = (λ h. refl, λ h. (refl, refl, refl))
IsLoad-iff true false far = (λ h. absurd (apart _ _ refl h.0), λ h. absurd cc)
IsLoad-iff false near true = (λ h. refl, λ h. (refl, refl, refl))
IsLoad-iff false near false = (λ h. absurd (apart _ _ refl h.0), λ h. absurd cc)

move :
    (stored near far : Bool) → IsLoad (planned stored near far) ⊎ IsSave (planned stored near far)
move true true far = inl (refl, refl, refl)
move true false far = inr (refl, refl, refl)
move false near true = inl (refl, refl, refl)
move false near false = inr (refl, refl, refl)

SomeOccurs-last :
    (ws : List String) (w : String) (s : Text)
    → SomeOccurs (ws ++ w ∷ []) s ↔ (SomeOccurs ws s ⊎ Occurs (codes w) s)
SomeOccurs-last [] w s = (
  λ h. elim h [ inl o ↦ inr o | inr o ↦ absurd o ],
  λ h. elim h [ inl o ↦ absurd o | inr o ↦ inl o ],
)
SomeOccurs-last (v ∷ ws) w s =
    let rest = SomeOccurs-last ws w s in
    (
      λ h. elim h [
        | inl o ↦ inl (inl o)
        | inr later ↦ elim (rest.0 later) [ inl o ↦ inl (inr o) | inr o ↦ inr o ]
      ],
      λ h. elim h [
        | inl front ↦ elim front [ inl o ↦ inl o | inr o ↦ inr (rest.1 (inl o)) ]
        | inr o ↦ inr (rest.1 (inr o))
      ],
    )

chosen_iff :
    {S L D : Type 0} (stored near far : Bool)
    → (stored ≡ true) ↔ S
    → (near ≡ true) ↔ L
    → (far ≡ true) ↔ (L ⊎ D)
    → ((if stored then near else far) ≡ true) ↔ (L ⊎ (¬ S × D))
chosen_iff true near far s l f =
    (λ h. inl (l.0 h), λ h. elim h [ inl o ↦ l.1 o | inr o ↦ absurd (o.0 (s.0 refl)) ])
chosen_iff false near far s l f = (
  λ h. elim (f.0 h) [ inl o ↦ inl o | inr o ↦ inr (λ x. false≢true (s.1 x), o) ],
  λ h. elim h [ inl o ↦ f.1 (inl o) | inr o ↦ f.1 (inr o.1) ],
)

both : {A B C : Type 0} → A ↔ B → B ↔ C → A ↔ C
both f g = (λ a. g.0 (f.0 a), λ c. f.1 (g.1 c))

-- Whatever a method is called, its plan is a load that goes to the next nearer tier and promotes the
-- blocks, or a save that goes to the next farther tier and demotes them; the object store is one of
-- the two tiers exactly when a word of storage occurs in the name, in capitals or not; and it is a
-- load exactly when a word of loading occurs in the name, or `to_device` with no word of storage.
pub tier_plan-moves :
    (method : String)
    → let plan = tier_plan method in
      let name = name_of method in
      (IsLoad plan ⊎ IsSave plan)
      × (IsStored plan ↔ SomeOccurs storage_words name)
      × (IsLoad plan ↔ (
          SomeOccurs load_words name
          ⊎ (¬ SomeOccurs storage_words name × Occurs (codes "to_device") name)))
unfolding tier_plan
tier_plan-moves method =
    let name = name_of method in
    let stored = mentions name storage_words in
    let near = mentions name load_words in
    let far = mentions name (load_words ++ "to_device" ∷ []) in
    let stored_said = mentions_iff name storage_words in
    let far_said =
      both (mentions_iff name (load_words ++ "to_device" ∷ []))
        (SomeOccurs-last load_words "to_device" name) in
    (
      move stored near far,
      both (IsStored-iff stored near far) stored_said,
      both (IsLoad-iff stored near far)
          (chosen_iff stored near far stored_said (mentions_iff name load_words) far_said),
    )
