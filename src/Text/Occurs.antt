-- ===== src/Text/Occurs.antt =====
-- Where a text occurs in another: Python's `in` on texts.
use beyond_kvtransfer.Base.{
  ◌≡◌, refl, ap, String, true, List, [], ◌∷◌, ◌++◌, arith, ◌↔◌, ◌⊎◌, inl, inr, Bool-cases,
}
use beyond_kvtransfer.Text.{Text, codes, prefix, contains}

-- the second text is the first with something before and behind it
abbrev pub Occurs : Text → Text → Type 0
Occurs p s = (before : Text) × (behind : Text) × (s ≡ before ++ (p ++ behind))

-- one of the words occurs in the text
abbrev pub SomeOccurs : List String → Text → Type 0
SomeOccurs [] s = ⊥
SomeOccurs (w ∷ ws) s = Occurs (codes w) s ⊎ SomeOccurs ws s

prefix-front : (p s : Text) → prefix p s ≡ true → (behind : Text) × (s ≡ p ++ behind)
prefix-front [] s h = (s, refl)
prefix-front (c ∷ p) [] h = absurd cc
prefix-front (c ∷ p) (d ∷ s) h =
    let (behind, same) = prefix-front p s (ground (arith, h)) in
    let first : c ≡ d = ground (arith, h) in (behind, rw (first, same) refl)

front-prefix : (p behind : Text) → prefix p (p ++ behind) ≡ true
front-prefix [] behind = refl
front-prefix (c ∷ p) behind = ground (arith, front-prefix p behind)

contains-Occurs : (p s : Text) → contains p s ≡ true → Occurs p s
unfolding contains
contains-Occurs p [] h = let (behind, same) = prefix-front p [] h in ([], behind, same)
contains-Occurs p (c ∷ s) h = elim (Bool-cases (prefix p (c ∷ s))) [
  | inl front ↦ let (behind, same) = prefix-front p (c ∷ s) front in ([], behind, same)
  | inr not_here ↦
      let (before, behind, same) = contains-Occurs p s (ground (arith, h, not_here)) in
      (c ∷ before, behind, ap (λ (x : Text). c ∷ x) same)
]

Occurs-contains : (p before behind : Text) → contains p (before ++ (p ++ behind)) ≡ true
Occurs-contains p [] behind = at_front (p ++ behind) (front-prefix p behind)
  where
    at_front : (s : Text) → prefix p s ≡ true → contains p s ≡ true
    at_front [] h = unfold contains in h
    at_front (c ∷ s) h = unfold contains in ground (arith, h)
Occurs-contains p (c ∷ before) behind = later (Occurs-contains p before behind)
  where
    later :
        contains p (before ++ (p ++ behind)) ≡ true
        → contains p (c ∷ before ++ (p ++ behind)) ≡ true
    later h = unfold contains in ground (arith, h)

pub contains_iff : (p s : Text) → (contains p s ≡ true) ↔ Occurs p s
contains_iff p s =
    (contains-Occurs p s, λ (before, behind, same). rw same (Occurs-contains p before behind))
