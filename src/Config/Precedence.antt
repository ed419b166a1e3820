-- ===== src/Config/Precedence.antt =====
-- Which source gives each field of the configuration of bkvt/config.py.
use mathlib.Core.Option.{some-injective}
use beyond_kvtransfer.Base.{
  map, String, Bool, false, Option, none, some, List, [], ◌∷◌, ◌≡◌, refl, sym, ap, ◌∙◌,
  if◌then◌else◌, ℤ, arith, is_empty, ◌==◌, ==_iff, string_eq,
}
use beyond_kvtransfer.Base.Dict.{Dict, get, set, or_else, get-set}
use beyond_kvtransfer.Value.{Value, Float}
use beyond_kvtransfer.Text.{Text}
use beyond_kvtransfer.Config.{
  BkvtConfig, ok, attribute_error, post_init, Overlay, entries, collect, overlaid,
  apply_yaml_overrides, asdict, field_for,
}
use beyond_kvtransfer.Config.Env.{Env, env_config, load_config}
use beyond_kvtransfer.Config.Valid.{post_init-IsValid, load_inv}

-- what a key says of a field
unfoldable pub names : String → Option Text → Bool
names name none = false
names name (some yaml_key) = elim (field_for yaml_key) [ none ↦ false | some n ↦ n == name ]

-- the last value that the entries give a field
unfoldable pub last_value : String → List (Option Text × Value) → Option Value
last_value name [] = none
last_value name ((key, value) ∷ rest) = elim (last_value name rest) [
  | some later ↦ some later
  | none ↦ if names name key then some value else none
]

-- the first of two optional values
unfoldable pub first_of : Option Value → Option Value → Option Value
first_of (some v) w = some v
first_of none w = w

collect-last_value :
    (name : String) (es : List (Option Text × Value)) (before updates : Dict String Value)
    → collect es before ≡ some updates
    → get name updates ≡ first_of (last_value name es) (get name before)
unfolding collect last_value names first_of
collect-last_value name [] before updates h = sym (ap (get name) (some-injective before updates h))
collect-last_value name ((none, value) ∷ rest) before updates h = cc
collect-last_value name ((some yaml_key, value) ∷ rest) before updates h =
    collected (λ d. collect-last_value name rest d updates) (field_for yaml_key) h
  where
    collected :
        ((d : Dict String Value)
          → collect rest d ≡ some updates
          → get name updates ≡ first_of (last_value name rest) (get name d))
        → (o : Option String)
        → elim o [ none ↦ collect rest before | some n ↦ collect rest (set n value before) ]
          ≡ some updates
        → get name updates
          ≡ first_of
              (elim (last_value name rest) [
                | some later ↦ some later
                | none ↦ if elim o [ none ↦ false | some n ↦ n == name ] then some value else none
              ])
              (get name before)
    collected says none e = let rest_says = says before e in ground (arith, rest_says)
    collected says (some n) e =
        let rest_says = says (set n value before) e in
        let stored = get-set name n value before in ground (arith, rest_says, stored)

-- what an optional value makes of another
unfoldable pub replaced : Option Value → Option Value → Option Value
replaced update none = none
replaced update (some v) = some (or_else update v)

-- a dict with the values of another where that one has some
override_all : Dict String Value → Dict String Value → Dict String Value
override_all updates = map (λ kv. (kv.0, or_else (get kv.0 updates) kv.1))

get-override_all :
    (name : String) (updates d : Dict String Value)
    → get name (override_all updates d) ≡ replaced (get name updates) (get name d)
unfolding override_all get replaced
get-override_all name updates [] = refl
get-override_all name updates ((k, v) ∷ d) =
    ground (arith, get-override_all name updates d, ==_iff k name)

get-overlaid :
    (name : String) (updates : Dict String Value) (cfg : BkvtConfig)
    → get name (asdict (overlaid updates cfg)) ≡ replaced (get name updates) (get name (asdict cfg))
unfolding asdict overlaid override_all
get-overlaid name updates cfg = get-override_all name updates (asdict cfg)

replaced-none : (o : Option Value) → replaced none o ≡ o
unfolding replaced
replaced-none none = refl
replaced-none (some v) = refl

ok-equal : (cfg cfg' : BkvtConfig) → ok cfg ≡ ok cfg' → cfg ≡ cfg'
ok-equal cfg cfg' h = cc

first_none : (o : Option Value) → first_of o none ≡ o
unfolding first_of
first_none none = refl
first_none (some v) = refl

collected-last_value :
    (name : String) (es : List (Option Text × Value)) (updates : Dict String Value)
    → collect es [] ≡ some updates
    → get name updates ≡ last_value name es
unfolding get
collected-last_value name es updates h =
    collect-last_value name es [] updates h ∙ first_none (last_value name es)

module _ (parse_float : String → Option Float) (parse_int : String → Option ℤ) where
  -- A field of a loaded configuration, at whatever name, is the last value that the YAML file gives
  -- under one of the field's keys, and where the file gives none, the value from the environment.
  pub load_config-precedence :
      (env : Env) (yaml : Value → Overlay) (es : List (Option Text × Value)) (cfg : BkvtConfig)
      → yaml (env_config parse_float parse_int env).output_dir ≡ entries es
      → load_config parse_float parse_int env yaml ≡ ok cfg
      → (name : String)
      → get name (asdict cfg)
        ≡ replaced (last_value name es) (get name (asdict (env_config parse_float parse_int env)))
  unfolding apply_yaml_overrides
  load_config-precedence env yaml es cfg there h name =
      let (valid, applied) = load_inv parse_float parse_int env yaml cfg h in
      overridden (collect es []) refl (rw there at applied)
    where
      start : BkvtConfig
      start = env_config parse_float parse_int env

      overridden :
          (o : Option (Dict String Value))
          → collect es [] ≡ o
          → elim o [
            | none ↦ attribute_error
            | some updates ↦
                if is_empty updates then ok start else post_init (overlaid updates start)
          ]
            ≡ ok cfg
          → get name (asdict cfg) ≡ replaced (last_value name es) (get name (asdict start))
      overridden none e g = cc
      overridden (some []) e g =
          let said : none ≡ last_value name es = unfold get in collected-last_value name es [] e in
          rw (← said, replaced-none) (ap (λ c. get name (asdict c)) (ok-equal cfg start (sym g)))
      overridden (some (u ∷ us)) e g =
          let (same, valid) = post_init-IsValid (overlaid (u ∷ us) start) cfg g in
          ap (λ c. get name (asdict c)) (sym same)
          ∙ get-overlaid name (u ∷ us) start
          ∙ ap (λ o. replaced o (get name (asdict start))) (collected-last_value name es (u ∷ us) e)
