-- ===== src/Config/Valid.antt =====
-- What every configuration that bkvt/config.py hands out satisfies.
use mathlib.Core.Path.{subst}
use beyond_kvtransfer.Base.{
  sym, String, true, Option, none, some, List, [], ◌∷◌, ◌≡◌, refl, if◌then◌else◌, ℤ, arith,
  is_empty,
}
use beyond_kvtransfer.Base.Dict.{Dict}
use beyond_kvtransfer.Value.{Value, Float}
use beyond_kvtransfer.Config.{
  BkvtConfig, Result, ok, value_error, type_error, attribute_error, profile_known, in_unit,
  check_rates, post_init, Overlay, no_file, unreadable, not_a_dict, entries, collect, overlaid,
  apply_yaml_overrides,
}
use beyond_kvtransfer.Config.Env.{Env, env_config, load_from_env, load_config, cached, get_config}

-- a known profile, and rates between 0 and 1
pub record IsValid (cfg : BkvtConfig) : Type 0 where
  pub profile : profile_known cfg.profile ≡ some true
  pub token : in_unit cfg.sample_token ≡ some true
  pub metadata : in_unit cfg.sample_metadata ≡ some true
  pub transfer : in_unit cfg.sample_transfer ≡ some true

ok-injective : (cfg cfg' : BkvtConfig) → ok cfg ≡ ok cfg' → cfg ≡ cfg'
ok-injective cfg cfg' h = cc

rate_inv :
    (v : Value) (vs : List Value) (cfg cfg' : BkvtConfig)
    → check_rates (v ∷ vs) cfg ≡ ok cfg'
    → (in_unit v ≡ some true) × (check_rates vs cfg ≡ ok cfg')
unfolding check_rates
rate_inv v vs cfg cfg' h = ground arith

profile_inv :
    (cfg cfg' : BkvtConfig)
    → post_init cfg ≡ ok cfg'
    → (profile_known cfg.profile ≡ some true)
      × (check_rates (cfg.sample_token ∷ cfg.sample_metadata ∷ cfg.sample_transfer ∷ []) cfg
          ≡ ok cfg')
unfolding post_init
profile_inv cfg cfg' h = ground arith

checked_same : (cfg cfg' : BkvtConfig) → check_rates [] cfg ≡ ok cfg' → cfg ≡ cfg'
unfolding check_rates
checked_same cfg cfg' h = cc

pub post_init-IsValid :
    (cfg cfg' : BkvtConfig) → post_init cfg ≡ ok cfg' → (cfg ≡ cfg') × IsValid cfg
post_init-IsValid cfg cfg' h =
    let (known, rates) = profile_inv cfg cfg' h in
    let (token, rates2) = rate_inv cfg.sample_token _ cfg cfg' rates in
    let (metadata, rates3) = rate_inv cfg.sample_metadata _ cfg cfg' rates2 in
    let (transfer, done) = rate_inv cfg.sample_transfer _ cfg cfg' rates3 in
    (
      checked_same cfg cfg' done,
      record { profile = known; token = token; metadata = metadata; transfer = transfer },
    )

post_init-result : (cfg cfg' : BkvtConfig) → post_init cfg ≡ ok cfg' → IsValid cfg'
post_init-result cfg cfg' h =
    let (same, valid) = post_init-IsValid cfg cfg' h in subst (λ c. IsValid c) same valid

-- an overlay keeps a valid configuration valid, or builds one anew
overrides-IsValid :
    (o : Overlay) (cfg cfg' : BkvtConfig)
    → IsValid cfg
    → apply_yaml_overrides o cfg ≡ ok cfg'
    → IsValid cfg'
unfolding apply_yaml_overrides
overrides-IsValid no_file cfg cfg' v h = subst (λ c. IsValid c) (ok-injective cfg cfg' h) v
overrides-IsValid unreadable cfg cfg' v h = subst (λ c. IsValid c) (ok-injective cfg cfg' h) v
overrides-IsValid not_a_dict cfg cfg' v h = cc
overrides-IsValid (entries es) cfg cfg' v h = overridden (collect es []) h
  where
    overridden :
        (o : Option (Dict String Value))
        → elim o [
          | none ↦ attribute_error
          | some updates ↦ if is_empty updates then ok cfg else post_init (overlaid updates cfg)
        ]
          ≡ ok cfg'
        → IsValid cfg'
    overridden none e = cc
    overridden (some []) e = subst (λ c. IsValid c) (ok-injective cfg cfg' e) v
    overridden (some (u ∷ us)) e = post_init-result (overlaid (u ∷ us) cfg) cfg' e

module _ (parse_float : String → Option Float) (parse_int : String → Option ℤ) where
  pub load_inv :
      (env : Env) (yaml : Value → Overlay) (cfg : BkvtConfig)
      → load_config parse_float parse_int env yaml ≡ ok cfg
      → let start = env_config parse_float parse_int env in
        IsValid start × (apply_yaml_overrides (yaml start.output_dir) start ≡ ok cfg)
  unfolding load_config load_from_env
  load_inv env yaml cfg h = loaded (post_init start) refl h
    where
      start : BkvtConfig
      start = env_config parse_float parse_int env

      loaded :
          (o : Result BkvtConfig)
          → post_init start ≡ o
          → elim o [
            | ok c ↦ apply_yaml_overrides (yaml c.output_dir) c
            | value_error ↦ value_error
            | type_error ↦ type_error
            | attribute_error ↦ attribute_error
          ]
            ≡ ok cfg
          → IsValid start × (apply_yaml_overrides (yaml start.output_dir) start ≡ ok cfg)
      loaded (ok c) e g =
          let (same, valid) = post_init-IsValid start c e in
          (valid, subst (λ c'. apply_yaml_overrides (yaml c'.output_dir) c' ≡ ok cfg) (sym same) g)
      loaded value_error e g = cc
      loaded type_error e g = cc
      loaded attribute_error e g = cc

  -- Whatever the environment and the YAML file hold, a configuration that is loaded has a known
  -- profile and three sampling rates between 0 and 1; every other input raises.
  pub load_config-IsValid :
      (env : Env) (yaml : Value → Overlay) (cfg : BkvtConfig)
      → load_config parse_float parse_int env yaml ≡ ok cfg
      → IsValid cfg
  load_config-IsValid env yaml cfg h =
      let (valid, applied) = load_inv env yaml cfg h in
      overrides-IsValid (yaml (env_config parse_float parse_int env).output_dir)
        (env_config parse_float parse_int env) cfg valid applied

  cached_kept :
      (o : Result BkvtConfig) (cfg : BkvtConfig) (singleton : Option BkvtConfig)
      → cached parse_float parse_int o ≡ (ok cfg, singleton)
      → singleton ≡ some cfg
  unfolding cached
  cached_kept (ok c) cfg singleton h = cc
  cached_kept value_error cfg singleton h = cc
  cached_kept type_error cfg singleton h = cc
  cached_kept attribute_error cfg singleton h = cc

  get_config_kept :
      (env : Env) (yaml : Value → Overlay) (before after : Option BkvtConfig) (cfg : BkvtConfig)
      → get_config parse_float parse_int env yaml before ≡ (ok cfg, after)
      → after ≡ some cfg
  unfolding get_config
  get_config_kept env yaml (some c) after cfg h = cc
  get_config_kept env yaml none after cfg h =
      cached_kept (load_config parse_float parse_int env yaml) cfg after h

  -- Once `get_config` has returned a configuration it returns the same one, whatever becomes of the
  -- environment and the file, until `reset_config`.
  pub get_config-cached :
      (env env' : Env) (yaml yaml' : Value → Overlay) (before after : Option BkvtConfig)
      (cfg : BkvtConfig)
      → get_config parse_float parse_int env yaml before ≡ (ok cfg, after)
      → get_config parse_float parse_int env' yaml' after ≡ (ok cfg, after)
  unfolding get_config
  get_config-cached env env' yaml yaml' before after cfg h =
      rw (get_config_kept env yaml before after cfg h) refl
