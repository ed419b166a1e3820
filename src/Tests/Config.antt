-- ===== src/Tests/Config.antt =====
-- Tests of bkvt/config.py.
use beyond_kvtransfer.Base.{
  String, true, false, Option, none, some, List, [], ◌∷◌, ◌≡◌, refl, ℤ, string_eq,
}
use beyond_kvtransfer.Base.Dict.{get, set}
use beyond_kvtransfer.Value.{Value, Float, float_one, text, float_le}
use beyond_kvtransfer.Text.{Text, codes, text_beq, text_eq}
use beyond_kvtransfer.Config.{
  BkvtConfig, ok, Overlay, no_file, entries, post_init, check_rates, profile_known, in_unit,
  apply_yaml_overrides, collect, overlaid, asdict, field_for, lower,
}
use beyond_kvtransfer.Config.Env.{
  Env, env_config, load_from_env, load_config, get_config, env_bool, env_str, env_number,
  env_optional, means_true, strip_left, strip_right, is_space,
}
use beyond_kvtransfer.Config.Valid.{IsValid, load_config-IsValid, get_config-cached}
use beyond_kvtransfer.Config.Precedence.{replaced, last_value, load_config-precedence}

abbrev no_float : String → Option Float
no_float s = none

abbrev no_int : String → Option ℤ
no_int s = none

abbrev env : Env
env = ("BKVT_ENABLE", " 1 ") ∷ ("BKVT_FLUSH_BYTES", "many") ∷ []

abbrev es : List (Option Text × Value)
es = (some (codes "Profile"), text "full") ∷ (some (codes "profile"), text "coarse") ∷ []

abbrev yaml : Value → Overlay
yaml output_dir = entries es

abbrev start : BkvtConfig
start = env_config no_float no_int env

abbrev loaded : BkvtConfig
loaded = record start { profile = text "coarse" }

off_is_false : means_true " off " ≡ false
unfolding means_true strip_left strip_right is_space text_beq
off_is_false = refl

enabled_by_env : env_bool "BKVT_ENABLE" false env ≡ true
unfolding env_bool get means_true strip_left strip_right is_space text_beq
enabled_by_env = refl

loads : load_config no_float no_int env yaml ≡ ok loaded
unfolding load_config load_from_env env_config env_str env_number env_optional post_init check_rates
    profile_known in_unit apply_yaml_overrides collect overlaid field_for lower get set text_beq
    float_one float_le
loads = refl

load_config-IsValid_example : IsValid loaded
load_config-IsValid_example = load_config-IsValid no_float no_int env yaml loaded loads

load_config-precedence_example :
    get "profile" (asdict loaded)
    ≡ replaced (last_value "profile" es) (get "profile" (asdict start))
load_config-precedence_example =
    load_config-precedence no_float no_int env yaml es loaded refl loads "profile"

first_call : get_config no_float no_int env yaml none ≡ (ok loaded, some loaded)
unfolding get_config load_config load_from_env env_config env_str env_number env_optional post_init
    check_rates profile_known in_unit apply_yaml_overrides collect overlaid field_for lower get set
    text_beq float_one float_le
first_call = refl

get_config-cached_example :
    get_config no_float no_int [] (λ d. no_file) (some loaded) ≡ (ok loaded, some loaded)
get_config-cached_example =
    get_config-cached no_float no_int env [] yaml (λ d. no_file) none (some loaded) loaded
      first_call
