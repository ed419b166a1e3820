-- ===== src/Config/Env.antt =====
-- `_load_from_env`, `load_config` and the process-wide configuration of bkvt/config.py.
use beyond_kvtransfer.Base.{
  String, Bool, false, Option, none, some, [], ◌∷◌, ◌&&◌, ◌||◌, not, if◌then◌else◌, ◌==◌, string_eq,
  any_by, ℕ, ◌*◌, ◌^◌, eqb, leb, is_empty, ℤ, pos,
}
use beyond_kvtransfer.Base.Dict.{Dict, get}
use beyond_kvtransfer.Value.{
  Value, Float, finite, float_one, one_scaled, float, int, text, bool, null,
}
use beyond_kvtransfer.Text.{prefix, Text, codes, text_eq}
use beyond_kvtransfer.Config.{
  BkvtConfig, Result, ok, value_error, type_error, attribute_error, post_init, Overlay,
  apply_yaml_overrides,
}

-- `os.environ`
abbrev pub Env : Type 0
Env = Dict String String

-- the characters that `str.strip` removes
unfoldable pub is_space : ℕ → Bool
unfolding any_by
is_space c =
    (leb 9 c && leb c 13)
    || (leb 28 c && leb c 32)
    || (leb 8192 c && leb c 8202)
    || any_by (λ d. eqb d c) (133 ∷ 160 ∷ 5760 ∷ 8232 ∷ 8233 ∷ 8239 ∷ 8287 ∷ 12288 ∷ [])

unfoldable pub strip_left : Text → Text
strip_left [] = []
strip_left (c ∷ s) = let rest = strip_left s in if is_space c then rest else c ∷ s

unfoldable pub strip_right : Text → Text
strip_right [] = []
strip_right (c ∷ s) =
    let rest = strip_right s in if is_empty rest && is_space c then [] else c ∷ rest

-- `raw.strip() not in ("", "0", "false", "no", "off")`
unfoldable pub means_true : String → Bool
unfolding strip_left strip_right any_by is_space
means_true raw = not (
    any_by (λ s. s == strip_right (strip_left (codes raw)))
      (codes "" ∷ codes "0" ∷ codes "false" ∷ codes "no" ∷ codes "off" ∷ []))

-- `_env_bool`
unfoldable pub env_bool : String → Bool → Env → Bool
env_bool key default env = elim (get key env) [ none ↦ default | some raw ↦ means_true raw ]

-- `_env_float` and `_env_int`: a text that is no number leaves the default
unfoldable pub env_number {ℓ} : {A : Type ℓ} → (String → Option A) → String → A → Env → A
env_number parse key default env = elim (get key env) [
  | none ↦ default
  | some raw ↦ elim (parse raw) [ none ↦ default | some n ↦ n ]
]

-- `_env_str`
unfoldable pub env_str : String → String → Env → String
env_str key default env = elim (get key env) [ none ↦ default | some raw ↦ raw ]

unfoldable pub env_optional : String → Env → Value
env_optional key env = elim (get key env) [ none ↦ null | some raw ↦ text raw ]

-- the variables whose names start with BKVT_
unfoldable pub raw_env : Env → Env
raw_env [] = []
raw_env ((k, v) ∷ env) =
    let rest = raw_env env in if prefix (codes "BKVT_") (codes k) then (k, v) ∷ rest else rest

-- 0.05
abbrev pub float_twentieth : Float
float_twentieth = finite (pos (3602879701896397 * 2 ^ 1018))

abbrev pub float_ten : Float
float_ten = finite (pos (10 * one_scaled))

module _ (parse_float : String → Option Float) (parse_int : String → Option ℤ) where
  -- the configuration of `_load_from_env`, short of `__post_init__`
  unfoldable pub env_config : Env → BkvtConfig
  env_config env = record {
    enabled = bool (env_bool "BKVT_ENABLE" false env);
    output_dir = text (env_str "BKVT_OUTPUT_DIR" "./bkvt_traces" env);
    trace_id = env_optional "BKVT_TRACE_ID" env;
    profile = text (env_str "BKVT_PROFILE" "full" env);
    sample_token = float (env_number parse_float "BKVT_SAMPLE_TOKEN" float_twentieth env);
    sample_metadata = float (env_number parse_float "BKVT_SAMPLE_METADATA" float_one env);
    sample_transfer = float (env_number parse_float "BKVT_SAMPLE_TRANSFER" float_one env);
    rotate_bytes = int (env_number parse_int "BKVT_ROTATE_BYTES" (pos 268435456) env);
    flush_bytes = int (env_number parse_int "BKVT_FLUSH_BYTES" (pos 4194304) env);
    sys_counter_hz = float (env_number parse_float "BKVT_SYS_COUNTER_HZ" float_ten env);
    nccl_profiler = bool (env_bool "BKVT_NCCL_PROFILER" false env);
    clock_anchor_hz = float (env_number parse_float "BKVT_CLOCK_ANCHOR_HZ" float_one env);
    raw_env = raw_env env;
  }

  unfoldable pub load_from_env : Env → Result BkvtConfig
  load_from_env env = post_init (env_config env)

  -- `load_config`, with the YAML file of each output directory
  unfoldable pub load_config : Env → (Value → Overlay) → Result BkvtConfig
  load_config env yaml = elim (load_from_env env) [
    | ok cfg ↦ apply_yaml_overrides (yaml cfg.output_dir) cfg
    | value_error ↦ value_error
    | type_error ↦ type_error
    | attribute_error ↦ attribute_error
  ]

  -- `_config` after a load: one that raises leaves it unset
  unfoldable pub cached : Result BkvtConfig → Result BkvtConfig × Option BkvtConfig
  cached (ok cfg) = (ok cfg, some cfg)
  cached value_error = (value_error, none)
  cached type_error = (type_error, none)
  cached attribute_error = (attribute_error, none)

  -- `get_config`, on the process-wide `_config`
  unfoldable pub get_config :
      Env → (Value → Overlay) → Option BkvtConfig → Result BkvtConfig × Option BkvtConfig
  unfolding cached
  get_config env yaml (some cfg) = (ok cfg, some cfg)
  get_config env yaml none = cached (load_config env yaml)

-- `reset_config`
unfoldable pub reset_config : Option BkvtConfig → Option BkvtConfig → Option BkvtConfig
reset_config new_config singleton = new_config
