-- ===== src/Config.antt =====
-- The configuration of bkvt/config.py: from the environment, the YAML file and the process-wide
-- value. Python's `int` and `float` of a text are parameters, none where they raise a ValueError.
pub mod Env
pub mod Valid
pub mod Precedence
use beyond_kvtransfer.Base.{
  String, Bool, true, false, Option, none, some, List, [], ◌∷◌, ◌&&◌, not, if◌then◌else◌, ◌==◌,
  string_eq, any_by, map, ℕ, ◌+◌, ◌*◌, ltb, eqb, leb, is_empty, pos, leb_ℤ,
}
use beyond_kvtransfer.Base.Dict.{Dict, get, set, or_else}
use beyond_kvtransfer.Value.{Value, float, int, text, bool, null, float_zero, float_one, float_le}
use beyond_kvtransfer.Text.{Text, codes, text_eq}

abbrev pub valid_profiles : List String
valid_profiles = "full" ∷ "coarse" ∷ "request_only" ∷ []

-- A field holds whatever the YAML file puts there. The snapshot of the environment serves the
-- manifest only.
pub record BkvtConfig : Type 0 where
  pub enabled : Value
  pub output_dir : Value
  pub trace_id : Value
  pub profile : Value
  pub sample_token : Value
  pub sample_metadata : Value
  pub sample_transfer : Value
  pub rotate_bytes : Value
  pub flush_bytes : Value
  pub sys_counter_hz : Value
  pub nccl_profiler : Value
  pub clock_anchor_hz : Value
  pub raw_env : Dict String String

-- what a call returns, or the exception that it raises
pub data Result {ℓ} (A : Type ℓ) : Type ℓ where
  ok : A → Result A
  value_error type_error attribute_error : Result A

-- `self.profile in _VALID_PROFILES`; none where the profile has no hash
unfoldable pub profile_known : Value → Option Bool
unfolding any_by
profile_known (text s) = some (any_by (λ p. p == s) valid_profiles)
profile_known (Value.arr vs) = none
profile_known (Value.obj vs) = none
profile_known v = some false

-- `0.0 <= val <= 1.0`; none where the comparison raises a TypeError
unfoldable pub in_unit : Value → Option Bool
in_unit (float x) = some (float_le float_zero x && float_le x float_one)
in_unit (int n) = some (leb_ℤ (pos 0) n && leb_ℤ n (pos 1))
in_unit (bool b) = some true
in_unit v = none

-- the loop over the three rates
unfoldable pub check_rates : List Value → BkvtConfig → Result BkvtConfig
check_rates [] cfg = ok cfg
check_rates (v ∷ vs) cfg = elim (in_unit v) [
  | none ↦ type_error
  | some inside ↦ let rest = check_rates vs cfg in if inside then rest else value_error
]

-- `__post_init__` of a new configuration
unfoldable pub post_init : BkvtConfig → Result BkvtConfig
post_init cfg = elim (profile_known cfg.profile) [
  | none ↦ type_error
  | some known ↦
      if known
      then check_rates (cfg.sample_token ∷ cfg.sample_metadata ∷ cfg.sample_transfer ∷ []) cfg
      else value_error
]

-- `self.profile == PROFILE_FULL`, and the two other profiles
abbrev pub has_profile : String → Value → Bool
has_profile s (text t) = t == s
has_profile s v = false

unfoldable pub is_full : BkvtConfig → Bool
is_full cfg = has_profile "full" cfg.profile

unfoldable pub is_coarse : BkvtConfig → Bool
is_coarse cfg = has_profile "coarse" cfg.profile

unfoldable pub is_request_only : BkvtConfig → Bool
is_request_only cfg = has_profile "request_only" cfg.profile

-- `${BKVT_OUTPUT_DIR}/config.yaml`: missing; not read, by a missing package or an exception; a
-- document that is not a dict; or its entries, whose keys are texts or something else
pub data Overlay : Type 0 where
  no_file : Overlay
  unreadable : Overlay
  not_a_dict : Overlay
  entries : List (Option Text × Value) → Overlay

-- `c.lower()`, as far as it can give an ASCII letter: the Kelvin sign is one
unfoldable pub lower : ℕ → ℕ
lower c = if leb 65 c && leb c 90 then c + 32 else if eqb c 8490 then 107 else c

-- `_key_map`
abbrev pub key_map : Dict Text String
key_map =
    (codes "enable", "enabled")
    ∷ (codes "enabled", "enabled")
    ∷ (codes "output_dir", "output_dir")
    ∷ (codes "trace_id", "trace_id")
    ∷ (codes "profile", "profile")
    ∷ (codes "sample_token", "sample_token")
    ∷ (codes "sample_metadata", "sample_metadata")
    ∷ (codes "sample_transfer", "sample_transfer")
    ∷ (codes "rotate_bytes", "rotate_bytes")
    ∷ (codes "flush_bytes", "flush_bytes")
    ∷ (codes "sys_counter_hz", "sys_counter_hz")
    ∷ (codes "nccl_profiler", "nccl_profiler")
    ∷ (codes "clock_anchor_hz", "clock_anchor_hz")
    ∷ []

unfoldable pub field_for : Text → Option String
unfolding lower get
field_for yaml_key = get (map lower yaml_key) key_map

-- the loop over the entries; none where a key has no `lower`
unfoldable pub collect : List (Option Text × Value) → Dict String Value → Option (Dict String Value)
collect [] updates = some updates
collect ((none, value) ∷ rest) updates = none
collect ((some yaml_key, value) ∷ rest) updates = elim (field_for yaml_key) [
  | none ↦ collect rest updates
  | some name ↦ collect rest (set name value updates)
]

-- `asdict`, but for the snapshot of the environment
unfoldable pub asdict : BkvtConfig → Dict String Value
asdict cfg =
    ("enabled", cfg.enabled)
    ∷ ("output_dir", cfg.output_dir)
    ∷ ("trace_id", cfg.trace_id)
    ∷ ("profile", cfg.profile)
    ∷ ("sample_token", cfg.sample_token)
    ∷ ("sample_metadata", cfg.sample_metadata)
    ∷ ("sample_transfer", cfg.sample_transfer)
    ∷ ("rotate_bytes", cfg.rotate_bytes)
    ∷ ("flush_bytes", cfg.flush_bytes)
    ∷ ("sys_counter_hz", cfg.sys_counter_hz)
    ∷ ("nccl_profiler", cfg.nccl_profiler)
    ∷ ("clock_anchor_hz", cfg.clock_anchor_hz)
    ∷ []

-- `asdict`, `update` and `BkvtConfig(**d)`, short of `__post_init__`
unfoldable pub overlaid : Dict String Value → BkvtConfig → BkvtConfig
unfolding get
overlaid updates cfg = record {
  enabled = or_else (get "enabled" updates) cfg.enabled;
  output_dir = or_else (get "output_dir" updates) cfg.output_dir;
  trace_id = or_else (get "trace_id" updates) cfg.trace_id;
  profile = or_else (get "profile" updates) cfg.profile;
  sample_token = or_else (get "sample_token" updates) cfg.sample_token;
  sample_metadata = or_else (get "sample_metadata" updates) cfg.sample_metadata;
  sample_transfer = or_else (get "sample_transfer" updates) cfg.sample_transfer;
  rotate_bytes = or_else (get "rotate_bytes" updates) cfg.rotate_bytes;
  flush_bytes = or_else (get "flush_bytes" updates) cfg.flush_bytes;
  sys_counter_hz = or_else (get "sys_counter_hz" updates) cfg.sys_counter_hz;
  nccl_profiler = or_else (get "nccl_profiler" updates) cfg.nccl_profiler;
  clock_anchor_hz = or_else (get "clock_anchor_hz" updates) cfg.clock_anchor_hz;
  raw_env = cfg.raw_env;
}

-- `_apply_yaml_overrides`
unfoldable pub apply_yaml_overrides : Overlay → BkvtConfig → Result BkvtConfig
apply_yaml_overrides no_file cfg = ok cfg
apply_yaml_overrides unreadable cfg = ok cfg
apply_yaml_overrides not_a_dict cfg = attribute_error
apply_yaml_overrides (entries es) cfg = elim (collect es []) [
  | none ↦ attribute_error
  | some updates ↦ if is_empty updates then ok cfg else post_init (overlaid updates cfg)
]
