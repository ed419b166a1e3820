-- ===== src/Sampling.antt =====
-- The sampling decisions of bkvt/sampling.py. The random draw is an argument.
pub mod Decision
use beyond_kvtransfer.Base.{
  String, Bool, true, false, Option, none, some, List, [], ◌∷◌, ◌==◌, string_eq, if◌then◌else◌,
  any_by, ◌*◌, ◌^◌, pos,
}
use beyond_kvtransfer.Value.{Float, finite, float_one, float_le, float_lt}

abbrev pub always_on_types : List String
always_on_types = "request" ∷ "sys_counter" ∷ []

abbrev pub always_on_token_subtypes : List String
always_on_token_subtypes = "first_token" ∷ []

abbrev pub always_on_metadata_subtypes : List String
always_on_metadata_subtypes = "clock_anchor" ∷ "scheduler_decision" ∷ []

-- `x in s`
unfoldable pub member : String → List String → Bool
unfolding any_by
member x s = any_by (λ y. y == x) s

pub record Sampler : Type 0 where
  pub sample_token : Float
  pub sample_metadata : Float
  pub sample_transfer : Float

-- the chain of `if`s on the type: none for an event that is always on
unfoldable pub rate_for : Sampler → String → String → Option Float
unfolding member
rate_for s record_type subtype =
    if member record_type always_on_types
    then none
    else if record_type == "token"
    then (if member subtype always_on_token_subtypes then none else some s.sample_token)
    else if record_type == "metadata"
    then (if member subtype always_on_metadata_subtypes then none else some s.sample_metadata)
    else if record_type == "transfer"
    then some s.sample_transfer
    else if record_type == "kv_block"
    then some s.sample_metadata
    else none

-- the tail of `should_emit`: `draw` is what `self._rng.random()` returns
unfoldable pub decide_rate : Option Float → Float → Bool × Option Float
decide_rate none draw = (true, none)
decide_rate (some rate) draw =
    if float_le float_one rate then (true, none) else (float_lt draw rate, some rate)

unfoldable pub should_emit : Sampler → String → String → Float → Bool × Option Float
unfolding rate_for decide_rate
should_emit s record_type subtype draw = decide_rate (rate_for s record_type subtype) draw

unfoldable pub should_emit_token : Sampler → String → Float → Bool × Option Float
should_emit_token s subtype draw = should_emit s "token" subtype draw

unfoldable pub should_emit_metadata : Sampler → String → Float → Bool × Option Float
should_emit_metadata s subtype draw = should_emit s "metadata" subtype draw

unfoldable pub should_emit_transfer : Sampler → Float → Bool × Option Float
should_emit_transfer s draw = should_emit s "transfer" "" draw

unfoldable pub should_emit_kv_block : Sampler → String → Float → Bool × Option Float
should_emit_kv_block s subtype draw = should_emit s "kv_block" subtype draw

-- `Sampler()`: 0.05 is 3602879701896397 / 2^56
unfoldable pub default_sampler : Sampler
default_sampler = record {
  sample_token = finite (pos (3602879701896397 * 2 ^ 1018));
  sample_metadata = float_one;
  sample_transfer = float_one;
}

-- the process-wide `_sampler`
unfoldable pub init_sampler : Sampler → Option Sampler → Sampler × Option Sampler
init_sampler s singleton = (s, some s)

unfoldable pub get_sampler : Option Sampler → Sampler × Option Sampler
get_sampler (some s) = (s, some s)
get_sampler none = (default_sampler, some default_sampler)
