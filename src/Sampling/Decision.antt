-- ===== src/Sampling/Decision.antt =====
-- What `should_emit` of bkvt/sampling.py decides.
use beyond_kvtransfer.Base.{String, true, false, Option, none, some, string_eq, ◌≡◌, refl, arith}
use beyond_kvtransfer.Value.{Float, float_one, float_le, float_lt}
use beyond_kvtransfer.Sampling.{Sampler, rate_for, decide_rate, should_emit}

-- the types and subtypes that the module's documentation calls always on
pub data IsAlwaysOn (record_type subtype : String) : Type 0 where
  request : record_type ≡ "request" → IsAlwaysOn record_type subtype
  sys_counter : record_type ≡ "sys_counter" → IsAlwaysOn record_type subtype
  first_token : record_type ≡ "token" → subtype ≡ "first_token" → IsAlwaysOn record_type subtype
  clock_anchor :
      record_type ≡ "metadata" → subtype ≡ "clock_anchor" → IsAlwaysOn record_type subtype
  scheduler_decision :
      record_type ≡ "metadata" → subtype ≡ "scheduler_decision" → IsAlwaysOn record_type subtype

-- An event that is always on is emitted with no rate, whatever the rates and the draw.
pub should_emit_always_on :
    (s : Sampler) (record_type subtype : String) (draw : Float)
    → IsAlwaysOn record_type subtype
    → should_emit s record_type subtype draw ≡ (true, none)
unfolding should_emit
should_emit_always_on s t u draw (request e) = rw e
should_emit_always_on s t u draw (sys_counter e) = rw e
should_emit_always_on s t u draw (first_token e f) = rw (e, f)
should_emit_always_on s t u draw (clock_anchor e f) = rw (e, f)
should_emit_always_on s t u draw (scheduler_decision e f) = rw (e, f)

suppressed_by :
    (o : Option Float) (draw : Float)
    → (decide_rate o draw).0 ≡ false
    → (rate : Float) × (decide_rate o draw ≡ (false, some rate))
      × (o ≡ some rate)
      × (float_le float_one rate ≡ false)
      × (float_lt draw rate ≡ false)
unfolding decide_rate
suppressed_by none draw h = ground arith
suppressed_by (some r) draw h = (r, ground arith, refl, ground arith, ground arith)

-- A record is suppressed only by a rate below one, reported to the caller, at a draw not below it.
pub should_emit_suppressed :
    (s : Sampler) (record_type subtype : String) (draw : Float)
    → (should_emit s record_type subtype draw).0 ≡ false
    → (rate : Float) × (should_emit s record_type subtype draw ≡ (false, some rate))
      × (rate_for s record_type subtype ≡ some rate)
      × (float_le float_one rate ≡ false)
      × (float_lt draw rate ≡ false)
unfolding should_emit
should_emit_suppressed s t u draw h = suppressed_by (rate_for s t u) draw h
