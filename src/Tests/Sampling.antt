-- ===== src/Tests/Sampling.antt =====
-- Tests of bkvt/sampling.py.
use beyond_kvtransfer.Base.{◌≡◌, refl, true, false, none, some, pos, ◌^◌}
use beyond_kvtransfer.Value.{Float, finite, float_one, float_le, float_lt}
use beyond_kvtransfer.Sampling.{should_emit, rate_for, default_sampler}
use beyond_kvtransfer.Sampling.Decision.{
  clock_anchor, should_emit_always_on, should_emit_suppressed,
}

-- 0.5
abbrev half : Float
half = finite (pos (2 ^ 1073))

-- tests/unit/test_sampling.py: a decode record at the default rate
decode_skipped : (should_emit default_sampler "token" "decode" half).0 ≡ false
unfolding should_emit default_sampler float_one float_le float_lt
decode_skipped = refl

kv_block_kept : should_emit default_sampler "kv_block" "free" half ≡ (true, none)
unfolding should_emit default_sampler float_one float_le float_lt
kv_block_kept = refl

should_emit_always_on_example :
    should_emit default_sampler "metadata" "clock_anchor" half ≡ (true, none)
should_emit_always_on_example =
    should_emit_always_on default_sampler "metadata" "clock_anchor" half (clock_anchor refl refl)

should_emit_suppressed_example :
    (rate : Float) × (should_emit default_sampler "token" "decode" half ≡ (false, some rate))
    × (rate_for default_sampler "token" "decode" ≡ some rate)
    × (float_le float_one rate ≡ false)
    × (float_lt half rate ≡ false)
should_emit_suppressed_example =
    should_emit_suppressed default_sampler "token" "decode" half decode_skipped
