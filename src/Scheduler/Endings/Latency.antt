-- ===== src/Scheduler/Endings/Latency.antt =====
-- The latencies that the last record of a request carries, in
-- bkvt/integrations/vllm/scheduler_probe.py.
use native.Mathlib.Nat.{div-mul-le_self, div-add-mod', mod-lt}
use beyond_kvtransfer.Base.{
  ℕ, ◌+◌, ◌*◌, ◌-◌, ◌/◌, ◌≤◌, ◌<◌, ◌≡◌, refl, String, Bool, true, Option, none, some, string_eq, ℤ,
  pos, ◌+ℤ◌, ◌-ℤ◌, leb_ℤ, pos_part, arith,
}
use beyond_kvtransfer.Base.Dict.{get}
use beyond_kvtransfer.Value.{Value, Rec, int, null, text, float, obj, bool, arr}
use beyond_kvtransfer.Weights.Probes.{int_or_null}
use beyond_kvtransfer.Scheduler.Endings.{
  time_of, time_value, output_tokens, ttft_of, tpot_of, finish_record,
}

-- a time to first token leads from the arrival to the first token, and is not negative
ttft_of_lem :
    (arrival first : Option ℤ) (n : ℤ)
    → ttft_of arrival first ≡ some n
    → (a : ℤ) × (f : ℤ) × (arrival ≡ some a)
      × (first ≡ some f)
      × (a +ℤ n ≡ f)
      × (leb_ℤ (pos 0) n ≡ true)
unfolding ttft_of ◌-ℤ◌ ◌+ℤ◌
ttft_of_lem none first n e = cc
ttft_of_lem (some a) none n e = cc
ttft_of_lem (some a) (some f) n e = (a, f, refl, refl, ground arith, ground arith)

-- a time per output token is the time since the first token over the tokens after it, rounded down
tpot_of_lem :
    (ts : ℕ) (first : Option ℤ) (tokens n : ℤ)
    → tpot_of ts first tokens ≡ some n
    → (f : ℤ) × (span : ℕ) × (d : ℕ) × (k : ℕ) × (first ≡ some f)
      × (f +ℤ pos span ≡ pos ts)
      × (tokens ≡ pos (d + 1))
      × (n ≡ pos k)
      × (k * d ≤ span)
      × (span < k * d + d)
unfolding tpot_of ◌-ℤ◌ ◌+ℤ◌
tpot_of_lem ts none tokens n e = cc
tpot_of_lem ts (some f) tokens n e =
    let d = pos_part tokens - 1 in
    let span = pos_part (pos ts -ℤ f) in
    let low = div-mul-le_self span d in
    let whole = div-add-mod' span d in
    let positive : 0 < d = ground arith in
    let small = mod-lt span positive in
    (
      f,
      span,
      d,
      span / d,
      refl,
      ground arith,
      ground arith,
      ground arith,
      low,
      omega (arith, whole, small),
    )

int_or_null-int : (o : Option ℤ) (n : ℤ) → ◌≡◌ {A = Value} (int_or_null o) (int n) → o ≡ some n
int_or_null-int none n e = cc
int_or_null-int (some m) n e = cc

some-eq : {a b : Value} → some a ≡ some b → a ≡ b
some-eq e = cc

time_value-some : (o : Option Value) (n : ℤ) → time_value o ≡ some n → o ≡ some (int n)
time_value-some none n e = cc
time_value-some (some (int m)) n e = ground arith
time_value-some (some (text s)) n e = cc
time_value-some (some (float x)) n e = cc
time_value-some (some (obj x)) n e = cc
time_value-some (some (bool b)) n e = cc
time_value-some (some (arr x)) n e = cc
time_value-some (some null) n e = cc

module _ (ts : ℕ) (aborted : Bool) (request_id : String) (state : Rec) where
  -- A time to first token in the last record of a request is the time from the arrival to the first
  -- token that the tracker knew, and is not negative. A time per output token in it is, rounded
  -- down, the time from that first token to the end, over the tokens after the first, of which
  -- there is one at least.
  pub finish-latencies :
      (n : ℤ)
      → (get "ttft_ns" (finish_record ts aborted request_id state) ≡ some (int n)
          → (a : ℤ) × (f : ℤ) × (get "arrival_ts_ns" state ≡ some (int a))
            × (get "first_token_ts_ns" state ≡ some (int f))
            × (a +ℤ n ≡ f)
            × (leb_ℤ (pos 0) n ≡ true))
        × (get "tpot_ns" (finish_record ts aborted request_id state) ≡ some (int n)
            → (f : ℤ) × (span : ℕ) × (d : ℕ) × (k : ℕ) × (get "first_token_ts_ns" state
                ≡ some (int f))
              × (f +ℤ pos span ≡ pos ts)
              × (output_tokens state ≡ pos (d + 1))
              × (n ≡ pos k)
              × (k * d ≤ span)
              × (span < k * d + d))
  unfolding finish_record get time_of
  finish-latencies n = (
    λ e.
        let ttft = int_or_null-int _ n (some-eq e) in
        let (a, f, arrival, first, sum, sign) = ttft_of_lem _ _ n ttft in
        (a, f, time_value-some _ a arrival, time_value-some _ f first, sum, sign),
    λ e.
        let tpot = int_or_null-int _ n (some-eq e) in
        let (f, span, d, k, first, whole, tokens, same, low, high) = tpot_of_lem ts _ _ n tpot in
        (f, span, d, k, time_value-some _ f first, whole, tokens, same, low, high),
  )
