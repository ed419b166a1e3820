-- ===== src/Scheduler/Endings.antt =====
-- `make_finish_request_wrapper` and `make_abort_request_wrapper` of
-- bkvt/integrations/vllm/scheduler_probe.py. The tracker holds integers and None only.
pub mod Latency
pub mod Forgotten
use beyond_kvtransfer.Base.{
  ℕ, ◌+◌, ◌-◌, ◌/◌, String, Bool, true, false, Option, none, some, List, [], ◌∷◌, if◌then◌else◌,
  string_eq, ℤ, pos, ◌-ℤ◌, leb_ℤ, ltb_ℤ, eqb_ℤ, pos_part, ◌&&◌, not,
}
use beyond_kvtransfer.Base.Dict.{get, or_else}
use beyond_kvtransfer.Value.{Value, Rec, text, int, nat, null}
use beyond_kvtransfer.Text.{codes}
use beyond_kvtransfer.Py.{Obj, nothing, string, getattr}
use beyond_kvtransfer.Py.Reads.{Classes, is_given, is_true}
use beyond_kvtransfer.Weights.{Call, kwarg}
use beyond_kvtransfer.Weights.Probes.{int_or_null}
use beyond_kvtransfer.Probes.{
  Process, Env, Action, Original, ◌>>=◌, ◌>>◌, pure, reading, now, emit, when_enabled,
}
use beyond_kvtransfer.Tracker
use beyond_kvtransfer.Tracker.{States}
use beyond_kvtransfer.Scheduler.{item_id, is_aborting}
use beyond_kvtransfer.Scheduler.Steps.{field}

-- the id of the request that the first argument is or names
unfoldable pub ending_id : Call → Option String
unfolding item_id
ending_id call = elim call.args [ [] ↦ none | v ∷ vs ↦ item_id v ]

-- `str(v)`
unfoldable pub str_of : Classes → Obj → String
str_of classes (string s) = s
str_of classes v = classes.shown v

-- the reason of the first argument, where it is no text, before the keyword `aborted`
unfoldable pub was_aborted : Classes → Call → Bool
unfolding getattr str_of is_aborting kwarg is_true
was_aborted classes call = elim call.args [
  | [] ↦ is_true (kwarg "aborted" call)
  | v ∷ vs ↦
      if is_given (getattr "finish_reason" v)
      then is_aborting (codes (str_of classes (getattr "finish_reason" v)))
      else is_true (kwarg "aborted" call)
]

-- a time that is kept and is not 0
abbrev pub time_value : Option Value → Option ℤ
time_value (some (int n)) = if eqb_ℤ n (pos 0) then none else some n
time_value o = none

unfoldable pub time_of : String → Rec → Option ℤ
time_of k state = time_value (get k state)

-- `state.get("output_tokens_so_far", 0)`
abbrev int_value : Option Value → ℤ
int_value (some (int n)) = n
int_value o = pos 0

unfoldable pub output_tokens : Rec → ℤ
output_tokens state = int_value (get "output_tokens_so_far" state)

-- `ttft_ns`
unfoldable pub ttft_of : Option ℤ → Option ℤ → Option ℤ
ttft_of (some arrival) (some first) = if leb_ℤ arrival first then some (first -ℤ arrival) else none
ttft_of arrival first = none

-- `tpot_ns`: the time after the first token over the tokens after it
unfoldable pub tpot_of : ℕ → Option ℤ → ℤ → Option ℤ
tpot_of ts none tokens = none
tpot_of ts (some first) tokens =
    if ltb_ℤ (pos 1) tokens && ltb_ℤ first (pos ts)
    then some (pos (pos_part (pos ts -ℤ first) / (pos_part tokens - 1)))
    else none

unfoldable pub finish_record : ℕ → Bool → String → Rec → Rec
unfolding time_of output_tokens ttft_of tpot_of field
finish_record ts aborted request_id state =
    let first = time_of "first_token_ts_ns" state in
    ("ts_ns", nat ts)
    ∷ ("type", text "request")
    ∷ ("subtype", text (if aborted then "abort" else "finish"))
    ∷ ("request_id", text request_id)
    ∷ ("arrival_ts_ns", field "arrival_ts_ns" state)
    ∷ ("first_schedule_ts_ns", field "first_schedule_ts_ns" state)
    ∷ ("first_token_ts_ns", field "first_token_ts_ns" state)
    ∷ ("finish_ts_ns", nat ts)
    ∷ ("ttft_ns", int_or_null (ttft_of (time_of "arrival_ts_ns" state) first))
    ∷ ("tpot_ns", int_or_null (tpot_of ts first (output_tokens state)))
    ∷ ("output_len_so_far", int (output_tokens state))
    ∷ []

unfoldable pub abort_record : ℕ → String → Rec → Rec
unfolding field
abort_record ts request_id state =
    ("ts_ns", nat ts)
    ∷ ("type", text "request")
    ∷ ("subtype", text "abort")
    ∷ ("request_id", text request_id)
    ∷ ("arrival_ts_ns", field "arrival_ts_ns" state)
    ∷ ("finish_ts_ns", nat ts)
    ∷ []

module _ (env : Env) where
  -- the state of a request that ends, which is forgotten, and its last record
  unfoldable pub close : (ℕ → Rec → Rec) → String → Action (Unit {0})
  unfolding now emit
  close record_at request_id p =
      let (state, states) = Tracker.pop request_id p.states in
      emit env (record_at (env.clock p.ticks) state)
        (record p { states = states; ticks = p.ticks + 1 })

  abbrev pub close_named : (ℕ → String → Rec → Rec) → Option String → Obj → Action Obj
  close_named record_at none result = pure result
  close_named record_at (some request_id) result =
      close (λ ts. record_at ts request_id) request_id >> pure result

  unfoldable pub finish_after : Call → Obj → Action Obj
  unfolding close ending_id was_aborted finish_record
  finish_after call result =
      close_named (λ ts. finish_record ts (was_aborted env.classes call)) (ending_id call) result

  unfoldable pub abort_after : Call → Obj → Action Obj
  unfolding close ending_id abort_record
  abort_after call result = close_named abort_record (ending_id call) result

  -- `make_finish_request_wrapper`
  unfoldable pub finish_request : Call → Original → Action Obj
  unfolding when_enabled finish_after
  finish_request call original = when_enabled original (original >>= finish_after call)

  -- `make_abort_request_wrapper`
  unfoldable pub abort_request : Call → Original → Action Obj
  unfolding when_enabled abort_after
  abort_request call original = when_enabled original (original >>= abort_after call)
