-- ===== src/Sglang/Finished.antt =====
-- `make_handle_finished_requests_wrapper` of bkvt/integrations/sglang/scheduler_probe.py. The tracker
-- holds integers and None only; a count of tokens that is neither an integer nor None nor false
-- cannot be compared.
use beyond_kvtransfer.Base.{
  ℕ, ◌-◌, ◌/◌, String, Bool, true, false, Option, none, some, List, [], ◌∷◌, ◌++◌, ◌||◌, ◌&&◌,
  if◌then◌else◌, ◌==◌, string_eq, ℤ, pos, ◌-ℤ◌, ltb_ℤ, pos_part,
}
use beyond_kvtransfer.Base.Dict.{get}
use beyond_kvtransfer.Value.{Value, Rec, text, int, nat}
use beyond_kvtransfer.Text.{codes}
use beyond_kvtransfer.Sampling.{member}
use beyond_kvtransfer.Py.{Obj, nothing, integer, getattr}
use beyond_kvtransfer.Py.Reads.{Classes, getattr_or, is_given, is_true, value_of}
use beyond_kvtransfer.Weights.{Call, kwarg}
use beyond_kvtransfer.Weights.Probes.{int_or_null}
use beyond_kvtransfer.Probes.{
  Env, Action, Original, ◌>>=◌, ◌>>◌, pure, lift, each, now, emit, when_enabled,
}
use beyond_kvtransfer.Tracker
use beyond_kvtransfer.Scheduler.{is_aborting}
use beyond_kvtransfer.Scheduler.Steps.{field}
use beyond_kvtransfer.Scheduler.Endings.{str_of, time_of, ttft_of}
use beyond_kvtransfer.Sglang.{as_list, req_id}

-- the requests that the arguments name
unfoldable pub named_candidates : Call → List Obj
unfolding as_list kwarg
named_candidates call =
    elim call.args [ [] ↦ [] | v ∷ vs ↦ as_list v ]
    ++ as_list (kwarg "finished_reqs" call)
    ++ as_list (kwarg "finished_requests" call)
    ++ as_list (kwarg "reqs" call)

abbrev pub candidates_or : List Obj → Obj → List Obj
candidates_or [] result =
    as_list (getattr "finished_reqs" result) ++ as_list (getattr "finished_requests" result)
candidates_or (v ∷ vs) result = v ∷ vs

-- the candidates, which the result gives where the arguments name none
unfoldable pub candidates : Call → Obj → List Obj
unfolding named_candidates as_list getattr
candidates call result = candidates_or (named_candidates call) result

-- the requests that have an id that was not seen before
unfoldable pub unseen : List String → List Obj → List (String × Obj)
unfolding req_id member
unseen seen [] = []
unseen seen (req ∷ reqs) = elim (req_id req) [
  | none ↦ unseen seen reqs
  | some rid ↦ elim (rid == "" || member rid seen) [
    | true ↦ unseen seen reqs
    | false ↦ (rid, req) ∷ unseen (rid ∷ seen) reqs
  ]
]

unfoldable pub was_aborted : Classes → Obj → Bool
unfolding getattr is_true str_of is_aborting
was_aborted classes req =
    let reason = getattr "finish_reason" req in
    is_true (getattr "aborted" req)
    || (is_given reason && is_aborting (codes (str_of classes reason)))

-- `state.get("output_tokens_so_far", 0)`
abbrev kept_tokens : Option Value → Obj
kept_tokens none = integer (pos 0)
kept_tokens (some (int n)) = integer n
kept_tokens (some v) = nothing

unfoldable pub output_tokens : Obj → Rec → Obj
unfolding getattr getattr_or
output_tokens req state =
    let completion = getattr "completion_tokens" req in
    if is_given completion
    then completion
    else getattr_or "output_len" (kept_tokens (get "output_tokens_so_far" state)) req

-- `tpot_ns` of a number of tokens: the time after the first token over the tokens after it
unfoldable pub tpot_over : ℕ → ℤ → ℤ → Option ℤ
tpot_over ts first tokens =
    if ltb_ℤ (pos 1) tokens && ltb_ℤ first (pos ts)
    then some (pos (pos_part (pos ts -ℤ first) / (pos_part tokens - 1)))
    else none

abbrev tpot_counted : ℕ → ℤ → Obj → Option (Option ℤ)
tpot_counted ts first (integer n) = some (tpot_over ts first n)
tpot_counted ts first v = if is_true v then none else some none

-- `tpot_ns`: none where the tokens cannot be compared
unfoldable pub tpot_of : ℕ → Option ℤ → Obj → Option (Option ℤ)
unfolding is_true tpot_over
tpot_of ts none tokens = some none
tpot_of ts (some first) tokens = tpot_counted ts first tokens

unfoldable pub final_record : Classes → ℕ → String → Obj → Rec → Option ℤ → Rec
unfolding was_aborted field time_of ttft_of output_tokens value_of
final_record classes ts rid req state tpot =
    ("ts_ns", nat ts)
    ∷ ("type", text "request")
    ∷ ("subtype", text (if was_aborted classes req then "abort" else "finish"))
    ∷ ("request_id", text rid)
    ∷ ("arrival_ts_ns", field "arrival_ts_ns" state)
    ∷ ("first_schedule_ts_ns", field "first_schedule_ts_ns" state)
    ∷ ("first_token_ts_ns", field "first_token_ts_ns" state)
    ∷ ("finish_ts_ns", nat ts)
    ∷ (
      "ttft_ns",
      int_or_null (ttft_of (time_of "arrival_ts_ns" state) (time_of "first_token_ts_ns" state)),
    )
    ∷ ("tpot_ns", int_or_null tpot)
    ∷ ("output_len_so_far", value_of classes (output_tokens req state))
    ∷ []

-- the last record of a request: none where it cannot be built
unfoldable pub finish_record : Classes → ℕ → String → Obj → Rec → Option Rec
unfolding tpot_of time_of output_tokens final_record
finish_record classes ts rid req state =
    elim (tpot_of ts (time_of "first_token_ts_ns" state) (output_tokens req state)) [
      | none ↦ none
      | some tpot ↦ some (final_record classes ts rid req state tpot)
    ]

module _ (env : Env) where
  -- one request: its state is forgotten first
  unfoldable pub finish : ℕ → String × Obj → Action (Unit {0})
  unfolding finish_record emit
  finish ts (rid, req) p =
      let (state, states) = Tracker.pop rid p.states in
      (lift (finish_record env.classes ts rid req state) >>= emit env)
        (record p { states = states })

  unfoldable pub finished_after : Call → Obj → Action Obj
  unfolding now each finish unseen candidates
  finished_after call result = do
    ts ← now env
    each (finish ts) (unseen [] (candidates call result))
    pure result

  -- `make_handle_finished_requests_wrapper`
  unfoldable pub handle_finished_requests : Call → Original → Action Obj
  unfolding when_enabled finished_after
  handle_finished_requests call original = when_enabled original (original >>= finished_after call)
