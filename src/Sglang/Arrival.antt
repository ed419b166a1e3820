-- ===== src/Sglang/Arrival.antt =====
-- `make_handle_generate_request_wrapper` of bkvt/integrations/sglang/scheduler_probe.py: the arrival
-- of a request.
use beyond_kvtransfer.Base.{
  ℕ, String, Option, none, some, [], ◌∷◌, if◌then◌else◌, ◌==◌, string_eq, ℤ,
}
use beyond_kvtransfer.Value.{Value, Rec, text, nat}
use beyond_kvtransfer.Py.{Obj, getattr}
use beyond_kvtransfer.Py.Reads.{is_given, value_of}
use beyond_kvtransfer.Weights.{Call}
use beyond_kvtransfer.Weights.Probes.{int_or_null}
use beyond_kvtransfer.Probes.{Env, Action, Original, ◌>>=◌, ◌>>◌, pure, now, emit}
use beyond_kvtransfer.BlockPool.{first_arg}
use beyond_kvtransfer.Scheduler.Arrival.{arrival_state, track}
use beyond_kvtransfer.Sglang.{req_id, input_len, max_output_len}

-- `_req_id(req) or _req_id(result)`
unfoldable pub request_of_call : Obj → Obj → Option String
unfolding req_id
request_of_call req result = elim (req_id req) [
  | none ↦ req_id result
  | some s ↦ if s == "" then req_id result else some s
]

-- the object that the lengths are read from
abbrev pub described : Obj → Obj → Obj
described req result = if is_given req then req else result

unfoldable pub arrival_record : ℕ → String → Option ℤ → Option ℤ → Value → Rec
arrival_record ts request_id input max priority =
    ("ts_ns", nat ts)
    ∷ ("type", text "request")
    ∷ ("subtype", text "arrival")
    ∷ ("request_id", text request_id)
    ∷ ("input_len", int_or_null input)
    ∷ ("output_len_so_far", nat 0)
    ∷ ("max_output_len", int_or_null max)
    ∷ ("priority", priority)
    ∷ ("arrival_ts_ns", nat ts)
    ∷ []

module _ (env : Env) where
  unfoldable pub arrive : Obj → Obj → String → Action Obj
  unfolding now emit track input_len max_output_len arrival_state arrival_record value_of getattr
  arrive req result request_id = do
    ts ← now env
    let input = input_len (described req result)
    let max = max_output_len env.classes (described req result)
    track env request_id (arrival_state ts input max)
    emit env
        (arrival_record ts request_id input max (value_of env.classes (getattr "priority" req)))
    pure result

  -- the probe after the call, which warns of a request without an id
  unfoldable pub generated : Obj → Obj → Action Obj
  unfolding arrive request_of_call
  generated req result p =
      if p.em.enabled
      then elim (request_of_call req result) [
        | none ↦ pure result p
        | some request_id ↦ arrive req result request_id p
      ]
      else pure result p

  -- `make_handle_generate_request_wrapper`
  unfoldable pub handle_generate_request : Call → Original → Action Obj
  unfolding generated first_arg
  handle_generate_request call original = original >>= generated (first_arg "request" call)
