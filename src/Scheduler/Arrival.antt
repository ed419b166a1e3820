-- ===== src/Scheduler/Arrival.antt =====
-- `make_process_inputs_wrapper` of bkvt/integrations/vllm/scheduler_probe.py: the arrival of a request.
use beyond_kvtransfer.Base.{
  ℕ, String, Option, none, some, List, [], ◌∷◌, if◌then◌else◌, string_eq, ℤ, pos,
}
use beyond_kvtransfer.Value.{Rec, text, nat}
use beyond_kvtransfer.Py.{Obj, nothing, as_text, first_attr, or_obj}
use beyond_kvtransfer.Py.Reads.{Classes, int_of, len_of}
use beyond_kvtransfer.Weights.{Call, kwarg}
use beyond_kvtransfer.Weights.Probes.{int_or_null}
use beyond_kvtransfer.Probes.{Env, Action, Original, ◌>>=◌, ◌>>◌, pure, lift, reading, now, emit}
use beyond_kvtransfer.Tracker
use beyond_kvtransfer.Scheduler.{req_id, given}

abbrev pub head_of : List Obj → Obj
head_of [] = nothing
head_of (v ∷ vs) = v

abbrev pub third_of : List Obj → Obj
third_of (a ∷ b ∷ c ∷ vs) = c
third_of vs = nothing

-- the request id, from the keyword, which is a text or None, the first argument or the result
unfoldable pub request_of_call : Option String → Call → Obj → Option String
unfolding req_id
request_of_call (some s) call result = some s
request_of_call none call result = elim (as_text (head_of call.args)) [
  | some s ↦ some s
  | none ↦ req_id result
]

-- `input_len`
unfoldable pub input_len : Obj → Option ℤ
unfolding first_attr len_of
input_len result =
    elim (first_attr given ("prompt_token_ids" ∷ "input_tokens" ∷ "token_ids" ∷ []) result) [
      | none ↦ none
      | some tok ↦ elim (len_of tok) [ none ↦ none | some n ↦ some (pos n) ]
    ]

-- `kwargs.get("params") or (args[2] if len(args) > 2 else None)`
unfoldable pub params_of : Call → Obj
unfolding or_obj kwarg
params_of call = or_obj (kwarg "params" call) (third_of call.args)

-- `max_output_len`: none where `int` raises
unfoldable pub max_output_len : Classes → Obj → Option (Option ℤ)
unfolding first_attr int_of
max_output_len classes params =
    elim (first_attr given ("max_tokens" ∷ "max_new_tokens" ∷ "n" ∷ []) params) [
      | none ↦ some none
      | some v ↦ elim (int_of classes v) [ none ↦ none | some n ↦ some (some n) ]
    ]

-- the fields that the tracker keeps of an arrival
unfoldable pub arrival_state : ℕ → Option ℤ → Option ℤ → Rec
arrival_state ts input max =
    ("arrival_ts_ns", nat ts)
    ∷ ("input_len", int_or_null input)
    ∷ ("max_output_len", int_or_null max)
    ∷ []

unfoldable pub arrival_record : ℕ → String → Option ℤ → Option ℤ → Rec
arrival_record ts request_id input max =
    ("ts_ns", nat ts)
    ∷ ("type", text "request")
    ∷ ("subtype", text "arrival")
    ∷ ("request_id", text request_id)
    ∷ ("input_len", int_or_null input)
    ∷ ("output_len_so_far", nat 0)
    ∷ ("max_output_len", int_or_null max)
    ∷ ("arrival_ts_ns", nat ts)
    ∷ []

module _ (env : Env) where
  -- `_tracker.update(request_id, …)`
  unfoldable pub track : String → Rec → Action (Unit {0})
  track request_id fields =
      reading (λ p. record p { states = Tracker.update request_id fields p.states })

  unfoldable pub arrive : Call → Obj → String → Action Obj
  unfolding now emit track input_len max_output_len params_of arrival_state arrival_record
  arrive call result request_id = do
    ts ← now env
    max ← lift (max_output_len env.classes (params_of call))
    track request_id (arrival_state ts (input_len result) max)
    emit env (arrival_record ts request_id (input_len result) max)
    pure result

  -- the probe after the call, which warns of a request without an id
  unfoldable pub process_after : Option String → Call → Obj → Action Obj
  unfolding arrive now request_of_call
  process_after named call result p =
      if p.em.enabled
      then elim (request_of_call named call result) [
        | none ↦ (now env >> pure result) p
        | some request_id ↦ arrive call result request_id p
      ]
      else pure result p

  -- `make_process_inputs_wrapper`
  unfoldable pub process_inputs : Option String → Call → Original → Action Obj
  unfolding process_after
  process_inputs named call original = original >>= process_after named call
