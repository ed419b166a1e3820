-- ===== src/Runner.antt =====
-- The model-runner probes of bkvt/integrations/vllm/runner_probe.py: the token records of a step.
pub mod Tokens
pub mod Kept
use beyond_kvtransfer.Base.{
  ℕ, ◌+◌, String, Bool, true, false, Option, none, some, List, [], ◌∷◌, if◌then◌else◌, ◌==◌,
  string_eq, ℤ, pos, negsuc, ◌+ℤ◌, ◌-ℤ◌, eqb_ℤ,
}
use beyond_kvtransfer.Base.Dict.{get, or_else}
use beyond_kvtransfer.Value.{Value, Rec, Float, text, int, nat}
use beyond_kvtransfer.Sampling.{member}
use beyond_kvtransfer.Emitter.Probe.{add_float}
use beyond_kvtransfer.Clock
use beyond_kvtransfer.Py.{
  Obj, nothing, integer, sequence, mapping, Attrs, no_attrs, attr, Objs, no_objs, getattr, as_int,
  first_attr, or_obj,
}
use beyond_kvtransfer.Py.Reads.{list_of, len_of, is_given, getattr_or}
use beyond_kvtransfer.Weights.{Call, kwarg}
use beyond_kvtransfer.Weights.Probes.{int_or_null}
use beyond_kvtransfer.BlockPool.{kwarg_or}
use beyond_kvtransfer.Probes.{
  Process, Env, Action, Original, ◌>>=◌, ◌>>◌, pure, lift, reading, each, now, emit, sample_token,
  when_enabled,
}
use beyond_kvtransfer.Tracker
use beyond_kvtransfer.Scheduler.{req_id, given, keep_id}
use beyond_kvtransfer.Scheduler.Endings.{output_tokens}

-- `args[0] if args else kwargs.get("scheduler_output", kwargs.get("model_input"))`
unfoldable pub scheduler_output : Call → Obj
unfolding kwarg kwarg_or
scheduler_output call = elim call.args [
  | [] ↦ kwarg_or "scheduler_output" (kwarg "model_input" call) call
  | v ∷ vs ↦ v
]

-- the ids of requests, by their attributes
unfoldable pub request_ids : List Obj → List String
unfolding req_id
request_ids [] = []
request_ids (v ∷ vs) = keep_id (req_id v) (request_ids vs)

abbrev ids_of_list : Option (List Obj) → Option (List String)
ids_of_list none = none
ids_of_list (some vs) = some (request_ids vs)

-- `prefill_ids`: none where the new requests are not iterable
unfoldable pub prefill_ids : Obj → Option (List String)
unfolding first_attr list_of request_ids
prefill_ids output =
    elim (first_attr given ("scheduled_new_reqs" ∷ "new_req_data" ∷ "new_reqs" ∷ []) output) [
      | none ↦ some []
      | some v ↦ ids_of_list (list_of v)
    ]

-- `num_tokens_map`
abbrev attrs_of : Obj → Attrs
attrs_of (mapping attrs) = attrs
attrs_of v = no_attrs

unfoldable pub num_tokens_map : Obj → Attrs
unfolding getattr
num_tokens_map output = attrs_of (getattr "num_scheduled_tokens" output)

-- `num_tokens_map.get(request_id, default)`, as a number that can be added: none where it cannot
unfoldable pub tokens_or : ℤ → String → Attrs → Option ℤ
tokens_or default request_id no_attrs = some default
tokens_or default request_id (attr k v attrs) =
    let rest = tokens_or default request_id attrs in if k == request_id then as_int v else rest

abbrev add_first : Option ℤ → Option ℤ → Option ℤ
add_first none total = none
add_first (some n) none = none
add_first (some n) (some total) = some (n +ℤ total)

-- `sum(num_tokens_map.values())`
unfoldable pub sum_tokens : Attrs → Option ℤ
sum_tokens no_attrs = some (pos 0)
sum_tokens (attr k v attrs) = add_first (as_int v) (sum_tokens attrs)

-- `n_produced`
unfoldable pub produced : String → Attrs → Obj → Option ℤ
unfolding getattr_or len_of tokens_or
produced request_id tokens out =
    let new_tokens =
      getattr_or "output_token_ids"
        (getattr_or "new_token_ids" (getattr_or "token_ids" nothing out) out) out in
    if is_given new_tokens
    then elim (len_of new_tokens) [ none ↦ some (pos 1) | some n ↦ some (pos n) ]
    else tokens_or (pos 1) request_id tokens

-- `x or 1`
abbrev pub or_one : ℤ → ℤ
or_one n = if eqb_ℤ n (pos 0) then pos 1 else n

-- what the probe knows of a step
pub record Step : Type 0 where
  pub step_id : ℕ
  pub t_end : ℕ
  pub kernel_start : Option ℕ
  pub kernel_end : Option ℤ
  pub cuda_event_ts : Option ℤ
  pub prefill : List String
  pub tokens : Attrs

abbrev nat_or_null : Option ℕ → Value
nat_or_null none = int_or_null none
nat_or_null (some n) = nat n

unfoldable pub first_token_record : Step → String → ℤ → ℤ → Rec
first_token_record s request_id prev n =
    ("ts_ns", nat s.t_end)
    ∷ ("type", text "token")
    ∷ ("subtype", text "first_token")
    ∷ ("request_id", text request_id)
    ∷ ("step_id", nat s.step_id)
    ∷ ("token_idx", int prev)
    ∷ ("num_tokens", int n)
    ∷ ("kernel_start_ts_ns", nat_or_null s.kernel_start)
    ∷ ("kernel_end_ts_ns", int_or_null s.kernel_end)
    ∷ ("cuda_event_ts_ns", int_or_null s.cuda_event_ts)
    ∷ []

unfoldable pub token_record : Step → String → String → ℤ → ℤ → ℤ → Option Float → Rec
unfolding add_float
token_record s subtype request_id idx n num_prefill rate = add_float "sample_decision" rate (
    ("ts_ns", nat s.t_end)
    ∷ ("type", text "token")
    ∷ ("subtype", text subtype)
    ∷ ("request_id", text request_id)
    ∷ ("step_id", nat s.step_id)
    ∷ ("token_idx", int idx)
    ∷ ("num_tokens", int n)
    ∷ ("num_prefill_tokens", int num_prefill)
    ∷ ("kernel_start_ts_ns", nat_or_null s.kernel_start)
    ∷ ("kernel_end_ts_ns", int_or_null s.kernel_end)
    ∷ ("cuda_event_ts_ns", int_or_null s.cuda_event_ts)
    ∷ [])

unfoldable pub aggregate_record : Step → ℤ → Option Float → Rec
unfolding add_float
aggregate_record s total rate = add_float "sample_decision" rate (
    ("ts_ns", nat s.t_end)
    ∷ ("type", text "token")
    ∷ ("subtype", text "decode")
    ∷ ("step_id", nat s.step_id)
    ∷ ("token_idx", int (negsuc 0))
    ∷ ("num_tokens", int total)
    ∷ ("kernel_start_ts_ns", nat_or_null s.kernel_start)
    ∷ ("kernel_end_ts_ns", int_or_null s.kernel_end)
    ∷ [])
