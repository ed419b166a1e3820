-- ===== src/Runner/Tokens.antt =====
-- The wrappers of bkvt/integrations/vllm/runner_probe.py.
use beyond_kvtransfer.Base.{
  ℕ, ◌+◌, String, Bool, Option, none, some, List, [], ◌∷◌, if◌then◌else◌, string_eq, ℤ, pos, negsuc,
  ◌+ℤ◌, ◌-ℤ◌,
}
use beyond_kvtransfer.Value.{Rec, Float, text, int, nat}
use beyond_kvtransfer.Sampling.{member}
use beyond_kvtransfer.Clock
use beyond_kvtransfer.Py.{Obj, nothing, sequence, tuple, no_attrs, attr, no_objs, getattr, or_obj}
use beyond_kvtransfer.Py.Reads.{list_of}
use beyond_kvtransfer.Weights.{Call}
use beyond_kvtransfer.Probes.{
  Env, Action, Original, ◌>>=◌, ◌>>◌, pure, lift, each, now, emit, sample_token, when_enabled,
}
use beyond_kvtransfer.Tracker
use beyond_kvtransfer.Scheduler.{req_id}
use beyond_kvtransfer.Scheduler.Arrival.{track}
use beyond_kvtransfer.Scheduler.Endings.{output_tokens}
use beyond_kvtransfer.Runner.{
  Step, scheduler_output, prefill_ids, num_tokens_map, tokens_or, sum_tokens, produced,
  first_token_record, token_record, aggregate_record, or_one,
}

-- `_next_step_id`
unfoldable pub next_step_id : Action ℕ
next_step_id p = (record p { steps = p.steps + 1 }, some p.steps)

-- how many output tokens of a request are counted
unfoldable pub counted : String → Action ℤ
unfolding output_tokens
counted request_id p = (p, some (output_tokens (Tracker.state_of request_id p.states)))

-- `tracker.set_if_absent(request_id, "first_token_ts_ns", ts)`
unfoldable pub mark_first : String → ℕ → Action Bool
mark_first request_id ts p =
    let (states, first) = Tracker.set_if_absent request_id "first_token_ts_ns" (nat ts) p.states in
    (record p { states = states }, some first)

-- whether a request is prefilled in the step
abbrev pub subtype_of : Step → String → String
subtype_of s request_id = if member request_id s.prefill then "prefill_chunk" else "decode"

module _ (env : Env) where
  -- a reading of the time between the two CUDA events
  unfoldable pub measure : Action (Option ℤ)
  measure p = (record p { ticks = p.ticks + 1 }, some (env.elapsed p.ticks))

  -- a token record that is sampled
  unfoldable pub emit_token : Step → String → ℤ → Option Float → Action (Unit {0})
  unfolding emit counted member tokens_or token_record
  emit_token s request_id n rate = do
    scheduled ← lift (tokens_or (pos 0) request_id s.tokens)
    so_far ← counted request_id
    emit env (
        token_record s (subtype_of s request_id) request_id (scheduled +ℤ so_far -ℤ n) n
          (if member request_id s.prefill then scheduled else pos 0) rate)

  unfoldable pub later_token : Step → String → ℤ → Action (Unit {0})
  unfolding sample_token emit_token
  later_token s request_id n = do
    (sampled, rate) ← sample_token env (subtype_of s request_id)
    if sampled then emit_token s request_id n rate else pure tt

  -- one output of the model: the first token of a request always gives a record
  unfoldable pub token : Step → String → Obj → Action (Unit {0})
  unfolding counted produced mark_first emit later_token first_token_record track
  token s request_id out = do
    n ← lift (produced request_id s.tokens out)
    prev ← counted request_id
    track env request_id (("output_tokens_so_far", int (prev +ℤ n)) ∷ [])
    first ← mark_first request_id s.t_end
    if first then emit env (first_token_record s request_id prev n) else later_token s request_id n

  unfoldable pub output : Step → Obj → Action (Unit {0})
  unfolding req_id token
  output s out = elim (req_id out) [ none ↦ pure tt | some request_id ↦ token s request_id out ]

  -- the fallback: one record for the whole step
  unfoldable pub emit_aggregate : Step → ℤ → Bool → Option Float → Action (Unit {0})
  unfolding emit aggregate_record
  emit_aggregate s total sampled rate = elim s.tokens [
    | no_attrs ↦ pure tt
    | attr k v tokens ↦
        if sampled then emit env (aggregate_record s (or_one total) rate) else pure tt
  ]

  unfoldable pub aggregate : Step → Action (Unit {0})
  unfolding sum_tokens sample_token emit_aggregate
  aggregate s = do
    total ← lift (sum_tokens s.tokens)
    (sampled, rate) ← sample_token env "decode"
    emit_aggregate s total sampled rate

  unfoldable pub outputs : Step → Obj → Action (Unit {0})
  unfolding aggregate each output list_of
  outputs s nothing = aggregate s
  outputs s v = lift (list_of v) >>= each (output s)

  -- the readings of the timer around the call, with what the scheduler's output tells
  unfoldable pub step_at : Obj → ℕ → ℕ → ℕ → Option ℤ → Option ℤ → List String → Step
  unfolding num_tokens_map Clock.new Clock.record_start Clock.start_ns Clock.end_ns
      Clock.cuda_event_ts_ns
  step_at given step_id started t_end first second prefill =
      let timer = Clock.record_start started (Clock.new env.cuda) in
      record {
        step_id = step_id;
        t_end = t_end;
        kernel_start = Clock.start_ns timer;
        kernel_end = Clock.end_ns first timer;
        cuda_event_ts = Clock.cuda_event_ts_ns second timer;
        prefill = prefill;
        tokens = num_tokens_map given;
      }

  unfoldable pub emit_step : Step → Obj → Action Obj
  unfolding outputs getattr
  emit_step s result = outputs s (getattr "outputs" result) >> pure result

  -- `make_execute_model_wrapper`
  unfoldable pub execute_traced : Call → Original → Action Obj
  unfolding next_step_id now measure scheduler_output prefill_ids step_at emit_step
  execute_traced call original = do
    step_id ← next_step_id
    started ← now env
    result ← original
    t_end ← now env
    first ← measure
    second ← measure
    prefill ← lift (prefill_ids (scheduler_output call))
    emit_step (step_at (scheduler_output call) step_id started t_end first second prefill) result

  unfoldable pub execute_model : Call → Original → Action Obj
  unfolding when_enabled execute_traced
  execute_model call original = when_enabled original (execute_traced call original)

  unfoldable pub late_first_record : ℕ → String → Rec
  late_first_record ts request_id =
      ("ts_ns", nat ts)
      ∷ ("type", text "token")
      ∷ ("subtype", text "first_token")
      ∷ ("request_id", text request_id)
      ∷ ("step_id", int (negsuc 0))
      ∷ ("token_idx", nat 0)
      ∷ ("num_tokens", nat 1)
      ∷ []

  -- a first token that the runner's wrapper missed
  unfoldable pub late_first : ℕ → Obj → Action (Unit {0})
  unfolding req_id mark_first emit
  late_first ts out = elim (req_id out) [
    | none ↦ pure tt
    | some request_id ↦ do
      first ← mark_first request_id ts
      if first then emit env (late_first_record ts request_id) else pure tt
  ]

  abbrev pub outputs_of : Obj → Obj
  outputs_of (sequence vs) = sequence vs
  outputs_of (tuple vs) = tuple vs
  outputs_of v = or_obj (getattr "outputs" v) (sequence no_objs)

  unfoldable pub late_firsts : Obj → Action Obj
  unfolding now each late_first list_of or_obj getattr
  late_firsts result = do
    ts ← now env
    outs ← lift (list_of (outputs_of result))
    each (late_first ts) outs
    pure result

  unfoldable pub first_token_after : Obj → Action Obj
  unfolding late_firsts
  first_token_after result p = if p.em.enabled then late_firsts result p else pure result p

  -- `make_output_processor_first_token_wrapper`
  unfoldable pub process_outputs : Original → Action Obj
  unfolding first_token_after
  process_outputs original = original >>= first_token_after
