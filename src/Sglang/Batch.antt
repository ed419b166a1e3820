-- ===== src/Sglang/Batch.antt =====
-- `make_run_batch_wrapper` of bkvt/integrations/sglang/scheduler_probe.py. The scheduler is given as
-- it is before the batch and after it.
use beyond_kvtransfer.Base.{ℕ, String, List, [], ◌∷◌, string_eq, length}
use beyond_kvtransfer.Value.{Rec, text, nat, obj, members_of}
use beyond_kvtransfer.Py.{Obj, nothing, getattr}
use beyond_kvtransfer.Py.Reads.{getattr_or, value_of}
use beyond_kvtransfer.Probes.{
  Env, Action, Original, ◌>>=◌, ◌>>◌, pure, each, now, emit, when_enabled,
}
use beyond_kvtransfer.Scheduler.{without, texts}
use beyond_kvtransfer.Scheduler.Steps.{Queues, Decision, admit, move}
use beyond_kvtransfer.Sglang.{
  running_ids, waiting_ids, ids_from_first, sorted, scheduler_size, called_size,
}

unfoldable pub queues_of : Obj → Queues
unfolding running_ids waiting_ids
queues_of scheduler = record { running = running_ids scheduler; waiting = waiting_ids scheduler }

-- the requests that are listed, or those that a difference of states shows
unfoldable pub listed_or : List String → List String → List String
unfolding sorted
listed_or [] shown = sorted shown
listed_or (s ∷ ids) shown = s ∷ ids

-- what the result and the two states of the scheduler show
unfoldable pub decision_of : Queues → Queues → Obj → Decision
unfolding listed_or ids_from_first without
decision_of before after result =
    let admitted =
      listed_or
        (ids_from_first ("new_reqs" ∷ "can_run_list" ∷ "admitted_reqs" ∷ "scheduled_reqs" ∷ [])
          result)
        (without after.running before.running) in
    record {
      before = before;
      after = after;
      admitted = admitted;
      preempted =
          listed_or
            (ids_from_first ("preempted_reqs" ∷ "preempted_req_ids" ∷ "retracted_reqs" ∷ []) result)
            (without (without before.running after.running) admitted);
      resumed = ids_from_first ("resumed_reqs" ∷ "resumed_req_ids" ∷ []) result;
    }

module _ (env : Env) where
  unfoldable pub decision_record : ℕ → Obj → Obj → Decision → Rec
  unfolding getattr getattr_or value_of scheduler_size called_size
  decision_record ts scheduler scheduler' d =
      let step_id = getattr_or "step_id" (getattr_or "forward_ct" nothing scheduler) scheduler in
      let pool = getattr "token_to_kv_pool" scheduler' in
      let queued = scheduler_size (getattr "waiting_queue" scheduler') in
      ("ts_ns", nat ts)
      ∷ ("type", text "metadata")
      ∷ ("subtype", text "scheduler_decision")
      ∷ ("step_id", value_of env.classes step_id)
      ∷ (
        "scheduler_inputs",
        obj (
            members_of (
              ("running", nat (length d.before.running))
              ∷ ("waiting", nat (length d.before.waiting))
              ∷ [])),
      )
      ∷ (
        "scheduler_outputs",
        obj (
            members_of (
              ("running", nat (length d.after.running))
              ∷ ("waiting", nat (length d.after.waiting))
              ∷ ("admitted", texts d.admitted)
              ∷ ("preempted", texts d.preempted)
              ∷ ("resumed", texts d.resumed)
              ∷ ("free_blocks", value_of env.classes (called_size (getattr "available_size" pool)))
              ∷ ("waiting_queue_size", value_of env.classes queued)
              ∷ [])),
      )
      ∷ []

  -- the records of a batch
  unfoldable pub report : ℕ → Obj → Obj → Obj → Decision → Action Obj
  unfolding each admit move emit decision_record
  report ts scheduler scheduler' result d = do
    each (admit env ts) d.admitted
    each (move env "preempt" ts) d.preempted
    each (move env "resume" ts) d.resumed
    emit env (decision_record ts scheduler scheduler' d)
    pure result

  unfoldable pub batch_after : Obj → Obj → Obj → Action Obj
  unfolding now report decision_of queues_of
  batch_after scheduler scheduler' result = do
    ts ← now env
    report ts scheduler scheduler' result
        (decision_of (queues_of scheduler) (queues_of scheduler') result)

  -- `make_run_batch_wrapper`
  unfoldable pub run_batch : Obj → Obj → Original → Action Obj
  unfolding when_enabled batch_after
  run_batch scheduler scheduler' original =
      when_enabled original (original >>= batch_after scheduler scheduler')
