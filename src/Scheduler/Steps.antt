-- ===== src/Scheduler/Steps.antt =====
-- `make_schedule_wrapper` of bkvt/integrations/vllm/scheduler_probe.py: the admissions, preemptions and
-- resumptions of a step of the scheduler, and the record of its decision. The scheduler is given as it
-- is before the step and after it.
use beyond_kvtransfer.Base.{ℕ, String, Option, none, some, List, [], ◌∷◌, string_eq, length}
use beyond_kvtransfer.Base.Dict.{get, or_else}
use beyond_kvtransfer.Value.{Value, Rec, text, nat, null, obj, members_of}
use beyond_kvtransfer.Py.{Obj, nothing}
use beyond_kvtransfer.Py.Reads.{getattr_or, value_of}
use beyond_kvtransfer.Probes.{
  Env, Action, Original, ◌>>=◌, ◌>>◌, pure, lift, each, now, emit, when_enabled,
}
use beyond_kvtransfer.Tracker
use beyond_kvtransfer.Tracker.{States}
use beyond_kvtransfer.Scheduler.{
  running_ids, waiting_ids, ids_from_first, admit_cached, add_resumed, without, free_block_count,
  texts,
}

-- `state.get(k)`
unfoldable pub field : String → Rec → Value
field k state = or_else (get k state) null

unfoldable pub admit_record : ℕ → String → Rec → Rec
unfolding field
admit_record ts request_id state =
    ("ts_ns", nat ts)
    ∷ ("type", text "request")
    ∷ ("subtype", text "admit")
    ∷ ("request_id", text request_id)
    ∷ ("arrival_ts_ns", field "arrival_ts_ns" state)
    ∷ ("first_schedule_ts_ns", nat ts)
    ∷ ("input_len", field "input_len" state)
    ∷ []

unfoldable pub moved_record : String → ℕ → String → Rec
moved_record subtype ts request_id =
    ("ts_ns", nat ts)
    ∷ ("type", text "request")
    ∷ ("subtype", text subtype)
    ∷ ("request_id", text request_id)
    ∷ []

-- the queues that the probe counts, before and after the step
pub record Queues : Type 0 where
  pub running : List String
  pub waiting : List String

abbrev pub preempted_names : List String
preempted_names = "preempted_req_ids" ∷ "preempted" ∷ "preempted_reqs" ∷ []

abbrev pub resumed_names : List String
resumed_names = "resumed_req_ids" ∷ "resumed" ∷ "resumed_reqs" ∷ []

-- what the probe found out about a step
pub record Decision : Type 0 where
  pub before : Queues
  pub after : Queues
  pub admitted : List String
  pub preempted : List String
  pub resumed : List String

module _ (env : Env) where
  unfoldable pub decision_record : ℕ → Obj → Obj → Obj → Decision → Rec
  unfolding getattr_or value_of free_block_count
  decision_record ts scheduler scheduler' result d =
      let step_id = getattr_or "step_id" (getattr_or "_step_counter" nothing scheduler) scheduler in
      let num_free = getattr_or "num_free_gpu_blocks" (free_block_count scheduler') result in
      let num_used = getattr_or "num_used_gpu_blocks" nothing result in
      ("ts_ns", nat ts)
      ∷ ("type", text "metadata")
      ∷ ("subtype", text "scheduler_decision")
      ∷ ("step_id", value_of env.classes step_id)
      ∷ (
        "scheduler_inputs",
        obj (
            members_of (
              ("running", nat (length d.before.running))
              ∷ ("waiting", nat (length d.before.waiting))
              ∷ [])),
      )
      ∷ (
        "scheduler_outputs",
        obj (
            members_of (
              ("running", nat (length d.after.running))
              ∷ ("waiting", nat (length d.after.waiting))
              ∷ ("admitted", texts d.admitted)
              ∷ ("preempted", texts d.preempted)
              ∷ ("resumed", texts d.resumed)
              ∷ ("free_blocks", value_of env.classes num_free)
              ∷ ("used_blocks", value_of env.classes num_used)
              ∷ [])),
      )
      ∷ []

  -- one admission: the first time of it is kept
  unfoldable pub admit : ℕ → String → Action (Unit {0})
  unfolding emit
  admit ts request_id p =
      let (states, first) =
        Tracker.set_if_absent request_id "first_schedule_ts_ns" (nat ts) p.states in
      emit env (admit_record ts request_id (Tracker.state_of request_id states))
        (record p { states = states })

  unfoldable pub move : String → ℕ → String → Action (Unit {0})
  unfolding emit
  move subtype ts request_id = emit env (moved_record subtype ts request_id)

  -- the new requests of the result, and the cached ones that are admitted now
  unfoldable pub admitted_of : List String → Obj → Option (List String)
  unfolding ids_from_first admit_cached
  admitted_of running result =
      elim (ids_from_first ("scheduled_new_reqs" ∷ "new_req_data" ∷ "new_reqs" ∷ []) result) [
        | none ↦ none
        | some fresh ↦ elim (ids_from_first ("scheduled_cached_reqs" ∷ "cached_reqs" ∷ []) result) [
          | none ↦ none
          | some cached ↦ some (admit_cached running cached fresh)
        ]
      ]

  -- the requests that now run, and did not before, and are no admissions, in some order
  unfoldable pub newly_running : Queues → List String → List String → List String
  unfolding without
  newly_running before running' admitted =
      env.set_order (without (without running' before.running) admitted)

  unfoldable pub decided : ℕ → Obj → Obj → Obj → Decision → Action Obj
  unfolding emit decision_record
  decided ts scheduler scheduler' result d =
      emit env (decision_record ts scheduler scheduler' result d) >> pure result

  -- the resumptions, and the decision
  unfoldable pub resume_after :
      ℕ → Obj → Obj → Queues → Obj → List String → List String → Action Obj
  unfolding decided each move ids_from_first running_ids waiting_ids newly_running add_resumed
  resume_after ts scheduler scheduler' before result admitted preempted = do
    listed ← lift (ids_from_first resumed_names result)
    running' ← lift (running_ids scheduler')
    let resumed = add_resumed (newly_running before running' admitted) listed
    each (move "resume" ts) resumed
    waiting' ← lift (waiting_ids scheduler')
    decided ts scheduler scheduler' result (record {
      before = before;
      after = record { running = running'; waiting = waiting' };
      admitted = admitted;
      preempted = preempted;
      resumed = resumed;
    })

  -- what follows the step
  unfoldable pub schedule_after : Obj → Obj → Queues → Obj → Action Obj
  unfolding now each admit move admitted_of ids_from_first resume_after
  schedule_after scheduler scheduler' before result = do
    ts ← now env
    admitted ← lift (admitted_of before.running result)
    each (admit ts) admitted
    preempted ← lift (ids_from_first preempted_names result)
    each (move "preempt" ts) preempted
    resume_after ts scheduler scheduler' before result admitted preempted

  -- the snapshot before the step
  unfoldable pub schedule_traced : Obj → Obj → Original → Action Obj
  unfolding running_ids waiting_ids schedule_after
  schedule_traced scheduler scheduler' original = do
    running ← lift (running_ids scheduler)
    waiting ← lift (waiting_ids scheduler)
    result ← original
    schedule_after scheduler scheduler' (record { running = running; waiting = waiting }) result

  -- `make_schedule_wrapper`
  unfoldable pub schedule : Obj → Obj → Original → Action Obj
  unfolding when_enabled schedule_traced
  schedule scheduler scheduler' original =
      when_enabled original (schedule_traced scheduler scheduler' original)
