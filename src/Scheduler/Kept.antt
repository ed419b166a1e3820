-- ===== src/Scheduler/Kept.antt =====
-- What the probes of bkvt/integrations/vllm/scheduler_probe.py and runner_probe.py leave alone.
use beyond_kvtransfer.Base.{
  ℕ, ◌+◌, ◌≡◌, refl, String, Bool, true, false, Option, none, some, List, ℤ, if◌then◌else◌,
  string_eq,
}
use beyond_kvtransfer.Base.Dict.{get}
use beyond_kvtransfer.Value.{Rec, nat}
use beyond_kvtransfer.Py.{Obj}
use beyond_kvtransfer.Weights.{Call}
use beyond_kvtransfer.Tracker
use beyond_kvtransfer.Probes.{Process, Env, Original, ◌>>◌, pure, lift, each, now}
use beyond_kvtransfer.Probes.Keeps.{
  Order, Keeps, Keeps-lift, Keeps-bind, Keeps-each, Keeps-when, Keeps-now, Keeps-emit, Keeps-said,
  NoFirsts,
}
use beyond_kvtransfer.Scheduler.{running_ids, waiting_ids, ids_from_first, add_resumed}
use beyond_kvtransfer.Scheduler.Arrival.{
  track, arrive, process_after, process_inputs, arrival_state, request_of_call, max_output_len,
  params_of, input_len, arrival_record,
}
use beyond_kvtransfer.Scheduler.Steps.{
  admit, move, moved_record, Queues, Decision, admitted_of, newly_running, decided, resume_after,
  decision_record, preempted_names, resumed_names, schedule_after, schedule_traced, schedule,
}

module _ (o : Order) (env : Env) where
  pub Keeps-track :
      (request_id : String) (fields : Rec) → NoFirsts fields → Keeps o (track env request_id fields)
  unfolding track
  Keeps-track request_id fields absent = record { kept = λ p. o.merged request_id fields p absent }

  no_firsts : (ts : ℕ) (input max : Option ℤ) → NoFirsts (arrival_state ts input max)
  unfolding arrival_state get
  no_firsts ts input max = (refl, refl)

  Keeps-arrive :
      (call : Call) (result : Obj) (request_id : String)
      → Keeps o (arrive env call result request_id)
  unfolding arrive
  Keeps-arrive call result request_id = Keeps-bind o (now env) _ (Keeps-now o env) (λ ts.
      Keeps-bind o (lift (max_output_len env.classes (params_of call))) _ (Keeps-lift o _) (λ max.
        Keeps-bind o (track env request_id (arrival_state ts (input_len result) max)) _
          (Keeps-track request_id _ (no_firsts ts (input_len result) max))
          (λ u. Keeps-said o env (arrival_record ts request_id (input_len result) max) result)))

  Keeps-process_after :
      (named : Option String) (call : Call) (result : Obj)
      → Keeps o (process_after env named call result)
  unfolding process_after
  Keeps-process_after named call result = record {
    kept = λ p. by_switch p p.em.enabled (request_of_call named call result);
  }
    where
      by_switch :
          (p : Process) (on : Bool) (r : Option String)
          → o.rel p
              (if on
                then elim r as (λ x. Process × Option Obj) [
                  | none ↦ (now env >> pure result) p
                  | some request_id ↦ arrive env call result request_id p
                ]
                else pure result p).0
      by_switch p true none = o.ticked p (p.ticks + 1)
      by_switch p true (some request_id) = (Keeps-arrive call result request_id).kept p
      by_switch p false r = o.same p

  pub Keeps-process_inputs :
      (named : Option String) (call : Call) (original : Original)
      → Keeps o original
      → Keeps o (process_inputs env named call original)
  unfolding process_inputs
  Keeps-process_inputs named call original k =
      Keeps-bind o original (process_after env named call) k (Keeps-process_after named call)

module _ (o : Order) (env : Env) (admits : o.takes "first_schedule_ts_ns" ≡ true) where
  pub Keeps-admit : (ts : ℕ) (request_id : String) → Keeps o (admit env ts request_id)
  unfolding admit
  Keeps-admit ts request_id = record {
    kept = λ p.
        o.chain p (offered p) _ (o.offered request_id "first_schedule_ts_ns" (nat ts) p admits)
          ((Keeps-emit o env _).kept (offered p));
  }
    where
      offered : Process → Process
      offered p = record p {
        states = (Tracker.set_if_absent request_id "first_schedule_ts_ns" (nat ts) p.states).0;
      }

  pub Keeps-move :
      (subtype : String) (ts : ℕ) (request_id : String) → Keeps o (move env subtype ts request_id)
  unfolding move
  Keeps-move subtype ts request_id = Keeps-emit o env (moved_record subtype ts request_id)

  Keeps-decided :
      (ts : ℕ) (scheduler scheduler' result : Obj) (d : Decision)
      → Keeps o (decided env ts scheduler scheduler' result d)
  unfolding decided
  Keeps-decided ts scheduler scheduler' result d =
      Keeps-said o env (decision_record env ts scheduler scheduler' result d) result

  Keeps-resume_after :
      (ts : ℕ) (scheduler scheduler' : Obj) (before : Queues) (result : Obj)
      (admitted preempted : List String)
      → Keeps o (resume_after env ts scheduler scheduler' before result admitted preempted)
  unfolding resume_after
  Keeps-resume_after ts scheduler scheduler' before result admitted preempted =
      Keeps-bind o (lift (ids_from_first resumed_names result)) _ (Keeps-lift o _) (λ listed.
        Keeps-bind o (lift (running_ids scheduler')) _ (Keeps-lift o _) (λ running'.
          Keeps-bind o
            (each (move env "resume" ts)
              (add_resumed (newly_running env before running' admitted) listed))
            _
            (Keeps-each o _ (Keeps-move "resume" ts)
              (add_resumed (newly_running env before running' admitted) listed))
            (λ u.
              Keeps-bind o (lift (waiting_ids scheduler')) _ (Keeps-lift o _)
                (λ waiting'. Keeps-decided ts scheduler scheduler' result _))))

  Keeps-schedule_after :
      (scheduler scheduler' : Obj) (before : Queues) (result : Obj)
      → Keeps o (schedule_after env scheduler scheduler' before result)
  unfolding schedule_after
  Keeps-schedule_after scheduler scheduler' before result =
      Keeps-bind o (now env) _ (Keeps-now o env) (λ ts.
        Keeps-bind o (lift (admitted_of env before.running result)) _ (Keeps-lift o _) (λ admitted.
          Keeps-bind o (each (admit env ts) admitted) _ (Keeps-each o _ (Keeps-admit ts) admitted)
            (λ u.
              Keeps-bind o (lift (ids_from_first preempted_names result)) _ (Keeps-lift o _)
                (λ preempted.
                  Keeps-bind o (each (move env "preempt" ts) preempted) _
                    (Keeps-each o _ (Keeps-move "preempt" ts) preempted)
                    (λ u1.
                      Keeps-resume_after ts scheduler scheduler' before result admitted
                        preempted)))))

  pub Keeps-schedule :
      (scheduler scheduler' : Obj) (original : Original)
      → Keeps o original
      → Keeps o (schedule env scheduler scheduler' original)
  unfolding schedule schedule_traced
  Keeps-schedule scheduler scheduler' original k =
      Keeps-when o original (schedule_traced env scheduler scheduler' original) k (
        Keeps-bind o (lift (running_ids scheduler)) _ (Keeps-lift o _) (λ running.
          Keeps-bind o (lift (waiting_ids scheduler)) _ (Keeps-lift o _) (λ waiting.
            Keeps-bind o original _ k
              (λ result. Keeps-schedule_after scheduler scheduler' _ result))))
