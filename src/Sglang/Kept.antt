-- ===== src/Sglang/Kept.antt =====
-- What the probes of bkvt/integrations/sglang/scheduler_probe.py leave alone, over their runs.
use beyond_kvtransfer.Base.{
  ℕ, ◌≡◌, refl, String, Bool, true, false, Option, none, some, List, [], ◌∷◌, if◌then◌else◌,
  string_eq,
}
use beyond_kvtransfer.Base.Dict.{get}
use beyond_kvtransfer.Py.{Obj, getattr}
use beyond_kvtransfer.Py.Reads.{value_of}
use beyond_kvtransfer.Weights.{Call}
use beyond_kvtransfer.Tracker
use beyond_kvtransfer.Probes.{Process, Env, Original, ◌>>◌, pure, lift, each, now, emit}
use beyond_kvtransfer.Probes.Keeps.{
  Order, Keeps, Keeps-pure, Keeps-lift, Keeps-bind, Keeps-each, Keeps-when, Keeps-now, Keeps-emit,
  Keeps-said,
}
use beyond_kvtransfer.BlockPool.{first_arg}
use beyond_kvtransfer.Scheduler.Arrival.{track, arrival_state}
use beyond_kvtransfer.Scheduler.Steps.{Decision, admit, move}
use beyond_kvtransfer.Scheduler.Kept.{Keeps-track, Keeps-admit, Keeps-move}
use beyond_kvtransfer.Sglang.{input_len, max_output_len}
use beyond_kvtransfer.Sglang.Arrival.{
  described, request_of_call, arrival_record, arrive, generated, handle_generate_request,
}
use beyond_kvtransfer.Sglang.Batch.{
  queues_of, decision_of, decision_record, report, batch_after, run_batch,
}
use beyond_kvtransfer.Sglang.Finished.{
  unseen, candidates, finish_record, finish, finished_after, handle_finished_requests,
}
use beyond_kvtransfer.Sglang.Requests.{Site, generate, batch, finished, wrap, run}

-- every wrapped method respects the relation
abbrev pub AllKeep : Order → List (Site × Original) → Type 0
AllKeep o [] = Unit
AllKeep o ((site, original) ∷ calls) = Keeps o original × AllKeep o calls

module _ (o : Order) (env : Env) (admits : o.takes "first_schedule_ts_ns" ≡ true)
    (popped : (rid : String) (p : Process)
      → o.rel p (record p { states = (Tracker.pop rid p.states).1 })) where
  Keeps-arrive :
      (req result : Obj) (request_id : String) → Keeps o (arrive env req result request_id)
  unfolding arrive
  Keeps-arrive req result request_id = Keeps-bind o (now env) _ (Keeps-now o env) (λ ts.
      let input = input_len (described req result) in
      let max = max_output_len env.classes (described req result) in
      let r =
        arrival_record ts request_id input max (value_of env.classes (getattr "priority" req)) in
      Keeps-bind o (track env request_id (arrival_state ts input max))
        (λ u. emit env r >> pure result)
        (Keeps-track o env request_id (arrival_state ts input max)
          (unfold arrival_state get in (refl, refl)))
        (λ u. Keeps-said o env r result))

  Keeps-generated : (req result : Obj) → Keeps o (generated env req result)
  unfolding generated
  Keeps-generated req result = record {
    kept = λ p. by_switch p p.em.enabled (request_of_call req result);
  }
    where
      by_switch :
          (p : Process) (on : Bool) (r : Option String)
          → o.rel p
              (if on
                then elim r as (λ x. Process × Option Obj) [
                  | none ↦ pure result p
                  | some request_id ↦ arrive env req result request_id p
                ]
                else pure result p).0
      by_switch p true none = o.same p
      by_switch p true (some request_id) = (Keeps-arrive req result request_id).kept p
      by_switch p false r = o.same p

  Keeps-report :
      (ts : ℕ) (scheduler scheduler' result : Obj) (d : Decision)
      → Keeps o (report env ts scheduler scheduler' result d)
  unfolding report
  Keeps-report ts scheduler scheduler' result d =
      let last = decision_record env ts scheduler scheduler' d in
      Keeps-bind o (each (admit env ts) d.admitted) _
        (Keeps-each o _ (Keeps-admit o env admits ts) d.admitted)
        (λ u0.
          Keeps-bind o (each (move env "preempt" ts) d.preempted) _
            (Keeps-each o _ (Keeps-move o env admits "preempt" ts) d.preempted)
            (λ u1.
              Keeps-bind o (each (move env "resume" ts) d.resumed) _
                (Keeps-each o _ (Keeps-move o env admits "resume" ts) d.resumed)
                (λ u2. Keeps-said o env last result)))

  Keeps-batch_after :
      (scheduler scheduler' result : Obj) → Keeps o (batch_after env scheduler scheduler' result)
  unfolding batch_after
  Keeps-batch_after scheduler scheduler' result = Keeps-bind o (now env) _ (Keeps-now o env) (λ ts.
      Keeps-report ts scheduler scheduler' result
        (decision_of (queues_of scheduler) (queues_of scheduler') result))

  Keeps-finish : (ts : ℕ) (request : String × Obj) → Keeps o (finish env ts request)
  unfolding finish
  Keeps-finish ts (rid, req) = record {
    kept = λ p.
        let forgotten : Process = record p { states = (Tracker.pop rid p.states).1 } in
        let r = finish_record env.classes ts rid req (Tracker.pop rid p.states).0 in
        o.chain p forgotten _ (popped rid p)
          ((Keeps-bind o (lift r) (emit env) (Keeps-lift o r) (Keeps-emit o env)).kept forgotten);
  }

  Keeps-finished_after : (call : Call) (result : Obj) → Keeps o (finished_after env call result)
  unfolding finished_after
  Keeps-finished_after call result = Keeps-bind o (now env) _ (Keeps-now o env) (λ ts.
      Keeps-bind o (each (finish env ts) (unseen [] (candidates call result))) _
        (Keeps-each o (finish env ts) (Keeps-finish ts) (unseen [] (candidates call result)))
        (λ u. Keeps-pure o result))

  site-Keeps :
      (site : Site) (original : Original) → Keeps o original → Keeps o (wrap env site original)
  unfolding wrap handle_generate_request run_batch handle_finished_requests
  site-Keeps (generate call) original k =
      Keeps-bind o original (generated env (first_arg "request" call)) k
        (Keeps-generated (first_arg "request" call))
  site-Keeps (batch scheduler scheduler') original k = Keeps-when o original _ k (
      Keeps-bind o original (batch_after env scheduler scheduler') k
        (Keeps-batch_after scheduler scheduler'))
  site-Keeps (finished call) original k =
      Keeps-when o original _ k
        (Keeps-bind o original (finished_after env call) k (Keeps-finished_after call))

  pub run-Keeps :
      (calls : List (Site × Original)) (p : Process) → AllKeep o calls → o.rel p (run env calls p)
  unfolding run
  run-Keeps [] p k = o.same p
  run-Keeps ((site, original) ∷ calls) p k =
      let next = (wrap env site original p).0 in
      o.chain p next _ ((site-Keeps site original k.0).kept p) (run-Keeps calls next k.1)
