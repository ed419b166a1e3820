-- ===== src/Scheduler/Endings/Forgotten.antt =====
-- What the end of a request does to the tracker and to the emitter:
-- `make_finish_request_wrapper` and `make_abort_request_wrapper` of
-- bkvt/integrations/vllm/scheduler_probe.py.
use beyond_kvtransfer.Base.{
  ℕ, ◌≡◌, ◌∙◌, ap, String, Bool, true, false, Option, none, some, if◌then◌else◌, ◌==◌, string_eq,
}
use beyond_kvtransfer.Base.Dict.{get, get-remove}
use beyond_kvtransfer.Value.{Rec}
use beyond_kvtransfer.Py.{Obj}
use beyond_kvtransfer.Weights.{Call}
use beyond_kvtransfer.Emitter.State.{event}
use beyond_kvtransfer.Emitter.Run.Live.{Untouched-event}
use beyond_kvtransfer.Tracker
use beyond_kvtransfer.Probes.{Process, Env, Action, Original, ◌>>=◌, ◌>>◌, pure}
use beyond_kvtransfer.Probes.Steps.{bind-returns, when_enabled-on}
use beyond_kvtransfer.Probes.Keeps.{Keeps, Keeps-bind, Keeps-pure, Keeps-when}
use beyond_kvtransfer.Probes.Orders.{quiet}
use beyond_kvtransfer.Scheduler.Endings.{
  ending_id, was_aborted, finish_record, abort_record, close, close_named, finish_after,
  abort_after, finish_request, abort_request,
}

-- the wrapper of a finish or that of an abort
unfoldable pub end_request : Env → Bool → Call → Original → Action Obj
end_request env true call original = abort_request env call original
end_request env false call original = finish_request env call original

-- the last record of a request, at a time, from what the tracker knows
unfoldable pub last_record : Env → Bool → Call → String → ℕ → Rec → Rec
last_record env true call request_id ts state = abort_record ts request_id state
last_record env false call request_id ts state =
    finish_record ts (was_aborted env.classes call) request_id state

module _ (env : Env) where
  Keeps-close :
      (record_at : ℕ → Rec → Rec) (request_id : String)
      → Keeps quiet (close env record_at request_id)
  unfolding close quiet
  Keeps-close record_at request_id = record { kept = λ p. Untouched-event env.thread _ p.em }

  Keeps-close_named :
      (record_at : ℕ → String → Rec → Rec) (named : Option String) (result : Obj)
      → Keeps quiet (close_named env record_at named result)
  Keeps-close_named record_at none result = Keeps-pure quiet result
  Keeps-close_named record_at (some request_id) result =
      Keeps-bind quiet (close env (λ ts. record_at ts request_id) request_id) _
        (Keeps-close _ request_id) (λ u. Keeps-pure quiet result)

  -- the ends leave the open transfers alone
  pub Keeps-end_request :
      (abort : Bool) (call : Call) (original : Original)
      → Keeps quiet original
      → Keeps quiet (end_request env abort call original)
  unfolding end_request finish_request abort_request finish_after abort_after
  Keeps-end_request true call original k = Keeps-when quiet original _ k (
      Keeps-bind quiet original (abort_after env call) k
        (λ v. Keeps-close_named abort_record (ending_id call) v))
  Keeps-end_request false call original k = Keeps-when quiet original _ k (
      Keeps-bind quiet original (finish_after env call) k (λ v.
        Keeps-close_named (λ ts. finish_record ts (was_aborted env.classes call)) (ending_id call)
          v))

  -- what follows the call, for a request that is named
  abbrev close_then : Bool → Call → String → Obj → Action Obj
  close_then abort call request_id v =
      close env (last_record env abort call request_id) request_id >> pure v

  end_request-named :
      (abort : Bool) (call : Call) (original : Original) (w w' : Process) (v : Obj)
      (request_id : String)
      → w.em.enabled ≡ true
      → ending_id call ≡ some request_id
      → original w ≡ (w', some v)
      → end_request env abort call original w ≡ close_then abort call request_id v w'
  unfolding end_request finish_request abort_request finish_after abort_after last_record
  end_request-named true call original w w' v request_id on named called =
      when_enabled-on original (original >>= abort_after env call) w on
      ∙ bind-returns original (abort_after env call) w w' v called
      ∙ ap (λ r. close_named env abort_record r v w') named
  end_request-named false call original w w' v request_id on named called =
      when_enabled-on original (original >>= finish_after env call) w on
      ∙ bind-returns original (finish_after env call) w w' v called
      ∙ ap (λ r. close_named env (λ ts. finish_record ts (was_aborted env.classes call)) r v w')
          named

  -- Where the wrapped call of a finish or an abort returns, and its first argument is or names a
  -- request, the wrapper of an enabled emitter returns the same, hands exactly one record to the
  -- emitter, built from what the tracker knew of the request, and the tracker then knows nothing of
  -- this request, and of every other request what it knew.
  pub end_request-forgets :
      (abort : Bool) (call : Call) (original : Original) (w w' : Process) (v : Obj)
      (request_id : String)
      → w.em.enabled ≡ true
      → ending_id call ≡ some request_id
      → original w ≡ (w', some v)
      → let after = end_request env abort call original w in
        (after.1 ≡ some v)
        × (after.0.em
            ≡ event env.thread
                (last_record env abort call request_id
                  (env.clock w'.ticks)
                  (Tracker.state_of request_id w'.states))
                w'.em)
        × ((r : String)
            → get r after.0.states ≡ (if request_id == r then none else get r w'.states))
  unfolding close Tracker.pop Tracker.state_of
  end_request-forgets abort call original w w' v request_id on named called =
      let path = end_request-named abort call original w w' v request_id on named called in
      (
        ap (λ x. x.1) path,
        ap (λ x. x.0.em) path,
        λ r. ap (λ x. get r x.0.states) path ∙ get-remove r request_id w'.states,
      )
