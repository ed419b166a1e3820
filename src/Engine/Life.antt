-- ===== src/Engine/Life.antt =====
-- What holds over the runs of the vLLM probes: the open transfers, and the first times of a request.
use beyond_kvtransfer.Base.{
  ℕ, ◌≡◌, refl, ◌∙◌, ap, sym, String, Bool, true, false, Option, none, some, List, [], ◌∷◌, ◌==◌,
  string_eq, inl, inr,
}
use beyond_kvtransfer.Base.Dict.{get}
use beyond_kvtransfer.Value.{Value, Rec}
use beyond_kvtransfer.Py.{Obj}
use beyond_kvtransfer.Weights.{Call}
use beyond_kvtransfer.Emitter.State.{event}
use beyond_kvtransfer.Emitter.Run.Live.{Untouched}
use beyond_kvtransfer.Tracker
use beyond_kvtransfer.Probes.{Process, Env, Original}
use beyond_kvtransfer.Probes.Keeps.{Keeps, Keeps-bind, Keeps-pure, Keeps-when}
use beyond_kvtransfer.Probes.Orders.{quiet, firsts, IsFirst, popped-FirstsKept}
use beyond_kvtransfer.Scheduler.Endings.{
  ending_id, close, close_named, finish_after, abort_after, finish_request, abort_request,
  abort_record, finish_record, was_aborted,
}
use beyond_kvtransfer.Scheduler.Steps.{field}
use beyond_kvtransfer.Scheduler.Endings.Forgotten.{
  end_request, Keeps-end_request, end_request-forgets, last_record,
}
use beyond_kvtransfer.Engine.{Site, block, arrival, step, execute, outputs, ending, wrap, run}
use beyond_kvtransfer.Engine.Kept.{KeepsEnds, AllKeep, run-Keeps}

-- every wrapped method leaves the open transfers, the sampler and the switch of the emitter alone
abbrev pub AllQuiet : List (Site × Original) → Type 0
AllQuiet [] = Unit
AllQuiet ((site, original) ∷ calls) = Keeps quiet original × AllQuiet calls

module _ (env : Env) where
  quiet_ends : (site : Site) → KeepsEnds env quiet site
  quiet_ends (block probe) = tt
  quiet_ends (arrival named call) = tt
  quiet_ends (step scheduler scheduler') = tt
  quiet_ends (execute call) = tt
  quiet_ends outputs = tt
  quiet_ends (ending abort call) = Keeps-end_request env abort call

  quiet_calls : (calls : List (Site × Original)) → AllQuiet calls → AllKeep env quiet calls
  quiet_calls [] h = tt
  quiet_calls ((site, original) ∷ calls) h = (quiet_ends site, h.0, quiet_calls calls h.1)

  -- Over every run of the vLLM probes, with every wrapper among them, around methods that leave the
  -- open transfers, the sampler and the switch of the emitter alone, these stay as they are.
  pub run-Untouched :
      (calls : List (Site × Original)) (p : Process)
      → AllQuiet calls
      → Untouched p.em (run env calls p).em
  unfolding quiet
  run-Untouched calls p h = run-Keeps env quiet refl refl calls p (quiet_calls calls h)

  module _ (r : String) where
    -- a call that ends another request, or none
    abbrev pub EndsOther : Call → Type 0
    EndsOther call = (id : String) → ending_id call ≡ some id → (id == r) ≡ false

    abbrev pub AllFirsts : List (Site × Original) → Type 0
    AllFirsts [] = Unit
    AllFirsts ((ending abort call, original) ∷ calls) =
        EndsOther call × Keeps (firsts r) original × AllFirsts calls
    AllFirsts ((site, original) ∷ calls) = Keeps (firsts r) original × AllFirsts calls

    close_other :
        (record_at : ℕ → Rec → Rec) (id : String)
        → (id == r) ≡ false
        → Keeps (firsts r) (close env record_at id)
    unfolding close firsts
    close_other record_at id other = record { kept = λ p. popped-FirstsKept r id p.states other }

    close_named_other :
        (record_at : ℕ → String → Rec → Rec) (named : Option String) (v : Obj)
        → ((id : String) → named ≡ some id → (id == r) ≡ false)
        → Keeps (firsts r) (close_named env record_at named v)
    close_named_other record_at none v other = Keeps-pure (firsts r) v
    close_named_other record_at (some id) v other =
        Keeps-bind (firsts r) (close env (λ ts. record_at ts id) id) _
          (close_other _ id (other id refl)) (λ u. Keeps-pure (firsts r) v)

    other_ends :
        (abort : Bool) (call : Call) → EndsOther call → KeepsEnds env (firsts r) (ending abort call)
    unfolding end_request finish_request abort_request finish_after abort_after
    other_ends true call other original k = Keeps-when (firsts r) original _ k (
        Keeps-bind (firsts r) original (abort_after env call) k
          (λ v. close_named_other abort_record (ending_id call) v other))
    other_ends false call other original k = Keeps-when (firsts r) original _ k (
        Keeps-bind (firsts r) original (finish_after env call) k (λ v.
          close_named_other (λ ts. finish_record ts (was_aborted env.classes call)) (ending_id call)
            v other))

    first_calls : (calls : List (Site × Original)) → AllFirsts calls → AllKeep env (firsts r) calls
    first_calls [] h = tt
    first_calls ((block probe, original) ∷ calls) h = (tt, h.0, first_calls calls h.1)
    first_calls ((arrival named call, original) ∷ calls) h = (tt, h.0, first_calls calls h.1)
    first_calls ((step s s', original) ∷ calls) h = (tt, h.0, first_calls calls h.1)
    first_calls ((execute call, original) ∷ calls) h = (tt, h.0, first_calls calls h.1)
    first_calls ((outputs, original) ∷ calls) h = (tt, h.0, first_calls calls h.1)
    first_calls ((ending abort call, original) ∷ calls) h =
        (other_ends abort call h.0, h.1, first_calls calls h.2)

    run-first_kept :
        (calls : List (Site × Original)) (p : Process) (key : String) (v : Value)
        → AllFirsts calls
        → IsFirst key
        → get key (Tracker.state_of r p.states) ≡ some v
        → get key (Tracker.state_of r (run env calls p).states) ≡ some v
    unfolding firsts
    run-first_kept calls p key v h f e =
        (run-Keeps env (firsts r) refl refl calls p (first_calls calls h)).kept key v f e

    finish_carries :
        (ts : ℕ) (aborted : Bool) (state : Rec) (key : String) (v : Value)
        → IsFirst key
        → get key state ≡ some v
        → get key (finish_record ts aborted r state) ≡ some v
    unfolding finish_record field get
    finish_carries ts aborted state key v (inl e) h =
        let h' : get "first_schedule_ts_ns" state ≡ some v = rw e at h in rw (e, h') refl
    finish_carries ts aborted state key v (inr e) h =
        let h' : get "first_token_ts_ns" state ≡ some v = rw e at h in rw (e, h') refl

    -- The time of the first admission and that of the first token of a request, once the tracker has
    -- them, are not changed by any run of the vLLM probes that ends other requests only; the record
    -- of a finish of the request after the run is one record, and it carries them. The wrapped
    -- methods leave them alone.
    pub run-first_times :
        (calls : List (Site × Original)) (p : Process) (key : String) (v : Value) (call : Call)
        (original : Original) (w : Process) (result : Obj)
        → AllFirsts calls
        → IsFirst key
        → get key (Tracker.state_of r p.states) ≡ some v
        → Keeps (firsts r) original
        → (run env calls p).em.enabled ≡ true
        → ending_id call ≡ some r
        → original (run env calls p) ≡ (w, some result)
        → (last : Rec) × ((wrap env (ending false call) original (run env calls p)).0.em
            ≡ event env.thread last w.em)
          × (get key last ≡ some v)
    unfolding wrap firsts last_record
    run-first_times calls p key v call original w result h f e k on named called =
        let before = run env calls p in
        let kept = run-first_kept calls p key v h f e in
        let moved = (k.kept before).kept key v f kept in
        let still : get key (Tracker.state_of r w.states) ≡ some v =
          ap (λ x. get key (Tracker.state_of r x.0.states)) (sym called) ∙ moved in
        let ended = end_request-forgets env false call original before w result r on named called in
        (
          finish_record (env.clock w.ticks) (was_aborted env.classes call) r
              (Tracker.state_of r w.states),
          ended.1,
          finish_carries _ _ (Tracker.state_of r w.states) key v f still,
        )
