-- ===== src/Sglang/Requests/Finishes.antt =====
-- What `make_handle_finished_requests_wrapper` of bkvt/integrations/sglang/scheduler_probe.py emits
-- after a run of the probes of that file.
use mathlib.Core.Path.{subst}
use beyond_kvtransfer.Base.{
  ℕ, suc, ◌+◌, ◌≡◌, refl, ◌∙◌, ap, String, true, Option, none, some, List, [], ◌∷◌, string_eq,
  length,
}
use beyond_kvtransfer.Base.Dict.{get}
use beyond_kvtransfer.Value.{Rec, null}
use beyond_kvtransfer.Py.{Obj}
use beyond_kvtransfer.Weights.{Call}
use beyond_kvtransfer.Emitter.State.{event}
use beyond_kvtransfer.Tracker
use beyond_kvtransfer.Tracker.{States}
use beyond_kvtransfer.Probes.{Process, Env, Original, ◌>>=◌, pure, lift, each, now, emit}
use beyond_kvtransfer.Probes.Keeps.{Keeps}
use beyond_kvtransfer.Probes.Steps.{bind-returns, when_enabled-on}
use beyond_kvtransfer.Probes.Reports.{events}
use beyond_kvtransfer.Sglang.Finished.{
  unseen, candidates, final_record, finish, finished_after, handle_finished_requests,
}
use beyond_kvtransfer.Sglang.Requests.{Site, finished, wrap, run}
use beyond_kvtransfer.Sglang.Requests.Untimed.{
  Untimed, untimed, AllUntimed, popped-Untimed, final_untimed, run-Untimed,
}

-- the record has no time of a first token, no time to it and no time per output token
abbrev pub HasNulls : Rec → Type 0
HasNulls r =
    (get "first_token_ts_ns" r ≡ some null)
    × (get "ttft_ns" r ≡ some null)
    × (get "tpot_ns" r ≡ some null)

abbrev pub AllNulls : List Rec → Type 0
AllNulls [] = Unit
AllNulls (r ∷ rs) = HasNulls r × AllNulls rs

module _ (env : Env) (ts : ℕ) where
  -- the last records of requests, each one forgotten after its record
  unfoldable pub last_records : List (String × Obj) → States → List Rec
  last_records [] s = []
  last_records ((rid, req) ∷ requests) s =
      final_record env.classes ts rid req (Tracker.state_of rid s) none
      ∷ last_records requests (Tracker.pop rid s).1

  unfoldable pub all_popped : List (String × Obj) → States → States
  all_popped [] s = s
  all_popped ((rid, req) ∷ requests) s = all_popped requests (Tracker.pop rid s).1

  -- the process after one request
  abbrev after_one : String → Obj → Process → Process
  after_one rid req p = record p {
    em =
        event env.thread (final_record env.classes ts rid req (Tracker.state_of rid p.states) none)
          p.em;
    states = (Tracker.pop rid p.states).1;
  }

  abbrev after_all : List (String × Obj) → Process → Process
  after_all requests p = record p {
    em = events env.thread (last_records requests p.states) p.em;
    states = all_popped requests p.states;
  }

  finish-Untimed :
      (rid : String) (req : Obj) (p : Process)
      → Untimed p.states
      → finish env ts (rid, req) p ≡ (after_one rid req p, some tt)
  unfolding finish emit Tracker.pop
  finish-Untimed rid req p u =
      ap
        (λ (o : Option Rec).
          (lift o >>= emit env) (record p { states = (Tracker.pop rid p.states).1 }))
        (final_untimed env ts rid req (Tracker.state_of rid p.states) (u.untimed rid)).0

  pub each-finish-Untimed :
      (requests : List (String × Obj)) (p : Process)
      → Untimed p.states
      → each (finish env ts) requests p ≡ (after_all requests p, some tt)
  unfolding each last_records all_popped events
  each-finish-Untimed [] p u = refl
  each-finish-Untimed ((rid, req) ∷ requests) p u =
      bind-returns (finish env ts (rid, req)) (λ v. each (finish env ts) requests) p
        (after_one rid req p) tt (finish-Untimed rid req p u)
      ∙ each-finish-Untimed requests (after_one rid req p) (popped-Untimed rid p.states u)

  pub last_records-AllNulls :
      (requests : List (String × Obj)) (s : States)
      → Untimed s
      → (length (last_records requests s) ≡ length requests) × AllNulls (last_records requests s)
  unfolding last_records
  last_records-AllNulls [] s u = (refl, tt)
  last_records-AllNulls ((rid, req) ∷ requests) s u =
      let (count, nulls) =
        last_records-AllNulls requests (Tracker.pop rid s).1 (popped-Untimed rid s u) in
      let one = final_untimed env ts rid req (Tracker.state_of rid s) (u.untimed rid) in
      (ap suc count, ((one.1, one.2, one.3), nulls))

module _ (env : Env) (calls : List (Site × Original)) (p : Process) where
  -- Over every run of the scheduler probes of SGLang from a tracker that has the first token of no
  -- request, around methods that put none there: a wrapped handle_finished_requests that returns on
  -- an enabled emitter hands to the emitter one record for each request id among its candidates, and
  -- in every one of them the time of the first token, the time to it and the time per output token
  -- are null.
  pub finished-nulls :
      (call : Call) (original : Original) (w : Process) (v : Obj)
      → AllUntimed calls
      → Untimed p.states
      → Keeps untimed original
      → (run env calls p).em.enabled ≡ true
      → original (run env calls p) ≡ (w, some v)
      → (rs : List Rec) × ((wrap env (finished call) original (run env calls p)).1 ≡ some v)
        × ((wrap env (finished call) original (run env calls p)).0.em ≡ events env.thread rs w.em)
        × (length rs ≡ length (unseen [] (candidates call v)))
        × AllNulls rs
  unfolding wrap handle_finished_requests untimed
  finished-nulls call original w v k u kept on called =
      let before = run env calls p in
      let at_end : Untimed w.states =
        subst (λ x. Untimed x.0.states) called (kept.kept before (run-Untimed env calls p k u)) in
      let requests = unseen [] (candidates call v) in
      let (count, nulls) = last_records-AllNulls env (env.clock w.ticks) requests w.states at_end in
      let same = ended call v original w on called at_end in
      (
        last_records env (env.clock w.ticks) requests w.states,
        ap (λ x. x.1) same,
        ap (λ x. x.0.em) same,
        count,
        nulls,
      )
    where
      ended :
          (call : Call) (v : Obj) (original : Original) (w : Process)
          → (run env calls p).em.enabled ≡ true
          → original (run env calls p) ≡ (w, some v)
          → Untimed w.states
          → handle_finished_requests env call original (run env calls p) ≡ (
            after_all env
                (env.clock w.ticks)
                (unseen [] (candidates call v))
                (record w { ticks = w.ticks + 1 }),
            some v,
          )
      ended call v original w on called h =
          let ts = env.clock w.ticks in
          let requests = unseen [] (candidates call v) in
          let ticked : Process = record w { ticks = w.ticks + 1 } in
          unfold handle_finished_requests in
          when_enabled-on original (original >>= finished_after env call) (run env calls p) on
          ∙ bind-returns original (finished_after env call) (run env calls p) w v called
          ∙ unfold finished_after now in
            bind-returns (each (finish env ts) requests) (λ d. pure v) ticked
              (after_all env ts requests ticked) tt (each-finish-Untimed env ts requests ticked h)
