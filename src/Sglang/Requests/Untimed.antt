-- ===== src/Sglang/Requests/Untimed.antt =====
-- The times of the last records of requests of SGLang: bkvt/integrations/sglang/scheduler_probe.py.
use beyond_kvtransfer.Base.{
  ℕ, ◌≡◌, inl, inr, refl, ◌∙◌, ap, String, true, false, Option, none, some, List, [], ◌==◌, ==_iff,
  string_eq, Bool-cases, if◌then◌else◌, ℤ,
}
use beyond_kvtransfer.Base.Dict.{get, set, has, get-set, get-update_absent}
use beyond_kvtransfer.Value.{Value, Rec, null}
use beyond_kvtransfer.Py.{Obj}
use beyond_kvtransfer.Tracker
use beyond_kvtransfer.Tracker.{States}
use beyond_kvtransfer.Tracker.Laws.{state-set_if_absent, state-update, state-pop}
use beyond_kvtransfer.Probes.{Process, Env, Original}
use beyond_kvtransfer.Probes.Keeps.{Order, NoFirsts}
use beyond_kvtransfer.Scheduler.Endings.{time_of, ttft_of}
use beyond_kvtransfer.Scheduler.Steps.{field}
use beyond_kvtransfer.Sglang.Finished.{finish_record, final_record, tpot_of, output_tokens}
use beyond_kvtransfer.Sglang.Requests.{Site, run}
use beyond_kvtransfer.Sglang.Kept.{AllKeep, run-Keeps}

-- no request has a first token
pub record Untimed (s : States) : Type 0 where
  pub untimed : (r : String) → get "first_token_ts_ns" (Tracker.state_of r s) ≡ none

-- the state of each request after a change of the state of one request
changed :
    (r request_id : String) (state : Rec) (s : States)
    → Untimed s
    → get "first_token_ts_ns" state ≡ none
    → get "first_token_ts_ns" (if request_id == r then state else Tracker.state_of r s) ≡ none
changed r request_id state s u h = elim (Bool-cases (request_id == r)) [
  | inl own ↦ rw own h
  | inr other ↦ rw other (u.untimed r)
]

pub merged-Untimed :
    (request_id : String) (fields : Rec) (s : States)
    → NoFirsts fields
    → Untimed s
    → Untimed (Tracker.update request_id fields s)
merged-Untimed request_id fields s absent u = record {
  untimed = λ r.
      ap (get "first_token_ts_ns") (state-update r request_id fields s)
      ∙ changed r request_id _ s u (
          get-update_absent "first_token_ts_ns" (Tracker.state_of request_id s) fields absent.1
          ∙ u.untimed request_id);
}

admitted :
    (key : String) (v : Value) (state : Rec)
    → (key == "first_schedule_ts_ns") ≡ true
    → get "first_token_ts_ns" state ≡ none
    → get "first_token_ts_ns" (if has key state then state else set key v state) ≡ none
admitted key v state t h = elim (Bool-cases (has key state)) [
  | inl there ↦ rw there h
  | inr absent ↦
      let e : key ≡ "first_schedule_ts_ns" = (==_iff key "first_schedule_ts_ns").0 t in
      let differ : (key == "first_token_ts_ns") ≡ false = ap (λ k. k == "first_token_ts_ns") e in
      rw (absent, get-set, differ) h
]

pub offered-Untimed :
    (request_id key : String) (v : Value) (s : States)
    → (key == "first_schedule_ts_ns") ≡ true
    → Untimed s
    → Untimed (Tracker.set_if_absent request_id key v s).0
offered-Untimed request_id key v s t u = record {
  untimed = λ r.
      ap (get "first_token_ts_ns") (state-set_if_absent r request_id key v s)
      ∙ changed r request_id _ s u
          (admitted key v (Tracker.state_of request_id s) t (u.untimed request_id));
}

pub popped-Untimed :
    (request_id : String) (s : States) → Untimed s → Untimed (Tracker.pop request_id s).1
unfolding get
popped-Untimed request_id s u = record {
  untimed = λ r.
      ap (get "first_token_ts_ns") (state-pop r request_id s) ∙ changed r request_id [] s u refl;
}

unfoldable pub untimed : Order
untimed = record {
  rel = λ p q. Untimed p.states → Untimed q.states;
  same = λ p u. u;
  chain = λ p q s a b u. b (a u);
  ticked = λ p n u. u;
  stepped = λ p n u. u;
  emitted = λ t r p u. u;
  merged = λ request_id fields p h u. merged-Untimed request_id fields p.states h u;
  takes = λ key. key == "first_schedule_ts_ns";
  offered = λ request_id key v p t u. offered-Untimed request_id key v p.states t u;
}

no_ttft : (arrival : Option ℤ) → ttft_of arrival none ≡ none
unfolding ttft_of
no_ttft none = refl
no_ttft (some n) = refl

-- the last record of a request without a first token
pub final_untimed :
    (env : Env) (ts : ℕ) (rid : String) (req : Obj) (state : Rec)
    → get "first_token_ts_ns" state ≡ none
    → let last = final_record env.classes ts rid req state none in
      (finish_record env.classes ts rid req state ≡ some last)
      × (get "first_token_ts_ns" last ≡ some null)
      × (get "ttft_ns" last ≡ some null)
      × (get "tpot_ns" last ≡ some null)
unfolding final_record field get
final_untimed env ts rid req state h =
    (unfold finish_record tpot_of in ap built no_time, rw h refl, rw (no_time, no_ttft) refl, refl)
  where
    built : Option ℤ → Option Rec
    built first = elim (tpot_of ts first (output_tokens req state)) as (λ o. Option Rec) [
      | none ↦ none
      | some tpot ↦ some (final_record env.classes ts rid req state tpot)
    ]

    no_time : time_of "first_token_ts_ns" state ≡ none
    no_time = rw (time_of, h) refl

-- every wrapped method leaves requests without a first token
abbrev pub AllUntimed : List (Site × Original) → Type 0
AllUntimed calls = AllKeep untimed calls

module _ (env : Env) where
  -- a run leaves every request without a first token
  pub run-Untimed :
      (calls : List (Site × Original)) (p : Process)
      → AllUntimed calls
      → Untimed p.states
      → Untimed (run env calls p).states
  unfolding untimed
  run-Untimed calls p k u =
      run-Keeps untimed env refl (λ r q v. popped-Untimed r q.states v) calls p k u
