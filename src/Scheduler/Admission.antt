-- ===== src/Scheduler/Admission.antt =====
-- The admissions of a step of the scheduler, and the results that the probe of
-- bkvt/integrations/vllm/scheduler_probe.py cannot read.
use beyond_kvtransfer.Base.{
  ℕ, ◌≡◌, refl, ◌∙◌, ap, String, Bool, true, Option, none, some, List, [], ◌∷◌, if◌then◌else◌,
  string_eq, inl,
}
use beyond_kvtransfer.Base.Dict.{get}
use beyond_kvtransfer.Value.{Value, Rec, nat}
use beyond_kvtransfer.Emitter.State.{event}
use beyond_kvtransfer.Py.{
  Obj, nothing, integer, string, sequence, tuple, mapping, returning, raising, object, getattr,
  first_attr,
}
use beyond_kvtransfer.Py.Reads.{list_of, is_given}
use beyond_kvtransfer.Tracker
use beyond_kvtransfer.Probes.{Process, Env, Original, now, emit}
use beyond_kvtransfer.Probes.Steps.{next, bind-returns, when_enabled-on}
use beyond_kvtransfer.Probes.Orders.{offered-FirstsKept}
use beyond_kvtransfer.Scheduler.{
  running_ids, waiting_ids, ids_from_first, req_ids_from, admit_cached, given,
}
use beyond_kvtransfer.Scheduler.Steps.{
  admit, admit_record, Queues, admitted_of, schedule_after, schedule_traced, schedule,
}

-- a value that is not iterable has no ids
req_ids-none : (v : Obj) → is_given v ≡ true → list_of v ≡ none → req_ids_from v ≡ none
unfolding req_ids_from list_of
req_ids-none nothing g h = absurd cc
req_ids-none (integer n) g h = refl
req_ids-none (string s) g h = cc
req_ids-none (sequence vs) g h = cc
req_ids-none (tuple vs) g h = cc
req_ids-none (mapping attrs) g h = cc
req_ids-none (returning v) g h = refl
req_ids-none raising g h = refl
req_ids-none (object attrs) g h = refl

-- nor has a first attribute that is not iterable
first-none :
    (name : String) (names : List String) (obj : Obj)
    → is_given (getattr name obj) ≡ true
    → list_of (getattr name obj) ≡ none
    → ids_from_first (name ∷ names) obj ≡ none
unfolding ids_from_first first_attr
first-none name names obj g h = ap ids_at (ap found g) ∙ req_ids-none (getattr name obj) g h
  where
    ids_at : Option Obj → Option (List String)
    ids_at o = elim o as (λ x. Option (List String)) [ none ↦ some [] | some v ↦ req_ids_from v ]

    found : Bool → Option Obj
    found b = elim (if b then some (getattr name obj) else none) as (λ x. Option Obj) [
      | none ↦ first_attr given names obj
      | some v ↦ some v
    ]

module _ (env : Env) where
  admitted-none :
      (running : List String) (result : Obj)
      → is_given (getattr "scheduled_cached_reqs" result) ≡ true
      → list_of (getattr "scheduled_cached_reqs" result) ≡ none
      → admitted_of env running result ≡ none
  unfolding admitted_of
  admitted-none running result g h =
      by_new (ids_from_first ("scheduled_new_reqs" ∷ "new_req_data" ∷ "new_reqs" ∷ []) result)
    where
      cached : Option (List String)
      cached = ids_from_first ("scheduled_cached_reqs" ∷ "cached_reqs" ∷ []) result

      no_cached : cached ≡ none
      no_cached = first-none "scheduled_cached_reqs" ("cached_reqs" ∷ []) result g h

      by_new :
          (fresh : Option (List String))
          → elim fresh as (λ x. Option (List String)) [
            | none ↦ none
            | some ids ↦ elim cached as (λ x. Option (List String)) [
              | none ↦ none
              | some c ↦ some (admit_cached running c ids)
            ]
          ]
            ≡ none
      by_new none = refl
      by_new (some ids) = rw no_cached refl

  -- On an enabled emitter, where the scheduler returns a result whose cached requests are a value
  -- that cannot be walked, the wrapper raises, and no record is emitted.
  pub schedule-raises :
      (scheduler scheduler' : Obj) (original : Original) (w w' : Process) (result : Obj)
      (running waiting : List String)
      → w.em.enabled ≡ true
      → running_ids scheduler ≡ some running
      → waiting_ids scheduler ≡ some waiting
      → original w ≡ (w', some result)
      → is_given (getattr "scheduled_cached_reqs" result) ≡ true
      → list_of (getattr "scheduled_cached_reqs" result) ≡ none
      → schedule env scheduler scheduler' original w ≡ (next w', none)
  unfolding schedule schedule_traced
  schedule-raises scheduler scheduler' original w w' result running waiting on run wait called g h =
      when_enabled-on original (schedule_traced env scheduler scheduler' original) w on
      ∙ rw (run, wait)
          (bind-returns original (schedule_after env scheduler scheduler' before) w w' result called
            ∙ after)
    where
      before : Queues
      before = record { running = running; waiting = waiting }

      after : schedule_after env scheduler scheduler' before result w' ≡ (next w', none)
      after = unfold schedule_after now in rw (admitted-none running result g h) refl

  -- A request that is admitted again: the tracker keeps the time of its first admission, while the
  -- record of this admission gives the time of this one as the first.
  pub readmitted :
      (ts : ℕ) (request_id : String) (p : Process) (v : Value)
      → get "first_schedule_ts_ns" (Tracker.state_of request_id p.states) ≡ some v
      → let after = (admit env ts request_id p).0 in
        (get "first_schedule_ts_ns" (Tracker.state_of request_id after.states) ≡ some v)
        × (rec : Rec) × (after.em ≡ event env.thread rec p.em)
        × (get "first_schedule_ts_ns" rec ≡ some (nat ts))
  unfolding admit emit admit_record get
  readmitted ts request_id p v first = (
    (offered-FirstsKept request_id request_id "first_schedule_ts_ns" (nat ts) p.states).kept
        "first_schedule_ts_ns" v (inl refl) first,
    admit_record ts request_id (
        Tracker.state_of request_id
          (Tracker.set_if_absent request_id "first_schedule_ts_ns" (nat ts) p.states).0),
    refl,
    refl,
  )
