-- ===== src/Tests/Engine.antt =====
-- Tests of the runs of the vLLM probes.
use beyond_kvtransfer.Base.{
  ℕ, ◌+◌, ◌*◌, ◌≤◌, ◌<◌, ◌≡◌, refl, String, true, false, none, some, List, [], ◌∷◌, string_eq, ℤ,
  pos, ◌+ℤ◌, ◌-ℤ◌, leb_ℤ, inr, if◌then◌else◌, ◌==◌,
}
use beyond_kvtransfer.Base.Dict.{get}
use beyond_kvtransfer.Value.{Rec, int, nat}
use beyond_kvtransfer.Py.{
  Obj, nothing, string, sequence, no_objs, object, attr, no_attrs, getattr, attr_of,
}
use beyond_kvtransfer.Py.Reads.{list_of}
use beyond_kvtransfer.Weights.{Call}
use beyond_kvtransfer.Emitter.State.{event}
use beyond_kvtransfer.Tracker
use beyond_kvtransfer.Probes.{Process, Original}
use beyond_kvtransfer.Probes.Keeps.{Keeps}
use beyond_kvtransfer.Probes.Orders.{quiet, firsts}
use beyond_kvtransfer.Scheduler.{running_ids, waiting_ids, req_ids_from, item_id, set_of}
use beyond_kvtransfer.Scheduler.Endings.{
  ending_id, output_tokens, finish_record, time_of, ttft_of, tpot_of,
}
use beyond_kvtransfer.Scheduler.Endings.Latency.{finish-latencies}
use beyond_kvtransfer.Scheduler.Endings.Forgotten.{end_request, last_record, end_request-forgets}
use beyond_kvtransfer.Scheduler.Steps.{admit, schedule}
use beyond_kvtransfer.Scheduler.Admission.{schedule-raises, readmitted}
use beyond_kvtransfer.Engine.{Site, outputs, ending, wrap, run}
use beyond_kvtransfer.Engine.Life.{run-Untouched, run-first_times, AllFirsts}
use beyond_kvtransfer.Tests.Probes.{env, process, returns}

abbrev known : Rec
known =
    ("arrival_ts_ns", nat 3)
    ∷ ("first_schedule_ts_ns", nat 4)
    ∷ ("first_token_ts_ns", nat 7)
    ∷ ("output_tokens_so_far", nat 3)
    ∷ []

-- a request that is under way
abbrev under_way : Process
under_way = record process { states = ("r1", known) ∷ [] }

abbrev call_r1 : Call
call_r1 = record { args = string "r1" ∷ []; kwargs = [] }

abbrev call_r2 : Call
call_r2 = record { args = string "r2" ∷ []; kwargs = [] }

call_r1_id : ending_id call_r1 ≡ some "r1"
unfolding ending_id item_id
call_r1_id = refl

-- the record of a finish at 20: 4 ns to the first token, and 13 ns for two more
latencies_20 :
    (get "ttft_ns" (finish_record 20 false "r1" known) ≡ some (nat 4))
    × (get "tpot_ns" (finish_record 20 false "r1" known) ≡ some (nat 6))
unfolding finish_record get time_of ttft_of tpot_of output_tokens ◌-ℤ◌
latencies_20 = (refl, refl)

finish-latencies_example :
    (get "ttft_ns" (finish_record 20 false "r1" known) ≡ some (int (pos 4))
      → (a : ℤ) × (f : ℤ) × (get "arrival_ts_ns" known ≡ some (int a))
        × (get "first_token_ts_ns" known ≡ some (int f))
        × (a +ℤ pos 4 ≡ f)
        × (leb_ℤ (pos 0) (pos 4) ≡ true))
    × (get "tpot_ns" (finish_record 20 false "r1" known) ≡ some (int (pos 4))
        → (f : ℤ) × (span : ℕ) × (d : ℕ) × (k : ℕ) × (get "first_token_ts_ns" known ≡ some (int f))
          × (f +ℤ pos span ≡ pos 20)
          × (output_tokens known ≡ pos (d + 1))
          × (pos 4 ≡ pos k)
          × (k * d ≤ span)
          × (span < k * d + d))
finish-latencies_example = finish-latencies 20 false "r1" known (pos 4)

end_request-forgets_example :
    ((end_request env true call_r1 (returns nothing) under_way).1 ≡ some nothing)
    × ((end_request env true call_r1 (returns nothing) under_way).0.em
        ≡ event 0
            (last_record env true call_r1 "r1" 5 (Tracker.state_of "r1" under_way.states))
            process.em)
    × ((r : String)
        → get r (end_request env true call_r1 (returns nothing) under_way).0.states
          ≡ (if "r1" == r then none else get r under_way.states))
end_request-forgets_example =
    end_request-forgets env true call_r1 (returns nothing) under_way under_way nothing "r1" refl
      call_r1_id refl

returns-Quiet : (v : Obj) → Keeps quiet (returns v)
unfolding quiet
returns-Quiet v = record { kept = λ p. record { enabled = refl; sampler = refl; live = refl } }

returns-firsts : (r : String) (v : Obj) → Keeps (firsts r) (returns v)
unfolding firsts
returns-firsts r v = record { kept = λ p. record { kept = λ k x f h. h } }

abbrev calls : List (Site × Original)
calls = (outputs, returns (sequence no_objs)) ∷ (ending false call_r2, returns nothing) ∷ []

r2_other : (id : String) → ending_id call_r2 ≡ some id → (id == "r1") ≡ false
unfolding ending_id item_id
r2_other id e = let same : "r2" ≡ id = cc in rw⁻¹ same refl

calls-firsts : AllFirsts env "r1" calls
calls-firsts = (returns-firsts "r1" (sequence no_objs), (r2_other, returns-firsts "r1" nothing, tt))

still_enabled : (run env calls under_way).em.enabled ≡ true
still_enabled =
    (run-Untouched env calls under_way
      (returns-Quiet (sequence no_objs), (returns-Quiet nothing, tt))).enabled

run-first_times_example :
    (last : Rec) × ((wrap env
        (ending false call_r1)
        (returns nothing)
        (run env calls under_way)).0.em
      ≡ event 0 last (run env calls under_way).em)
    × (get "first_token_ts_ns" last ≡ some (nat 7))
run-first_times_example =
    run-first_times env "r1" calls under_way "first_token_ts_ns" (nat 7) call_r1 (returns nothing)
      (run env calls under_way) nothing calls-firsts (inr refl)
      (unfold get Tracker.state_of in refl) (returns-firsts "r1" nothing) still_enabled call_r1_id
      refl

-- a result whose cached requests cannot be walked
abbrev odd_result : Obj
odd_result = object (attr "scheduled_cached_reqs" (object no_attrs) no_attrs)

schedule-raises_example :
    schedule env nothing nothing (returns odd_result) process ≡ (record process { ticks = 1 }, none)
unfolding running_ids waiting_ids req_ids_from set_of getattr attr_of list_of
schedule-raises_example =
    schedule-raises env nothing nothing (returns odd_result) process process odd_result [] [] refl
      refl refl refl refl refl

readmitted_example :
    (get "first_schedule_ts_ns" (Tracker.state_of "r1" (admit env 30 "r1" under_way).0.states)
      ≡ some (nat 4))
    × (rec : Rec) × ((admit env 30 "r1" under_way).0.em ≡ event 0 rec process.em)
    × (get "first_schedule_ts_ns" rec ≡ some (nat 30))
readmitted_example = readmitted env 30 "r1" under_way (nat 4) (unfold get Tracker.state_of in refl)
