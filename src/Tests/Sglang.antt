-- ===== src/Tests/Sglang.antt =====
-- Tests of the SGLang probes of bkvt/integrations/sglang.
use beyond_kvtransfer.Base.{
  ◌≡◌, ◌⊎◌, ◌↔◌, refl, String, true, some, List, [], ◌∷◌, string_eq, ◌==◌, ◌&&◌, not, any_by,
  length,
}
use beyond_kvtransfer.Base.Dict.{get}
use beyond_kvtransfer.Value.{Rec}
use beyond_kvtransfer.Py.{Obj, nothing, string, object, attr, no_attrs}
use beyond_kvtransfer.Weights.{Call}
use beyond_kvtransfer.Tracker
use beyond_kvtransfer.Probes.{Process, Original}
use beyond_kvtransfer.Probes.Keeps.{Keeps}
use beyond_kvtransfer.Probes.Orders.{quiet}
use beyond_kvtransfer.Probes.Reports.{events}
use beyond_kvtransfer.Connector.Tracked.{is_live}
use beyond_kvtransfer.Emitter.Run.Live.{Tracks-start}
use beyond_kvtransfer.Sglang.{req_id}
use beyond_kvtransfer.Sglang.Finished.{unseen, candidates}
use beyond_kvtransfer.Sglang.Once.{is_named, ends, unseen-once}
use beyond_kvtransfer.Sglang.Requests.{Site, generate, batch, finished, wrap, run}
use beyond_kvtransfer.Sglang.Requests.Untimed.{untimed, Untimed}
use beyond_kvtransfer.Sglang.Requests.Finishes.{finished-nulls, AllNulls}
use beyond_kvtransfer.Sglang.Kept.{run-Keeps}
use beyond_kvtransfer.Sglang.HiCache.{tier_plan}
use beyond_kvtransfer.Sglang.HiCache.Tiers.{
  tier_plan-moves, IsLoad, IsSave, IsStored, name_of, storage_words, load_words,
}
use beyond_kvtransfer.Text.{codes}
use beyond_kvtransfer.Text.Occurs.{Occurs, SomeOccurs}
use beyond_kvtransfer.Sglang.Moves as Moves
use beyond_kvtransfer.Sglang.Blocks
use beyond_kvtransfer.Sglang.Radix
use beyond_kvtransfer.Sglang.Radix.Flatten.{has_tuple, flatten-agrees}
use beyond_kvtransfer.Base.{pos}
use beyond_kvtransfer.Py.{tuple, items, getattr, integer, next_obj, no_objs}
use beyond_kvtransfer.Py.Reads.{list_of}
use beyond_kvtransfer.Tests.Probes.{env, process, returns, list_1}

abbrev call_r1 : Call
call_r1 = record { args = string "r1" ∷ []; kwargs = [] }

-- a batch that admits the request
abbrev admitting : Obj
admitting = object (attr "new_reqs" (list_1 (string "r1")) no_attrs)

abbrev calls : List (Site × Original)
calls = (generate call_r1, returns nothing) ∷ (batch nothing nothing, returns admitting) ∷ []

returns-Untimed : (v : Obj) → Keeps untimed (returns v)
unfolding untimed
returns-Untimed v = record { kept = λ p u. u }

returns-Quiet : (v : Obj) → Keeps quiet (returns v)
unfolding quiet
returns-Quiet v = record { kept = λ p. record { enabled = refl; sampler = refl; live = refl } }

none_timed : Untimed process.states
none_timed = record { untimed = λ r. unfold get Tracker.state_of in refl }

still_enabled : (run env calls process).em.enabled ≡ true
unfolding quiet
still_enabled =
    (run-Keeps quiet env refl (λ r p. record { enabled = refl; sampler = refl; live = refl }) calls
      process (returns-Quiet nothing, (returns-Quiet admitting, tt))).enabled

finished-nulls_example :
    (rs : List Rec) × ((wrap env (finished call_r1) (returns nothing) (run env calls process)).1
      ≡ some nothing)
    × ((wrap env (finished call_r1) (returns nothing) (run env calls process)).0.em
        ≡ events 0 rs (run env calls process).em)
    × (length rs ≡ length (unseen [] (candidates call_r1 nothing)))
    × AllNulls rs
finished-nulls_example =
    finished-nulls env calls process call_r1 (returns nothing) (run env calls process) nothing
      (returns-Untimed nothing, (returns-Untimed admitting, tt)) none_timed
      (returns-Untimed nothing) still_enabled refl

abbrev twice : List Obj
twice = string "r1" ∷ object (attr "rid" (string "r1") no_attrs) ∷ []

unseen-once_example : ends "r1" (unseen [] twice) ≡ 1
unfolding any_by is_named req_id
unseen-once_example = unseen-once "r1" twice

abbrev load : Moves.Move
load = Moves.controller "load_from_storage" call_r1

abbrev inside : Process
inside = Moves.entered env load process

opened_enabled : inside.em.enabled ≡ true
opened_enabled =
    (Tracks-start "u1" 0 "u1" (env.draws 1) 15 (Moves.start_args env load 5) process.em
      refl).enabled

wrap-ends_example :
    ((id : String)
      → is_live id (Moves.wrap env load (returns nothing) process).0.em
        ≡ (not ("u1" == id) && is_live id inside.em))
    × ((Moves.wrap env load (returns nothing) process).1 ≡ some nothing)
wrap-ends_example =
    Moves.wrap-ends env load (returns nothing) process inside (some nothing) refl refl
      opened_enabled

tier_plan-moves_example :
    let plan = tier_plan "load_to_host" in
    let name = name_of "load_to_host" in
    (IsLoad plan ⊎ IsSave plan)
    × (IsStored plan ↔ SomeOccurs storage_words name)
    × (IsLoad plan ↔ (
        SomeOccurs load_words name
        ⊎ (¬ SomeOccurs storage_words name × Occurs (codes "to_device") name)))
tier_plan-moves_example = tier_plan-moves "load_to_host"

-- a list in a list
abbrev nested : Obj
nested = list_1 (list_1 (integer (pos 4)))

flatten-agrees_example : Radix.flatten nested ≡ Blocks.flatten nested
flatten-agrees_example =
    flatten-agrees nested refl
      (unfold any_by has_tuple Blocks.to_list list_of items getattr Blocks.tolisted in refl)

-- of a tuple in a list, the radix probe keeps the first item only
abbrev pair : Obj
pair = tuple (next_obj (integer (pos 1)) (next_obj (integer (pos 2)) no_objs))

flattened_pair :
    (Radix.flatten (list_1 pair) ≡ integer (pos 1) ∷ [])
    × (Blocks.flatten (list_1 pair) ≡ integer (pos 1) ∷ integer (pos 2) ∷ [])
unfolding Radix.flatten Blocks.flatten
flattened_pair = (refl, refl)

-- None as the first item of a tuple is an item, at the top and below it
tuple_of_none :
    (Radix.to_list (tuple (next_obj nothing (next_obj (integer (pos 1)) no_objs))) ≡ nothing ∷ [])
    × (Radix.flat_item (tuple (next_obj nothing no_objs)) ≡ nothing ∷ [])
unfolding Radix.to_list Radix.listed Radix.flat_item getattr list_of
tuple_of_none = (refl, refl)
