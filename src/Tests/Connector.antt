-- ===== src/Tests/Connector.antt =====
-- Tests of bkvt/integrations/vllm/connector_wrapper.py.
use mathlib.Core.Bool.{false≢true}
use beyond_kvtransfer.Base.{
  ◌-ℤ◌, ==_iff, ◌≡◌, refl, String, Bool, true, false, none, some, List, [], ◌∷◌, string_eq, ◌||◌,
  ◌==◌, if◌then◌else◌, pos, arith, any_by, opt_int_eq,
}
use beyond_kvtransfer.Base.Dict.{get, set, remove}
use beyond_kvtransfer.Text.{codes, contains}
use beyond_kvtransfer.Value.{nat, float_zero}
use beyond_kvtransfer.Py.{
  nothing, integer, string, object, attr, no_attrs, first_attr, getattr, attr_of, last_number,
}
use beyond_kvtransfer.Connector.{
  earliest_for, Entry, new, layer_idx, req_id, transport_for, pop_loads, pop_unassigned, add_load,
}
use beyond_kvtransfer.Connector.Calls.{Connector, Inner, CallArgs, wait_for_save}
use beyond_kvtransfer.Connector.Tracked.{is_live, is_of}
use beyond_kvtransfer.Connector.Booked.{Contained, IsBooked}
use beyond_kvtransfer.Connector.Lookups.{lookup_record}
use beyond_kvtransfer.Connector.Lookups.Earliest.{
  remember_all, first_lookup, first_time, earliest_first,
}
use beyond_kvtransfer.Connector.Ends.{wait_for_save-ends}
use beyond_kvtransfer.Connector.Run.{
  Call, load, save, wait_load, lookup, run, AllContained, run-IsBooked,
}
use beyond_kvtransfer.Py.Reads.{Classes, int_of}
use beyond_kvtransfer.Tests.Run.{emitter}

-- `int("48")` is 48
abbrev numeric : Classes
numeric = record {
  int_of_text = λ s. if s == "48" then some (pos 48) else none;
  int_of_object = λ a. none;
  index_of_object = λ a. none;
  shown = λ v. "";
}

layer_name : layer_idx (string "model.layers.12.attn") ≡ some (pos 12)
unfolding layer_idx last_number
layer_name = refl

request :
    req_id (object (attr "id" (integer (pos 3)) (attr "request_id" (string "r1") no_attrs)))
    ≡ some "r1"
unfolding req_id first_attr getattr attr_of
request = refl

shared_storage : transport_for (codes "vllm.sharedstorageconnector") ≡ "file"
unfolding transport_for contains
shared_storage = refl

abbrev entry : Entry
entry = record {
  transfer_id = "u1";
  started_ts_ns = 3;
  bytes = none;
  request_id = none;
  layer = none;
}

-- loads of no layer are found by a wait for any layer
unassigned : pop_loads (some (pos 4)) (add_load none entry new) ≡ (entry ∷ [], new)
unfolding pop_loads pop_unassigned add_load new get set remove
unassigned = refl

abbrev start : Connector
start = record { em = emitter; state = new; transport = "nixl" }

abbrev no_others : String → Bool
no_others s = false

abbrev returns : Inner
returns em = (em, true)

abbrev raises : Inner
raises em = (em, false)

or_false : (a : Bool) → a ≡ true → (a || false) ≡ true
or_false a h = ground arith

returns-Contained : Contained no_others returns
returns-Contained = record { enabled = λ em. refl; live = λ em tid h. or_false (is_live tid em) h }

raises-Contained : Contained no_others raises
raises-Contained = record { enabled = λ em. refl; live = λ em tid h. or_false (is_live tid em) h }

start-IsBooked : IsBooked no_others start
unfolding is_live new get
start-IsBooked = record { enabled = refl; distinct = tt; booked = λ tid h. absurd (false≢true h) }

abbrev call_args : CallArgs
call_args = record {
  request_id = some "r1";
  layer = some (pos 2);
  block_ids = nothing;
  bytes = integer (pos 64);
  issued_at_phase = none;
}

abbrev calls : List Call
calls =
    load 0 "u1" float_zero 1 2 3 call_args returns
    ∷ save 0 "u2" float_zero 4 5 6 call_args none returns
    ∷ load 0 "u3" float_zero 7 8 9 call_args raises
    ∷ lookup numeric 0 float_zero 9 9 9 (string "r1") (pos 16) (λ em. (em, some (integer (pos 48))))
    ∷ wait_load 0 (some (pos 2)) float_zero 10 11 12 (λ tid. 13) returns
    ∷ []

calls-contained : AllContained no_others calls
calls-contained = (
  returns-Contained,
  (returns-Contained, (raises-Contained, (returns-Contained, (returns-Contained, tt)))),
)

run-IsBooked_example : IsBooked no_others (run calls start)
run-IsBooked_example = run-IsBooked no_others calls start calls-contained start-IsBooked

abbrev saving : Connector
saving = record {
  em = record emitter { live_transfers = ("u1", ("save", "kv")) ∷ [] };
  state = record { loads_by_layer = []; saves = entry ∷ []; earliest_by_request = [] };
  transport = "nixl";
}

wait_for_save-ends_example :
    ((x : String)
      → any_by (is_of x) saving.state.saves ≡ true
      → is_live x (wait_for_save 0 float_zero 10 11 12 (λ tid. 13) raises saving).em ≡ false)
    × ((wait_for_save 0 float_zero 10 11 12 (λ tid. 13) raises saving).state
        ≡ record saving.state { saves = [] })
wait_for_save-ends_example =
    wait_for_save-ends 0 float_zero 10 11 12 (λ tid. 13) raises saving refl refl

earliest_first_example :
    earliest_for (some "r1") (remember_all ((none, 3) ∷ (some "r1", 5) ∷ (some "r1", 8) ∷ []) new)
    ≡ first_time
        (earliest_for (some "r1") new)
        (first_lookup "r1" ((none, 3) ∷ (some "r1", 5) ∷ (some "r1", 8) ∷ []))
earliest_first_example =
    earliest_first "r1" ((none, 3) ∷ (some "r1", 5) ∷ (some "r1", 8) ∷ []) new
      (λ e. absurd (false≢true ((==_iff "r1" "").1 e)))

-- a lookup of 48 tokens, 16 of which were computed here
lookup_hits :
    lookup_record numeric (pos 16) (some (integer (pos 48)))
    ≡ ("n_keys", nat 1) ∷ ("n_hits", nat 32) ∷ ("hit_depth_tokens", nat 48) ∷ []
unfolding lookup_record int_of ◌-ℤ◌
lookup_hits = refl

-- a numeric text counts as its number
lookup_text :
    lookup_record numeric (pos 16) (some (string "48"))
    ≡ ("n_keys", nat 1) ∷ ("n_hits", nat 32) ∷ ("hit_depth_tokens", nat 48) ∷ []
unfolding lookup_record int_of ◌-ℤ◌
lookup_text = refl
