-- ===== src/Tracker/Laws.antt =====
-- What the methods of `RequestStateTracker` of bkvt/integrations/vllm/scheduler_probe.py do to the state
-- of each request.
use beyond_kvtransfer.Base.{
  ◌≡◌, refl, ◌∙◌, ap, String, Bool, true, false, none, some, [], if◌then◌else◌, ◌==◌, string_eq,
}
use beyond_kvtransfer.Base.Dict.{get, set, has, or_else, get-set, get-remove, get-update_absent}
use beyond_kvtransfer.Base.Dict as Dict
use beyond_kvtransfer.Value.{Value, Rec}
use beyond_kvtransfer.Tracker.{States, update, set_if_absent, state_of, pop}

pub state-set :
    (r request_id : String) (state : Rec) (s : States)
    → state_of r (set request_id state s) ≡ (if request_id == r then state else state_of r s)
unfolding state_of
state-set r request_id state s = rw get-set (by_test (request_id == r))
  where
    by_test :
        (b : Bool)
        → or_else (if b then some state else get r s) []
          ≡ (if b then state else or_else (get r s) [])
    by_test true = refl
    by_test false = refl

-- `update` merges the fields into the state of its request, and into no other
pub state-update :
    (r request_id : String) (fields : Rec) (s : States)
    → state_of r (update request_id fields s)
      ≡ (if request_id == r then Dict.update (state_of request_id s) fields else state_of r s)
unfolding update
state-update r request_id fields s =
    state-set r request_id (Dict.update (or_else (get request_id s) []) fields) s
    ∙ unfold state_of in refl

-- `set_if_absent` sets the key where it is not there, and says so
pub state-set_if_absent :
    (r request_id key : String) (v : Value) (s : States)
    → state_of r (set_if_absent request_id key v s).0 ≡ (
        if request_id == r
        then (if has key (state_of request_id s)
            then state_of request_id s
            else set key v (state_of request_id s))
        else state_of r s)
state-set_if_absent r request_id key v s =
    ap (λ x. state_of r x.0) as_chosen ∙ of_chosen (has key state)
  where
    state : Rec
    state = state_of request_id s

    -- `set_if_absent` by its test
    chosen : Bool → States × Bool
    chosen b =
        if b then (set request_id state s, false) else (set request_id (set key v state) s, true)

    as_chosen : set_if_absent request_id key v s ≡ chosen (has key state)
    as_chosen = unfold set_if_absent state_of in refl

    of_chosen :
        (b : Bool)
        → state_of r (chosen b).0
          ≡ (if request_id == r then (if b then state else set key v state) else state_of r s)
    of_chosen true = state-set r request_id state s
    of_chosen false = state-set r request_id (set key v state) s

-- `pop` forgets its request, and no other
pub state-pop :
    (r request_id : String) (s : States)
    → state_of r (pop request_id s).1 ≡ (if request_id == r then [] else state_of r s)
unfolding pop state_of
state-pop r request_id s = rw get-remove (by_test (request_id == r))
  where
    by_test :
        (b : Bool)
        → or_else (if b then none else get r s) [] ≡ (if b then [] else or_else (get r s) [])
    by_test true = refl
    by_test false = refl
