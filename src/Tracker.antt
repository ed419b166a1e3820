-- ===== src/Tracker.antt =====
-- `RequestStateTracker` of bkvt/integrations/vllm/scheduler_probe.py: what is known of each request that
-- is under way. Each method runs under the tracker's lock.
pub mod Laws
use beyond_kvtransfer.Base.{
  String, Bool, true, false, Option, none, some, List, [], ◌∷◌, map, if◌then◌else◌, string_eq,
}
use beyond_kvtransfer.Base.Dict.{Dict, get, set, setdefault, remove, has, or_else}
use beyond_kvtransfer.Base.Dict as Dict
use beyond_kvtransfer.Value.{Value, Rec}

abbrev pub States : Type 0
States = Dict String Rec

-- `update`
unfoldable pub update : String → Rec → States → States
update request_id fields s = set request_id (Dict.update (or_else (get request_id s) []) fields) s

-- `set_if_absent`, with whether the value was set
unfoldable pub set_if_absent : String → String → Value → States → States × Bool
set_if_absent request_id key v s =
    let state = or_else (get request_id s) [] in
    if has key state
    then (set request_id state s, false)
    else (set request_id (set key v state) s, true)

-- `get`: a copy, empty for a request that is not tracked
unfoldable pub state_of : String → States → Rec
state_of request_id s = or_else (get request_id s) []

-- `pop`
unfoldable pub pop : String → States → Rec × States
unfolding state_of
pop request_id s = (state_of request_id s, remove request_id s)

-- `all_ids`
unfoldable pub all_ids : States → List String
all_ids [] = []
all_ids ((request_id, state) ∷ s) = request_id ∷ all_ids s
