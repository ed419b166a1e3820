-- ===== src/Scheduler.antt =====
-- What the scheduler probes of bkvt/integrations/vllm/scheduler_probe.py read of the engine's objects.
-- A set of request ids is a list without repetition.
pub mod Arrival
pub mod Steps
pub mod Endings
pub mod Kept
pub mod Admission
use beyond_kvtransfer.Base.{
  ℕ, String, Bool, true, false, Option, none, some, List, [], ◌∷◌, ◌++◌, map, not, if◌then◌else◌,
  ◌==◌, string_eq, ◌||◌, ◌&&◌, ltb, leb, ◌+◌, any_by,
}
use beyond_kvtransfer.Base.Dict.{or_else}
use beyond_kvtransfer.Value.{Value, text, arr, elements_of, nat, null}
use beyond_kvtransfer.Text.{Text, codes, text_eq}
use beyond_kvtransfer.Sampling.{member}
use beyond_kvtransfer.Config.{lower}
use beyond_kvtransfer.Py.{Obj, nothing, integer, string, as_text, getattr, first_attr, or_obj}
use beyond_kvtransfer.Py.Reads.{Classes, list_of, len_of, is_given, getattr_or}
use beyond_kvtransfer.Base.{pos}

-- `_req_id`
unfoldable pub req_id : Obj → Option String
unfolding first_attr
req_id obj = first_attr as_text ("req_id" ∷ "request_id" ∷ "id" ∷ []) obj

-- the id of an item of an iterable: that of a request, or the text itself
unfoldable pub item_id : Obj → Option String
unfolding req_id
item_id (string s) = some s
item_id item = req_id item

-- `if rid: ids.append(rid)`
abbrev pub keep_id : Option String → List String → List String
keep_id none ids = ids
keep_id (some s) ids = if s == "" then ids else s ∷ ids

unfoldable pub ids_of : List Obj → List String
unfolding item_id
ids_of [] = []
ids_of (v ∷ vs) = keep_id (item_id v) (ids_of vs)

-- `_req_ids_from_iterable`: none where the value is not iterable
unfoldable pub req_ids_from : Obj → Option (List String)
unfolding ids_of list_of
req_ids_from nothing = some []
req_ids_from v = elim (list_of v) [ none ↦ none | some vs ↦ some (ids_of vs) ]

-- `set(ids)`
unfoldable pub set_of : List String → List String
unfolding member
set_of [] = []
set_of (s ∷ ids) = let rest = set_of ids in if member s rest then rest else s ∷ rest

-- `a - b`
unfoldable pub without : List String → List String → List String
unfolding member
without [] b = []
without (s ∷ a) b = let rest = without a b in if member s b then rest else s ∷ rest

abbrev set_of_ids : Option (List String) → Option (List String)
set_of_ids none = none
set_of_ids (some ids) = some (set_of ids)

-- `_get_running_ids` and `_get_waiting_ids`: none where the attribute is not iterable
unfoldable pub running_ids : Obj → Option (List String)
unfolding req_ids_from set_of getattr
running_ids scheduler = set_of_ids (req_ids_from (getattr "running" scheduler))

unfoldable pub waiting_ids : Obj → Option (List String)
unfolding req_ids_from set_of getattr
waiting_ids scheduler = set_of_ids (req_ids_from (getattr "waiting" scheduler))

-- `v if v is not None`
abbrev pub given : Obj → Option Obj
given v = if is_given v then some v else none

-- the ids of the first of these attributes that is there
unfoldable pub ids_from_first : List String → Obj → Option (List String)
unfolding first_attr req_ids_from
ids_from_first names obj = elim (first_attr given names obj) [
  | none ↦ some []
  | some v ↦ req_ids_from v
]

-- the cached requests that were not running and are not there yet
unfoldable pub admit_cached : List String → List String → List String → List String
unfolding member
admit_cached running [] admitted = admitted
admit_cached running (s ∷ ids) admitted =
    admit_cached running ids
      (if member s running || member s admitted then admitted else admitted ++ s ∷ [])

-- the resumed requests, with those that a difference of states shows
unfoldable pub add_resumed : List String → List String → List String
unfolding member
add_resumed [] resumed = resumed
add_resumed (s ∷ ids) resumed =
    add_resumed ids (if member s resumed then resumed else resumed ++ s ∷ [])

-- the number of free blocks of the block pool
unfoldable pub free_block_count : Obj → Obj
unfolding getattr or_obj len_of
free_block_count scheduler =
    let pool = getattr "block_pool" (getattr "kv_cache_manager" scheduler) in
    elim (len_of (or_obj (getattr "free_block_ids" pool) (getattr "free_blocks" pool))) [
      | none ↦ nothing
      | some n ↦ integer (pos n)
    ]

abbrev pub texts : List String → Value
texts ids = arr (elements_of (map text ids))

abbrev aborting : List Text
aborting = codes "abort" ∷ codes "aborted" ∷ codes "cancelled" ∷ codes "canceled" ∷ []

-- `s.lower() in ("abort", "aborted", "cancelled", "canceled")`
unfoldable pub is_aborting : Text → Bool
unfolding lower any_by
is_aborting s = any_by (λ w. w == map lower s) aborting
