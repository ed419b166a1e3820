-- ===== src/Connector.antt =====
-- The connector wrapper of bkvt/integrations/vllm/connector_wrapper.py: what it reads of the calls,
-- and its book of the transfers under way.
pub mod Calls
pub mod Tracked
pub mod Lookups
pub mod Ends
pub mod Booked
pub mod Run
use beyond_kvtransfer.Base.{
  ℕ, String, Bool, true, false, Option, none, some, List, [], ◌∷◌, ◌++◌, ◌||◌, map, if◌then◌else◌,
  ◌==◌, string_eq, opt_int_eq, ℤ, pos, eqb, ◌&&◌,
}
use beyond_kvtransfer.Base.Dict.{Dict, get, set, setdefault, remove, or_else}
use beyond_kvtransfer.Text.{contains, Text, codes}
use beyond_kvtransfer.Py.{
  Obj, nothing, integer, string, sequence, object, Objs, items, getattr, as_int, as_text,
  first_attr, last_number,
}
use beyond_kvtransfer.Py.Reads.{list_of}

-- `_req_id`
unfoldable pub req_id : Obj → Option String
unfolding first_attr
req_id (string s) = some s
req_id obj = first_attr as_text ("req_id" ∷ "request_id" ∷ "id" ∷ []) obj

-- `_layer_idx`, of a layer name in ASCII
unfoldable pub layer_idx : Obj → Option ℤ
unfolding first_attr last_number
layer_idx (integer n) = some n
layer_idx (string s) = elim (last_number none none (codes s)) [
  | none ↦ none
  | some n ↦ some (pos n)
]
layer_idx layer = first_attr as_int ("layer_idx" ∷ "layer_id" ∷ "idx" ∷ []) layer

-- `_as_list`
unfoldable pub as_list : Obj → List Obj
unfolding list_of
as_list nothing = []
as_list (string s) = string s ∷ []
as_list obj = or_else (list_of obj) (obj ∷ [])

-- `_block_id`
unfoldable pub block_id : Obj → Option ℤ
unfolding first_attr
block_id (integer n) = some n
block_id block = first_attr as_int ("block_id" ∷ "id" ∷ "block_number" ∷ []) block

-- the loop of `_block_ids_from`
unfoldable pub ids_of : List Obj → List ℤ
ids_of [] = []
ids_of (v ∷ vs) = elim (block_id v) [ none ↦ ids_of vs | some n ↦ n ∷ ids_of vs ]

unfoldable pub block_ids_from : Obj → List ℤ
unfolding ids_of as_list
block_ids_from value = ids_of (as_list value)

-- `_bytes_from`, whose last attempt reads the first attribute again
unfoldable pub bytes_from : Obj → Option ℤ
unfolding first_attr
bytes_from (integer n) = some n
bytes_from value = first_attr as_int ("nbytes" ∷ "num_bytes" ∷ "bytes" ∷ "size_bytes" ∷ []) value

-- `_transport_for`, from the lower-case name of the connector's module and class
unfoldable pub transport_for : Text → String
unfolding contains
transport_for name =
    if contains (codes "nixl") name
    then "nixl"
    else if contains (codes "lmcache") name
    then "tcp"
    else if contains (codes "shared_storage") name
        || contains (codes "file") name
        || contains (codes "storage") name
    then "file"
    else "tcp"

-- `_src_dst_for`
unfoldable pub src_dst_for : String → String → String × String
src_dst_for direction transport =
    if direction == "load"
    then (if transport == "nixl"
        then ("HBM_PEER_RDMA", "HBM_LOCAL")
        else if transport == "file"
        then ("OBJECT_STORE", "HBM_LOCAL")
        else ("DRAM_REMOTE", "HBM_LOCAL"))
    else if transport == "nixl"
    then ("HBM_LOCAL", "HBM_PEER_RDMA")
    else if transport == "file"
    then ("HBM_LOCAL", "OBJECT_STORE")
    else ("HBM_LOCAL", "DRAM_REMOTE")

-- what is kept of a transfer until its end
pub record Entry : Type 0 where
  pub transfer_id : String
  pub started_ts_ns : ℕ
  pub bytes : Option ℤ
  pub request_id : Option String
  pub layer : Option ℤ

-- `ConnectorTransferState`
pub record TransferState : Type 0 where
  pub loads_by_layer : Dict (Option ℤ) (List Entry)
  pub saves : List Entry
  pub earliest_by_request : Dict String ℕ

unfoldable pub new : TransferState
new = record { loads_by_layer = []; saves = []; earliest_by_request = [] }

unfoldable pub remember_earliest : Option String → ℕ → TransferState → TransferState
remember_earliest none ts s = s
remember_earliest (some request_id) ts s =
    if request_id == ""
    then s
    else record s { earliest_by_request = setdefault request_id ts s.earliest_by_request }

unfoldable pub earliest_for : Option String → TransferState → Option ℕ
earliest_for none s = none
earliest_for (some request_id) s =
    if request_id == "" then none else get request_id s.earliest_by_request

unfoldable pub add_load : Option ℤ → Entry → TransferState → TransferState
add_load layer entry s = record s {
  loads_by_layer =
      set layer (or_else (get layer s.loads_by_layer) [] ++ entry ∷ []) s.loads_by_layer;
}

-- the loads of no layer, where a layer has none of its own
unfoldable pub pop_unassigned : Option ℤ → TransferState → List Entry × TransferState
pop_unassigned none s = ([], s)
pop_unassigned (some n) s = elim (get none s.loads_by_layer) [
  | none ↦ ([], s)
  | some loads ↦ (loads, record s { loads_by_layer = remove none s.loads_by_layer })
]

unfoldable pub pop_loads : Option ℤ → TransferState → List Entry × TransferState
unfolding pop_unassigned
pop_loads layer s = elim (get layer s.loads_by_layer) [
  | some loads ↦ (loads, record s { loads_by_layer = remove layer s.loads_by_layer })
  | none ↦ pop_unassigned layer s
]

unfoldable pub add_save : Entry → TransferState → TransferState
add_save entry s = record s { saves = s.saves ++ entry ∷ [] }

unfoldable pub pop_saves : TransferState → List Entry × TransferState
pop_saves s = (s.saves, record s { saves = [] })
