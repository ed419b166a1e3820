-- ===== src/Connector/Lookups.antt =====
-- The probes of the connector wrapper on the scheduler's side: `get_num_new_matched_tokens`,
-- `update_state_after_alloc`, `build_connector_meta` and `get_finished`. A call of the wrapped
-- connector gives the emitter after it and its result, none where it raises. `int(result)` of a
-- result that is no integer raises, and counts 0.
pub mod Earliest
pub mod Booked
use beyond_kvtransfer.Base.{
  ℕ, suc, String, Bool, true, false, Option, none, some, List, [], ◌∷◌, if◌then◌else◌, ◌==◌,
  string_eq, ℤ, pos, ◌-ℤ◌, leb_ℤ, length, not,
}
use beyond_kvtransfer.Base.Dict.{get, or_else}
use beyond_kvtransfer.Value.{Value, Rec, Float, text, int, null, nat}
use beyond_kvtransfer.Text.{codes}
use beyond_kvtransfer.Py.{
  Obj, nothing, integer, string, sequence, tuple, mapping, Attrs, no_attrs, attr, items, getattr,
  as_int,
}
use beyond_kvtransfer.Py.Reads.{Classes, int_of}
use beyond_kvtransfer.Emitter.State.{Emitter, event}
use beyond_kvtransfer.Emitter.Probe.{metadata_enter, metadata_exit}
use beyond_kvtransfer.Connector.{TransferState, req_id, as_list, block_ids_from, remember_earliest}
use beyond_kvtransfer.Connector.Calls.{Connector}

abbrev pub Inner : Type 0
Inner = Emitter → Emitter × Option Obj

-- "DRAM_REMOTE" if self._transport != "nixl" else "HBM_PEER_RDMA"
unfoldable pub remote_tier : String → String
remote_tier transport = if transport == "nixl" then "HBM_PEER_RDMA" else "DRAM_REMOTE"

unfoldable pub count_attrs : Attrs → ℕ
count_attrs no_attrs = 0
count_attrs (attr k v attrs) = suc (count_attrs attrs)

-- `_len_or_none`, where an object has no length
unfoldable pub len_or_none : Obj → Value
unfolding items count_attrs
len_or_none (sequence vs) = nat (length (items vs))
len_or_none (tuple vs) = nat (length (items vs))
len_or_none (mapping attrs) = nat (count_attrs attrs)
len_or_none (string s) = nat (length (codes s))
len_or_none v = null

-- what the body of the `prefix_lookup` probe writes after the call
unfoldable pub lookup_record : Classes → ℤ → Option Obj → Rec
unfolding int_of
lookup_record classes num_computed none = []
lookup_record classes num_computed (some result) =
    let matched = or_else (int_of classes result) (pos 0) in
    let fresh = matched -ℤ num_computed in
    ("n_keys", nat 1)
    ∷ ("n_hits", int (if leb_ℤ (pos 0) fresh then fresh else pos 0))
    ∷ ("hit_depth_tokens", int matched)
    ∷ []

-- a metadata probe around a call; `kw` and `request_id` are its arguments, `written` what its body
-- writes, given the result
unfoldable pub probed :
    ℕ
    → String
    → Option String
    → Rec
    → (Option Obj → Rec)
    → Float
    → ℕ
    → ℕ
    → Inner
    → Emitter
    → Emitter × Option Obj
probed thread subtype request_id kw written draw t0 t1 inner em =
    let probe = metadata_enter subtype draw em in
    let (em', result) = inner em in
    (metadata_exit thread subtype request_id kw probe t0 t1 (written result) em', result)

-- `ts` is the clock after the call
unfoldable pub get_num_new_matched_tokens :
    Classes → ℕ → Float → ℕ → ℕ → ℕ → Obj → ℤ → Inner → Connector → Connector × Option Obj
unfolding probed remote_tier lookup_record req_id
get_num_new_matched_tokens classes thread draw t0 t1 ts request num_computed inner c =
    if c.em.enabled
    then (let id = req_id request in
        let kw =
          ("tier_scope", text (remote_tier c.transport)) ∷ ("structure", text "hashmap") ∷ [] in
        let (em, result) =
          probed thread "prefix_lookup" id kw (lookup_record classes num_computed) draw t0 t1 inner
            c.em in
        (
          record c {
            em = em;
            state = elim result [ none ↦ c.state | some v ↦ remember_earliest id ts c.state ];
          },
          result,
        ))
    else let (em, result) = inner c.em in (record c { em = em }, result)

unfoldable pub promote_record : ℕ → String → Option String → ℤ → Rec
unfolding remote_tier
promote_record ts transport request_id block_id =
    ("ts_ns", nat ts)
    ∷ ("type", text "kv_block")
    ∷ ("subtype", text "tier_promote")
    ∷ ("block_id", int block_id)
    ∷ ("tier_before", text (remote_tier transport))
    ∷ ("tier_after", text "HBM_LOCAL")
    ∷ ("owner_request_id", elim request_id [ none ↦ null | some s ↦ text s ])
    ∷ ("reason", text "connector_load")
    ∷ []

-- the loop over the block ids
unfoldable pub promote_all : ℕ → (ℤ → Rec) → List ℤ → Emitter → Emitter
promote_all thread rec [] em = em
promote_all thread rec (id ∷ ids) em = promote_all thread rec ids (event thread (rec id) em)

unfoldable pub update_state_after_alloc :
    ℕ → ℕ → Obj → Obj → Inner → Connector → Connector × Option Obj
unfolding promote_record promote_all block_ids_from req_id
update_state_after_alloc thread ts request blocks inner c =
    let (em, result) = inner c.em in
    if c.em.enabled
    then elim result [
      | none ↦ (record c { em = em }, none)
      | some v ↦ (
        record c {
          em =
              promote_all thread (promote_record ts c.transport (req_id request))
                (block_ids_from blocks) em;
        },
        some v,
      )
    ]
    else (record c { em = em }, result)

unfoldable pub build_record : Obj → Option Obj → Rec
unfolding len_or_none
build_record scheduler_output none = []
build_record scheduler_output (some result) =
    ("n_keys", len_or_none (getattr "scheduled_new_reqs" scheduler_output))
    ∷ ("size_after", len_or_none result)
    ∷ []

unfoldable pub finished_record : Option Obj → Rec
unfolding len_or_none
finished_record none = []
finished_record (some result) = ("n_hits", len_or_none result) ∷ []

unfoldable pub build_connector_meta :
    ℕ → Float → ℕ → ℕ → Obj → Inner → Connector → Connector × Option Obj
unfolding probed build_record
build_connector_meta thread draw t0 t1 scheduler_output inner c =
    let probe =
      probed thread "connector_build_meta" none [] (build_record scheduler_output) draw t0 t1
        inner in
    let (em, result) = if c.em.enabled then probe c.em else inner c.em in
    (record c { em = em }, result)

unfoldable pub get_finished : ℕ → Float → ℕ → ℕ → Obj → Inner → Connector → Connector × Option Obj
unfolding probed finished_record as_list
get_finished thread draw t0 t1 finished_req_ids inner c =
    let kw = ("n_keys", nat (length (as_list finished_req_ids))) ∷ [] in
    let probe = probed thread "connector_get_finished" none kw finished_record draw t0 t1 inner in
    let (em, result) = if c.em.enabled then probe c.em else inner c.em in
    (record c { em = em }, result)
