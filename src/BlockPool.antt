-- ===== src/BlockPool.antt =====
-- The block-pool and KV-cache-manager probes of bkvt/integrations/vllm/block_pool_probe.py: what they
-- read of a call, the records that they build, and the eight wrappers. The wrapped method is an
-- argument.
pub mod Wrappers
pub mod Wrapped
use beyond_kvtransfer.Base.{
  ℕ, ◌*◌, String, Bool, true, false, Option, none, some, List, [], ◌∷◌, if◌then◌else◌, ◌==◌,
  string_eq, ℤ, pos, negsuc, sub_ℕ, ◌*ℤ◌, length, ◌++◌,
}
use beyond_kvtransfer.Base.Dict.{get, set, or_else}
use beyond_kvtransfer.Value.{Value, Rec, Float, text, int, null, nat}
use beyond_kvtransfer.Emitter.Probe.{add_float}
use beyond_kvtransfer.Py.{
  Obj, nothing, integer, string, sequence, getattr, as_int, as_text, first_attr, or_obj,
}
use beyond_kvtransfer.Py.Reads.{
  Classes, getattr_or, list_of, int_of, hash_text, value_of, add_obj, add_true, is_given,
}
use beyond_kvtransfer.Weights.{Call, kwarg, first_kwarg}
use beyond_kvtransfer.Weights.Probes.{text_or_null, int_or_null}
use beyond_kvtransfer.Probes.{
  Process, Env, Action, Original, ◌>>=◌, ◌>>◌, pure, when_enabled, now, emit, emit_blocks,
}

-- `_to_list`
unfoldable pub to_list : Obj → List Obj
unfolding list_of
to_list v = or_else (list_of v) []

-- `block if isinstance(block, int) else getattr(block, "block_id", getattr(block, "id", None))`
unfoldable pub block_id : Obj → Obj
unfolding getattr_or
block_id (integer n) = integer n
block_id block = getattr_or "block_id" (getattr_or "id" nothing block) block

-- `getattr(block, "block_hash", getattr(block, "content_hash", None))`
unfoldable pub block_hash : Obj → Obj
unfolding getattr_or
block_hash block = getattr_or "block_hash" (getattr_or "content_hash" nothing block) block

-- the first attribute that names the request
unfoldable pub request_of : Obj → Option String
unfolding first_attr
request_of request = first_attr as_text ("req_id" ∷ "request_id" ∷ "id" ∷ []) request

-- `args[0] if args else kwargs.get(name)`
unfoldable pub first_arg : String → Call → Obj
unfolding kwarg
first_arg name call = elim call.args [ [] ↦ kwarg name call | v ∷ vs ↦ v ]

abbrev pub second : List Obj → Option Obj
second (a ∷ b ∷ vs) = some b
second vs = none

-- the second argument, or the keyword `blocks`
unfoldable pub blocks_arg : Call → Obj
unfolding kwarg
blocks_arg call = or_else (second call.args) (kwarg "blocks" call)

-- `kwargs.get(k)`, with a default for a key that is not there
unfoldable pub kwarg_or : String → Obj → Call → Obj
unfolding kwarg
kwarg_or k default call = or_else (get k call.kwargs) default

-- `args[0] if args else kwargs.get("block_ids", kwargs.get("blocks"))`
unfoldable pub freed_arg : Call → Obj
unfolding kwarg kwarg_or
freed_arg call = elim call.args [
  | [] ↦ kwarg_or "block_ids" (kwarg "blocks" call) call
  | v ∷ vs ↦ v
]

-- `_current_request_id() or kwargs.get("request_id")`
unfoldable pub owner : Option String → Call → Obj
unfolding kwarg
owner none call = kwarg "request_id" call
owner (some s) call = if s == "" then kwarg "request_id" call else string s

-- `if rate is not None: rec["sample_decision"] = rate`
abbrev pub rate_field : Option Float → Rec → Rec
rate_field rate r = add_float "sample_decision" rate r

-- a further step of the building of a record
abbrev pub finished : (Rec → Rec) → Option Rec → Option Rec
finished f none = none
finished f (some r) = some (f r)

module _ (classes : Classes) where
  -- `block_id if block_id is not None else -1`
  unfoldable pub id_or_minus_one : Obj → Value
  unfolding value_of block_id
  id_or_minus_one block = elim (is_given (block_id block)) [
    | true ↦ value_of classes (block_id block)
    | false ↦ int (negsuc 0)
  ]

  -- `rec["block_hash"] = …` where the block has a hash: none where `hex` raises
  unfoldable pub add_hash : Obj → Rec → Option Rec
  unfolding hash_text
  add_hash hash r =
      if is_given hash
      then elim (hash_text classes hash) [
        | none ↦ none
        | some s ↦ some (set "block_hash" (text s) r)
      ]
      else some r

  -- the fields that every record of a block has
  unfoldable pub block_base : ℕ → String → Obj → Value → Value → String → Rec
  unfolding id_or_minus_one
  block_base ts subtype block before after reason =
      ("ts_ns", nat ts)
      ∷ ("type", text "kv_block")
      ∷ ("subtype", text subtype)
      ∷ ("block_id", id_or_minus_one block)
      ∷ ("tier_before", before)
      ∷ ("tier_after", after)
      ∷ ("reason", text reason)
      ∷ []

  unfoldable pub allocate_record : Obj → ℕ → Obj → Option Float → Option Rec
  unfolding block_base block_hash add_hash add_true add_float
  allocate_record request_id ts block rate =
      finished (λ r. rate_field rate (add_true classes "owner_request_id" request_id r))
        (add_hash (block_hash block) (
          block_base ts "allocate" block null (text "HBM_LOCAL") "scheduler"
          ++ (("refcount_before", nat 0) ∷ ("refcount_after", nat 1) ∷ [])))

  unfoldable pub free_record : Obj → ℕ → Obj → Option Float → Option Rec
  unfolding block_base add_true add_float
  free_record request_id ts block rate = some (
      rate_field rate (
        add_true classes "owner_request_id" request_id (
          block_base ts "free" block (text "HBM_LOCAL") null "finish_free"
          ++ (("refcount_before", nat 1) ∷ ("refcount_after", nat 0) ∷ []))))

  unfoldable pub evict_record : ℕ → Obj → Option Float → Option Rec
  unfolding block_base block_hash add_hash add_obj add_float getattr getattr_or
  evict_record ts block rate =
      let reuse = getattr_or "reuse_count" (getattr_or "num_hashed_tokens" nothing block) block in
      finished
        (λ r. rate_field rate (
          add_obj classes "reuse_count" reuse
            (add_obj classes "age_ns" (getattr "age_ns" block) r)))
        (add_hash (block_hash block)
          (block_base ts "evict" block (text "HBM_LOCAL") null "capacity_evict"))

  -- `if last_reuse_ts is not None: rec["last_reuse_ts_ns"] = int(last_reuse_ts)`
  unfoldable pub add_last_reuse : Obj → Rec → Option Rec
  unfolding int_of
  add_last_reuse v r =
      if is_given v
      then elim (int_of classes v) [
        | none ↦ none
        | some n ↦ some (set "last_reuse_ts_ns" (int n) r)
      ]
      else some r

  abbrev pub then_reuse : Obj → Option Rec → Option Rec
  then_reuse v none = none
  then_reuse v (some r) = add_last_reuse v r

  unfoldable pub prefix_hit_record : Obj → ℕ → Obj → Option Float → Option Rec
  unfolding block_base block_hash add_hash add_obj add_true add_float getattr add_last_reuse
  prefix_hit_record request_id ts block rate = finished (rate_field rate) (
      then_reuse (getattr "last_accessed" block) (
        finished (add_obj classes "reuse_count" (getattr "reuse_count" block)) (
          add_hash (block_hash block) (
            add_true classes "owner_request_id" request_id (
              block_base ts "prefix_hit" block (text "HBM_LOCAL") (text "HBM_LOCAL")
                "prefix_match")))))

  unfoldable pub hash_insert_record : Obj → ℕ → Obj → Option Float → Option Rec
  unfolding block_base block_hash add_hash add_true add_float
  hash_insert_record request_id ts block rate = finished (rate_field rate) (
      add_hash (block_hash block) (
        add_true classes "owner_request_id" request_id
          (block_base ts "hash_insert" block (text "HBM_LOCAL") (text "HBM_LOCAL") "scheduler")))
