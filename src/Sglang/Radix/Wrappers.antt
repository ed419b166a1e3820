-- ===== src/Sglang/Radix/Wrappers.antt =====
-- The wrappers of bkvt/integrations/sglang/radix_probe.py. `self` is the object whose method is
-- wrapped, and `self'` is the same object after the call.
use beyond_kvtransfer.Base.{
  ℕ, String, Option, none, some, List, [], ◌∷◌, string_eq, pos, negsuc, sub_ℕ, ◌*ℤ◌, length,
}
use beyond_kvtransfer.Base.Dict.{set, or_else}
use beyond_kvtransfer.Value.{Value, Rec, Float, text, int, null, nat}
use beyond_kvtransfer.Emitter.Probe.{add_text}
use beyond_kvtransfer.Py.{Obj, getattr}
use beyond_kvtransfer.Py.Reads.{add_obj}
use beyond_kvtransfer.Weights.{Call}
use beyond_kvtransfer.Weights.Probes.{text_or_null, int_or_null}
use beyond_kvtransfer.Probes.{Env, Action, Original, ◌>>◌, pure, emit, emit_blocks, timed, followed}
use beyond_kvtransfer.BlockPool.{second, rate_field, finished}
use beyond_kvtransfer.Sglang.Blocks.{block_id}
use beyond_kvtransfer.Sglang.Radix.{
  flatten, request_id, key_arg, freed_arg, n_keys_or, block_size_tokens, cache_size, block_hash,
  first_int,
}

abbrev block_names : List String
block_names = "block_id" ∷ "id" ∷ "idx" ∷ "index" ∷ []

abbrev summary : ℕ → String → Rec → Rec
summary ts subtype fields =
    ("ts_ns", nat ts) ∷ ("type", text "metadata") ∷ ("subtype", text subtype) ∷ fields

abbrev spent : ℕ → ℕ → Value
spent t_start t_end = int (sub_ℕ t_end t_start)

-- the blocks that were inserted: those of the result, or those of the second argument
abbrev pub inserted_or : List Obj → Option Obj → List Obj
inserted_or [] none = []
inserted_or [] (some v) = flatten v
inserted_or (b ∷ bs) later = b ∷ bs

unfoldable pub inserted_of : Call → Obj → List Obj
unfolding flatten
inserted_of call result = inserted_or (flatten result) (second call.args)

abbrev first_count : List Obj → Value
first_count [] = null
first_count (v ∷ vs) = nat (length (flatten v))

abbrev with_hash : Option (Option String) → Rec → Option Rec
with_hash none r = none
with_hash (some none) r = some r
with_hash (some (some s)) r = some (set "block_hash" (text s) r)

module _ (env : Env) where
  -- `bid if bid is not None else -1`
  unfoldable pub id_of : Obj → Value
  unfolding block_id
  id_of block = int (or_else (block_id env.classes block_names block) (negsuc 0))

  -- the fields that every record of a block begins with
  unfoldable pub block_base : ℕ → String → Obj → Rec → Rec
  unfolding id_of
  block_base ts subtype block fields =
      ("ts_ns", nat ts)
      ∷ ("type", text "kv_block")
      ∷ ("subtype", text subtype)
      ∷ ("block_id", id_of block)
      ∷ fields

  unfoldable pub prefix_hit_record : Call → Obj → ℕ → Obj → Option Float → Option Rec
  unfolding block_base block_size_tokens request_id add_text block_hash add_obj getattr
  prefix_hit_record call self ts block rate =
      finished
        (λ r. rate_field rate (add_obj env.classes "reuse_count" (getattr "reuse_count" block) r))
        (with_hash (block_hash env.classes block) (
          add_text "owner_request_id" (request_id call) (
            block_base ts "prefix_hit" block (
              ("block_size_tokens", int (block_size_tokens self))
              ∷ ("tier_before", text "HBM_LOCAL")
              ∷ ("tier_after", text "HBM_LOCAL")
              ∷ ("reason", text "prefix_match")
              ∷ []))))

  unfoldable pub hash_insert_record : Call → ℕ → Obj → Option Float → Option Rec
  unfolding block_base request_id add_text block_hash
  hash_insert_record call ts block rate = finished (rate_field rate) (
      with_hash (block_hash env.classes block) (
        add_text "owner_request_id" (request_id call) (
          block_base ts "hash_insert" block (
            ("tier_before", text "HBM_LOCAL")
            ∷ ("tier_after", text "HBM_LOCAL")
            ∷ ("reason", text "scheduler")
            ∷ []))))

  unfoldable pub evict_record : ℕ → Obj → Option Float → Option Rec
  unfolding block_base
  evict_record ts block rate = some (
      rate_field rate (
        block_base ts "evict" block (
          ("tier_before", text "HBM_LOCAL")
          ∷ ("tier_after", null)
          ∷ ("reason", text "capacity_evict")
          ∷ [])))

  unfoldable pub allocate_record : ℕ → Obj → Option Float → Option Rec
  unfolding block_base
  allocate_record ts block rate = some (
      rate_field rate (
        block_base ts "allocate" block (
          ("tier_after", text "HBM_LOCAL")
          ∷ ("reason", text "scheduler")
          ∷ ("refcount_before", nat 0)
          ∷ ("refcount_after", nat 1)
          ∷ [])))

  unfoldable pub free_record : ℕ → Obj → Option Float → Option Rec
  unfolding block_base
  free_record ts block rate = some (
      rate_field rate (
        block_base ts "free" block (
          ("tier_before", text "HBM_LOCAL")
          ∷ ("reason", text "finish_free")
          ∷ ("refcount_before", nat 1)
          ∷ ("refcount_after", nat 0)
          ∷ [])))

  unfoldable pub match_after : Obj → Call → ℕ → ℕ → Obj → Action Obj
  unfolding emit emit_blocks flatten block_size_tokens request_id n_keys_or key_arg
      prefix_hit_record
  match_after self call t_start t_end result = do
    let n_hits = length (flatten result)
    emit env (
        summary t_start "prefix_lookup" (
          ("request_id", text_or_null (request_id call))
          ∷ ("duration_ns", spent t_start t_end)
          ∷ ("n_keys", n_keys_or null (key_arg call))
          ∷ ("n_hits", nat n_hits)
          ∷ ("hit_depth_tokens", int (pos n_hits *ℤ block_size_tokens self))
          ∷ ("tier_scope", text "HBM_LOCAL")
          ∷ ("structure", text "radix")
          ∷ []))
    emit_blocks env "prefix_hit" (prefix_hit_record call self t_end) (flatten result)
    pure result

  unfoldable pub insert_after : Obj → Obj → Call → ℕ → ℕ → Obj → Action Obj
  unfolding emit emit_blocks inserted_of request_id n_keys_or key_arg cache_size hash_insert_record
  insert_after self self' call t_start t_end result = do
    emit env (
        summary t_start "prefix_insert" (
          ("request_id", text_or_null (request_id call))
          ∷ ("duration_ns", spent t_start t_end)
          ∷ ("n_keys", n_keys_or (nat (length (inserted_of call result))) (key_arg call))
          ∷ ("tier_scope", text "HBM_LOCAL")
          ∷ ("structure", text "radix")
          ∷ ("size_before", int_or_null (cache_size self))
          ∷ ("size_after", int_or_null (cache_size self'))
          ∷ []))
    emit_blocks env "hash_insert" (hash_insert_record call t_end) (inserted_of call result)
    pure result

  unfoldable pub evict_after : ℕ → ℕ → Obj → Action Obj
  unfolding emit emit_blocks flatten evict_record
  evict_after t_start t_end result = do
    emit env (
        summary t_start "evict_select" (
          ("duration_ns", spent t_start t_end)
          ∷ ("n_keys", nat (length (flatten result)))
          ∷ ("tier_scope", text "HBM_LOCAL")
          ∷ ("structure", text "radix")
          ∷ []))
    emit_blocks env "evict" (evict_record t_end) (flatten result)
    pure result

  unfoldable pub ref_after : String → ℕ → Obj → Action Obj
  unfolding emit
  ref_after subtype ts result = do
    emit env (summary ts subtype (("n_keys", nat 1) ∷ ("structure", text "radix") ∷ []))
    pure result

  unfoldable pub alloc_after : Call → ℕ → ℕ → Obj → Action Obj
  unfolding emit emit_blocks flatten first_int allocate_record
  alloc_after call t_start t_end result = do
    emit env (
        summary t_start "allocator_alloc" (
          ("duration_ns", spent t_start t_end)
          ∷ (
            "n_keys",
            int_or_null (first_int env.classes ("num_tokens" ∷ "num_blocks" ∷ "size" ∷ []) call),
          )
          ∷ ("n_hits", nat (length (flatten result)))
          ∷ []))
    emit_blocks env "allocate" (allocate_record t_end) (flatten result)
    pure result

  unfoldable pub free_after : Call → ℕ → ℕ → Obj → Action Obj
  unfolding emit emit_blocks flatten freed_arg free_record
  free_after call t_start t_end result = do
    let blocks = flatten (freed_arg call)
    emit env (
        summary t_start "allocator_free"
          (("duration_ns", spent t_start t_end) ∷ ("n_keys", nat (length blocks)) ∷ []))
    emit_blocks env "free" (free_record t_end) blocks
    pure result

  unfoldable pub write_after : Call → ℕ → ℕ → Obj → Action Obj
  unfolding emit flatten
  write_after call t_start t_end result = do
    emit env (
        summary t_start "block_table_update" (
          ("duration_ns", spent t_start t_end)
          ∷ ("n_keys", first_count call.args)
          ∷ ("structure", text "treelist")
          ∷ []))
    pure result

  -- `make_match_prefix_wrapper`
  unfoldable pub match_prefix : Obj → Call → Original → Action Obj
  unfolding timed match_after
  match_prefix self call original = timed env (match_after self call) original

  -- `make_insert_wrapper`
  unfoldable pub insert : Obj → Obj → Call → Original → Action Obj
  unfolding timed insert_after
  insert self self' call original = timed env (insert_after self self' call) original

  -- `make_evict_wrapper`
  unfoldable pub evict : Original → Action Obj
  unfolding timed evict_after
  evict original = timed env evict_after original

  -- `make_refcount_wrapper`
  unfoldable pub refcount : String → Original → Action Obj
  unfolding followed ref_after
  refcount subtype original = followed env (ref_after subtype) original

  -- `make_allocator_alloc_wrapper`
  unfoldable pub allocator_alloc : Call → Original → Action Obj
  unfolding timed alloc_after
  allocator_alloc call original = timed env (alloc_after call) original

  -- `make_allocator_free_wrapper`
  unfoldable pub allocator_free : Call → Original → Action Obj
  unfolding timed free_after
  allocator_free call original = timed env (free_after call) original

  -- `make_req_to_token_write_wrapper`
  unfoldable pub req_to_token_write : Call → Original → Action Obj
  unfolding timed write_after
  req_to_token_write call original = timed env (write_after call) original
