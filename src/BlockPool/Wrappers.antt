-- ===== src/BlockPool/Wrappers.antt =====
-- The eight wrappers of bkvt/integrations/vllm/block_pool_probe.py. `self` is the object whose method
-- is wrapped.
use beyond_kvtransfer.Base.{
  ℕ, String, Option, none, some, [], ◌∷◌, string_eq, ℤ, pos, sub_ℕ, ◌*ℤ◌, length,
}
use beyond_kvtransfer.Value.{Value, Rec, text, int, nat}
use beyond_kvtransfer.Py.{Obj, nothing, integer, string, as_int}
use beyond_kvtransfer.Py.Reads.{getattr_or, int_of, value_of}
use beyond_kvtransfer.Weights.{Call}
use beyond_kvtransfer.Weights.Probes.{text_or_null}
use beyond_kvtransfer.Probes.{
  Env, Action, Original, ◌>>=◌, ◌>>◌, pure, emit, emit_blocks, timed, followed,
}
use beyond_kvtransfer.BlockPool.{
  to_list, request_of, first_arg, blocks_arg, freed_arg, kwarg_or, owner, allocate_record,
  free_record, evict_record, prefix_hit_record, hash_insert_record,
}

abbrev pub text_obj : Option String → Obj
text_obj none = nothing
text_obj (some s) = string s

abbrev int_obj : Option ℤ → Obj
int_obj none = nothing
int_obj (some n) = integer n

abbrev pub int_or : ℤ → Option ℤ → ℤ
int_or d none = d
int_or d (some n) = n

-- the size of a block in tokens: 16 where the manager tells none
unfoldable pub block_size_of : Obj → ℤ
unfolding getattr_or
block_size_of self =
    let size = getattr_or "block_size" (getattr_or "kv_cache_spec" nothing self) self in
    int_or (pos 16) (as_int (getattr_or "block_size" size size))

module _ (env : Env) where
  -- `n_requested`: the keyword before the first argument
  unfoldable pub requested : Call → Obj
  unfolding int_of kwarg_or
  requested call =
      kwarg_or "num_blocks"
        (elim call.args [ [] ↦ nothing | v ∷ vs ↦ int_obj (int_of env.classes v) ]) call

  -- `_current_request_id() or kwargs.get("request_id")`, read after the call
  unfoldable pub owner_now : Call → Action Obj
  unfolding owner
  owner_now call p = (p, some (owner p.current_request call))

  abbrev value : Obj → Value
  value = value_of env.classes

  abbrev spent : ℕ → ℕ → Value
  spent t_start t_end = int (sub_ℕ t_end t_start)

  abbrev summary : ℕ → String → Rec → Rec
  summary ts subtype fields =
      ("ts_ns", nat ts) ∷ ("type", text "metadata") ∷ ("subtype", text subtype) ∷ fields

  -- the metadata record of each wrapper
  unfoldable pub alloc_summary : Call → Obj → ℕ → ℕ → Obj → Rec
  unfolding value_of requested to_list
  alloc_summary call request_id t_start t_end result = summary t_start "allocator_alloc" (
      ("request_id", value request_id)
      ∷ ("duration_ns", spent t_start t_end)
      ∷ ("n_keys", value (requested call))
      ∷ ("n_hits", nat (length (to_list result)))
      ∷ [])

  unfoldable pub free_summary : Call → Obj → ℕ → ℕ → Rec
  unfolding value_of freed_arg to_list
  free_summary call request_id t_start t_end = summary t_start "allocator_free" (
      ("request_id", value request_id)
      ∷ ("duration_ns", spent t_start t_end)
      ∷ ("n_keys", nat (length (to_list (freed_arg call))))
      ∷ [])

  unfoldable pub evict_summary : ℕ → ℕ → Obj → Rec
  unfolding to_list
  evict_summary t_start t_end result =
      summary t_start "evict_select"
        (("duration_ns", spent t_start t_end) ∷ ("n_keys", nat (length (to_list result))) ∷ [])

  unfoldable pub ref_summary : String → ℕ → Rec
  ref_summary subtype ts = summary ts subtype (("n_keys", nat 1) ∷ [])

  unfoldable pub lookup_summary : Obj → Call → ℕ → ℕ → Obj → Rec
  unfolding request_of first_arg block_size_of to_list
  lookup_summary self call t_start t_end result =
      let n_hits = length (to_list result) in
      summary t_start "prefix_lookup" (
        ("request_id", text_or_null (request_of (first_arg "request" call)))
        ∷ ("duration_ns", spent t_start t_end)
        ∷ ("n_keys", nat 1)
        ∷ ("n_hits", nat n_hits)
        ∷ ("hit_depth_tokens", int (pos n_hits *ℤ block_size_of self))
        ∷ ("tier_scope", text "HBM_LOCAL")
        ∷ ("structure", text "radix")
        ∷ [])

  unfoldable pub insert_summary : Call → ℕ → ℕ → Rec
  unfolding request_of first_arg blocks_arg to_list
  insert_summary call t_start t_end = summary t_start "prefix_insert" (
      ("request_id", text_or_null (request_of (first_arg "request" call)))
      ∷ ("duration_ns", spent t_start t_end)
      ∷ ("n_keys", nat (length (to_list (blocks_arg call))))
      ∷ ("tier_scope", text "HBM_LOCAL")
      ∷ ("structure", text "radix")
      ∷ [])

  unfoldable pub table_summary : Call → ℕ → ℕ → Rec
  unfolding request_of first_arg
  table_summary call t_start t_end = summary t_start "block_table_update" (
      ("request_id", text_or_null (request_of (first_arg "request" call)))
      ∷ ("duration_ns", spent t_start t_end)
      ∷ [])

  -- what follows the call in each wrapper
  unfoldable pub alloc_after : Call → ℕ → ℕ → Obj → Action Obj
  unfolding owner_now emit emit_blocks
  alloc_after call t_start t_end result = do
    request_id ← owner_now call
    emit env (alloc_summary call request_id t_start t_end result)
    emit_blocks env "allocate" (allocate_record env.classes request_id t_end) (to_list result)
    pure result

  unfoldable pub free_after : Call → ℕ → ℕ → Obj → Action Obj
  unfolding owner_now emit emit_blocks
  free_after call t_start t_end result = do
    request_id ← owner_now call
    emit env (free_summary call request_id t_start t_end)
    emit_blocks env "free" (free_record env.classes request_id t_end) (to_list (freed_arg call))
    pure result

  unfoldable pub evict_after : ℕ → ℕ → Obj → Action Obj
  unfolding emit emit_blocks
  evict_after t_start t_end result = do
    emit env (evict_summary t_start t_end result)
    emit_blocks env "evict" (evict_record env.classes t_end) (to_list result)
    pure result

  unfoldable pub ref_after : String → ℕ → Obj → Action Obj
  unfolding emit
  ref_after subtype ts result = do emit env (ref_summary subtype ts); pure result

  unfoldable pub lookup_after : Obj → Call → ℕ → ℕ → Obj → Action Obj
  unfolding emit emit_blocks
  lookup_after self call t_start t_end result = do
    emit env (lookup_summary self call t_start t_end result)
    emit_blocks env "prefix_hit"
        (prefix_hit_record env.classes (text_obj (request_of (first_arg "request" call))) t_end)
        (to_list result)
    pure result

  unfoldable pub insert_after : Call → ℕ → ℕ → Obj → Action Obj
  unfolding emit emit_blocks
  insert_after call t_start t_end result = do
    emit env (insert_summary call t_start t_end)
    emit_blocks env "hash_insert"
        (hash_insert_record env.classes (text_obj (request_of (first_arg "request" call))) t_end)
        (to_list (blocks_arg call))
    pure result

  unfoldable pub table_after : Call → ℕ → ℕ → Obj → Action Obj
  unfolding emit
  table_after call t_start t_end result = do
    emit env (table_summary call t_start t_end)
    pure result

  -- `make_alloc_blocks_wrapper`
  unfoldable pub alloc_blocks : Call → Original → Action Obj
  unfolding timed
  alloc_blocks call original = timed env (alloc_after call) original

  -- `make_free_blocks_wrapper`
  unfoldable pub free_blocks : Call → Original → Action Obj
  unfolding timed
  free_blocks call original = timed env (free_after call) original

  -- `make_evict_wrapper`
  unfoldable pub evict_blocks : Original → Action Obj
  unfolding timed
  evict_blocks original = timed env evict_after original

  -- `make_inc_ref_wrapper`
  unfoldable pub inc_ref : Original → Action Obj
  unfolding followed
  inc_ref original = followed env (ref_after "refcount_inc") original

  -- `make_dec_ref_wrapper`
  unfoldable pub dec_ref : Original → Action Obj
  unfolding followed
  dec_ref original = followed env (ref_after "refcount_dec") original

  -- `make_get_computed_blocks_wrapper`
  unfoldable pub get_computed_blocks : Obj → Call → Original → Action Obj
  unfolding timed
  get_computed_blocks self call original = timed env (lookup_after self call) original

  -- `make_cache_full_blocks_wrapper`
  unfoldable pub cache_full_blocks : Call → Original → Action Obj
  unfolding timed
  cache_full_blocks call original = timed env (insert_after call) original

  -- `make_block_table_update_wrapper`
  unfoldable pub block_table_update : Call → Original → Action Obj
  unfolding timed
  block_table_update call original = timed env (table_after call) original
