-- ===== src/BlockPool/Wrapped.antt =====
-- The wrappers of bkvt/integrations/vllm/block_pool_probe.py as one family, and what each one reports
-- of a call.
pub mod Reported
pub mod Typed
pub mod Counted
pub mod Quiet
use beyond_kvtransfer.Base.{ℕ, ◌+◌, String, Option, none, some, List, [], ◌∷◌}
use beyond_kvtransfer.Value.{Rec, Float}
use beyond_kvtransfer.Py.{Obj, nothing}
use beyond_kvtransfer.Weights.{Call}
use beyond_kvtransfer.Probes.{Process, Env, Action, Original}
use beyond_kvtransfer.BlockPool.{
  to_list, request_of, first_arg, blocks_arg, freed_arg, owner, allocate_record, free_record,
  evict_record, prefix_hit_record, hash_insert_record,
}
use beyond_kvtransfer.BlockPool.Wrappers.{
  text_obj, alloc_summary, free_summary, evict_summary, ref_summary, lookup_summary, insert_summary,
  table_summary, alloc_blocks, free_blocks, evict_blocks, inc_ref, dec_ref, get_computed_blocks,
  cache_full_blocks, block_table_update,
}

-- a wrapped method, with the call of it
pub data Probe : Type 0 where
  alloc : Call → Probe
  free : Call → Probe
  evict : Probe
  inc : Probe
  dec : Probe
  -- the manager that the method belongs to
  lookup : Obj → Call → Probe
  insert : Call → Probe
  table : Call → Probe

module _ (env : Env) where
  unfoldable pub wrap : Probe → Original → Action Obj
  wrap (alloc call) = alloc_blocks env call
  wrap (free call) = free_blocks env call
  wrap evict = evict_blocks env
  wrap inc = inc_ref env
  wrap dec = dec_ref env
  wrap (lookup self call) = get_computed_blocks env self call
  wrap (insert call) = cache_full_blocks env call
  wrap (table call) = block_table_update env call

  -- the process in which the wrapped method runs: a reference count is not timed
  unfoldable pub entered : Probe → Process → Process
  entered inc p = p
  entered dec p = p
  entered probe p = record p { ticks = p.ticks + 1 }

  -- the metadata record, from the owner of the call, the two readings and the result
  unfoldable pub summary_of : Probe → Obj → ℕ → ℕ → Obj → Rec
  summary_of (alloc call) who t0 t1 v = alloc_summary env call who t0 t1 v
  summary_of (free call) who t0 t1 v = free_summary env call who t0 t1
  summary_of evict who t0 t1 v = evict_summary env t0 t1 v
  summary_of inc who t0 t1 v = ref_summary env "refcount_inc" t1
  summary_of dec who t0 t1 v = ref_summary env "refcount_dec" t1
  summary_of (lookup self call) who t0 t1 v = lookup_summary env self call t0 t1 v
  summary_of (insert call) who t0 t1 v = insert_summary env call t0 t1
  summary_of (table call) who t0 t1 v = table_summary env call t0 t1

  -- the blocks that a wrapper reports
  unfoldable pub blocks_of : Probe → Obj → List Obj
  unfolding to_list
  blocks_of (alloc call) v = to_list v
  blocks_of (free call) v = to_list (freed_arg call)
  blocks_of evict v = to_list v
  blocks_of (lookup self call) v = to_list v
  blocks_of (insert call) v = to_list (blocks_arg call)
  blocks_of probe v = []

  -- their subtype
  abbrev pub subtype_of : Probe → String
  subtype_of (alloc call) = "allocate"
  subtype_of (free call) = "free"
  subtype_of evict = "evict"
  subtype_of (lookup self call) = "prefix_hit"
  subtype_of (insert call) = "hash_insert"
  subtype_of probe = ""

  unfoldable pub record_of : Probe → Obj → ℕ → Obj → Option Float → Option Rec
  record_of (alloc call) who ts block rate = allocate_record env.classes who ts block rate
  record_of (free call) who ts block rate = free_record env.classes who ts block rate
  record_of evict who ts block rate = evict_record env.classes ts block rate
  record_of (lookup self call) who ts block rate =
      prefix_hit_record env.classes (text_obj (request_of (first_arg "request" call))) ts block rate
  record_of (insert call) who ts block rate =
      hash_insert_record env.classes (text_obj (request_of (first_arg "request" call))) ts block
        rate
  record_of probe who ts block rate = none

  -- the owner of an allocation or a release, after the call
  unfoldable pub owner_of : Probe → Process → Obj
  unfolding owner
  owner_of (alloc call) p = owner p.current_request call
  owner_of (free call) p = owner p.current_request call
  owner_of probe p = nothing
