-- ===== src/BlockPool/Wrapped/Quiet.antt =====
-- What the wrappers of bkvt/integrations/vllm/block_pool_probe.py do around a method that raises, and
-- what they leave alone.
use beyond_kvtransfer.Base.{◌≡◌, true, none}
use beyond_kvtransfer.Probes.{Process, Env, Original}
use beyond_kvtransfer.Probes.Steps.{timed-raises, followed-raises}
use beyond_kvtransfer.Probes.Keeps.{
  Order, Keeps, Keeps-timed, Keeps-followed, Keeps-report, Keeps-said,
}
use beyond_kvtransfer.BlockPool.Wrappers.{
  alloc_blocks, free_blocks, evict_blocks, inc_ref, dec_ref, get_computed_blocks, cache_full_blocks,
  block_table_update, owner_now, alloc_after, free_after, evict_after, ref_after, lookup_after,
  insert_after, table_after,
}
use beyond_kvtransfer.BlockPool.Wrapped.{
  Probe, alloc, free, evict, inc, dec, lookup, insert, table, wrap, entered,
}

module _ (env : Env) where
  -- On an enabled emitter, where the wrapped method raises, every wrapper raises, and leaves the
  -- process as the method left it: it emits no record.
  pub wrap-raises :
      (probe : Probe) (original : Original) (w w' : Process)
      → w.em.enabled ≡ true
      → original (entered env probe w) ≡ (w', none)
      → wrap env probe original w ≡ (w', none)
  unfolding wrap entered alloc_blocks free_blocks evict_blocks inc_ref dec_ref get_computed_blocks
      cache_full_blocks block_table_update
  wrap-raises (alloc call) original w w' on called =
      timed-raises env original w w' (alloc_after env call) on called
  wrap-raises (free call) original w w' on called =
      timed-raises env original w w' (free_after env call) on called
  wrap-raises evict original w w' on called =
      timed-raises env original w w' (evict_after env) on called
  wrap-raises inc original w w' on called =
      followed-raises env original w w' (ref_after env "refcount_inc") on called
  wrap-raises dec original w w' on called =
      followed-raises env original w w' (ref_after env "refcount_dec") on called
  wrap-raises (lookup self call) original w w' on called =
      timed-raises env original w w' (lookup_after env self call) on called
  wrap-raises (insert call) original w w' on called =
      timed-raises env original w w' (insert_after env call) on called
  wrap-raises (table call) original w w' on called =
      timed-raises env original w w' (table_after env call) on called

  -- around a method that respects a relation, every wrapper respects it
  module _ (o : Order) where
    pub wrap-Keeps :
        (probe : Probe) (original : Original) → Keeps o original → Keeps o (wrap env probe original)
    unfolding wrap alloc_blocks free_blocks evict_blocks inc_ref dec_ref get_computed_blocks
        cache_full_blocks block_table_update alloc_after free_after evict_after ref_after
        lookup_after insert_after table_after owner_now
    wrap-Keeps (alloc call) original k =
        Keeps-timed o env (alloc_after env call) original
          (λ t0 t1 v. record { kept = λ p. (Keeps-report o env _ _ _ _ v).kept p }) k
    wrap-Keeps (free call) original k =
        Keeps-timed o env (free_after env call) original
          (λ t0 t1 v. record { kept = λ p. (Keeps-report o env _ _ _ _ v).kept p }) k
    wrap-Keeps evict original k =
        Keeps-timed o env (evict_after env) original (λ t0 t1 v. Keeps-report o env _ _ _ _ v) k
    wrap-Keeps inc original k =
        Keeps-followed o env (ref_after env "refcount_inc") original (λ t v. Keeps-said o env _ v) k
    wrap-Keeps dec original k =
        Keeps-followed o env (ref_after env "refcount_dec") original (λ t v. Keeps-said o env _ v) k
    wrap-Keeps (lookup self call) original k =
        Keeps-timed o env (lookup_after env self call) original
          (λ t0 t1 v. Keeps-report o env _ _ _ _ v) k
    wrap-Keeps (insert call) original k =
        Keeps-timed o env (insert_after env call) original (λ t0 t1 v. Keeps-report o env _ _ _ _ v)
          k
    wrap-Keeps (table call) original k =
        Keeps-timed o env (table_after env call) original (λ t0 t1 v. Keeps-said o env _ v) k
