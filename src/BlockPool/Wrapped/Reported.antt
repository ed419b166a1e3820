-- ===== src/BlockPool/Wrapped/Reported.antt =====
-- The emitter and the result after a wrapped call of bkvt/integrations/vllm/block_pool_probe.py.
use mathlib.Core.Path.{subst}
use beyond_kvtransfer.Base.{
  ℕ, ◌+◌, ◌≡◌, refl, ◌∙◌, sym, String, Bool, true, false, Option, none, some, List, ◌∷◌,
  if◌then◌else◌,
}
use beyond_kvtransfer.Value.{Rec, Float}
use beyond_kvtransfer.Py.{Obj}
use beyond_kvtransfer.Emitter.State.{event}
use beyond_kvtransfer.Emitter.Run.Live.{Untouched-event}
use beyond_kvtransfer.Probes.{
  Process, Env, Action, Original, ◌>>◌, pure, emit, emit_blocks, timed, followed,
}
use beyond_kvtransfer.Probes.Steps.{next, timed-returns, followed-returns}
use beyond_kvtransfer.Probes.Reports.{events, Log, block_log, decisions, logged, emit_blocks-log}
use beyond_kvtransfer.BlockPool.Wrappers.{
  alloc_blocks, free_blocks, evict_blocks, inc_ref, dec_ref, get_computed_blocks, cache_full_blocks,
  block_table_update, owner_now, alloc_after, free_after, evict_after, ref_after, lookup_after,
  insert_after, table_after,
}
use beyond_kvtransfer.BlockPool.Wrapped.{
  Probe, alloc, free, evict, inc, dec, lookup, insert, table, wrap, entered, summary_of, blocks_of,
  subtype_of, record_of, owner_of,
}

module _ (env : Env) where
  -- the emitter and the result after the records of a log
  abbrev Ends : Process × Option Obj → Rec → Log → Process → Obj → Type 0
  Ends after r l w v =
      (after.0.em ≡ events env.thread (r ∷ l.records) w.em)
      × (after.1 ≡ (if l.complete then some v else none))

  -- what follows the loop
  abbrev returned : Obj → Process × Option (Unit {0}) → Process × Option Obj
  returned v x = elim x.1 as (λ o. Process × Option Obj) [
    | none ↦ (x.0, none)
    | some u ↦ (x.0, some v)
  ]

  returned-logged :
      (r : Rec) (subtype : String) (make : Obj → Option Float → Option Rec) (l : Log) (v : Obj)
      (w : Process)
      → Ends
          (returned v (logged env subtype make l (record w { em = event env.thread r w.em })))
          r
          l
          w
          v
  unfolding logged events
  returned-logged r subtype make l v w = by_end l.complete
    where
      by_end :
          (complete : Bool)
          → ((returned v (
            (record w {
              em = events env.thread l.records (event env.thread r w.em);
              ticks = w.ticks + l.used;
            }),
            if complete then some tt else none,
          )).0.em
              ≡ events env.thread l.records (event env.thread r w.em))
            × ((returned v (
              (record w {
                em = events env.thread l.records (event env.thread r w.em);
                ticks = w.ticks + l.used;
              }),
              if complete then some tt else none,
            )).1
                ≡ (if complete then some v else none))
      by_end true = (refl, refl)
      by_end false = (refl, refl)

  -- a summary and a loop over blocks, at the end of a wrapper
  tail :
      (r : Rec) (subtype : String) (make : Obj → Option Float → Option Rec) (blocks : List Obj)
      (v : Obj) (w : Process)
      → Ends
          ((emit env r >> (emit_blocks env subtype make blocks >> pure v)) w)
          r
          (block_log make (decisions env subtype make w.em.sampler) w.ticks blocks)
          w
          v
  unfolding emit
  tail r subtype make blocks v w =
      let said : Process = record w { em = event env.thread r w.em } in
      let same = (Untouched-event env.thread r w.em).sampler in
      let l = block_log make (decisions env subtype make w.em.sampler) w.ticks blocks in
      subst (λ x. Ends (returned v x) r l w v)
        (sym (emit_blocks-log env subtype make blocks said ∙ rw same refl))
        (returned-logged r subtype make l v w)

  -- the log of the blocks of a call that returned `v` in the process `w`
  abbrev pub log_after : Probe → Process → Obj → Log
  log_after probe w v =
      block_log (record_of env probe (owner_of env probe w) (env.clock w.ticks))
        (decisions env (subtype_of env probe)
          (record_of env probe (owner_of env probe w) (env.clock w.ticks)) w.em.sampler)
        (w.ticks + 1) (blocks_of env probe v)

  abbrev pub summary_after : Probe → Process → Process → Obj → Rec
  summary_after probe w w' v =
      summary_of env probe (owner_of env probe w') (env.clock w.ticks) (env.clock w'.ticks) v

  -- the wrapper emits the summary and the records of the log, and returns what the method returned
  -- where the log is complete
  abbrev Reports : Probe → Process → Process → Obj → Process × Option Obj → Type 0
  Reports probe w w' v x = Ends x (summary_after probe w w' v) (log_after probe w' v) w' v

  module _ (original : Original) (w w' : Process) (v : Obj) (on : w.em.enabled ≡ true) where
    timed-Reports :
        (probe : Probe) (after : ℕ → ℕ → Obj → Action Obj)
        → original (next w) ≡ (w', some v)
        → Reports probe w w' v (after (env.clock w.ticks) (env.clock w'.ticks) v (next w'))
        → Reports probe w w' v (timed env after original w)
    timed-Reports probe after called end =
        subst (Reports probe w w' v) (sym (timed-returns env original w w' after on v called)) end

    followed-Reports :
        (probe : Probe) (after : ℕ → Obj → Action Obj)
        → original w ≡ (w', some v)
        → Reports probe w w' v (after (env.clock w'.ticks) v (next w'))
        → Reports probe w w' v (followed env after original w)
    followed-Reports probe after called end =
        subst (Reports probe w w' v) (sym (followed-returns env original w w' after on v called))
          end

  -- A wrapped method that returns, on an enabled emitter: the wrapper hands to the emitter one
  -- metadata record and then a record of each sampled block, in order, up to the first that cannot be
  -- built; it returns what the method returned, or raises where one could not be built.
  pub wrap-reports :
      (probe : Probe) (original : Original) (w w' : Process) (v : Obj)
      → w.em.enabled ≡ true
      → original (entered env probe w) ≡ (w', some v)
      → ((wrap env probe original w).0.em
          ≡ events env.thread (summary_after probe w w' v ∷ (log_after probe w' v).records) w'.em)
        × ((wrap env probe original w).1
            ≡ (if (log_after probe w' v).complete then some v else none))
  unfolding wrap entered summary_of owner_of blocks_of record_of emit owner_now block_log events
      alloc_after free_after evict_after ref_after lookup_after insert_after table_after
      alloc_blocks free_blocks evict_blocks inc_ref dec_ref get_computed_blocks cache_full_blocks
      block_table_update
  wrap-reports (alloc call) original w w' v on called =
      timed-Reports original w w' v on (alloc call) (alloc_after env call) called
        (tail _ "allocate" _ _ v (next w'))
  wrap-reports (free call) original w w' v on called =
      timed-Reports original w w' v on (free call) (free_after env call) called
        (tail _ "free" _ _ v (next w'))
  wrap-reports evict original w w' v on called =
      timed-Reports original w w' v on evict (evict_after env) called
        (tail _ "evict" _ _ v (next w'))
  wrap-reports inc original w w' v on called =
      followed-Reports original w w' v on inc (ref_after env "refcount_inc") called (refl, refl)
  wrap-reports dec original w w' v on called =
      followed-Reports original w w' v on dec (ref_after env "refcount_dec") called (refl, refl)
  wrap-reports (lookup self call) original w w' v on called =
      timed-Reports original w w' v on (lookup self call) (lookup_after env self call) called
        (tail _ "prefix_hit" _ _ v (next w'))
  wrap-reports (insert call) original w w' v on called =
      timed-Reports original w w' v on (insert call) (insert_after env call) called
        (tail _ "hash_insert" _ _ v (next w'))
  wrap-reports (table call) original w w' v on called =
      timed-Reports original w w' v on (table call) (table_after env call) called (refl, refl)
