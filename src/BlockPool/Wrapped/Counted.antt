-- ===== src/BlockPool/Wrapped/Counted.antt =====
-- The counts and the failures of the wrappers of bkvt/integrations/vllm/block_pool_probe.py, where
-- every block is sampled.
use beyond_kvtransfer.Base.{
  ℕ, ◌+◌, ◌≡◌, refl, ◌∙◌, sym, ap, String, Bool, true, false, Option, none, some, List, [], ◌∷◌,
  if◌then◌else◌, string_eq, count_by, length, Option-cases, inl, inr, is_some,
}
use mathlib.Core.List.{Memᴰ}
use beyond_kvtransfer.Base.Dict.{get}
use beyond_kvtransfer.Value.{Rec, Float, nat, float_le, float_one, text}
use beyond_kvtransfer.Py.{Obj}
use beyond_kvtransfer.Py.Reads.{is_given, hash_text}
use beyond_kvtransfer.Probes.{Process, Env, Original}
use beyond_kvtransfer.Probes.Reports.{
  events, block_log-complete, made, cons_made, decisions, sample-all,
}
use beyond_kvtransfer.BlockPool.{
  block_hash, add_hash, allocate_record, evict_record, prefix_hit_record, hash_insert_record,
}
use beyond_kvtransfer.BlockPool.Wrappers.{
  alloc_summary, free_summary, evict_summary, ref_summary, lookup_summary, insert_summary,
  table_summary,
}
use beyond_kvtransfer.BlockPool.Wrapped.{
  Probe, alloc, free, evict, inc, dec, lookup, insert, table, wrap, entered, summary_of, blocks_of,
  subtype_of, record_of, owner_of,
}
use beyond_kvtransfer.BlockPool.Wrapped.Reported.{wrap-reports, log_after, summary_after}
use beyond_kvtransfer.BlockPool.Wrapped.Typed.{is_kv_block, count-made}

-- the field of the metadata record that counts the blocks
abbrev pub count_field : Probe → String
count_field (alloc call) = "n_hits"
count_field (lookup self call) = "n_hits"
count_field probe = "n_keys"

-- whether a wrapper reports blocks, and whether it reads their hashes
abbrev pub reports_blocks : Probe → Bool
reports_blocks inc = false
reports_blocks dec = false
reports_blocks (table call) = false
reports_blocks probe = true

abbrev pub reads_hashes : Probe → Bool
reads_hashes (free call) = false
reads_hashes probe = reports_blocks probe

cons-lost : (o : Option Rec) → cons_made o none ≡ none
cons-lost none = refl
cons-lost (some r) = refl

made-lost :
    (f : Obj → Option Float → Option Rec) (block : Obj) (blocks : List Obj)
    → f block none ≡ none
    → Memᴰ block blocks
    → made f blocks ≡ none
unfolding made
made-lost f block [] bad m = elim m [ ]
made-lost f block (b ∷ blocks) bad (Memᴰ.head e) =
    let here : f b none ≡ none = rw e at bad in rw here refl
made-lost f block (b ∷ blocks) bad (Memᴰ.tail m) =
    ap (cons_made (f b none)) (made-lost f block blocks bad m) ∙ cons-lost (f b none)

module _ (env : Env) where
  summary-count :
      (probe : Probe) (who : Obj) (t0 t1 : ℕ) (v : Obj)
      → reports_blocks probe ≡ true
      → get (count_field probe) (summary_of env probe who t0 t1 v)
        ≡ some (nat (length (blocks_of env probe v)))
  unfolding get summary_of blocks_of alloc_summary free_summary evict_summary lookup_summary
      insert_summary
  summary-count (alloc call) who t0 t1 v h = refl
  summary-count (free call) who t0 t1 v h = refl
  summary-count evict who t0 t1 v h = refl
  summary-count inc who t0 t1 v h = cc
  summary-count dec who t0 t1 v h = cc
  summary-count (lookup self call) who t0 t1 v h = refl
  summary-count (insert call) who t0 t1 v h = refl
  summary-count (table call) who t0 t1 v h = cc

  summary-kind :
      (probe : Probe) (who : Obj) (t0 t1 : ℕ) (v : Obj)
      → get "type" (summary_of env probe who t0 t1 v) ≡ some (text "metadata")
  unfolding get summary_of alloc_summary free_summary evict_summary ref_summary lookup_summary
      insert_summary table_summary
  summary-kind (alloc call) who t0 t1 v = refl
  summary-kind (free call) who t0 t1 v = refl
  summary-kind evict who t0 t1 v = refl
  summary-kind inc who t0 t1 v = refl
  summary-kind dec who t0 t1 v = refl
  summary-kind (lookup self call) who t0 t1 v = refl
  summary-kind (insert call) who t0 t1 v = refl
  summary-kind (table call) who t0 t1 v = refl

  module _ (probe : Probe) (original : Original) (w w' : Process) (v : Obj)
      (on : w.em.enabled ≡ true) (called : original (entered env probe w) ≡ (w', some v))
      (full : float_le float_one w'.em.sampler.sample_metadata ≡ true) where
    make : Obj → Option Float → Option Rec
    make = record_of env probe (owner_of env probe w') (env.clock w'.ticks)

    all_records : Option (List Rec)
    all_records = made make (blocks_of env probe v)

    log-complete :
        ((log_after env probe w' v).complete ≡ is_some all_records)
        × ((rs : List Rec) → all_records ≡ some rs → (log_after env probe w' v).records ≡ rs)
    log-complete =
        unfold make all_records in
        block_log-complete make (decisions env (subtype_of env probe) make w'.em.sampler)
          (λ n. sample-all w'.em.sampler (subtype_of env probe) (env.draws n) full) (w'.ticks + 1)
          (blocks_of env probe v)

    result-of : (wrap env probe original w).1 ≡ (if is_some all_records then some v else none)
    result-of = (wrap-reports env probe original w w' v on called).1 ∙ rw log-complete.0 refl

    -- With a metadata rate of 1 or more, where a wrapper of an allocation, release, eviction, lookup
    -- or insertion returns, it has handed to the emitter one metadata record and then records of
    -- blocks, as many as the blocks, and the metadata record carries that number.
    pub wrap-counts :
        reports_blocks probe ≡ true
        → (wrap env probe original w).1 ≡ some v
        → (summary : Rec) × (rs : List Rec) × ((wrap env probe original w).0.em
            ≡ events env.thread (summary ∷ rs) w'.em)
          × (get "type" summary ≡ some (text "metadata"))
          × (get (count_field probe) summary ≡ some (nat (count_by is_kv_block rs)))
          × (count_by is_kv_block rs ≡ length (blocks_of env probe v))
    wrap-counts reports returned = elim (Option-cases all_records) [
      | inl lost ↦ let raised : none ≡ some v = rw lost at (sym result-of ∙ returned) in absurd cc
      | inr (rs, all_made) ↦
          let count : count_by is_kv_block rs ≡ length (blocks_of env probe v) =
            unfold make all_records in
            count-made env probe (owner_of env probe w') (env.clock w'.ticks)
              (blocks_of env probe v) rs all_made in
          (
            summary_after env probe w w' v,
            rs,
            (wrap-reports env probe original w w' v on called).0
                ∙ ap (λ l. events env.thread (summary_after env probe w w' v ∷ l) w'.em)
                    (log-complete.1 rs all_made),
            summary-kind probe _ _ _ v,
            summary-count probe _ _ _ v reports ∙ rw count refl,
            count,
          )
    ]

    -- a block with a hash that is no text and no number
    record-unhashable :
        (p : Probe) (who : Obj) (ts : ℕ) (block : Obj)
        → is_given (block_hash block) ≡ true
        → hash_text env.classes (block_hash block) ≡ none
        → reads_hashes p ≡ true
        → record_of env p who ts block none ≡ none
    unfolding record_of add_hash allocate_record evict_record prefix_hit_record hash_insert_record
    record-unhashable (alloc call) who ts block given bad h = rw (given, bad) refl
    record-unhashable (free call) who ts block given bad h = cc
    record-unhashable evict who ts block given bad h = rw (given, bad) refl
    record-unhashable inc who ts block given bad h = refl
    record-unhashable dec who ts block given bad h = refl
    record-unhashable (lookup self call) who ts block given bad h = rw (given, bad) refl
    record-unhashable (insert call) who ts block given bad h = rw (given, bad) refl
    record-unhashable (table call) who ts block given bad h = refl

    -- With a metadata rate of 1 or more, a block whose hash is neither a text nor a number that `hex`
    -- takes makes the wrapper of an allocation, eviction, lookup or insertion raise, although the
    -- method itself returned.
    pub wrap-unhashable :
        (block : Obj)
        → reads_hashes probe ≡ true
        → Memᴰ block (blocks_of env probe v)
        → is_given (block_hash block) ≡ true
        → hash_text env.classes (block_hash block) ≡ none
        → (wrap env probe original w).1 ≡ none
    wrap-unhashable block reads m given bad = result-of ∙ rw (lost) refl
      where
        lost : all_records ≡ none
        lost =
            unfold make all_records in
            made-lost make block (blocks_of env probe v)
              (record-unhashable probe (owner_of env probe w') (env.clock w'.ticks) block given bad
                reads)
              m
