-- ===== src/BlockPool/Wrapped/Typed.antt =====
-- Every record of a block has the type `kv_block`.
use beyond_kvtransfer.Base.{
  ℕ, suc, ◌≡◌, refl, ◌∙◌, String, Bool, true, false, Option, none, some, List, [], ◌∷◌,
  if◌then◌else◌, ◌==◌, string_eq, ℤ, count_by, length, arith,
}
use beyond_kvtransfer.Base.Dict.{get, set, get-set}
use beyond_kvtransfer.Value.{Value, Rec, Float, text, int, null, is_text}
use beyond_kvtransfer.Emitter.Probe.{add_float}
use beyond_kvtransfer.Py.{Obj}
use beyond_kvtransfer.Py.Reads.{Classes, add_obj, add_true, is_given, hash_text, int_of}
use beyond_kvtransfer.Probes.{Env}
use beyond_kvtransfer.Probes.Reports.{made, cons_made}
use beyond_kvtransfer.BlockPool.{
  block_base, add_hash, allocate_record, free_record, evict_record, prefix_hit_record,
  hash_insert_record, add_last_reuse, finished, then_reuse,
}
use beyond_kvtransfer.BlockPool.Wrapped.{
  Probe, alloc, free, evict, inc, dec, lookup, insert, table, record_of,
}

abbrev pub is_kv_block : Rec → Bool
is_kv_block r = is_text "kv_block" (get "type" r)

pub record Typed (r : Rec) : Type 0 where
  pub kind : get "type" r ≡ some (text "kv_block")

abbrev AllTyped : Option Rec → Type 0
AllTyped none = Unit
AllTyped (some r) = Typed r

-- the fields that are added keep the type
module _ (classes : Classes) where
  Typed-if : (b : Bool) (r r' : Rec) → Typed r → Typed r' → Typed (if b then r' else r)
  Typed-if true r r' t t' = t'
  Typed-if false r r' t t' = t

  Typed-set :
      (k : String) (v : Value) (r : Rec) → (k == "type") ≡ false → Typed r → Typed (set k v r)
  Typed-set k v r other t = record { kind = get-set "type" k v r ∙ rw other t.kind }

  Typed-add_obj :
      (k : String) (v : Obj) (r : Rec)
      → (k == "type") ≡ false
      → Typed r
      → Typed (add_obj classes k v r)
  unfolding add_obj
  Typed-add_obj k v r other t = Typed-if (is_given v) r _ t (Typed-set k _ r other t)

  Typed-add_true :
      (k : String) (v : Obj) (r : Rec)
      → (k == "type") ≡ false
      → Typed r
      → Typed (add_true classes k v r)
  unfolding add_true
  Typed-add_true k v r other t = Typed-if _ r _ t (Typed-set k _ r other t)

  Typed-rate :
      (rate : Option Float) (r : Rec) → Typed r → Typed (add_float "sample_decision" rate r)
  unfolding add_float
  Typed-rate none r t = t
  Typed-rate (some x) r t = Typed-set "sample_decision" _ r refl t

  Typed-base :
      (ts : ℕ) (subtype : String) (block : Obj) (before after : Value) (reason : String)
      → Typed (block_base classes ts subtype block before after reason)
  unfolding block_base get
  Typed-base ts subtype block before after reason = record { kind = refl }

  Typed-add_hash : (hash : Obj) (r : Rec) → Typed r → AllTyped (add_hash classes hash r)
  unfolding add_hash
  Typed-add_hash hash r t = by_given (is_given hash) (hash_text classes hash)
    where
      by_given :
          (b : Bool) (o : Option String)
          → AllTyped (
              if b
              then elim o as (λ x. Option Rec) [
                | none ↦ none
                | some s ↦ some (set "block_hash" (text s) r)
              ]
              else some r)
      by_given true none = tt
      by_given true (some s) = Typed-set "block_hash" (text s) r refl t
      by_given false o = t

  Typed-add_last_reuse : (v : Obj) (r : Rec) → Typed r → AllTyped (add_last_reuse classes v r)
  unfolding add_last_reuse
  Typed-add_last_reuse v r t = by_given (is_given v) (int_of classes v)
    where
      by_given :
          (b : Bool) (o : Option ℤ)
          → AllTyped (
              if b
              then elim o as (λ x. Option Rec) [
                | none ↦ none
                | some n ↦ some (set "last_reuse_ts_ns" (int n) r)
              ]
              else some r)
      by_given true none = tt
      by_given true (some n) = Typed-set "last_reuse_ts_ns" (int n) r refl t
      by_given false o = t

  Typed-then :
      (f : Rec → Rec) (o : Option Rec)
      → AllTyped o
      → ((r : Rec) → Typed r → Typed (f r))
      → AllTyped (finished f o)
  Typed-then f none t h = tt
  Typed-then f (some r) t h = h r t

  typed-reuse : (v : Obj) (o : Option Rec) → AllTyped o → AllTyped (then_reuse classes v o)
  typed-reuse v none t = tt
  typed-reuse v (some r) t = Typed-add_last_reuse v r t

  typed-allocate :
      (who : Obj) (ts : ℕ) (block : Obj) (rate : Option Float)
      → AllTyped (allocate_record classes who ts block rate)
  unfolding allocate_record block_base get
  typed-allocate who ts block rate =
      Typed-then _ _ (Typed-add_hash _ _ (record { kind = refl }))
        (λ r t. Typed-rate rate _ (Typed-add_true "owner_request_id" who r refl t))

  typed-free :
      (who : Obj) (ts : ℕ) (block : Obj) (rate : Option Float)
      → AllTyped (free_record classes who ts block rate)
  unfolding free_record block_base get
  typed-free who ts block rate =
      Typed-rate rate _ (Typed-add_true "owner_request_id" who _ refl (record { kind = refl }))

  typed-evict :
      (ts : ℕ) (block : Obj) (rate : Option Float) → AllTyped (evict_record classes ts block rate)
  unfolding evict_record
  typed-evict ts block rate =
      Typed-then _ _
        (Typed-add_hash _ _ (Typed-base ts "evict" block (text "HBM_LOCAL") null "capacity_evict"))
        (λ r t.
          Typed-rate rate _
            (Typed-add_obj "reuse_count" _ _ refl (Typed-add_obj "age_ns" _ r refl t)))

  typed-hit :
      (who : Obj) (ts : ℕ) (block : Obj) (rate : Option Float)
      → AllTyped (prefix_hit_record classes who ts block rate)
  unfolding prefix_hit_record
  typed-hit who ts block rate =
      Typed-then _ _
        (typed-reuse _ _ (
          Typed-then _ _
            (Typed-add_hash _ _ (
              Typed-add_true "owner_request_id" who _ refl (
                Typed-base ts "prefix_hit" block (text "HBM_LOCAL") (text "HBM_LOCAL")
                  "prefix_match")))
            (λ r t. Typed-add_obj "reuse_count" _ r refl t)))
        (λ r t. Typed-rate rate r t)

  typed-insert :
      (who : Obj) (ts : ℕ) (block : Obj) (rate : Option Float)
      → AllTyped (hash_insert_record classes who ts block rate)
  unfolding hash_insert_record
  typed-insert who ts block rate =
      Typed-then _ _
        (Typed-add_hash _ _ (
          Typed-add_true "owner_request_id" who _ refl
            (Typed-base ts "hash_insert" block (text "HBM_LOCAL") (text "HBM_LOCAL") "scheduler")))
        (λ r t. Typed-rate rate r t)

module _ (env : Env) (probe : Probe) (who : Obj) (ts : ℕ) where
  typed-record :
      (p : Probe) (block : Obj) (rate : Option Float) → AllTyped (record_of env p who ts block rate)
  unfolding record_of
  typed-record (alloc call) block rate = typed-allocate env.classes who ts block rate
  typed-record (free call) block rate = typed-free env.classes who ts block rate
  typed-record evict block rate = typed-evict env.classes ts block rate
  typed-record inc block rate = tt
  typed-record dec block rate = tt
  typed-record (lookup self call) block rate = typed-hit env.classes _ ts block rate
  typed-record (insert call) block rate = typed-insert env.classes _ ts block rate
  typed-record (table call) block rate = tt

  count-cons :
      (o : Option Rec) (m : Option (List Rec)) (n : ℕ)
      → AllTyped o
      → ((rs : List Rec) → m ≡ some rs → count_by is_kv_block rs ≡ n)
      → (rs : List Rec) → cons_made o m ≡ some rs
      → count_by is_kv_block rs ≡ suc n
  unfolding count_by
  count-cons none m n t rest rs e = cc
  count-cons (some r) none n t rest rs e = cc
  count-cons (some r) (some rs') n t rest rs e =
      let same : r ∷ rs' ≡ rs = cc in rw⁻¹ same (rw t.kind (omega (arith, rest rs' refl)))

  -- as many records of blocks as blocks
  pub count-made :
      (blocks : List Obj) (rs : List Rec)
      → made (record_of env probe who ts) blocks ≡ some rs
      → count_by is_kv_block rs ≡ length blocks
  unfolding made count_by
  count-made [] rs e = let same : [] ≡ rs = cc in rw⁻¹ same refl
  count-made (block ∷ blocks) rs e =
      count-cons (record_of env probe who ts block none) (made (record_of env probe who ts) blocks)
        (length blocks) (typed-record probe block none) (count-made blocks) rs e
