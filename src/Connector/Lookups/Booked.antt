-- ===== src/Connector/Lookups/Booked.antt =====
-- The probes on the scheduler's side leave the book of the connector wrapper as it is.
use mathlib.Core.Path.{subst}
use beyond_kvtransfer.Py.Reads.{Classes}
use beyond_kvtransfer.Base.{
  ℕ, ◌≡◌, refl, String, Bool, true, Option, none, some, List, [], ◌∷◌, ◌||◌, string_eq, opt_int_eq,
  ℤ, sym, ◌∙◌, arith,
}
use beyond_kvtransfer.Base.Dict.Distinct.{Distinct}
use beyond_kvtransfer.Value.{Rec, Float}
use beyond_kvtransfer.Py.{Obj}
use beyond_kvtransfer.Emitter.State.{Emitter, event}
use beyond_kvtransfer.Emitter.Probe.{metadata_enter}
use beyond_kvtransfer.Emitter.Run.Live.{Untouched, Untouched-event, Untouched-exit}
use beyond_kvtransfer.Connector.{TransferState, remember_earliest, req_id, block_ids_from}
use beyond_kvtransfer.Connector.Calls
use beyond_kvtransfer.Connector.Calls.{Connector}
use beyond_kvtransfer.Connector.Lookups.{
  Inner, probed, lookup_record, promote_record, build_record, finished_record, promote_all,
  get_num_new_matched_tokens, update_state_after_alloc, build_connector_meta, get_finished,
}
use beyond_kvtransfer.Connector.Tracked.{is_live, is_pending}
use beyond_kvtransfer.Connector.Booked.{Contained, IsBooked, same_is_live}

-- a call of the connector, whatever its result
abbrev pub effect_of : Inner → Calls.Inner
effect_of inner em = ((inner em).0, true)

-- what a lookup leaves of the book
record SameBook (s s' : TransferState) : Type 0 where
  loads : s'.loads_by_layer ≡ s.loads_by_layer
  saves : s'.saves ≡ s.saves

remember_earliest-SameBook :
    (id : Option String) (ts : ℕ) (s : TransferState) → SameBook s (remember_earliest id ts s)
unfolding remember_earliest
remember_earliest-SameBook id ts s = ground arith

same_pending :
    (x : String) (s s' : TransferState) → SameBook s s' → is_pending x s' ≡ is_pending x s
unfolding is_pending
same_pending x s s' b = rw (b.loads, b.saves) refl

promote_all-Untouched :
    (thread : ℕ) (rec : ℤ → Rec) (ids : List ℤ) (em : Emitter)
    → Untouched em (promote_all thread rec ids em)
unfolding promote_all
promote_all-Untouched thread rec [] em = record { enabled = refl; sampler = refl; live = refl }
promote_all-Untouched thread rec (id ∷ ids) em =
    let first = Untouched-event thread (rec id) em in
    let rest = promote_all-Untouched thread rec ids (event thread (rec id) em) in
    record {
      enabled = rest.enabled ∙ first.enabled;
      sampler = rest.sampler ∙ first.sampler;
      live = rest.live ∙ first.live;
    }

probed-Untouched :
    (thread : ℕ) (subtype : String) (id : Option String) (kw : Rec) (written : Option Obj → Rec)
    (draw : Float) (t0 t1 : ℕ) (inner : Inner) (em : Emitter)
    → Untouched (inner em).0 (probed thread subtype id kw written draw t0 t1 inner em).0
unfolding probed
probed-Untouched thread subtype id kw written draw t0 t1 inner em =
    Untouched-exit thread subtype id kw (metadata_enter subtype draw em) t0 t1
      (written (inner em).1) (inner em).0

module _ (others : String → Bool) where
  -- after the connector's call, emissions that leave the open transfers alone
  quiet-IsBooked :
      (inner : Inner) (c : Connector) (em : Emitter) (s : TransferState)
      → Contained others (effect_of inner)
      → IsBooked others c
      → Untouched (inner c.em).0 em
      → SameBook c.state s
      → IsBooked others (record c { em = em; state = s })
  quiet-IsBooked inner c em s contained b same book = record {
    enabled = same.enabled ∙ contained.enabled c.em ∙ b.enabled;
    distinct = subst (λ d. Distinct d) (sym book.loads) b.distinct;
    booked = λ x h.
        let live = contained.live c.em x (same_is_live x (inner c.em).0 em same.live h) in
        let known : is_live x c.em ≡ true → (is_pending x c.state || others x) ≡ true =
          b.booked x in
        let pending = same_pending x c.state s book in ground arith;
  }

  pub IsBooked-lookup :
      (classes : Classes) (thread : ℕ) (draw : Float) (t0 t1 ts : ℕ) (request : Obj) (n : ℤ)
      (inner : Inner) (c : Connector)
      → Contained others (effect_of inner)
      → IsBooked others c
      → IsBooked others
          (get_num_new_matched_tokens classes thread draw t0 t1 ts request n inner c).0
  unfolding get_num_new_matched_tokens probed
  IsBooked-lookup classes thread draw t0 t1 ts request n inner c contained b = simp b.enabled (
      quiet-IsBooked inner c _ _ contained b
        (probed-Untouched thread "prefix_lookup" (req_id request) _ (lookup_record classes n) draw
          t0 t1 inner c.em)
        (looked_up (inner c.em).1))
    where
      looked_up :
          (result : Option Obj)
          → SameBook c.state (elim result as (λ x. TransferState) [
            | none ↦ c.state
            | some v ↦ remember_earliest (req_id request) ts c.state
          ])
      looked_up none = record { loads = refl; saves = refl }
      looked_up (some v) = remember_earliest-SameBook (req_id request) ts c.state

  pub IsBooked-alloc :
      (thread ts : ℕ) (request blocks : Obj) (inner : Inner) (c : Connector)
      → Contained others (effect_of inner)
      → IsBooked others c
      → IsBooked others (update_state_after_alloc thread ts request blocks inner c).0
  unfolding update_state_after_alloc
  IsBooked-alloc thread ts request blocks inner c contained b =
      simp b.enabled (allocated (inner c.em).1)
    where
      same_book : SameBook c.state c.state
      same_book = record { loads = refl; saves = refl }

      promoted : Emitter
      promoted =
          promote_all thread (promote_record ts c.transport (req_id request))
            (block_ids_from blocks) (inner c.em).0

      allocated :
          (result : Option Obj)
          → IsBooked others
              (elim result as (λ x. Connector × Option Obj) [
                | none ↦ (record c { em = (inner c.em).0 }, none)
                | some v ↦ (record c { em = promoted }, some v)
              ]).0
      allocated none =
          quiet-IsBooked inner c (inner c.em).0 c.state contained b
            (record { enabled = refl; sampler = refl; live = refl }) same_book
      allocated (some v) =
          quiet-IsBooked inner c promoted c.state contained b
            (promote_all-Untouched thread _ (block_ids_from blocks) (inner c.em).0) same_book

  pub IsBooked-build :
      (thread : ℕ) (draw : Float) (t0 t1 : ℕ) (scheduler_output : Obj) (inner : Inner)
      (c : Connector)
      → Contained others (effect_of inner)
      → IsBooked others c
      → IsBooked others (build_connector_meta thread draw t0 t1 scheduler_output inner c).0
  unfolding build_connector_meta probed
  IsBooked-build thread draw t0 t1 scheduler_output inner c contained b = simp b.enabled (
      quiet-IsBooked inner c _ c.state contained b
        (probed-Untouched thread "connector_build_meta" none [] (build_record scheduler_output) draw
          t0 t1 inner c.em)
        (record { loads = refl; saves = refl }))

  pub IsBooked-finished :
      (thread : ℕ) (draw : Float) (t0 t1 : ℕ) (ids : Obj) (inner : Inner) (c : Connector)
      → Contained others (effect_of inner)
      → IsBooked others c
      → IsBooked others (get_finished thread draw t0 t1 ids inner c).0
  unfolding get_finished probed
  IsBooked-finished thread draw t0 t1 ids inner c contained b = simp b.enabled (
      quiet-IsBooked inner c _ c.state contained b
        (probed-Untouched thread "connector_get_finished" none _ finished_record draw t0 t1 inner
          c.em)
        (record { loads = refl; saves = refl }))
