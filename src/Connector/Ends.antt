-- ===== src/Connector/Ends.antt =====
-- What a wait of the connector wrapper ends.
use beyond_kvtransfer.Base.{
  ℕ, ◌≡◌, refl, String, Bool, true, false, none, List, [], ◌∷◌, string_eq, any_by, ◌∙◌, arith,
  Bool-cases, inl, inr, if◌then◌else◌, length, opt_int_eq,
}
use beyond_kvtransfer.Value.{Float, Rec, nat}
use beyond_kvtransfer.Emitter.State.{Emitter}
use beyond_kvtransfer.Emitter.Probe.{EndArgs, metadata_enter, metadata_exit}
use beyond_kvtransfer.Emitter.Run.Live.{Untouched-exit}
use beyond_kvtransfer.Connector.{Entry, TransferState, pop_saves}
use beyond_kvtransfer.Connector.Calls.{
  Connector, Inner, wait_for, wait_for_save, end_all, entry_end, cancelled,
}
use beyond_kvtransfer.Connector.Tracked.{is_live, is_of, end_all-is_live}

not_live :
    (x : String) (t : ℕ) (clock : String → ℕ) (args : Entry → EndArgs) (entries : List Entry)
    (em : Emitter)
    → em.enabled ≡ true
    → any_by (is_of x) entries ≡ true
    → is_live x (end_all t clock args entries em) ≡ false
not_live x t clock args entries em on h =
    elim (Bool-cases (is_live x (end_all t clock args entries em))) [
      | inl live ↦
          let (out, before) = end_all-is_live x t clock args entries em on live in ground arith
      | inr closed ↦ closed
    ]

wait_for-ends :
    (thread : ℕ) (subtype : String) (kw : Rec) (pop : TransferState → List Entry × TransferState)
    (draw : Float) (t0 t1 end_ts : ℕ) (clock : String → ℕ) (inner : Inner) (c : Connector)
    → c.em.enabled ≡ true
    → (inner c.em).0.enabled ≡ true
    → ((x : String)
        → any_by (is_of x) (pop c.state).0 ≡ true
        → is_live x (wait_for thread subtype kw pop draw t0 t1 end_ts clock inner c).em ≡ false)
      × ((wait_for thread subtype kw pop draw t0 t1 end_ts clock inner c).state ≡ (pop c.state).1)
unfolding wait_for
wait_for-ends thread subtype kw pop draw t0 t1 end_ts clock inner c on inner_on =
    simp on (called (inner c.em).1)
  where
    exited : Rec → Emitter
    exited written =
        metadata_exit thread subtype none kw (metadata_enter subtype draw c.em) t0 t1 written
          (inner c.em).0

    ended : Rec → (Entry → EndArgs) → Connector
    ended written args = record c {
      em = end_all thread clock args (pop c.state).0 (exited written);
      state = (pop c.state).1;
    }

    after : Bool → Connector
    after returned =
        if returned
        then ended (("n_hits", nat (length (pop c.state).0)) ∷ []) (entry_end end_ts)
        else ended [] (λ entry. cancelled)

    exited_on : (written : Rec) → (exited written).enabled ≡ true
    exited_on written =
        (Untouched-exit thread subtype none kw (metadata_enter subtype draw c.em) t0 t1 written
          (inner c.em).0).enabled
        ∙ inner_on

    called :
        (returned : Bool)
        → ((x : String)
            → any_by (is_of x) (pop c.state).0 ≡ true
            → is_live x (after returned).em ≡ false)
          × ((after returned).state ≡ (pop c.state).1)
    called true = (λ x h. not_live x thread clock _ _ _ (exited_on _) h, refl)
    called false = (λ x h. not_live x thread clock _ _ _ (exited_on _) h, refl)

-- On an enabled emitter, which the wrapped connector's call leaves enabled, `wait_for_save` ends
-- every save that is in the book, whether the wrapped connector returns or
-- raises: none of them is open in the emitter any more, the book holds no save, and its loads stay.
pub wait_for_save-ends :
    (thread : ℕ) (draw : Float) (t0 t1 end_ts : ℕ) (clock : String → ℕ) (inner : Inner)
    (c : Connector)
    → c.em.enabled ≡ true
    → (inner c.em).0.enabled ≡ true
    → ((x : String)
        → any_by (is_of x) c.state.saves ≡ true
        → is_live x (wait_for_save thread draw t0 t1 end_ts clock inner c).em ≡ false)
      × ((wait_for_save thread draw t0 t1 end_ts clock inner c).state
          ≡ record c.state { saves = [] })
unfolding wait_for_save pop_saves
wait_for_save-ends thread draw t0 t1 end_ts clock inner c on inner_on =
    wait_for-ends thread "wait_for_save" [] pop_saves draw t0 t1 end_ts clock inner c on inner_on
