-- ===== src/Connector/Booked.antt =====
-- No transfer that the connector wrapper opens is forgotten, over sequences of its calls.
use beyond_kvtransfer.Base.{
  ℕ, ◌≡◌, ◌⊎◌, String, Bool, true, false, none, List, [], ◌∷◌, ◌||◌, if◌then◌else◌, string_eq,
  opt_int_eq, ◌==◌, length, ap, ◌∙◌, arith, Bool-cases, inl, inr,
}
use beyond_kvtransfer.Base.Dict.Distinct.{Distinct}
use beyond_kvtransfer.Value.{Rec, nat, Float}
use beyond_kvtransfer.Emitter.State.{Emitter}
use beyond_kvtransfer.Emitter.Probe.{
  StartArgs, EndArgs, transfer_start, transfer_end, metadata_enter, metadata_exit,
}
use beyond_kvtransfer.Emitter.Run.Live.{Tracks-start, Tracks-finish, Untouched-exit}
use beyond_kvtransfer.Connector.{Entry, TransferState}
use beyond_kvtransfer.Connector.Calls.{
  Connector, Inner, around, wait_for, end_all, entry_end, cancelled,
}
use beyond_kvtransfer.Connector.Tracked.{
  is_live, start-is_live, end-is_live, end_all-is_live, is_of, is_pending, Adds, Takes,
}

end_all-enabled :
    (t : ℕ) (clock : String → ℕ) (args : Entry → EndArgs) (entries : List Entry) (em : Emitter)
    → em.enabled ≡ true
    → (end_all t clock args entries em).enabled ≡ true
unfolding end_all
end_all-enabled t clock args [] em on = on
end_all-enabled t clock args (entry ∷ entries) em on =
    let id = entry.transfer_id in
    end_all-enabled t clock args entries (transfer_end t id (clock id) (args entry) em)
      ((Tracks-finish id t id (clock id) (args entry) em on).enabled ∙ on)

pub same_is_live :
    (tid : String) (em em' : Emitter)
    → em'.live_transfers ≡ em.live_transfers
    → is_live tid em' ≡ true
    → is_live tid em ≡ true
unfolding is_live
same_is_live tid em em' e h = cc

module _ (others : String → Bool) where
  -- a call of the wrapped connector that leaves no transfer open but those of others
  pub record Contained (inner : Inner) : Type 0 where
    pub enabled : (em : Emitter) → (inner em).0.enabled ≡ em.enabled
    pub live :
        (em : Emitter) (tid : String)
        → is_live tid (inner em).0 ≡ true
        → (is_live tid em || others tid) ≡ true

  -- every open transfer is in the book of the wrapper, or is one of the others
  pub record IsBooked (c : Connector) : Type 0 where
    pub enabled : c.em.enabled ≡ true
    pub distinct : Distinct c.state.loads_by_layer
    pub booked :
        (tid : String) → is_live tid c.em ≡ true → (is_pending tid c.state || others tid) ≡ true

  pub around-IsBooked :
      (thread : ℕ) (tid : String) (draw : Float) (ts end_ts : ℕ) (args : StartArgs) (entry : Entry)
      (keep : TransferState → TransferState) (inner : Inner) (c : Connector)
      → entry.transfer_id ≡ tid
      → Adds entry keep
      → Contained inner
      → IsBooked c
      → IsBooked (around thread tid draw ts end_ts args keep inner c)
  unfolding around is_of
  around-IsBooked thread tid draw ts end_ts args entry keep inner c same adds contained b =
      simp b.enabled (called (inner opened).1)
    where
      opened : Emitter
      opened = transfer_start thread tid draw ts args c.em

      enabled : (inner opened).0.enabled ≡ true
      enabled =
          contained.enabled opened
          ∙ (Tracks-start tid thread tid draw ts args c.em b.enabled).enabled
          ∙ b.enabled

      -- a transfer that is open after the call is the new one, or it was open before, or is of others
      after_call :
          (x : String)
          → is_live x (inner opened).0 ≡ true
          → (tid == x ≡ true) ⊎ ((is_pending x c.state || others x) ≡ true)
      after_call x h = elim (Bool-cases (is_live x opened)) [
        | inl live ↦ elim (start-is_live x thread tid draw ts args c.em b.enabled live) [
          | inl own ↦ inl own
          | inr before ↦ inr (b.booked x before)
        ]
        | inr out ↦ let left = contained.live opened x h in inr (ground arith)
      ]

      called :
          (returned : Bool)
          → IsBooked (
              if returned
              then record c { em = (inner opened).0; state = keep c.state }
              else record c { em = transfer_end thread tid end_ts cancelled (inner opened).0 })
      called true = record {
        enabled = enabled;
        distinct = adds.distinct c.state b.distinct;
        booked = λ x h.
            let after = after_call x h in
            let pending = adds.pending x c.state in
            let own : is_of x entry ≡ (tid == x) = unfold is_of in ap (λ id. id == x) same in
            ground arith;
      }
      called false = record {
        enabled =
            (Tracks-finish tid thread tid end_ts cancelled (inner opened).0 enabled).enabled
            ∙ enabled;
        distinct = b.distinct;
        booked = λ x h.
            let (other, live) =
              end-is_live x thread tid end_ts cancelled (inner opened).0 enabled h in
            let after = after_call x live in ground arith;
      }

  pub wait_for-IsBooked :
      (thread : ℕ) (subtype : String) (kw : Rec) (pop : TransferState → List Entry × TransferState)
      (draw : Float) (t0 t1 end_ts : ℕ) (clock : String → ℕ) (inner : Inner) (c : Connector)
      → Takes pop
      → Contained inner
      → IsBooked c
      → IsBooked (wait_for thread subtype kw pop draw t0 t1 end_ts clock inner c)
  unfolding wait_for
  wait_for-IsBooked thread subtype kw pop draw t0 t1 end_ts clock inner c takes contained b =
      simp b.enabled (called (inner c.em).1)
    where
      exited : Rec → Emitter
      exited written =
          metadata_exit thread subtype none kw (metadata_enter subtype draw c.em) t0 t1 written
            (inner c.em).0

      ended : Rec → (Entry → EndArgs) → Connector
      ended written args = record c {
        em = end_all thread clock args (pop c.state).0 (exited written);
        state = (pop c.state).1;
      }

      ended-IsBooked : (written : Rec) (args : Entry → EndArgs) → IsBooked (ended written args)
      ended-IsBooked written args =
          let same =
            Untouched-exit thread subtype none kw (metadata_enter subtype draw c.em) t0 t1 written
              (inner c.em).0 in
          let on : (exited written).enabled ≡ true =
            same.enabled ∙ contained.enabled c.em ∙ b.enabled in
          record {
            enabled = end_all-enabled thread clock args (pop c.state).0 (exited written) on;
            distinct = takes.distinct c.state b.distinct;
            booked = λ x h.
                let (out, live) =
                  end_all-is_live x thread clock args (pop c.state).0 (exited written) on h in
                let live_inner : is_live x (inner c.em).0 ≡ true =
                  same_is_live x (inner c.em).0 (exited written) same.live live in
                let before = contained.live c.em x live_inner in
                let known : is_live x c.em ≡ true → (is_pending x c.state || others x) ≡ true =
                  b.booked x in
                let pending = takes.pending x c.state b.distinct in ground arith;
          }

      called :
          (returned : Bool)
          → IsBooked (
              if returned
              then ended (("n_hits", nat (length (pop c.state).0)) ∷ []) (entry_end end_ts)
              else ended [] (λ entry. cancelled))
      called true = ended-IsBooked _ _
      called false = ended-IsBooked _ _
