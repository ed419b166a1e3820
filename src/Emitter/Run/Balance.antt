-- ===== src/Emitter/Run/Balance.antt =====
-- What each action does to the number of records held, flushed and refused.
use beyond_kvtransfer.Base.{
  ℕ, ◌+◌, ◌≡◌, refl, String, Bool, true, false, Option, none, some, List, [], if◌then◌else◌,
  string_eq, ap, sym, arith, count_by, Bool-cases, inl, inr,
}
use beyond_kvtransfer.Base.Dict.{get, remove}
use beyond_kvtransfer.Value.{Rec, Float}
use beyond_kvtransfer.Text.{Text}
use beyond_kvtransfer.Sampling.{should_emit_transfer}
use beyond_kvtransfer.Emitter.OutFile.{Files}
use beyond_kvtransfer.Emitter.State.{
  Emitter, Phase, testing, waiting, closed, event, stamp, enqueue,
}
use beyond_kvtransfer.Emitter.Probe.{
  StartArgs, EndArgs, transfer_start, transfer_end, start_record, end_record, metadata_enter,
  metadata_exit, metadata_record,
}
use beyond_kvtransfer.Emitter.Flusher.{
  drain_all, flusher_step, flusher_at, flusher_test, flush_once, flusher_wake, shutdown,
}
use beyond_kvtransfer.Emitter.Held.{
  held, has_room, ring_of, held-enqueue, count-drain_all, enqueue-frame,
}
use beyond_kvtransfer.Emitter.Run.{
  Action, emit, start, finish, measure, flush, stop, perform, event_of, taken_at, admitted, refused,
  taken,
}

-- what an action does to the number of held records that pass a test, and to the counter
pub record Balance (p : Rec → Bool) (em em' : Emitter) (ins outs : List Rec) (lost : ℕ)
    : Type 0 where
  pub enabled : em'.enabled ≡ em.enabled
  pub balance : held p em'.buffers + count_by p outs ≡ held p em.buffers + count_by p ins
  pub dropped : em'.dropped_total ≡ em.dropped_total + lost

module _ (p : Rec → Bool) where
  Balance-same :
      (em em' : Emitter)
      → em'.enabled ≡ em.enabled
      → em'.buffers ≡ em.buffers
      → em'.dropped_total ≡ em.dropped_total
      → Balance p em em' [] [] 0
  unfolding count_by
  Balance-same em em' e b d = record {
    enabled = e;
    balance = ap (λ bs. held p bs + 0) b;
    dropped = omega (arith, d);
  }

  Balance-enqueue :
      (t : ℕ) (r : Rec) (em : Emitter)
      → Balance p em (enqueue t r em) (admitted (some (t, r)) em) [] (refused (some (t, r)) em)
  unfolding admitted refused count_by
  Balance-enqueue t r em =
      let frame = enqueue-frame t r em in
      let counted = held-enqueue p t r em in
      elim (Bool-cases (has_room t em)) [
        | inl room ↦ rw room (record {
          enabled = frame.enabled;
          balance = ground (arith, counted, room);
          dropped = ground (arith, frame.dropped, room);
        })
        | inr full ↦ rw full (record {
          enabled = frame.enabled;
          balance = ground (arith, counted, full);
          dropped = ground (arith, frame.dropped, full);
        })
      ]

  Balance-event :
      (t : ℕ) (r : Rec) (em : Emitter)
      → em.enabled ≡ true
      → Balance p em (event t r em) (admitted (some (t, r)) em) [] (refused (some (t, r)) em)
  unfolding event
  Balance-event t r em on = simp on (Balance-enqueue t r em)

  Balance-drain :
      (em em' : Emitter)
      → em'.enabled ≡ em.enabled
      → em'.buffers ≡ (drain_all em.buffers).1
      → em'.dropped_total ≡ em.dropped_total
      → Balance p em em' [] (drain_all em.buffers).0 0
  unfolding count_by
  Balance-drain em em' e b d = record {
    enabled = e;
    balance = rw b (omega (arith, count-drain_all p em.buffers));
    dropped = omega (arith, d);
  }

module _ (dumps : Rec → Option Text) (p : Rec → Bool) where
  Balance-flush_once :
      (em : Emitter) (files : Files)
      → Balance p em (flush_once dumps em files).0 [] (drain_all em.buffers).0 0
  unfolding flush_once
  Balance-flush_once em files = Balance-drain p em _ (ground arith) (ground arith) (ground arith)

  Balance-flusher_at :
      (phase : Phase) (em : Emitter) (files : Files)
      → Balance p em (flusher_at dumps phase em files).0 [] (taken_at phase em.stop_event em) 0
  unfolding flusher_at taken_at flusher_wake
  Balance-flusher_at testing em files = tested em.stop_event
    where
      tested :
          (stopping : Bool)
          → Balance p em
              (flusher_test dumps stopping em files).0
              []
              (taken_at testing stopping em)
              0
      tested false = unfold flusher_test in Balance-same p em _ refl refl refl
      tested true =
          let b = Balance-flush_once em files in
          unfold flusher_test in
          record { enabled = b.enabled; balance = b.balance; dropped = b.dropped }
  Balance-flusher_at waiting em files =
      let b =
        Balance-flush_once (record em { flush_trigger = false; pending_approx_bytes = 0 }) files in
      record { enabled = b.enabled; balance = b.balance; dropped = b.dropped }
  Balance-flusher_at closed em files = Balance-same p em em refl refl refl

  Balance-flush :
      (em : Emitter) (files : Files)
      → Balance p em (flusher_step dumps em files).0 [] (taken flush em) 0
  unfolding flusher_step taken
  Balance-flush em files = Balance-flusher_at em.phase em files

  Balance-start :
      (t : ℕ) (tid : String) (draw : Float) (ts : ℕ) (a : StartArgs) (em : Emitter)
      → em.enabled ≡ true
      → let o = event_of (start t tid draw ts a) em in
        Balance p em (transfer_start t tid draw ts a em) (admitted o em) [] (refused o em)
  unfolding transfer_start event_of
  Balance-start t tid draw ts a em on = elim (Bool-cases (should_emit_transfer em.sampler draw).0) [
    | inl sampled ↦
        let rate = (should_emit_transfer em.sampler draw).1 in
        let b = Balance-event p t (start_record tid ts a rate) em on in
        simp (on, sampled)
          (record { enabled = b.enabled; balance = b.balance; dropped = b.dropped })
    | inr skipped ↦
        simp (on, skipped) (unfold admitted refused in Balance-same p em em refl refl refl)
  ]

  Balance-finish :
      (t : ℕ) (tid : String) (ts : ℕ) (a : EndArgs) (em : Emitter)
      → em.enabled ≡ true
      → let o = event_of (finish t tid ts a) em in
        Balance p em (transfer_end t tid ts a em) (admitted o em) [] (refused o em)
  unfolding transfer_end event_of
  Balance-finish t tid ts a em on = simp on (finished (get tid em.live_transfers))
    where
      popped : Emitter
      popped = record em { live_transfers = remove tid em.live_transfers }

      finished :
          (d : Option (String × String))
          → let o : Option (ℕ × Rec) = elim d [
            | none ↦ none
            | some meta ↦ some (t, end_record tid meta ts a)
          ] in
            Balance p em
              (elim d [ none ↦ popped | some meta ↦ event t (end_record tid meta ts a) popped ])
              (admitted o em)
              []
              (refused o em)
      finished none = unfold admitted refused in Balance-same p em popped refl refl refl
      finished (some meta) =
          let b = Balance-event p t (end_record tid meta ts a) popped on in
          unfold admitted refused has_room ring_of stamp in
          record { enabled = b.enabled; balance = b.balance; dropped = b.dropped }

  Balance-measure :
      (t : ℕ) (subtype : String) (request_id : Option String) (kw : Rec) (draw : Float) (t0 t1 : ℕ)
      (written : Rec) (em : Emitter)
      → em.enabled ≡ true
      → let o = event_of (measure t subtype request_id kw draw t0 t1 written) em in
        Balance p em
          (metadata_exit t subtype request_id kw (metadata_enter subtype draw em) t0 t1 written em)
          (admitted o em)
          []
          (refused o em)
  unfolding event_of metadata_exit
  Balance-measure t subtype request_id kw draw t0 t1 written em on =
      measured (metadata_enter subtype draw em)
    where
      measured :
          (d : Option (Bool × Option Float))
          → let o : Option (ℕ × Rec) = elim d [
            | none ↦ none
            | some (sampled, rate) ↦
                if sampled
                then some (t, metadata_record subtype request_id kw rate t0 t1 written)
                else none
          ] in
            Balance p em
              (metadata_exit t subtype request_id kw d t0 t1 written em)
              (admitted o em)
              []
              (refused o em)
      measured none = unfold admitted refused in Balance-same p em em refl refl refl
      measured (some (true, rate)) = Balance-event p t _ em on
      measured (some (false, rate)) = unfold admitted refused in Balance-same p em em refl refl refl

  pub Balance-perform :
      (a : Action) (em : Emitter) (files : Files)
      → em.enabled ≡ true
      → Balance p em
          (perform dumps a em files).0
          (admitted (event_of a em) em)
          (taken a em)
          (refused (event_of a em) em)
  unfolding perform event_of taken
  Balance-perform (emit t r) em files on = Balance-event p t r em on
  Balance-perform (start t tid draw ts a) em files on = Balance-start t tid draw ts a em on
  Balance-perform (finish t tid ts a) em files on = Balance-finish t tid ts a em on
  Balance-perform (measure t subtype request_id kw draw t0 t1 written) em files on =
      Balance-measure t subtype request_id kw draw t0 t1 written em on
  Balance-perform flush em files on = unfold admitted refused in Balance-flush em files
  Balance-perform stop em files on =
      unfold admitted refused shutdown in simp on (Balance-same p em _ (sym on) refl refl)
