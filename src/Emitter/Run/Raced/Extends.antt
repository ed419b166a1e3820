-- ===== src/Emitter/Run/Raced/Extends.antt =====
-- What the actions of a thread do to the ring that a pass of the flusher has copied.
use mathlib.Core.List.{append-nil}
use beyond_kvtransfer.Base.{
  ℕ, ◌≡◌, ◌≢◌, refl, String, Bool, true, false, Option, none, some, [], ◌∷◌, ◌++◌, if◌then◌else◌,
  length, leb, nat_eq, ==_iff, arith, Bool-cases, inl, inr, string_eq, ◌==◌,
}
use beyond_kvtransfer.Base.Dict.{Dict, get, set, remove, setdefault, or_else}
use beyond_kvtransfer.Value.{Rec, Float}
use beyond_kvtransfer.Text.{Text}
use beyond_kvtransfer.Sampling.{should_emit_transfer}
use beyond_kvtransfer.Emitter.Ring
use beyond_kvtransfer.Emitter.Ring.{RingBuffer}
use beyond_kvtransfer.Emitter.State.{Emitter, event, enqueue, get_buf, stamp, account}
use beyond_kvtransfer.Emitter.Probe.{
  StartArgs, EndArgs, transfer_start, transfer_end, start_record, end_record, metadata_enter,
  metadata_exit, metadata_record,
}
use beyond_kvtransfer.Emitter.Flusher.{shutdown}
use beyond_kvtransfer.Emitter.OutFile.{Files}
use beyond_kvtransfer.Emitter.Run.{
  Action, emit, start, finish, measure, flush, stop, perform, event_of, admitted,
}
use beyond_kvtransfer.Emitter.Held.{has_room, ring_of}
use beyond_kvtransfer.Emitter.Run.Raced.{copy_at, put_on}

-- what a ring holds after a call is what it held, and behind it what the call put there
abbrev pub Extends : ℕ → Option (ℕ × Rec) → Emitter → Emitter → Type 0
Extends t o em em' = copy_at t em'.buffers ≡ copy_at t em.buffers ++ put_on t o em

copy_at-set :
    (t u : ℕ) (ring : RingBuffer Rec) (bs : Dict ℕ (RingBuffer Rec))
    → copy_at t (set u ring bs) ≡ (if u == t then ring.buf else copy_at t bs)
unfolding copy_at set Ring.drain_copy
copy_at-set t u ring [] = refl
copy_at-set t u ring ((w, r) ∷ bs) =
    ground (arith, copy_at-set t u ring bs, ==_iff u t, ==_iff w u, ==_iff w t)

copy_at-setdefault :
    (t u : ℕ) (bs : Dict ℕ (RingBuffer Rec)) → copy_at t (setdefault u Ring.new bs) ≡ copy_at t bs
unfolding copy_at setdefault Ring.drain_copy Ring.new
copy_at-setdefault t u [] = ground arith
copy_at-setdefault t u ((w, r) ∷ bs) =
    ground (arith, copy_at-setdefault t u bs, ==_iff u t, ==_iff w u, ==_iff w t)

buf-or_else :
    (t : ℕ) (bs : Dict ℕ (RingBuffer Rec)) → (or_else (get t bs) Ring.new).buf ≡ copy_at t bs
unfolding get copy_at Ring.new Ring.drain_copy
buf-or_else t [] = refl
buf-or_else t ((u, r) ∷ bs) = ground (arith, buf-or_else t bs)

Extends-same : (t : ℕ) (em em' : Emitter) → em'.buffers ≡ em.buffers → Extends t none em em'
unfolding put_on
Extends-same t em em' e = rw (e, append-nil) refl

account_buffers : (em : Emitter) → (account em).buffers ≡ em.buffers
unfolding account
account_buffers em = ground arith

Extends-enqueue : (t u : ℕ) (r : Rec) (em : Emitter) → Extends t (some (u, r)) em (enqueue u r em)
unfolding enqueue get_buf Ring.put put_on admitted has_room ring_of
Extends-enqueue t u r em =
    let ring = or_else (get u em.buffers) Ring.new in
    let bs = setdefault u Ring.new em.buffers in
    let at : copy_at t bs ≡ copy_at t em.buffers = copy_at-setdefault t u em.buffers in
    let own : ring.buf ≡ copy_at u em.buffers = buf-or_else u em.buffers in
    let none_added = append-nil (copy_at t em.buffers) in
    elim (Bool-cases (leb ring.capacity (length ring.buf))) [
      | inl full ↦ rw (full, copy_at-set) (ground (arith, at, own, ==_iff u t, none_added))
      | inr room ↦
          rw (room, account_buffers, copy_at-set) (ground (arith, at, own, ==_iff u t, none_added))
    ]

Extends-event :
    (t u : ℕ) (r : Rec) (em : Emitter)
    → em.enabled ≡ true
    → Extends t (some (u, r)) em (event u r em)
unfolding event
Extends-event t u r em on = simp on (Extends-enqueue t u r em)

Extends-start :
    (t u : ℕ) (tid : String) (draw : Float) (ts : ℕ) (a : StartArgs) (em : Emitter)
    → em.enabled ≡ true
    → Extends t (event_of (start u tid draw ts a) em) em (transfer_start u tid draw ts a em)
unfolding transfer_start event_of
Extends-start t u tid draw ts a em on = elim (Bool-cases (should_emit_transfer em.sampler draw).0) [
  | inl sampled ↦
      let rate = (should_emit_transfer em.sampler draw).1 in
      simp (on, sampled) (Extends-event t u (start_record tid ts a rate) em on)
  | inr skipped ↦ simp (on, skipped) (Extends-same t em em refl)
]

Extends-finish :
    (t u : ℕ) (tid : String) (ts : ℕ) (a : EndArgs) (em : Emitter)
    → em.enabled ≡ true
    → Extends t (event_of (finish u tid ts a) em) em (transfer_end u tid ts a em)
unfolding transfer_end event_of
Extends-finish t u tid ts a em on = simp on (finished (get tid em.live_transfers))
  where
    popped : Emitter
    popped = record em { live_transfers = remove tid em.live_transfers }

    finished :
        (d : Option (String × String))
        → let o : Option (ℕ × Rec) = elim d [
          | none ↦ none
          | some meta ↦ some (u, end_record tid meta ts a)
        ] in
          let em' : Emitter = elim d [
            | none ↦ popped
            | some meta ↦ event u (end_record tid meta ts a) popped
          ] in
          Extends t o em em'
    finished none = Extends-same t em popped refl
    finished (some meta) =
        unfold put_on admitted has_room ring_of stamp in
        Extends-event t u (end_record tid meta ts a) popped on

Extends-measure :
    (t u : ℕ) (subtype : String) (request_id : Option String) (kw : Rec) (draw : Float) (t0 t1 : ℕ)
    (written : Rec) (em : Emitter)
    → em.enabled ≡ true
    → Extends t
        (event_of (measure u subtype request_id kw draw t0 t1 written) em)
        em
        (metadata_exit u subtype request_id kw (metadata_enter subtype draw em) t0 t1 written em)
unfolding metadata_exit event_of
Extends-measure t u subtype request_id kw draw t0 t1 written em on =
    measured (metadata_enter subtype draw em)
  where
    measured :
        (d : Option (Bool × Option Float))
        → let o : Option (ℕ × Rec) = elim d [
          | none ↦ none
          | some (sampled, rate) ↦
              if sampled
              then some (u, metadata_record subtype request_id kw rate t0 t1 written)
              else none
        ] in
          Extends t o em (metadata_exit u subtype request_id kw d t0 t1 written em)
    measured none = Extends-same t em em refl
    measured (some (true, rate)) = Extends-event t u _ em on
    measured (some (false, rate)) = Extends-same t em em refl

stop_buffers : (em : Emitter) → (shutdown em).buffers ≡ em.buffers
unfolding shutdown
stop_buffers em = ground arith

-- any action but the flusher's
pub Extends-perform :
    (dumps : Rec → Option Text) (t : ℕ) (a : Action) (em : Emitter) (files : Files)
    → a ≢ flush
    → em.enabled ≡ true
    → Extends t (event_of a em) em (perform dumps a em files).0
unfolding perform event_of
Extends-perform dumps t (emit u r) em files h on = Extends-event t u r em on
Extends-perform dumps t (start u tid draw ts a) em files h on =
    Extends-start t u tid draw ts a em on
Extends-perform dumps t (finish u tid ts a) em files h on = Extends-finish t u tid ts a em on
Extends-perform dumps t (measure u subtype request_id kw draw t0 t1 written) em files h on =
    Extends-measure t u subtype request_id kw draw t0 t1 written em on
Extends-perform dumps t stop em files h on = Extends-same t em (shutdown em) (stop_buffers em)
Extends-perform dumps t flush em files h on = absurd (h refl)
