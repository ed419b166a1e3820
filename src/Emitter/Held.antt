-- ===== src/Emitter/Held.antt =====
-- How many of the records that pass a test are held in the ring buffers, after each operation.
use beyond_kvtransfer.Base.{
  ℕ, ◌+◌, ◌≡◌, refl, Bool, true, false, some, [], ◌∷◌, ◌++◌, if◌then◌else◌, length, leb, nat_eq,
  ==_iff, arith, count_by, count_by-append, Bool-cases, inl, inr, string_eq,
}
use beyond_kvtransfer.Base.Dict.{Dict, get, set, setdefault, or_else, get-setdefault}
use beyond_kvtransfer.Value.{Rec}
use beyond_kvtransfer.Emitter.Ring
use beyond_kvtransfer.Emitter.Ring.{RingBuffer}
use beyond_kvtransfer.Emitter.State.{Emitter, enqueue, get_buf, stamp, account}
use beyond_kvtransfer.Emitter.Flusher.{drain_all}

abbrev pub one_if : Bool → ℕ
one_if b = if b then 1 else 0

unfoldable pub held : (Rec → Bool) → Dict ℕ (RingBuffer Rec) → ℕ
held p [] = 0
held p ((thread, ring) ∷ buffers) = count_by p ring.buf + held p buffers

-- the ring of a thread, a new one where the thread has none yet
unfoldable pub ring_of : ℕ → Emitter → RingBuffer Rec
ring_of thread em = or_else (get thread em.buffers) Ring.new

-- whether `event` on this thread finds room
unfoldable pub has_room : ℕ → Emitter → Bool
unfolding ring_of
has_room thread em =
    if leb (ring_of thread em).capacity (length (ring_of thread em).buf) then false else true

module _ (p : Rec → Bool) where
  held-setdefault :
      (t : ℕ) (bs : Dict ℕ (RingBuffer Rec)) → held p (setdefault t Ring.new bs) ≡ held p bs
  unfolding held setdefault Ring.new count_by
  held-setdefault t [] = refl
  held-setdefault t ((u, ring) ∷ bs) = ground (arith, held-setdefault t bs)

  held-set :
      (t : ℕ) (ring ring' : RingBuffer Rec) (bs : Dict ℕ (RingBuffer Rec))
      → get t bs ≡ some ring
      → held p (set t ring' bs) + count_by p ring.buf ≡ held p bs + count_by p ring'.buf
  unfolding held set get
  held-set t ring ring' [] h = ground arith
  held-set t ring ring' ((u, r) ∷ bs) h = ground (arith, held-set t ring ring' bs)

  pub count-drain_all :
      (bs : Dict ℕ (RingBuffer Rec))
      → (count_by p (drain_all bs).0 ≡ held p bs) × (held p (drain_all bs).1 ≡ 0)
  unfolding held drain_all Ring.drain count_by
  count-drain_all [] = (refl, refl)
  count-drain_all ((t, ring) ∷ bs) =
      (rw count_by-append (omega (arith, count-drain_all bs)), omega (arith, count-drain_all bs))

  account_keeps : (em : Emitter) → held p (account em).buffers ≡ held p em.buffers
  unfolding account
  account_keeps em = ground arith

  -- the registered buffers hold what was held, and the ring of the thread is among them
  get_buf-held :
      (t : ℕ) (em : Emitter)
      → (held p (get_buf t em).1.buffers ≡ held p em.buffers)
        × (get t (get_buf t em).1.buffers ≡ some (ring_of t em))
        × ((get_buf t em).0 ≡ ring_of t em)
  unfolding get_buf ring_of
  get_buf-held t em = (
    held-setdefault t em.buffers,
    ground (arith, get-setdefault t t Ring.new em.buffers, ==_iff t t),
    refl,
  )

  -- the stamped record is added to what is held exactly when the ring of the thread has room
  pub held-enqueue :
      (t : ℕ) (r : Rec) (em : Emitter)
      → held p (enqueue t r em).buffers
        ≡ held p em.buffers + (if has_room t em then one_if (p (stamp em r)) else 0)
  unfolding enqueue has_room Ring.put count_by
  held-enqueue t r em =
      let ring = ring_of t em in
      let x = stamp em r in
      let (kept, found, same) = get_buf-held t em in
      let bs = (get_buf t em).1.buffers in
      let put_back = λ (ring' : RingBuffer Rec). held-set t ring ring' bs found in
      elim (Bool-cases (leb ring.capacity (length ring.buf))) [
        | inl full ↦
            rw (same, full)
              (omega (arith, kept, put_back (record ring { dropped = ring.dropped + 1 })))
        | inr room ↦
            let ring' : RingBuffer Rec = record ring { buf = ring.buf ++ x ∷ [] } in
            rw (same, room, account_keeps)
              (omega (arith, kept, put_back ring', count_by-append p ring.buf (x ∷ [])))
      ]

-- what `event` leaves alone, and its count of refused records
pub record EventFrame (t : ℕ) (em em' : Emitter) : Type 0 where
  pub enabled : em'.enabled ≡ em.enabled
  pub trace_id : em'.trace_id ≡ em.trace_id
  pub node_id : em'.node_id ≡ em.node_id
  pub worker_id : em'.worker_id ≡ em.worker_id
  pub sampler : em'.sampler ≡ em.sampler
  pub live_transfers : em'.live_transfers ≡ em.live_transfers
  pub outfile : em'.outfile ≡ em.outfile
  pub stop_event : em'.stop_event ≡ em.stop_event
  pub phase : em'.phase ≡ em.phase
  pub dropped : em'.dropped_total ≡ em.dropped_total + (if has_room t em then 0 else 1)

pub enqueue-frame : (t : ℕ) (r : Rec) (em : Emitter) → EventFrame t em (enqueue t r em)
unfolding enqueue get_buf has_room ring_of Ring.put account
enqueue-frame t r em = ground arith
