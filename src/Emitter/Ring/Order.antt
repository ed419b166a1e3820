-- ===== src/Emitter/Ring/Order.antt =====
-- A ring buffer that one thread at a time touches is a queue that counts what it refuses.
use mathlib.Core.List.{append_assoc, append-nil}
use beyond_kvtransfer.Base.{
  ℕ, ◌+◌, ◌≤◌, List, [], ◌∷◌, ◌++◌, leb, length, length-append, if◌then◌else◌, ◌≡◌, refl, arith,
  Bool-cases, inl, inr, sym, ap, ◌∙◌,
}
use beyond_kvtransfer.Emitter.Ring.{RingBuffer, put, drain}

pub data RingOp {ℓ} (A : Type ℓ) : Type ℓ where
  put_op : A → RingOp A
  drain_op : RingOp A

-- what a sequence of calls did: the items that `put` accepted, the items that `drain` returned,
-- the number that `put` refused, and the buffer at the end
pub record Outcome {ℓ} (A : Type ℓ) : Type ℓ where
  pub accepted : List A
  pub drained : List A
  pub refused : ℕ
  pub ring : RingBuffer A

module _ {ℓ} {A : Type ℓ} where
  unfoldable pub step : RingOp A → Outcome A → Outcome A
  unfolding put drain
  step (put_op item) o =
      let (done, ring) = put item o.ring in
      if done
      then record o { accepted = o.accepted ++ item ∷ []; ring = ring }
      else record o { refused = o.refused + 1; ring = ring }
  step drain_op o =
      let (items, ring) = drain o.ring in record o { drained = o.drained ++ items; ring = ring }

  unfoldable pub run : List (RingOp A) → Outcome A → Outcome A
  run [] o = o
  run (op ∷ ops) o = run ops (step op o)

  unfoldable pub start : RingBuffer A → Outcome A
  start b = record { accepted = b.buf; drained = []; refused = b.dropped; ring = b }

  pub record IsQueue (o : Outcome A) : Type ℓ where
    pub fifo : o.accepted ≡ o.drained ++ o.ring.buf
    pub counted : o.ring.dropped ≡ o.refused
    pub bounded : length o.ring.buf ≤ o.ring.capacity

  put_keeps_fifo :
      (acc dr buf : List A) (x : A) → acc ≡ dr ++ buf → acc ++ x ∷ [] ≡ dr ++ (buf ++ x ∷ [])
  put_keeps_fifo acc dr buf x e = ap (λ l. l ++ x ∷ []) e ∙ append_assoc dr buf (x ∷ [])

  step-IsQueue : (op : RingOp A) (o : Outcome A) → IsQueue o → IsQueue (step op o)
  unfolding step
  step-IsQueue (put_op x) o q = elim (Bool-cases (leb o.ring.capacity (length o.ring.buf))) [
    | inl full ↦
        rw (full, put)
          (record { fifo = q.fifo; counted = ap (λ n. n + 1) q.counted; bounded = q.bounded })
    | inr room ↦
        rw (room, put)
          (record {
            fifo = put_keeps_fifo o.accepted o.drained o.ring.buf x q.fifo;
            counted = q.counted;
            bounded = rw length-append (ground arith);
          })
  ]
  step-IsQueue drain_op o q = record {
    fifo = q.fifo ∙ sym (append-nil (o.drained ++ o.ring.buf));
    counted = q.counted;
    bounded = omega arith;
  }

  run-IsQueue : (ops : List (RingOp A)) (o : Outcome A) → IsQueue o → IsQueue (run ops o)
  unfolding run
  run-IsQueue [] o q = q
  run-IsQueue (op ∷ ops) o q = run-IsQueue ops (step op o) (step-IsQueue op o q)

  -- From any buffer within its capacity, after any sequence of calls of `put` and `drain`: the
  -- items accepted are, in order, the items drained followed by the items still held; the counter
  -- `dropped` is the number of refused items; and the capacity is not passed.
  pub ring-run-IsQueue :
      (ops : List (RingOp A)) (b : RingBuffer A)
      → length b.buf ≤ b.capacity
      → IsQueue (run ops (start b))
  unfolding start
  ring-run-IsQueue ops b h =
      run-IsQueue ops (start b) (record { fifo = refl; counted = refl; bounded = h })
