-- ===== src/Emitter/Ring.antt =====
-- `_RingBuffer` of bkvt/emitter.py.
pub mod Order
pub mod Race
use beyond_kvtransfer.Base.{
  ℕ, ◌+◌, Bool, true, false, List, [], ◌∷◌, ◌++◌, leb, length, if◌then◌else◌,
}

abbrev pub ring_capacity : ℕ
ring_capacity = 4096

pub record RingBuffer {ℓ} (A : Type ℓ) : Type ℓ where
  pub buf : List A
  pub capacity : ℕ
  pub dropped : ℕ

module _ {ℓ} {A : Type ℓ} where
  -- `_RingBuffer()`
  unfoldable pub new : RingBuffer A
  new = record { buf = []; capacity = ring_capacity; dropped = 0 }

  unfoldable pub put : A → RingBuffer A → Bool × RingBuffer A
  put item b =
      if leb b.capacity (length b.buf)
      then (false, record b { dropped = b.dropped + 1 })
      else (true, record b { buf = b.buf ++ item ∷ [] })

  -- `drain` evaluates `list(self._buf)` first, and replaces `self._buf` after
  unfoldable pub drain_copy : RingBuffer A → List A
  drain_copy b = b.buf

  unfoldable pub drain_swap : RingBuffer A → RingBuffer A
  drain_swap b = record b { buf = [] }

  unfoldable pub drain : RingBuffer A → List A × RingBuffer A
  unfolding drain_copy drain_swap
  drain b = (drain_copy b, drain_swap b)
