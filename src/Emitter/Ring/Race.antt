-- ===== src/Emitter/Ring/Race.antt =====
-- `put` by the owner thread between the two halves of `drain`, which runs on the flusher thread.
use mathlib.Core.List.{append_assoc, append-nil}
use beyond_kvtransfer.Base.{
  ◌+◌, ◌≤◌, ◌<◌, Bool, true, List, [], ◌∷◌, ◌++◌, length, length-append, ◌≡◌, arith,
}
use beyond_kvtransfer.Emitter.Ring.{RingBuffer, put, drain_copy, drain_swap}

module _ {ℓ} {A : Type ℓ} where
  -- the owner's calls of `put`, with what each returns
  unfoldable pub puts : List A → RingBuffer A → List Bool × RingBuffer A
  puts [] b = ([], b)
  puts (x ∷ xs) b = let (done, b') = put x b in let (rest, b'') = puts xs b' in (done ∷ rest, b'')

  -- the items that the flusher gets, and the buffer after, with the owner's calls in between
  unfoldable pub raced_drain : List A → RingBuffer A → List Bool × List A × RingBuffer A
  raced_drain xs b =
      let items = drain_copy b in let (results, b') = puts xs b in (results, items, drain_swap b')

  unfoldable pub all_true : List A → List Bool
  all_true [] = []
  all_true (x ∷ xs) = true ∷ all_true xs

  pub puts_fit :
      (xs : List A) (b : RingBuffer A)
      → length b.buf + length xs ≤ b.capacity
      → puts xs b ≡ (all_true xs, record b { buf = b.buf ++ xs })
  unfolding puts all_true put
  puts_fit [] b h = rw append-nil
  puts_fit (x ∷ xs) b h =
      let fits : length b.buf < b.capacity = omega arith in
      let shorter : length (b.buf ++ x ∷ []) + length xs ≤ b.capacity =
        rw length-append (omega arith) in
      ground (
        arith,
        puts_fit xs (record b { buf = b.buf ++ x ∷ [] }) shorter,
        append_assoc b.buf (x ∷ []) xs,
      )

  -- Items that the owner puts between the two halves of `drain` are lost while there is room for
  -- them: every `put` returns True, the flusher gets only what was there before, the buffer is
  -- left empty, and the drop counter does not move.
  pub raced_drain_loses :
      (xs : List A) (b : RingBuffer A)
      → length b.buf + length xs ≤ b.capacity
      → raced_drain xs b ≡ (all_true xs, b.buf, record b { buf = [] })
  unfolding raced_drain drain_copy drain_swap
  raced_drain_loses xs b h = rw (puts_fit xs b h)
