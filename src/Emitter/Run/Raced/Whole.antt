-- ===== src/Emitter/Run/Raced/Whole.antt =====
-- A pass of the flusher in which no other thread acts is the one action `flush` of
-- beyond_kvtransfer.Emitter.Run, and loses nothing.
use mathlib.Core.List.{append_assoc, append-nil}
use beyond_kvtransfer.Base.{
  ℕ, ◌≡◌, refl, ap, ◌∙◌, Bool, true, false, Option, none, List, [], ◌∷◌, ◌++◌, length, nat_eq,
  ==_iff, arith, ◌==◌, zero, suc, is_some,
}
use beyond_kvtransfer.Base.Dict.{Dict, get}
use beyond_kvtransfer.Base.Dict.Distinct.{Distinct}
use beyond_kvtransfer.Value.{Rec}
use beyond_kvtransfer.Text.{Text}
use beyond_kvtransfer.Emitter.Ring
use beyond_kvtransfer.Emitter.Ring.{RingBuffer}
use beyond_kvtransfer.Emitter.State.{Phase, testing, waiting, closed}
use beyond_kvtransfer.Emitter.Flusher.{drain_all}
use beyond_kvtransfer.Emitter.Run.{Action, flush, World}
use beyond_kvtransfer.Emitter.Run.Raced.{
  Stage, outside, collecting, threads, copy_at, swap_at, Fine, tick, act, acts,
}

unfoldable pub flushes : ℕ → List Action
flushes zero = []
flushes (suc n) = flush ∷ flushes n

abbrev pub twice : ℕ → ℕ
twice zero = 0
twice (suc n) = suc (suc (twice n))

-- the steps of a pass: its start, two for each ring, and the write
abbrev pub whole_pass : Dict ℕ (RingBuffer Rec) → List Action
whole_pass bs = flush ∷ (flushes (twice (length bs)) ++ flush ∷ [])

-- the steps from where the flusher stands, outside a pass, to where it is outside a pass again
abbrev pub pass_from : Phase → Bool → Dict ℕ (RingBuffer Rec) → List Action
pass_from testing false bs = flush ∷ []
pass_from testing true bs = whole_pass bs
pass_from waiting stopping bs = whole_pass bs
pass_from closed stopping bs = flush ∷ []

-- no thread has a ring in both
abbrev Apart : Dict ℕ (RingBuffer Rec) → Dict ℕ (RingBuffer Rec) → Type 0
Apart front bs = (t : ℕ) → is_some (get t bs) ≡ true → get t front ≡ none

copy_at-middle :
    (t : ℕ) (ring : RingBuffer Rec) (front bs : Dict ℕ (RingBuffer Rec))
    → get t front ≡ none
    → copy_at t (front ++ (t, ring) ∷ bs) ≡ ring.buf
unfolding copy_at get Ring.drain_copy
copy_at-middle t ring [] bs h = ground (arith, ==_iff t t)
copy_at-middle t ring ((u, r) ∷ front) bs h = ground (arith, copy_at-middle t ring front bs)

swap_at-middle :
    (t : ℕ) (ring : RingBuffer Rec) (front bs : Dict ℕ (RingBuffer Rec))
    → get t front ≡ none
    → swap_at t (front ++ (t, ring) ∷ bs) ≡ front ++ (t, Ring.drain_swap ring) ∷ bs
unfolding swap_at get
swap_at-middle t ring [] bs h = ground (arith, ==_iff t t)
swap_at-middle t ring ((u, r) ∷ front) bs h = ground (arith, swap_at-middle t ring front bs)

get-behind :
    (t u : ℕ) (ring : RingBuffer Rec) (front : Dict ℕ (RingBuffer Rec))
    → get t front ≡ none
    → (u == t) ≡ false
    → get t (front ++ (u, ring) ∷ []) ≡ none
unfolding get
get-behind t u ring [] h n = ground arith
get-behind t u ring ((w, r) ∷ front) h n = ground (arith, get-behind t u ring front)

Apart-later :
    (t : ℕ) (ring ring' : RingBuffer Rec) (front bs : Dict ℕ (RingBuffer Rec))
    → get t bs ≡ none
    → Apart front ((t, ring) ∷ bs)
    → Apart (front ++ (t, ring') ∷ []) bs
Apart-later t ring ring' front bs fresh apart u there =
    let other : (t == u) ≡ false = ground (arith, fresh, ==_iff t u) in
    get-behind u t ring' front (apart u (unfold get in ground arith)) other

-- the state of a pass: the rings and the stage
abbrev at : Fine → Dict ℕ (RingBuffer Rec) → Stage → Fine
at f bs stage = record f {
  world = record f.world { em = record f.world.em { buffers = bs } };
  stage = stage;
  since = [];
}

-- a run whose flusher is outside a pass
abbrev pub settled : World → List Rec → Fine
settled w lost = record { world = w; stage = outside; since = []; lost = lost }

module _ (dumps : Rec → Option Text) where
  two_more :
      (n : ℕ) (f : Fine)
      → acts dumps (flushes (suc (suc n))) f ≡ acts dumps (flushes n) (acts dumps (flushes 2) f)
  unfolding acts flushes
  two_more n f = refl

  drain_one :
      (t : ℕ) (ring : RingBuffer Rec) (front bs : Dict ℕ (RingBuffer Rec)) (ts : List ℕ)
      (recs : List Rec) (f : Fine)
      → get t front ≡ none
      → acts dumps (flushes 2) (at f (front ++ (t, ring) ∷ bs) (collecting (t ∷ ts) recs))
        ≡ at f (front ++ (t, Ring.drain_swap ring) ∷ bs) (collecting ts (recs ++ ring.buf))
  unfolding acts flushes act tick
  drain_one t ring front bs ts recs f h =
      rw (copy_at-middle t ring front bs h, swap_at-middle t ring front bs h)
        (rw (append-nil f.lost) refl)

  collect :
      (bs front : Dict ℕ (RingBuffer Rec)) (recs : List Rec) (f : Fine)
      → Distinct bs
      → Apart front bs
      → acts dumps (flushes (twice (length bs))) (at f (front ++ bs) (collecting (threads bs) recs))
        ≡ at f (front ++ (drain_all bs).1) (collecting [] (recs ++ (drain_all bs).0))
  unfolding threads drain_all Ring.drain Ring.drain_copy
  collect [] front recs f d apart =
      unfold acts flushes in rw (append-nil front, append-nil recs) refl
  collect ((t, ring) ∷ bs) front recs f d apart =
      let absent : get t front ≡ none = apart t (unfold get in ground (arith, ==_iff t t)) in
      let ring' = Ring.drain_swap ring in
      let rest =
        collect bs (front ++ (t, ring') ∷ []) (recs ++ ring.buf) f d.1
          (Apart-later t ring ring' front bs d.0 apart) in
      two_more (twice (length bs)) _
      ∙ ap (acts dumps (flushes (twice (length bs))))
          (drain_one t ring front bs (threads bs) recs f absent)
      ∙ (rw (append_assoc, append_assoc, append_assoc) at rest)
