-- ===== src/Emitter/Run/Raced/Conserved.antt =====
-- Every accepted record is flushed, held, in the flusher's hands or lost, however the threads and
-- the flusher interleave.
use mathlib.Core.List.{append_assoc, append-nil}
use beyond_kvtransfer.Base.{
  ℕ, ◌+◌, ◌≡◌, ◌≢◌, refl, sym, ◌∙◌, Bool, true, false, Option, List, [], ◌∷◌, ◌++◌, nat_eq, arith,
  count_by, count_by-append, string_eq,
}
use beyond_kvtransfer.Base.Dict.{Dict}
use beyond_kvtransfer.Value.{Rec}
use beyond_kvtransfer.Text.{Text}
use beyond_kvtransfer.Emitter.Ring
use beyond_kvtransfer.Emitter.Ring.{RingBuffer}
use beyond_kvtransfer.Emitter.State.{Emitter, Phase, testing, waiting, closed}
use beyond_kvtransfer.Emitter.OutFile.{Files}
use beyond_kvtransfer.Emitter.Held.{held}
use beyond_kvtransfer.Emitter.Run.{
  Action, emit, start, finish, measure, flush, stop, perform, event_of, admitted, taken, step,
}
use beyond_kvtransfer.Emitter.Run.Balance.{Balance-perform}
use beyond_kvtransfer.Emitter.Run.Raced.{
  Stage, outside, collecting, copied, copy_at, swap_at, put_between, Fine, write_out, enter, tick,
  call, act, acts,
}
use beyond_kvtransfer.Emitter.Run.Raced.Extends.{Extends-perform}

-- the records that the flusher has taken out of the rings and not yet written
unfoldable pub in_hand : Stage → List Rec
in_hand outside = []
in_hand (collecting ts recs) = recs
in_hand (copied t items ts recs) = recs

-- the ring that is drained holds what was copied of it, and behind it what was accepted since
abbrev pub IsFront : Stage → List Rec → Dict ℕ (RingBuffer Rec) → Type 0
IsFront (copied t items ts recs) since bs = copy_at t bs ≡ items ++ since
IsFront outside since bs = Unit
IsFront (collecting ts recs) since bs = Unit

-- Of the records that pass a test, those accepted so far are as many as those flushed, those in the
-- flusher's hands, those held and those lost together; and the counter of the emitter is the number
-- of refused records.
pub record IsAccounted (f : Fine) : Type 0 where
  pub enabled : f.world.em.enabled ≡ true
  pub accounted :
      (p : Rec → Bool)
      → count_by p f.world.accepted
        ≡ count_by p f.world.flushed
          + count_by p (in_hand f.stage)
          + held p f.world.em.buffers
          + count_by p f.lost
  pub counted : f.world.em.dropped_total ≡ f.world.dropped
  pub front : IsFront f.stage f.since f.world.em.buffers

held-swap_at :
    (p : Rec → Bool) (t : ℕ) (bs : Dict ℕ (RingBuffer Rec))
    → held p (swap_at t bs) + count_by p (copy_at t bs) ≡ held p bs
unfolding held swap_at copy_at Ring.drain_copy Ring.drain_swap count_by
held-swap_at p t [] = refl
held-swap_at p t ((u, ring) ∷ bs) = ground (arith, held-swap_at p t bs)

module _ (dumps : Rec → Option Text) where
  step-IsAccounted :
      (a : Action) (f : Fine)
      → a ≢ flush
      → taken a f.world.em ≡ []
      → IsAccounted f
      → IsAccounted (call dumps a f)
  unfolding call step count_by
  step-IsAccounted a f other none_taken c =
      let w = f.world in
      let b = λ (p : Rec → Bool). Balance-perform dumps p a w.em w.files c.enabled in
      record {
        enabled = (b (λ r. true)).enabled ∙ c.enabled;
        accounted = λ p.
            rw
              (
                none_taken,
                append-nil,
                count_by-append p w.accepted (admitted (event_of a w.em) w.em),
              )
              (omega (arith, rw none_taken at (b p).balance, c.accounted p));
        counted = omega (arith, (b (λ r. true)).dropped, c.counted);
        front = still f.stage c.front;
      }
    where
      still :
          (stage : Stage)
          → IsFront stage f.since f.world.em.buffers
          → IsFront stage
              (f.since ++ put_between stage (event_of a f.world.em) f.world.em)
              (perform dumps a f.world.em f.world.files).0.buffers
      still outside h = tt
      still (collecting ts recs) h = tt
      still (copied t items ts recs) same =
          Extends-perform dumps t a f.world.em f.world.files other c.enabled
          ∙ unfold put_between in rw (same, append_assoc) refl

  write_out-keeps :
      (recs : List Rec) (em : Emitter) (files : Files)
      → ((write_out dumps recs em files).0.enabled ≡ em.enabled)
        × ((write_out dumps recs em files).0.buffers ≡ em.buffers)
        × ((write_out dumps recs em files).0.dropped_total ≡ em.dropped_total)
  unfolding write_out
  write_out-keeps recs em files = ground arith

  enter-IsAccounted :
      (phase : Phase) (stopping : Bool) (f : Fine)
      → f.stage ≡ outside
      → IsAccounted f
      → IsAccounted (enter dumps phase stopping f)
  unfolding enter in_hand count_by
  enter-IsAccounted testing false f s c = record {
    enabled = c.enabled;
    accounted = c.accounted;
    counted = c.counted;
    front = c.front;
  }
  enter-IsAccounted testing true f s c = record {
    enabled = c.enabled;
    accounted = λ p. rw s at (c.accounted p);
    counted = c.counted;
    front = tt;
  }
  enter-IsAccounted waiting stopping f s c = record {
    enabled = c.enabled;
    accounted = λ p. rw s at (c.accounted p);
    counted = c.counted;
    front = tt;
  }
  enter-IsAccounted closed stopping f s c = c

  tick-IsAccounted :
      (stage : Stage) (f : Fine)
      → f.stage ≡ stage
      → IsAccounted f
      → IsAccounted (tick dumps stage f)
  unfolding tick in_hand count_by
  tick-IsAccounted outside f s c = enter-IsAccounted f.world.em.phase f.world.em.stop_event f s c
  tick-IsAccounted (collecting [] recs) f s c =
      let (same_enabled, same_buffers, same_dropped) =
        write_out-keeps recs f.world.em f.world.files in
      record {
        enabled = same_enabled ∙ c.enabled;
        accounted = λ p.
            rw (same_buffers, count_by-append p f.world.flushed recs)
              (omega (arith, rw s at (c.accounted p)));
        counted = same_dropped ∙ c.counted;
        front = tt;
      }
  tick-IsAccounted (collecting (t ∷ ts) recs) f s c = record {
    enabled = c.enabled;
    accounted = λ p. rw s at (c.accounted p);
    counted = c.counted;
    front = sym (append-nil (copy_at t f.world.em.buffers));
  }
  tick-IsAccounted (copied t items ts recs) f s c =
      let same : IsFront (copied t items ts recs) f.since f.world.em.buffers = rw s at c.front in
      record {
        enabled = c.enabled;
        accounted = λ p.
            let whole : count_by p (copy_at t f.world.em.buffers)
                ≡ count_by p items + count_by p f.since =
              rw same (count_by-append p items f.since) in
            rw (count_by-append p recs items, count_by-append p f.lost f.since)
              (omega (arith, whole, held-swap_at p t f.world.em.buffers, rw s at (c.accounted p)));
        counted = c.counted;
        front = tt;
      }

  act-IsAccounted : (a : Action) (f : Fine) → IsAccounted f → IsAccounted (act dumps a f)
  unfolding act taken
  act-IsAccounted (emit t r) f c = step-IsAccounted (emit t r) f (λ e. cc) refl c
  act-IsAccounted (start t tid draw ts a) f c =
      step-IsAccounted (start t tid draw ts a) f (λ e. cc) refl c
  act-IsAccounted (finish t tid ts a) f c = step-IsAccounted (finish t tid ts a) f (λ e. cc) refl c
  act-IsAccounted (measure t subtype request_id kw draw t0 t1 written) f c =
      step-IsAccounted (measure t subtype request_id kw draw t0 t1 written) f (λ e. cc) refl c
  act-IsAccounted stop f c = step-IsAccounted stop f (λ e. cc) refl c
  act-IsAccounted flush f c = tick-IsAccounted f.stage f refl c

  -- On an enabled emitter, whatever its threads do and wherever in a pass of the flusher they do it,
  -- between the two halves of a `drain` too, if it was so before: each record that found room is
  -- flushed, or in the flusher's hands, or held, or lost, as often as it was accepted, and the lost
  -- ones are those accepted on a ring between the halves of its `drain`; `dropped_records_total`
  -- counts exactly the records that found no room, and none of the lost ones.
  pub acts-IsAccounted :
      (actions : List Action) (f : Fine) → IsAccounted f → IsAccounted (acts dumps actions f)
  unfolding acts
  acts-IsAccounted [] f c = c
  acts-IsAccounted (a ∷ actions) f c =
      acts-IsAccounted actions (act dumps a f) (act-IsAccounted a f c)
