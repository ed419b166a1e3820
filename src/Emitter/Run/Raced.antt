-- ===== src/Emitter/Run/Raced.antt =====
-- Runs of the emitter of bkvt/emitter.py in which the other threads also act inside a pass of the
-- flusher: before and after each ring is drained, and between the two halves of a `drain`.
pub mod Extends
pub mod Conserved
pub mod Whole
use beyond_kvtransfer.Base.{
  ℕ, Bool, true, false, Option, none, some, List, [], ◌∷◌, ◌++◌, if◌then◌else◌, is_empty, nat_eq,
  ◌==◌, length, zero, suc,
}
use beyond_kvtransfer.Base.Dict.{Dict}
use beyond_kvtransfer.Value.{Rec}
use beyond_kvtransfer.Text.{Text}
use beyond_kvtransfer.Emitter.Ring
use beyond_kvtransfer.Emitter.Ring.{RingBuffer}
use beyond_kvtransfer.Emitter.OutFile
use beyond_kvtransfer.Emitter.OutFile.{Files}
use beyond_kvtransfer.Emitter.State.{Emitter, Phase, testing, waiting, closed}
use beyond_kvtransfer.Emitter.Flusher.{serialise}
use beyond_kvtransfer.Emitter.Run.{event_of, admitted}
use beyond_kvtransfer.Emitter.Run.{Action, emit, start, finish, measure, flush, stop, World, step}

-- where the flusher stands inside a pass: the threads whose rings are still to be drained, and the
-- records that it has; and, between the halves of a `drain`, the ring's thread and what it copied
pub data Stage : Type 0 where
  outside : Stage
  collecting : List ℕ → List Rec → Stage
  copied : ℕ → List Rec → List ℕ → List Rec → Stage

-- `buffers = list(self._buffers)`
unfoldable pub threads : Dict ℕ (RingBuffer Rec) → List ℕ
threads [] = []
threads ((t, ring) ∷ bs) = t ∷ threads bs

-- `list(self._buf)` of the ring of a thread
unfoldable pub copy_at : ℕ → Dict ℕ (RingBuffer Rec) → List Rec
unfolding Ring.drain_copy
copy_at t [] = []
copy_at t ((u, ring) ∷ bs) = if u == t then Ring.drain_copy ring else copy_at t bs

-- `self._buf = collections.deque()` of that ring
unfoldable pub swap_at : ℕ → Dict ℕ (RingBuffer Rec) → Dict ℕ (RingBuffer Rec)
unfolding Ring.drain_swap
swap_at t [] = []
swap_at t ((u, ring) ∷ bs) =
    let rest = swap_at t bs in if u == t then (u, Ring.drain_swap ring) ∷ bs else (u, ring) ∷ rest

-- the phase after a pass: the pass at the loop test is the last one
abbrev pub phase_after : Phase → Phase
phase_after testing = closed
phase_after waiting = testing
phase_after closed = closed

-- a run so far and the stage of the flusher; the records that were accepted between the halves of the
-- drain that it is in, on the ring that it drains, and those of the drains before
pub record Fine : Type 0 where
  pub world : World
  pub stage : Stage
  pub since : List Rec
  pub lost : List Rec

-- the records that a call of `event` puts into the ring of a thread
unfoldable pub put_on : ℕ → Option (ℕ × Rec) → Emitter → List Rec
unfolding admitted
put_on t none em = []
put_on t (some (u, r)) em = if u == t then admitted (some (u, r)) em else []

-- those that it puts into a ring between the halves of its drain
unfoldable pub put_between : Stage → Option (ℕ × Rec) → Emitter → List Rec
unfolding put_on
put_between outside o em = []
put_between (collecting ts recs) o em = []
put_between (copied t items ts recs) o em = put_on t o em

-- the end of `_flush_once`: the lines are written, and the flusher comes to its next wait or test
unfoldable pub write_out : (Rec → Option Text) → List Rec → Emitter → Files → Emitter × Files
write_out dumps recs em files =
    let lines = serialise dumps recs in
    if is_empty lines
    then (record em { phase = phase_after em.phase }, files)
    else let (outfile, files') = OutFile.write_batch lines em.outfile files in
      (record em { outfile = outfile; phase = phase_after em.phase }, files')

module _ (dumps : Rec → Option Text) where
  -- the flusher at its loop test, or at the end of its wait
  unfoldable pub enter : Phase → Bool → Fine → Fine
  enter testing false f = record f {
    world = record f.world { em = record f.world.em { phase = waiting } };
  }
  enter testing true f = record f { stage = collecting (threads f.world.em.buffers) [] }
  enter waiting stopping f = record f {
    world = record f.world {
      em = record f.world.em { flush_trigger = false; pending_approx_bytes = 0 };
    };
    stage = collecting (threads f.world.em.buffers) [];
  }
  enter closed stopping f = f

  -- the next step of the flusher
  unfoldable pub tick : Stage → Fine → Fine
  unfolding enter write_out
  tick outside f = enter f.world.em.phase f.world.em.stop_event f
  tick (collecting [] recs) f =
      let (em', files') = write_out dumps recs f.world.em f.world.files in
      record f {
        world = record f.world { em = em'; files = files'; flushed = f.world.flushed ++ recs };
        stage = outside;
      }
  tick (collecting (t ∷ ts) recs) f = record f {
    stage = copied t (copy_at t f.world.em.buffers) ts recs;
    since = [];
  }
  tick (copied t items ts recs) f = record f {
    world = record f.world { em = record f.world.em { buffers = swap_at t f.world.em.buffers } };
    stage = collecting ts (recs ++ items);
    since = [];
    lost = f.lost ++ f.since;
  }

  -- a call of another thread
  unfoldable pub call : Action → Fine → Fine
  unfolding put_between
  call a f = record f {
    world = step dumps a f.world;
    since = f.since ++ put_between f.stage (event_of a f.world.em) f.world.em;
  }

  -- an action of a thread happens at once; `flush` is the next step of the flusher only
  unfoldable pub act : Action → Fine → Fine
  unfolding call tick
  act (emit t r) f = call (emit t r) f
  act (start t tid draw ts a) f = call (start t tid draw ts a) f
  act (finish t tid ts a) f = call (finish t tid ts a) f
  act (measure t subtype request_id kw draw t0 t1 written) f =
      call (measure t subtype request_id kw draw t0 t1 written) f
  act stop f = call stop f
  act flush f = tick f.stage f

  unfoldable pub acts : List Action → Fine → Fine
  acts [] f = f
  acts (a ∷ actions) f = acts actions (act a f)
