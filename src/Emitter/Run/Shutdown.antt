-- ===== src/Emitter/Run/Shutdown.antt =====
-- The end of a run: `shutdown` and the last steps of the flusher thread.
use mathlib.Core.Path.{subst}
use mathlib.Core.List.{append-nil}
use beyond_kvtransfer.Base.{
  ◌≡◌, ◌≢◌, refl, Bool, true, false, Option, List, [], ◌∷◌, string_eq, ap, sym, ◌∙◌, arith,
  count_by,
}
use beyond_kvtransfer.Value.{Rec}
use beyond_kvtransfer.Text.{Text}
use beyond_kvtransfer.Emitter.OutFile.{Files}
use beyond_kvtransfer.Emitter.State.{Emitter, Phase, testing, waiting, closed}
use beyond_kvtransfer.Emitter.Flusher.{flusher_step, flusher_at, flusher_test, flush_once, shutdown}
use beyond_kvtransfer.Emitter.Held.{held, count-drain_all}
use beyond_kvtransfer.Emitter.Run.{
  Action, flush, stop, perform, event_of, admitted, World, step, run,
}
use beyond_kvtransfer.Emitter.Run.Conserved.{IsConserved, run-IsConserved}

-- what the thread has done when it is past its loop
pub record IsFinal (w w' : World) : Type 0 where
  pub closed_phase : w'.em.phase ≡ closed
  pub same_accepted : w'.accepted ≡ w.accepted
  pub all_flushed : (p : Rec → Bool) → count_by p w'.flushed ≡ count_by p w.accepted

-- `shutdown`, and then two steps of the flusher: it may have been in its wait
abbrev pub last_actions : List Action
last_actions = stop ∷ flush ∷ flush ∷ []

module _ (dumps : Rec → Option Text) where
  held-flush_once :
      (p : Rec → Bool) (em : Emitter) (files : Files)
      → held p (flush_once dumps em files).0.buffers ≡ 0
  unfolding flush_once
  held-flush_once p em files = ground (arith, count-drain_all p em.buffers)

  flush_once-stop_event :
      (em : Emitter) (files : Files) → (flush_once dumps em files).0.stop_event ≡ em.stop_event
  unfolding flush_once
  flush_once-stop_event em files = ground arith

  -- the thread is past its loop and the rings are empty
  pub record IsClosed (em : Emitter) : Type 0 where
    pub phase : em.phase ≡ closed
    pub empty : (p : Rec → Bool) → held p em.buffers ≡ 0

  flusher_test-IsClosed :
      (stopping : Bool) (em : Emitter) (files : Files)
      → stopping ≡ true
      → IsClosed (flusher_test dumps stopping em files).0
  unfolding flusher_test
  flusher_test-IsClosed true em files e = record {
    phase = refl;
    empty = λ p. held-flush_once p em files;
  }
  flusher_test-IsClosed false em files e = cc

  -- two steps of a flusher that has been told to stop
  unfoldable two_steps : Phase → Emitter → Files → Emitter
  two_steps phase em files =
      let (em', files') = flusher_at dumps phase em files in (flusher_step dumps em' files').0

  two_steps-IsClosed :
      (phase : Phase) (em : Emitter) (files : Files)
      → em.stop_event ≡ true
      → phase ≢ closed
      → IsClosed (two_steps phase em files)
  unfolding two_steps flusher_step flusher_at
  two_steps-IsClosed testing em files s n =
      let first = flusher_test-IsClosed em.stop_event em files s in
      subst (λ ph. IsClosed (flusher_at dumps ph (test em.stop_event).0 (test em.stop_event).1).0)
        (sym first.phase) first
    where
      test : Bool → Emitter × Files
      test b = flusher_test dumps b em files
  two_steps-IsClosed waiting em files s n =
      let em' : Emitter = record em { flush_trigger = false; pending_approx_bytes = 0 } in
      flusher_test-IsClosed _ _ _ (flush_once-stop_event em' files ∙ s)
  two_steps-IsClosed closed em files s n = absurd (n refl)

  shutdown-eq : (em : Emitter) → em.enabled ≡ true → shutdown em ≡ record em { stop_event = true }
  unfolding shutdown
  shutdown-eq em on = simp on

  run_last-IsClosed :
      (w : World)
      → w.em.enabled ≡ true
      → w.em.phase ≢ closed
      → IsClosed (run dumps last_actions w).em
  unfolding run step perform two_steps flusher_step flusher_at
  run_last-IsClosed w on n =
      rw (shutdown-eq w.em on)
        (two_steps-IsClosed w.em.phase (record w.em { stop_event = true }) w.files refl n)

  run_last-accepted : (w : World) → (run dumps last_actions w).accepted ≡ w.accepted
  unfolding run step event_of admitted
  run_last-accepted w = simp append-nil

  -- On an enabled emitter whose records are conserved and whose flusher has not ended, `shutdown`
  -- followed by the flusher's last passes loses nothing: the thread is past its loop,
  -- and every record accepted until then has been flushed, as often as it was accepted.
  pub shutdown-flushes :
      (w : World) → IsConserved w → w.em.phase ≢ closed → IsFinal w (run dumps last_actions w)
  shutdown-flushes w c n =
      let end_closed = run_last-IsClosed w c.enabled n in
      let kept = run-IsConserved dumps last_actions w c in
      record {
        closed_phase = end_closed.phase;
        same_accepted = run_last-accepted w;
        all_flushed = λ p.
            let same : count_by p (run dumps last_actions w).accepted ≡ count_by p w.accepted =
              ap (count_by p) (run_last-accepted w) in
            omega (arith, same, kept.conserved p, end_closed.empty p);
      }
