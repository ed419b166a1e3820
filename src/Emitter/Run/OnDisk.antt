-- ===== src/Emitter/Run/OnDisk.antt =====
-- The numbered files of an emitter hold its flushed records, over whole runs.
use mathlib.Core.Path.{subst}
use mathlib.Core.List.{append-nil}
use beyond_kvtransfer.Base.{
  ℕ, ◌≡◌, refl, String, Bool, true, false, Option, none, some, List, [], ◌∷◌, ◌++◌, if◌then◌else◌,
  string_eq, sym, arith, Bool-cases, inl, inr, is_empty,
}
use beyond_kvtransfer.Base.Dict.{get, remove}
use beyond_kvtransfer.Value.{Rec, Float}
use beyond_kvtransfer.Text.{Text}
use beyond_kvtransfer.Sampling.{should_emit_transfer}
use beyond_kvtransfer.Emitter.OutFile
use beyond_kvtransfer.Emitter.OutFile.{OutputFile, Files}
use beyond_kvtransfer.Emitter.State.{Emitter, Phase, testing, waiting, closed, event}
use beyond_kvtransfer.Emitter.Probe.{
  StartArgs, EndArgs, transfer_start, transfer_end, start_record, end_record, metadata_enter,
  metadata_exit,
}
use beyond_kvtransfer.Emitter.Flusher.{
  drain_all, serialise, flusher_step, flusher_at, flusher_test, flusher_wake, flush_once, shutdown,
}
use beyond_kvtransfer.Emitter.Held.{enqueue-frame}
use beyond_kvtransfer.Emitter.Run.{
  Action, emit, start, finish, measure, flush, stop, perform, taken_at, taken, World, step, run,
}
use beyond_kvtransfer.Emitter.Run.Written.{IsWritten, write_batch-IsWritten}

event-outfile : (t : ℕ) (r : Rec) (em : Emitter) → (event t r em).outfile ≡ em.outfile
unfolding event
event-outfile t r em = elim (Bool-cases em.enabled) [
  | inl on ↦ simp on (enqueue-frame t r em).outfile
  | inr off ↦ simp off
]

start-outfile :
    (t : ℕ) (id : String) (draw : Float) (ts : ℕ) (a : StartArgs) (em : Emitter)
    → (transfer_start t id draw ts a em).outfile ≡ em.outfile
unfolding transfer_start
start-outfile t id draw ts a em =
    let (emitted, rate) = should_emit_transfer em.sampler draw in
    ground (arith, event-outfile t (start_record id ts a rate) em)

finish-outfile :
    (t : ℕ) (id : String) (ts : ℕ) (a : EndArgs) (em : Emitter)
    → (transfer_end t id ts a em).outfile ≡ em.outfile
unfolding transfer_end
finish-outfile t id ts a em = elim (Bool-cases em.enabled) [
  | inl on ↦ simp on (ended (get id em.live_transfers))
  | inr off ↦ simp off
]
  where
    popped : Emitter
    popped = record em { live_transfers = remove id em.live_transfers }

    after : Option (String × String) → Emitter
    after m = elim m [ none ↦ popped | some meta ↦ event t (end_record id meta ts a) popped ]

    ended : (m : Option (String × String)) → (after m).outfile ≡ em.outfile
    ended none = refl
    ended (some meta) = event-outfile t (end_record id meta ts a) popped

exit-outfile :
    (t : ℕ) (subtype : String) (request_id : Option String) (kw : Rec)
    (d : Option (Bool × Option Float)) (t0 t1 : ℕ) (written : Rec) (em : Emitter)
    → (metadata_exit t subtype request_id kw d t0 t1 written em).outfile ≡ em.outfile
unfolding metadata_exit
exit-outfile t subtype request_id kw none t0 t1 written em = refl
exit-outfile t subtype request_id kw (some (true, rate)) t0 t1 written em = event-outfile t _ em
exit-outfile t subtype request_id kw (some (false, rate)) t0 t1 written em = refl

shutdown-outfile : (em : Emitter) → (shutdown em).outfile ≡ em.outfile
unfolding shutdown
shutdown-outfile em = ground arith

module _ (dumps : Rec → Option Text) where
  pub serialise-append :
      (xs ys : List Rec) → serialise dumps (xs ++ ys) ≡ serialise dumps xs ++ serialise dumps ys
  unfolding serialise
  serialise-append [] ys = refl
  serialise-append (x ∷ xs) ys = ground (arith, serialise-append xs ys)

  flush_once-IsWritten :
      (em : Emitter) (files : Files) (lines : List Text)
      → IsWritten em.outfile files lines
      → IsWritten
          (flush_once dumps em files).0.outfile
          (flush_once dumps em files).1
          (lines ++ serialise dumps (drain_all em.buffers).0)
  unfolding flush_once
  flush_once-IsWritten em files lines w = flushed (serialise dumps (drain_all em.buffers).0)
    where
      after : List Text → Emitter × Files
      after new =
          let buffers = (drain_all em.buffers).1 in
          if is_empty new
          then (record em { buffers = buffers }, files)
          else let (outfile, files') = OutFile.write_batch new em.outfile files in
            (record em { buffers = buffers; outfile = outfile }, files')

      flushed : (new : List Text) → IsWritten (after new).0.outfile (after new).1 (lines ++ new)
      flushed [] = rw append-nil w
      flushed (line ∷ rest) = write_batch-IsWritten (line ∷ rest) em.outfile files lines w

  flusher_test-IsWritten :
      (stopping : Bool) (em : Emitter) (files : Files) (lines : List Text)
      → IsWritten em.outfile files lines
      → IsWritten
          (flusher_test dumps stopping em files).0.outfile
          (flusher_test dumps stopping em files).1
          (lines ++ serialise dumps (taken_at testing stopping em))
  unfolding flusher_test taken_at serialise
  flusher_test-IsWritten false em files lines w = rw append-nil w
  flusher_test-IsWritten true em files lines w = flush_once-IsWritten em files lines w

  flusher_at-IsWritten :
      (phase : Phase) (em : Emitter) (files : Files) (lines : List Text)
      → IsWritten em.outfile files lines
      → IsWritten
          (flusher_at dumps phase em files).0.outfile
          (flusher_at dumps phase em files).1
          (lines ++ serialise dumps (taken_at phase em.stop_event em))
  unfolding flusher_at flusher_wake taken_at serialise
  flusher_at-IsWritten testing em files lines w =
      flusher_test-IsWritten em.stop_event em files lines w
  flusher_at-IsWritten waiting em files lines w =
      flush_once-IsWritten (record em { flush_trigger = false; pending_approx_bytes = 0 }) files
        lines w
  flusher_at-IsWritten closed em files lines w = rw append-nil w

  quiet :
      (f f' : OutputFile) (files : Files) (lines : List Text)
      → f' ≡ f
      → IsWritten f files lines
      → IsWritten f' files (lines ++ serialise dumps [])
  unfolding serialise
  quiet f f' files lines same w = rw append-nil (subst (λ g. IsWritten g files lines) (sym same) w)

  perform-IsWritten :
      (a : Action) (em : Emitter) (files : Files) (lines : List Text)
      → IsWritten em.outfile files lines
      → IsWritten
          (perform dumps a em files).0.outfile
          (perform dumps a em files).1
          (lines ++ serialise dumps (taken a em))
  unfolding perform taken flusher_step
  perform-IsWritten (emit t r) em files lines w =
      quiet em.outfile _ files lines (event-outfile t r em) w
  perform-IsWritten (start t id draw ts a) em files lines w =
      quiet em.outfile _ files lines (start-outfile t id draw ts a em) w
  perform-IsWritten (finish t id ts a) em files lines w =
      quiet em.outfile _ files lines (finish-outfile t id ts a em) w
  perform-IsWritten (measure t subtype request_id kw draw t0 t1 written) em files lines w =
      quiet em.outfile _ files lines
        (exit-outfile t subtype request_id kw (metadata_enter subtype draw em) t0 t1 written em) w
  perform-IsWritten flush em files lines w = flusher_at-IsWritten em.phase em files lines w
  perform-IsWritten stop em files lines w = quiet em.outfile _ files lines (shutdown-outfile em) w

  -- Whatever the threads and the flusher do, a pass of the flusher being one action, and however often
  -- the output rotates: if the numbered files, from 1 to the current one, hold the lines of the records flushed so far, and the later
  -- ones are missing or empty, then so they do afterwards. The files together hold each flushed
  -- record that can be serialised, once, in the order of the flushes, one to a line. The gzip
  -- threads of the rotated files, which replace a file by its .gz, have not run.
  pub run-IsWritten :
      (actions : List Action) (w : World)
      → IsWritten w.em.outfile w.files (serialise dumps w.flushed)
      → let w' = run dumps actions w in
        IsWritten w'.em.outfile w'.files (serialise dumps w'.flushed)
  unfolding run step
  run-IsWritten [] w h = h
  run-IsWritten (a ∷ actions) w h =
      run-IsWritten actions (step dumps a w)
        (rw serialise-append (perform-IsWritten a w.em w.files (serialise dumps w.flushed) h))
