-- ===== src/Emitter/Flusher.antt =====
-- The flusher thread of bkvt/emitter.py, and `shutdown`. `dumps` serialises a record, or gives
-- none where it raises.
use beyond_kvtransfer.Base.{
  Bool, true, false, ℕ, Bool, true, false, Option, none, some, List, [], ◌∷◌, ◌++◌, if◌then◌else◌,
  is_empty,
}
use beyond_kvtransfer.Base.Dict.{Dict}
use beyond_kvtransfer.Value.{Rec}
use beyond_kvtransfer.Text.{Text}
use beyond_kvtransfer.Emitter.Ring
use beyond_kvtransfer.Emitter.Ring.{RingBuffer}
use beyond_kvtransfer.Emitter.OutFile
use beyond_kvtransfer.Emitter.OutFile.{Files}
use beyond_kvtransfer.Emitter.State.{Emitter, Phase, testing, waiting, closed}

-- `for buf in buffers: for rec in buf.drain()`: the records, and the emptied rings
unfoldable pub drain_all : Dict ℕ (RingBuffer Rec) → List Rec × Dict ℕ (RingBuffer Rec)
drain_all [] = ([], [])
drain_all ((thread, ring) ∷ buffers) =
    let (items, ring') = Ring.drain ring in
    let (rest, buffers') = drain_all buffers in (items ++ rest, (thread, ring') ∷ buffers')

module _ (dumps : Rec → Option Text) where
  -- a record that cannot be serialised is skipped
  unfoldable pub serialise : List Rec → List Text
  serialise [] = []
  serialise (r ∷ rs) = elim (dumps r) [ none ↦ serialise rs | some line ↦ line ∷ serialise rs ]

  unfoldable pub flush_once : Emitter → Files → Emitter × Files
  flush_once em files =
      let (recs, buffers) = drain_all em.buffers in
      let lines = serialise recs in
      if is_empty lines
      then (record em { buffers = buffers }, files)
      else let (outfile, files') = OutFile.write_batch lines em.outfile files in
        (record em { buffers = buffers; outfile = outfile }, files')

  -- the body of the `while` of `_flusher_loop`, from the end of its wait
  unfoldable pub flusher_wake : Emitter → Files → Emitter × Files
  flusher_wake em files =
      flush_once (record em { flush_trigger = false; pending_approx_bytes = 0 }) files

  -- the loop test: on to the wait, or to the final drain and the end of the thread
  unfoldable pub flusher_test : Bool → Emitter → Files → Emitter × Files
  flusher_test false em files = (record em { phase = waiting }, files)
  flusher_test true em files =
      let (em', files') = flush_once em files in (record em' { phase = closed }, files')

  unfoldable pub flusher_at : Phase → Emitter → Files → Emitter × Files
  flusher_at testing em files = flusher_test em.stop_event em files
  flusher_at waiting em files =
      let (em', files') = flusher_wake em files in (record em' { phase = testing }, files')
  flusher_at closed em files = (em, files)

  -- `_flusher_loop` up to the next point where it waits or tests
  unfoldable pub flusher_step : Emitter → Files → Emitter × Files
  unfolding flusher_at flusher_test flusher_wake
  flusher_step em files = flusher_at em.phase em files

-- `shutdown`, up to its `join`, which waits for the flusher
unfoldable pub shutdown : Emitter → Emitter
shutdown em = if em.enabled then record em { stop_event = true } else em
