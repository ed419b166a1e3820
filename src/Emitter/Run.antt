-- ===== src/Emitter/Run.antt =====
-- Runs of the emitter of bkvt/emitter.py: the calls of its threads and the passes of its flusher,
-- in the order in which they take effect. Here a pass of the flusher is one action; Raced has its
-- parts as actions of their own, with those of the other threads in between.
pub mod Balance
pub mod Conserved
pub mod Shutdown
pub mod Live
pub mod Pairing
pub mod Written
pub mod OnDisk
pub mod Raced
use beyond_kvtransfer.Base.{
  ℕ, ◌+◌, String, Bool, true, false, Option, none, some, List, [], ◌∷◌, ◌++◌, if◌then◌else◌,
  string_eq,
}
use beyond_kvtransfer.Base.Dict.{get}
use beyond_kvtransfer.Value.{Rec, Float}
use beyond_kvtransfer.Text.{Text}
use beyond_kvtransfer.Sampling.{should_emit_transfer}
use beyond_kvtransfer.Emitter.OutFile.{Files}
use beyond_kvtransfer.Emitter.State.{Emitter, Phase, testing, waiting, closed, event, stamp}
use beyond_kvtransfer.Emitter.Probe.{
  StartArgs, EndArgs, transfer_start, transfer_end, start_record, end_record, metadata_enter,
  metadata_exit, metadata_record,
}
use beyond_kvtransfer.Emitter.Flusher.{drain_all, flusher_step, shutdown}
use beyond_kvtransfer.Emitter.Held.{has_room}

pub data Action : Type 0 where
  emit : ℕ → Rec → Action
  start : ℕ → String → Float → ℕ → StartArgs → Action
  finish : ℕ → String → ℕ → EndArgs → Action
  -- a whole `with metadata(…)`: its thread, subtype, request, keywords, draw, two clock readings,
  -- and what the body wrote
  measure : ℕ → String → Option String → Rec → Float → ℕ → ℕ → Rec → Action
  flush : Action
  stop : Action

module _ (dumps : Rec → Option Text) where
  -- one action, at once; a `flush` is a pass of the flusher during which no thread acts
  unfoldable pub perform : Action → Emitter → Files → Emitter × Files
  perform (emit t r) em files = (event t r em, files)
  perform (start t tid draw ts a) em files = (transfer_start t tid draw ts a em, files)
  perform (finish t tid ts a) em files = (transfer_end t tid ts a em, files)
  perform (measure t subtype request_id kw draw t0 t1 written) em files = (
    metadata_exit t subtype request_id kw (metadata_enter subtype draw em) t0 t1 written em,
    files,
  )
  perform flush em files = flusher_step dumps em files
  perform stop em files = (shutdown em, files)

-- the call of `event` that an action makes on an enabled emitter
unfoldable pub event_of : Action → Emitter → Option (ℕ × Rec)
event_of (emit t r) em = some (t, r)
event_of (start t tid draw ts a) em =
    let (sampled, rate) = should_emit_transfer em.sampler draw in
    if sampled then some (t, start_record tid ts a rate) else none
event_of (finish t tid ts a) em = elim (get tid em.live_transfers) [
  | none ↦ none
  | some meta ↦ some (t, end_record tid meta ts a)
]
event_of (measure t subtype request_id kw draw t0 t1 written) em =
    elim (metadata_enter subtype draw em) [
      | none ↦ none
      | some (sampled, rate) ↦
          if sampled
          then some (t, metadata_record subtype request_id kw rate t0 t1 written)
          else none
    ]
event_of flush em = none
event_of stop em = none

-- the records that a call of `event` puts into a ring, and the number that it refuses
unfoldable pub admitted : Option (ℕ × Rec) → Emitter → List Rec
admitted none em = []
admitted (some (t, r)) em = if has_room t em then stamp em r ∷ [] else []

unfoldable pub refused : Option (ℕ × Rec) → Emitter → ℕ
refused none em = 0
refused (some (t, r)) em = if has_room t em then 0 else 1

-- the records that a step of the flusher takes out of the rings
unfoldable pub taken_at : Phase → Bool → Emitter → List Rec
taken_at testing false em = []
taken_at testing true em = (drain_all em.buffers).0
taken_at waiting stopping em = (drain_all em.buffers).0
taken_at closed stopping em = []

-- the records that an action takes out of the rings
unfoldable pub taken : Action → Emitter → List Rec
taken flush em = taken_at em.phase em.stop_event em
taken a em = []

-- a run so far: the state, and what has happened to the records
pub record World : Type 0 where
  pub em : Emitter
  pub files : Files
  pub accepted : List Rec
  pub dropped : ℕ
  pub flushed : List Rec

module _ (dumps : Rec → Option Text) where
  unfoldable pub step : Action → World → World
  step a w =
      let (em', files') = perform dumps a w.em w.files in
      record {
        em = em';
        files = files';
        accepted = w.accepted ++ admitted (event_of a w.em) w.em;
        dropped = w.dropped + refused (event_of a w.em) w.em;
        flushed = w.flushed ++ taken a w.em;
      }

  unfoldable pub run : List Action → World → World
  run [] w = w
  run (a ∷ actions) w = run actions (step a w)

-- a new emitter, before its first call
unfoldable pub begin : Emitter → Files → World
begin em files = record { em = em; files = files; accepted = []; dropped = 0; flushed = [] }
