-- ===== src/Emitter/Run/Pairing.antt =====
-- Which calls of `transfer_end` emit a record, over the runs of the emitter.
use beyond_kvtransfer.Base.{
  ℕ, ◌+◌, ◌≡◌, refl, String, Bool, true, false, Option, none, some, List, [], ◌∷◌, string_eq, ap,
  ◌∙◌, arith, ◌==◌, ==_iff, Bool-cases, inl, inr, pos, leb_ℤ, nat_eq,
}
use beyond_kvtransfer.Base.Dict.{Dict, get, remove, or_else}
use beyond_kvtransfer.Emitter.Ring
use beyond_kvtransfer.Value.{Rec, Float}
use beyond_kvtransfer.Text.{Text}
use beyond_kvtransfer.Sampling.{Sampler, should_emit_transfer}
use beyond_kvtransfer.Emitter.OutFile.{Files}
use beyond_kvtransfer.Emitter.State.{
  Emitter, Phase, testing, waiting, closed, event, enqueue, get_buf, stamp, account,
}
use beyond_kvtransfer.Emitter.Probe.{
  StartArgs, EndArgs, start_record, end_record, metadata_enter, transfer_start, transfer_end,
}
use beyond_kvtransfer.Emitter.Flusher.{
  flusher_step, flusher_at, flusher_test, flusher_wake, flush_once, shutdown,
}
use beyond_kvtransfer.Emitter.Held.{has_room, held, held-enqueue, enqueue-frame, one_if}
use beyond_kvtransfer.Emitter.Run.{
  Action, emit, start, finish, measure, flush, stop, perform, World, step, run,
}
use beyond_kvtransfer.Emitter.Run.Live.{
  Meta, opened_by, Tracks, Untouched, Untouched-event, Untouched-exit, Tracks-start, Tracks-finish,
}

unfoldable pub opened_after : Sampler → String → List Action → Option Meta → Option Meta
opened_after s tid [] m = m
opened_after s tid (a ∷ actions) m = opened_after s tid actions (opened_by s tid a m)

same_opened :
    (tid : String) (actions : List Action) {s s' : Sampler} {m m' : Option Meta}
    → s' ≡ s
    → m' ≡ m
    → opened_after s' tid actions m' ≡ opened_after s tid actions m
same_opened tid actions e f = cc

-- the record that a call of `transfer_end` hands to `event`
unfoldable pub ending : ℕ → String → ℕ → EndArgs → Option Meta → Option (ℕ × Rec)
ending t tid ts a none = none
ending t tid ts a (some meta) = some (t, end_record tid meta ts a)

-- the emitter after a record, or none, was handed to `event`
unfoldable pub handed : Option (ℕ × Rec) → Emitter → Emitter
handed none em = em
handed (some (t, r)) em = event t r em

account_elsewhere :
    (live : Dict String Meta) (em : Emitter)
    → account (record em { live_transfers = live }) ≡ record (account em) { live_transfers = live }
unfolding account
account_elsewhere live em =
    elim (Bool-cases (leb_ℤ em.flush_bytes (pos (em.pending_approx_bytes + 256)))) [
      | inl early ↦ rw early refl
      | inr later ↦ rw later refl
    ]

-- `event` neither reads nor writes the open transfers
event_elsewhere :
    (t : ℕ) (r : Rec) (live : Dict String Meta) (em : Emitter)
    → event t r (record em { live_transfers = live })
      ≡ record (event t r em) { live_transfers = live }
unfolding event enqueue get_buf stamp
event_elsewhere t r live em = elim (Bool-cases em.enabled) [
  | inr off ↦ rw off refl
  | inl on ↦ elim (Bool-cases (Ring.put (stamp em r) (or_else (get t em.buffers) Ring.new)).0) [
    | inl done ↦ rw (on, done) (account_elsewhere live _)
    | inr full ↦ rw (on, full) refl
  ]
]

transfer_end-handed :
    (t : ℕ) (tid : String) (ts : ℕ) (a : EndArgs) (em : Emitter)
    → em.enabled ≡ true
    → transfer_end t tid ts a em
      ≡ record (handed (ending t tid ts a (get tid em.live_transfers)) em) {
        live_transfers = remove tid em.live_transfers;
      }
unfolding transfer_end
transfer_end-handed t tid ts a em on = simp on (finished (get tid em.live_transfers))
  where
    popped : Emitter
    popped = record em { live_transfers = remove tid em.live_transfers }

    finished :
        (d : Option Meta)
        → let em' : Emitter = elim d [
          | none ↦ popped
          | some meta ↦ event t (end_record tid meta ts a) popped
        ] in
          em' ≡ record (handed (ending t tid ts a d) em) {
            live_transfers = remove tid em.live_transfers;
          }
    finished none = unfold ending handed in refl
    finished (some meta) =
        unfold ending handed in
        event_elsewhere t (end_record tid meta ts a) (remove tid em.live_transfers) em

start_refused :
    (t : ℕ) (tid : String) (draw : Float) (ts : ℕ) (a : StartArgs) (em : Emitter) (p : Rec → Bool)
    → em.enabled ≡ true
    → (should_emit_transfer em.sampler draw).0 ≡ true
    → has_room t em ≡ false
    → (held p (transfer_start t tid draw ts a em).buffers ≡ held p em.buffers)
      × ((transfer_start t tid draw ts a em).dropped_total ≡ em.dropped_total + 1)
unfolding transfer_start event
start_refused t tid draw ts a em p on sampled full =
    let r = start_record tid ts a (should_emit_transfer em.sampler draw).1 in
    let counted : held p (enqueue t r em).buffers ≡ held p em.buffers + 0 =
      rw full at (held-enqueue p t r em) in
    let dropped : (enqueue t r em).dropped_total ≡ em.dropped_total + 1 =
      rw full at (enqueue-frame t r em).dropped in
    simp (on, sampled) (omega (arith, counted), dropped)

module _ (dumps : Rec → Option Text) where
  Untouched-flush_once : (em : Emitter) (files : Files) → Untouched em (flush_once dumps em files).0
  unfolding flush_once
  Untouched-flush_once em files = ground arith

  Untouched-test :
      (stopping : Bool) (em : Emitter) (files : Files)
      → Untouched em (flusher_test dumps stopping em files).0
  unfolding flusher_test
  Untouched-test false em files = record { enabled = refl; sampler = refl; live = refl }
  Untouched-test true em files =
      let same = Untouched-flush_once em files in
      record { enabled = same.enabled; sampler = same.sampler; live = same.live }

  Untouched-at :
      (phase : Phase) (em : Emitter) (files : Files)
      → Untouched em (flusher_at dumps phase em files).0
  unfolding flusher_at flusher_wake
  Untouched-at testing em files = Untouched-test em.stop_event em files
  Untouched-at waiting em files =
      let same =
        Untouched-flush_once (record em { flush_trigger = false; pending_approx_bytes = 0 })
          files in
      record { enabled = same.enabled; sampler = same.sampler; live = same.live }
  Untouched-at closed em files = record { enabled = refl; sampler = refl; live = refl }

  Untouched-shutdown : (em : Emitter) → Untouched em (shutdown em)
  unfolding shutdown
  Untouched-shutdown em = ground arith

  Tracks-perform :
      (tid : String) (a : Action) (em : Emitter) (files : Files)
      → em.enabled ≡ true
      → Tracks tid a em (perform dumps a em files).0
  unfolding perform opened_by flusher_step
  Tracks-perform tid (emit t r) em files on =
      let same = Untouched-event t r em in
      record { enabled = same.enabled; sampler = same.sampler; live = ap (get tid) same.live }
  Tracks-perform tid (start t id draw ts a) em files on = Tracks-start tid t id draw ts a em on
  Tracks-perform tid (finish t id ts a) em files on = Tracks-finish tid t id ts a em on
  Tracks-perform tid (measure t subtype request_id kw draw t0 t1 written) em files on =
      let same =
        Untouched-exit t subtype request_id kw (metadata_enter subtype draw em) t0 t1 written em in
      record { enabled = same.enabled; sampler = same.sampler; live = ap (get tid) same.live }
  Tracks-perform tid flush em files on =
      let same = Untouched-at em.phase em files in
      record { enabled = same.enabled; sampler = same.sampler; live = ap (get tid) same.live }
  Tracks-perform tid stop em files on =
      let same = Untouched-shutdown em in
      record { enabled = same.enabled; sampler = same.sampler; live = ap (get tid) same.live }

  live-run :
      (tid : String) (actions : List Action) (w : World)
      → w.em.enabled ≡ true
      → get tid (run dumps actions w).em.live_transfers
        ≡ opened_after w.em.sampler tid actions (get tid w.em.live_transfers)
  unfolding run opened_after step
  live-run tid [] w on = refl
  live-run tid (a ∷ actions) w on =
      let tracks = Tracks-perform tid a w.em w.files on in
      live-run tid actions (step dumps a w) (tracks.enabled ∙ on)
      ∙ same_opened tid actions tracks.sampler tracks.live

  enabled-run :
      (actions : List Action) (w : World)
      → w.em.enabled ≡ true
      → (run dumps actions w).em.enabled ≡ true
  unfolding run step
  enabled-run [] w on = on
  enabled-run (a ∷ actions) w on =
      enabled-run actions (step dumps a w) ((Tracks-perform "" a w.em w.files on).enabled ∙ on)

  -- After any calls of an enabled emitter in any order, `transfer_end` hands a record to `event`
  -- exactly when the last sampled start and the last end of the id, among those calls, is a start (or
  -- when the id was open before them and none names it); it is one record, on the calling thread, and
  -- it carries the direction and the payload kind of that start. In either case the id is open no
  -- longer, and nothing else of the emitter changes.
  pub finish-emits :
      (actions : List Action) (w : World) (t : ℕ) (tid : String) (ts : ℕ) (a : EndArgs)
      → w.em.enabled ≡ true
      → let em = (run dumps actions w).em in
        let opened = opened_after w.em.sampler tid actions (get tid w.em.live_transfers) in
        transfer_end t tid ts a em ≡ record (handed (ending t tid ts a opened) em) {
          live_transfers = remove tid em.live_transfers;
        }
  finish-emits actions w t tid ts a on =
      let em = (run dumps actions w).em in
      transfer_end-handed t tid ts a em (enabled-run actions w on)
      ∙ ap
          (λ (m : Option Meta). record (handed (ending t tid ts a m) em) {
            live_transfers = remove tid em.live_transfers;
          })
          (live-run tid actions w on)

-- On an enabled emitter, a sampled start on a thread whose ring is full adds no record to any ring and
-- is counted as dropped, and yet the next end of its id, on a thread whose ring then has room, adds
-- its record, with the direction and the payload kind of the start: the trace then holds an end with
-- no start.
pub refused_start_is_live :
    (t t' : ℕ) (tid : String) (draw : Float) (ts ts' : ℕ) (a : StartArgs) (e : EndArgs)
    (em : Emitter)
    → em.enabled ≡ true
    → (should_emit_transfer em.sampler draw).0 ≡ true
    → has_room t em ≡ false
    → has_room t' (transfer_start t tid draw ts a em) ≡ true
    → let em1 = transfer_start t tid draw ts a em in
      let meta : Meta = (a.direction, a.payload_kind) in
      (em1.dropped_total ≡ em.dropped_total + 1)
      × ((p : Rec → Bool) → held p em1.buffers ≡ held p em.buffers)
      × ((p : Rec → Bool)
          → held p (transfer_end t' tid ts' e em1).buffers
            ≡ held p em.buffers + one_if (p (stamp em1 (end_record tid meta ts' e))))
refused_start_is_live t t' tid draw ts ts' a e em on sampled full room =
    let em1 = transfer_start t tid draw ts a em in
    let begun = λ (p : Rec → Bool). start_refused t tid draw ts a em p on sampled full in
    let tracks = Tracks-start tid t tid draw ts a em on in
    let self : (tid == tid) ≡ true = (==_iff tid tid).1 refl in
    let live : get tid em1.live_transfers ≡ some (a.direction, a.payload_kind) =
      tracks.live ∙ unfold opened_by in simp (sampled, self) in
    let on1 : em1.enabled ≡ true = tracks.enabled ∙ on in
    let ended = transfer_end-handed t' tid ts' e em1 on1 in
    (
      (begun (λ r. true)).1,
      λ p. (begun p).0,
      λ p.
          ap (λ (x : Emitter). held p x.buffers) ended
          ∙ rw (live) (
              unfold ending handed event in
              simp on1 (
                held-enqueue p t' (end_record tid (a.direction, a.payload_kind) ts' e) em1
                ∙ rw (room, (begun p).0) refl)),
    )
