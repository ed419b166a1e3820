-- ===== src/Emitter/Run/Live.antt =====
-- What each call of the emitter does to its open transfers.
use beyond_kvtransfer.Base.{
  ℕ, ◌≡◌, refl, String, Bool, true, false, Option, none, some, ◌&&◌, if◌then◌else◌, string_eq, ap,
  ◌∙◌, Bool-cases, inl, inr, ◌==◌,
}
use beyond_kvtransfer.Base.Dict.{get, set, remove, get-set, get-remove}
use beyond_kvtransfer.Value.{Rec, Float}
use beyond_kvtransfer.Sampling.{Sampler, should_emit_transfer}
use beyond_kvtransfer.Emitter.State.{Emitter, event}
use beyond_kvtransfer.Emitter.Probe.{
  StartArgs, EndArgs, transfer_start, transfer_end, start_record, end_record, metadata_exit,
}
use beyond_kvtransfer.Emitter.Held.{enqueue-frame}
use beyond_kvtransfer.Emitter.Run.{Action, emit, start, finish, measure, flush, stop}

-- direction and payload kind of a transfer
abbrev pub Meta : Type 0
Meta = String × String

-- an open transfer of this id after one more action: a sampled start opens it, an end closes it
unfoldable pub opened_by : Sampler → String → Action → Option Meta → Option Meta
opened_by s tid (start t id draw ts a) m =
    if (should_emit_transfer s draw).0 && id == tid then some (a.direction, a.payload_kind) else m
opened_by s tid (finish t id ts a) m = if id == tid then none else m
opened_by s tid (emit t r) m = m
opened_by s tid (measure t subtype request_id kw draw t0 t1 written) m = m
opened_by s tid flush m = m
opened_by s tid stop m = m

-- what a step leaves alone, and the open transfer of one id
pub record Tracks (tid : String) (a : Action) (em em' : Emitter) : Type 0 where
  pub enabled : em'.enabled ≡ em.enabled
  pub sampler : em'.sampler ≡ em.sampler
  pub live : get tid em'.live_transfers ≡ opened_by em.sampler tid a (get tid em.live_transfers)

-- a call that leaves all of this alone
pub record Untouched (em em' : Emitter) : Type 0 where
  pub enabled : em'.enabled ≡ em.enabled
  pub sampler : em'.sampler ≡ em.sampler
  pub live : em'.live_transfers ≡ em.live_transfers

pub Untouched-event : (t : ℕ) (r : Rec) (em : Emitter) → Untouched em (event t r em)
unfolding event
Untouched-event t r em =
    let frame = enqueue-frame t r em in
    elim (Bool-cases em.enabled) [
      | inl on ↦
          simp on (record {
            enabled = frame.enabled;
            sampler = frame.sampler;
            live = frame.live_transfers;
          })
      | inr off ↦ simp off (record { enabled = refl; sampler = refl; live = refl })
    ]

pub Untouched-exit :
    (t : ℕ) (subtype : String) (request_id : Option String) (kw : Rec)
    (d : Option (Bool × Option Float)) (t0 t1 : ℕ) (written : Rec) (em : Emitter)
    → Untouched em (metadata_exit t subtype request_id kw d t0 t1 written em)
unfolding metadata_exit
Untouched-exit t subtype request_id kw none t0 t1 written em = record {
  enabled = refl;
  sampler = refl;
  live = refl;
}
Untouched-exit t subtype request_id kw (some (true, rate)) t0 t1 written em = Untouched-event t _ em
Untouched-exit t subtype request_id kw (some (false, rate)) t0 t1 written em = record {
  enabled = refl;
  sampler = refl;
  live = refl;
}

pub Tracks-start :
    (tid : String) (t : ℕ) (id : String) (draw : Float) (ts : ℕ) (a : StartArgs) (em : Emitter)
    → em.enabled ≡ true
    → Tracks tid (start t id draw ts a) em (transfer_start t id draw ts a em)
unfolding transfer_start opened_by
Tracks-start tid t id draw ts a em on =
    let (emitted, rate) = should_emit_transfer em.sampler draw in
    let (same_enabled, same_sampler, same_live) = started emitted rate in
    simp on (record { enabled = same_enabled; sampler = same_sampler; live = same_live })
  where
    after : Bool → Option Float → Emitter
    after emitted rate =
        if emitted
        then (let em' = event t (start_record id ts a rate) em in
            record em' { live_transfers = set id (a.direction, a.payload_kind) em'.live_transfers })
        else em

    started :
        (emitted : Bool) (rate : Option Float)
        → ((after emitted rate).enabled ≡ em.enabled)
          × ((after emitted rate).sampler ≡ em.sampler)
          × (get tid (after emitted rate).live_transfers ≡ (
              if emitted && id == tid
              then some (a.direction, a.payload_kind)
              else get tid em.live_transfers))
    started true rate =
        let same = Untouched-event t (start_record id ts a rate) em in
        (same.enabled, same.sampler, rw (get-set, same.live) refl)
    started false rate = (refl, refl, refl)

pub Tracks-finish :
    (tid : String) (t : ℕ) (id : String) (ts : ℕ) (a : EndArgs) (em : Emitter)
    → em.enabled ≡ true
    → Tracks tid (finish t id ts a) em (transfer_end t id ts a em)
unfolding transfer_end opened_by
Tracks-finish tid t id ts a em on = simp on (finished (get id em.live_transfers))
  where
    popped : Emitter
    popped = record em { live_transfers = remove id em.live_transfers }

    finished :
        (d : Option Meta)
        → Tracks tid
            (finish t id ts a)
            em
            (elim d [ none ↦ popped | some meta ↦ event t (end_record id meta ts a) popped ])
    finished none = record {
      enabled = refl;
      sampler = refl;
      live = get-remove tid id em.live_transfers;
    }
    finished (some meta) =
        let same = Untouched-event t (end_record id meta ts a) popped in
        record {
          enabled = same.enabled;
          sampler = same.sampler;
          live = ap (get tid) same.live ∙ get-remove tid id em.live_transfers;
        }
