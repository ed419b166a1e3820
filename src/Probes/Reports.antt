-- ===== src/Probes/Reports.antt =====
-- What a loop over blocks hands to the emitter: the records of the sampled blocks, up to the first
-- one whose record cannot be built.
use beyond_kvtransfer.Base.{
  ℕ, ◌+◌, ◌≡◌, refl, String, Bool, true, false, Option, none, some, List, [], ◌∷◌, if◌then◌else◌,
  ◌∙◌, ap, arith, is_some,
}
use beyond_kvtransfer.Value.{Rec, Float, float_le, float_one}
use beyond_kvtransfer.Sampling.{
  Sampler, should_emit_kv_block, should_emit, rate_for, decide_rate, member,
}
use beyond_kvtransfer.Py.{Obj}
use beyond_kvtransfer.Emitter.State.{Emitter, event}
use beyond_kvtransfer.Emitter.Run.Live.{Untouched-event}
use beyond_kvtransfer.Probes.{
  Process, Env, Action, ◌>>=◌, ◌>>◌, pure, lift, each, emit, sample_kv_block, emit_sampled,
  emit_blocks,
}

-- several calls of `event` on one thread
unfoldable pub events : ℕ → List Rec → Emitter → Emitter
events t [] em = em
events t (r ∷ rs) em = events t rs (event t r em)

pub sampler-events : (t : ℕ) (rs : List Rec) (em : Emitter) → (events t rs em).sampler ≡ em.sampler
unfolding events
sampler-events t [] em = refl
sampler-events t (r ∷ rs) em = sampler-events t rs (event t r em) ∙ (Untouched-event t r em).sampler

pub record Log : Type 0 where
  pub records : List Rec
  -- how many draws were taken, and whether every record was built
  pub used : ℕ
  pub complete : Bool

abbrev pub cons_made : Option Rec → Option (List Rec) → Option (List Rec)
cons_made none rest = none
cons_made (some r) none = none
cons_made (some r) (some rs) = some (r ∷ rs)

module _ (make : Obj → Option Float → Option Rec) where
  abbrev log_made : Option Rec → Log → Log
  log_made none rest = record { records = []; used = 1; complete = false }
  log_made (some r) rest = record rest { records = r ∷ rest.records; used = rest.used + 1 }

  abbrev log_one : Bool × Option Float → Obj → Log → Log
  log_one (true, rate) block rest = log_made (make block rate) rest
  log_one (false, rate) block rest = record rest { used = rest.used + 1 }

  -- the decision of each block is given by a number
  unfoldable pub block_log : (ℕ → Bool × Option Float) → ℕ → List Obj → Log
  block_log decide n [] = record { records = []; used = 0; complete = true }
  block_log decide n (block ∷ blocks) = log_one (decide n) block (block_log decide (n + 1) blocks)

  -- the records of all blocks: none where one cannot be built
  unfoldable pub made : List Obj → Option (List Rec)
  made [] = some []
  made (block ∷ blocks) = cons_made (make block none) (made blocks)

  cons-complete :
      (o : Option Rec) (m : Option (List Rec)) (later : Log)
      → later.complete ≡ is_some m
      → ((rs : List Rec) → m ≡ some rs → later.records ≡ rs)
      → ((log_made o later).complete ≡ is_some (cons_made o m))
        × ((rs : List Rec) → cons_made o m ≡ some rs → (log_made o later).records ≡ rs)
  cons-complete none m later complete records = (refl, λ rs e. cc)
  cons-complete (some r) none later complete records = (complete, λ rs e. cc)
  cons-complete (some r) (some rs') later complete records =
      (complete, λ rs e. let same = records rs' refl in cc)

  -- where every block is sampled at no rate of its own, all records are built or the loop ends early
  pub block_log-complete :
      (decide : ℕ → Bool × Option Float)
      → ((n : ℕ) → decide n ≡ (true, none))
      → (n : ℕ) (blocks : List Obj)
      → ((block_log decide n blocks).complete ≡ is_some (made blocks))
        × ((rs : List Rec) → made blocks ≡ some rs → (block_log decide n blocks).records ≡ rs)
  unfolding block_log made
  block_log-complete decide all n [] = (refl, λ rs e. cc)
  block_log-complete decide all n (block ∷ blocks) =
      let (complete, records) = block_log-complete decide all (n + 1) blocks in
      rw all (cons-complete (make block none) (made blocks) _ complete records)

-- at a metadata rate of 1 or more, every block is sampled, and carries no rate
pub sample-all :
    (s : Sampler) (subtype : String) (draw : Float)
    → float_le float_one s.sample_metadata ≡ true
    → should_emit_kv_block s subtype draw ≡ (true, none)
unfolding should_emit_kv_block should_emit rate_for decide_rate member
sample-all s subtype draw full = simp full refl

module _ (env : Env) (subtype : String) (make : Obj → Option Float → Option Rec) where
  abbrev pub decisions : Sampler → ℕ → Bool × Option Float
  decisions s n = should_emit_kv_block s subtype (env.draws n)

  abbrev ended : Bool → Option (Unit {0})
  ended complete = if complete then some tt else none

  -- the process after a loop with this log, and whether it ended
  unfoldable pub logged : Log → Process → Process × Option (Unit {0})
  logged l p = (
    record p { em = events env.thread l.records p.em; ticks = p.ticks + l.used },
    ended l.complete,
  )

  log_of : List Obj → Process → Log
  log_of blocks p = block_log make (decisions p.em.sampler) p.ticks blocks

  -- one more block
  abbrev step_of : Bool × Option Float → Obj → Action (Unit {0})
  step_of d block = if d.0 then (lift (make block d.1) >>= emit env) else pure tt

  abbrev rest_of : List Obj → Process → Log
  rest_of blocks p = block_log make (decisions p.em.sampler) (p.ticks + 1) blocks

  abbrev then_blocks : Action (Unit {0}) → List Obj → Action (Unit {0})
  then_blocks m blocks = m >> emit_blocks env subtype make blocks

  later :
      (p : Process) (em : Emitter) (u : ℕ) (o : Option (Unit {0}))
      → ◌≡◌ {A = Process × Option (Unit {0})}
          (record p { em = em; ticks = p.ticks + 1 + u }, o)
          (record p { em = em; ticks = p.ticks + (u + 1) }, o)
  later p em u o = ap (λ (n : ℕ). (record p { em = em; ticks = n }, o)) (omega arith)

  emit_block-log :
      (d : Bool × Option Float) (block : Obj) (blocks : List Obj) (p : Process)
      → ((q : Process)
          → q.em.sampler ≡ p.em.sampler
          → q.ticks ≡ p.ticks + 1
          → emit_blocks env subtype make blocks q ≡ logged (rest_of blocks p) q)
      → then_blocks (step_of d block) blocks (record p { ticks = p.ticks + 1 })
        ≡ logged (log_one make d block (rest_of blocks p)) p
  unfolding logged emit events
  emit_block-log (false, rate) block blocks p ih =
      rw (ih (record p { ticks = p.ticks + 1 }) refl refl) (later p _ _ _)
  emit_block-log (true, rate) block blocks p ih = by_made (make block rate)
    where
      entered : Process
      entered = record p { ticks = p.ticks + 1 }

      by_made :
          (o : Option Rec)
          → then_blocks (lift o >>= emit env) blocks entered
            ≡ logged (log_made make o (rest_of blocks p)) p
      by_made none = refl
      by_made (some r) =
          ih (record p { em = event env.thread r p.em; ticks = p.ticks + 1 })
            (Untouched-event env.thread r p.em).sampler refl
          ∙ later p _ _ _

  ticks_same : (p : Process) → p.ticks ≡ p.ticks + 0
  ticks_same p = omega arith

  -- the loop emits the records of its log, in order, and raises exactly where the log is incomplete
  pub emit_blocks-log :
      (blocks : List Obj) (p : Process)
      → emit_blocks env subtype make blocks p
        ≡ logged (block_log make (decisions p.em.sampler) p.ticks blocks) p
  unfolding block_log
  emit_blocks-log [] p =
      unfold logged emit_blocks each events in
      ap (λ (n : ℕ). (record p { ticks = n }, ended true)) (ticks_same p)
  emit_blocks-log (block ∷ blocks) p =
      first
      ∙ emit_block-log (decisions p.em.sampler p.ticks) block blocks p
          (λ q same next. emit_blocks-log blocks q ∙ rw (same, next) refl)
    where
      first :
          emit_blocks env subtype make (block ∷ blocks) p
          ≡ then_blocks
              (step_of (decisions p.em.sampler p.ticks) block)
              blocks
              (record p { ticks = p.ticks + 1 })
      first = unfold emit_blocks each emit_sampled sample_kv_block in refl
