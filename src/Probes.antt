-- ===== src/Probes.antt =====
-- What the engine probes of bkvt/integrations share: the state of the process that they work on, and
-- the actions of a wrapper. The n-th readings of the clock, of the random generator and of uuid4, and
-- the order in which a set is walked, are given by an environment.
pub mod Keeps
pub mod Orders
pub mod Steps
pub mod Reports
use beyond_kvtransfer.Base.{
  ℕ, ◌+◌, String, Bool, true, false, Option, none, some, List, [], ◌∷◌, if◌then◌else◌, ℤ,
}
use beyond_kvtransfer.Base.Dict.{Dict}
use beyond_kvtransfer.Value.{Rec, Float}
use beyond_kvtransfer.Sampling.{should_emit_kv_block, should_emit_token}
use beyond_kvtransfer.Py.{Obj}
use beyond_kvtransfer.Py.Reads.{Classes}
use beyond_kvtransfer.Emitter.State.{Emitter, event}

-- what the probes of one process work on
pub record Process : Type 0 where
  pub em : Emitter
  -- `RequestStateTracker._states`
  pub states : Dict String Rec
  -- `_bkvt_ctx.request_id` of the thread
  pub current_request : Option String
  -- how many numbers `_step_counter` has given
  pub steps : ℕ
  -- how many readings were taken
  pub ticks : ℕ

pub record Env : Type 0 where
  pub thread : ℕ
  pub clock : ℕ → ℕ
  pub draws : ℕ → Float
  pub ids : ℕ → String
  pub set_order : List String → List String
  pub classes : Classes
  -- whether there is a CUDA device, and the times between two CUDA events
  pub cuda : Bool
  pub elapsed : ℕ → Option ℤ

-- a call: the process after it, and what it returns, none where it raises
abbrev pub Action {ℓ} : Type ℓ → Type ℓ
Action A = Process → Process × Option A

module _ {ℓ} {A : Type ℓ} where
  abbrev pub pure : A → Action A
  pure a p = (p, some a)

  abbrev pub throw : Action A
  throw p = (p, none)

  -- what an `Option` of a computation gives, none where it raised
  abbrev pub lift : Option A → Action A
  lift o p = (p, o)

infixl 5 ◌>>=◌ ◌>>◌
abbrev pub ◌>>=◌ {ℓ κ} : {A : Type ℓ} {B : Type κ} → Action A → (A → Action B) → Action B
◌>>=◌ m f p = let (p', result) = m p in elim result [ none ↦ (p', none) | some a ↦ f a p' ]

abbrev pub ◌>>◌ {ℓ κ} : {A : Type ℓ} {B : Type κ} → Action A → Action B → Action B
m >> k = m >>= λ _. k

-- the items of a loop, until one raises
unfoldable pub each {ℓ} : {A : Type ℓ} → (A → Action (Unit {0})) → List A → Action (Unit {0})
each body [] = pure tt
each body (x ∷ xs) = body x >> each body xs

abbrev pub reading : (Process → Process) → Action (Unit {0})
reading f p = (f p, some tt)

-- a call of the engine, on any process
abbrev pub Original : Type 0
Original = Action Obj

-- `if not em.enabled: return original(…)`
unfoldable pub when_enabled : Original → Action Obj → Action Obj
when_enabled original traced p = if p.em.enabled then traced p else original p

module _ (env : Env) where
  -- `now_ns()`
  unfoldable pub now : Action ℕ
  now p = (record p { ticks = p.ticks + 1 }, some (env.clock p.ticks))

  -- `em.event(rec)`
  unfoldable pub emit : Rec → Action (Unit {0})
  emit r p = (record p { em = event env.thread r p.em }, some tt)

  unfoldable pub sample_kv_block : String → Action (Bool × Option Float)
  sample_kv_block subtype p = (
    record p { ticks = p.ticks + 1 },
    some (should_emit_kv_block p.em.sampler subtype (env.draws p.ticks)),
  )

  unfoldable pub sample_token : String → Action (Bool × Option Float)
  sample_token subtype p = (
    record p { ticks = p.ticks + 1 },
    some (should_emit_token p.em.sampler subtype (env.draws p.ticks)),
  )

  -- the body of a loop over blocks: the record that `make` builds, where the block is sampled
  unfoldable pub emit_sampled : String → (Obj → Option Float → Option Rec) → Obj → Action (Unit {0})
  emit_sampled subtype make block = do
    (sampled, rate) ← sample_kv_block subtype
    if sampled then (lift (make block rate) >>= emit) else pure tt

  -- `for block in blocks:`
  unfoldable pub emit_blocks :
      String → (Obj → Option Float → Option Rec) → List Obj → Action (Unit {0})
  emit_blocks subtype make blocks = each (emit_sampled subtype make) blocks

  -- a call of an enabled emitter between two readings of the clock, and what follows it
  unfoldable pub timed : (ℕ → ℕ → Obj → Action Obj) → Original → Action Obj
  unfolding when_enabled now
  timed after original =
      when_enabled original
        do t_start ← now; result ← original; t_end ← now; after t_start t_end result

  -- a call of an enabled emitter, and what follows it at the time after it
  unfoldable pub followed : (ℕ → Obj → Action Obj) → Original → Action Obj
  unfolding when_enabled now
  followed after original = when_enabled original do result ← original; ts ← now; after ts result
