-- ===== src/Probes/Keeps.antt =====
-- What holds between the process before an action and the process after it, through the composition
-- of actions.
use beyond_kvtransfer.Base.{
  ℕ, ◌+◌, ◌≡◌, String, Bool, true, false, Option, none, some, List, [], ◌∷◌, if◌then◌else◌,
  string_eq,
}
use beyond_kvtransfer.Base.Dict.{get}
use beyond_kvtransfer.Value.{Value, Rec, Float}
use beyond_kvtransfer.Py.{Obj}
use beyond_kvtransfer.Emitter.State.{event}
use beyond_kvtransfer.Tracker
use beyond_kvtransfer.Probes.{
  Process, Env, Action, Original, ◌>>=◌, ◌>>◌, pure, lift, each, when_enabled, now, emit,
  sample_kv_block, sample_token, emit_sampled, emit_blocks, timed, followed,
}

-- the times that the tracker keeps of the first admission and the first token of a request
abbrev pub NoFirsts : Rec → Type 0
NoFirsts fields =
    (get "first_schedule_ts_ns" fields ≡ none) × (get "first_token_ts_ns" fields ≡ none)

-- a relation that every part of a probe respects
pub record Order : Type 1 where
  pub rel : Process → Process → Type 0
  pub same : (p : Process) → rel p p
  pub chain : (p q r : Process) → rel p q → rel q r → rel p r
  pub ticked : (p : Process) (n : ℕ) → rel p (record p { ticks = n })
  pub stepped : (p : Process) (n : ℕ) → rel p (record p { steps = n })
  pub emitted : (t : ℕ) (r : Rec) (p : Process) → rel p (record p { em = event t r p.em })
  pub merged :
      (request_id : String) (fields : Rec) (p : Process)
      → NoFirsts fields
      → rel p (record p { states = Tracker.update request_id fields p.states })
  -- the keys that may be set where they are absent
  pub takes : String → Bool
  pub offered :
      (request_id key : String) (v : Value) (p : Process)
      → takes key ≡ true
      → rel p (record p { states = (Tracker.set_if_absent request_id key v p.states).0 })

module _ (o : Order) where
  module _ {ℓ} {A : Type ℓ} where
    pub record Keeps (m : Action A) : Type 0 where
      pub kept : (p : Process) → o.rel p (m p).0

    pub Keeps-pure : (a : A) → Keeps (pure a)
    Keeps-pure a = record { kept = o.same }

    pub Keeps-lift : (a : Option A) → Keeps (lift a)
    Keeps-lift a = record { kept = o.same }

    pub Keeps-if :
        (b : Bool) (m n : Action A) → Keeps m → Keeps n → Keeps (λ p. if b then m p else n p)
    Keeps-if true m n a b = a
    Keeps-if false m n a b = b

  module _ {ℓ κ} {A : Type ℓ} {B : Type κ} where
    pub Keeps-bind :
        (m : Action A) (f : A → Action B) → Keeps m → ((a : A) → Keeps (f a)) → Keeps (m >>= f)
    Keeps-bind m f a b = record { kept = λ p. by_result p (m p).1 }
      where
        by_result :
            (p : Process) (result : Option A)
            → o.rel p
                (elim result as (λ x. Process × Option B) [
                  | none ↦ ((m p).0, none)
                  | some v ↦ f v (m p).0
                ]).0
        by_result p none = a.kept p
        by_result p (some v) = o.chain p (m p).0 (f v (m p).0).0 (a.kept p) ((b v).kept (m p).0)

  module _ {ℓ} {A : Type ℓ} where
    pub Keeps-each :
        (body : A → Action (Unit {0}))
        → ((x : A) → Keeps (body x))
        → (xs : List A) → Keeps (each body xs)
    unfolding each
    Keeps-each body h [] = record { kept = o.same }
    Keeps-each body h (x ∷ xs) =
        Keeps-bind (body x) (λ u. each body xs) (h x) (λ u. Keeps-each body h xs)

  pub Keeps-when :
      (original : Original) (traced : Action Obj)
      → Keeps original
      → Keeps traced
      → Keeps (when_enabled original traced)
  unfolding when_enabled
  Keeps-when original traced a b = record { kept = λ p. by_switch p p.em.enabled }
    where
      by_switch : (p : Process) (on : Bool) → o.rel p (if on then traced p else original p).0
      by_switch p true = b.kept p
      by_switch p false = a.kept p

  module _ (env : Env) where
    pub Keeps-now : Keeps (now env)
    unfolding now
    Keeps-now = record { kept = λ p. o.ticked p (p.ticks + 1) }

    pub Keeps-emit : (r : Rec) → Keeps (emit env r)
    unfolding emit
    Keeps-emit r = record { kept = λ p. o.emitted env.thread r p }

    pub Keeps-sample_kv_block : (subtype : String) → Keeps (sample_kv_block env subtype)
    unfolding sample_kv_block
    Keeps-sample_kv_block subtype = record { kept = λ p. o.ticked p (p.ticks + 1) }

    pub Keeps-sample_token : (subtype : String) → Keeps (sample_token env subtype)
    unfolding sample_token
    Keeps-sample_token subtype = record { kept = λ p. o.ticked p (p.ticks + 1) }

    pub Keeps-blocks :
        (subtype : String) (make : Obj → Option Float → Option Rec) (blocks : List Obj)
        → Keeps (emit_blocks env subtype make blocks)
    unfolding emit_blocks emit_sampled
    Keeps-blocks subtype make blocks = Keeps-each (emit_sampled env subtype make) body blocks
      where
        decided :
            (block : Obj) (d : Bool × Option Float)
            → Keeps (if d.0 then (lift (make block d.1) >>= emit env) else pure tt)
        decided block (true, rate) =
            Keeps-bind (lift (make block rate)) (emit env) (Keeps-lift _) Keeps-emit
        decided block (false, rate) = Keeps-pure tt

        body : (block : Obj) → Keeps (emit_sampled env subtype make block)
        body block =
            Keeps-bind (sample_kv_block env subtype) _ (Keeps-sample_kv_block subtype)
              (decided block)

    pub Keeps-timed :
        (after : ℕ → ℕ → Obj → Action Obj) (original : Original)
        → ((t0 t1 : ℕ) (v : Obj) → Keeps (after t0 t1 v))
        → Keeps original
        → Keeps (timed env after original)
    unfolding timed
    Keeps-timed after original h k = Keeps-when original _ k (
        Keeps-bind (now env) (λ t0. original >>= λ v. now env >>= λ t1. after t0 t1 v) Keeps-now
          (λ t0.
            Keeps-bind original (λ v. now env >>= λ t1. after t0 t1 v) k
              (λ v. Keeps-bind (now env) (λ t1. after t0 t1 v) Keeps-now (λ t1. h t0 t1 v))))

    pub Keeps-followed :
        (after : ℕ → Obj → Action Obj) (original : Original)
        → ((t : ℕ) (v : Obj) → Keeps (after t v))
        → Keeps original
        → Keeps (followed env after original)
    unfolding followed
    Keeps-followed after original h k = Keeps-when original _ k (
        Keeps-bind original (λ v. now env >>= λ t. after t v) k
          (λ v. Keeps-bind (now env) (λ t. after t v) Keeps-now (λ t. h t v)))

    -- a summary, a loop over blocks and the result
    pub Keeps-report :
        (r : Rec) (subtype : String) (make : Obj → Option Float → Option Rec) (blocks : List Obj)
        (v : Obj)
        → Keeps (emit env r >> (emit_blocks env subtype make blocks >> pure v))
    Keeps-report r subtype make blocks v =
        Keeps-bind (emit env r) (λ u. emit_blocks env subtype make blocks >> pure v) (Keeps-emit r)
          (λ u.
            Keeps-bind (emit_blocks env subtype make blocks) (λ u'. pure v)
              (Keeps-blocks subtype make blocks) (λ u'. Keeps-pure v))

    -- a record and the result
    pub Keeps-said : (r : Rec) (v : Obj) → Keeps (emit env r >> pure v)
    Keeps-said r v = Keeps-bind (emit env r) (λ u. pure v) (Keeps-emit r) (λ u. Keeps-pure v)
