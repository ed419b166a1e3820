-- ===== src/Sglang/Ended.antt =====
-- That the transfers of bkvt/integrations/sglang/hicache_probe.py and disagg_probe.py are ended on
-- every path.
use beyond_kvtransfer.Base.{
  ℕ, ◌+◌, ◌≡◌, refl, ◌∙◌, ap, String, Bool, true, false, Option, none, some, List, [], ◌∷◌, ◌&&◌,
  not, if◌then◌else◌, ◌==◌, string_eq, arith,
}
use beyond_kvtransfer.Base.Dict.{get, has}
use beyond_kvtransfer.Value.{Rec, Float}
use beyond_kvtransfer.Py.{Obj}
use beyond_kvtransfer.Emitter.State.{Emitter}
use beyond_kvtransfer.Emitter.Probe.{StartArgs, EndArgs, transfer_end, transfer_start}
use beyond_kvtransfer.Emitter.Run.Live.{opened_by, Tracks-finish}
use beyond_kvtransfer.Connector.Tracked.{is_live}
use beyond_kvtransfer.Probes.{
  Process, Env, Action, Original, ◌>>=◌, ◌>>◌, pure, lift, each, now, emit, sample_kv_block,
  emit_sampled, emit_blocks,
}
use beyond_kvtransfer.Probes.Keeps.{Keeps}
use beyond_kvtransfer.Probes.Orders.{quiet}
use beyond_kvtransfer.Probes.Steps.{when_enabled-on}
use beyond_kvtransfer.Sglang.Transfers.{finally, start, finish, bracket, around}

-- an action that always returns
pub record Returns (m : Action (Unit {0})) : Type 0 where
  pub returned : (p : Process) → (m p).1 ≡ some tt

pub Returns-then : (m n : Action (Unit {0})) → Returns m → Returns n → Returns (m >> n)
Returns-then m n a b = record { returned = λ p. by_result p (m p) (a.returned p) }
  where
    by_result :
        (p : Process) (x : Process × Option (Unit {0}))
        → x.1 ≡ some tt
        → (elim x.1 as (λ o. Process × Option (Unit {0})) [ none ↦ (x.0, none) | some u ↦ n x.0 ]).1
          ≡ some tt
    by_result p (q, none) h = cc
    by_result p (q, some u) h = b.returned q

module _ (env : Env) where
  pub Returns-emit : (r : Rec) → Returns (emit env r)
  unfolding emit
  Returns-emit r = record { returned = λ p. refl }

  -- a loop over blocks whose records can always be built
  pub Returns-blocks :
      (subtype : String) (make : Obj → Option Float → Rec) (blocks : List Obj)
      → Returns (emit_blocks env subtype (λ block rate. some (make block rate)) blocks)
  unfolding emit_blocks each emit emit_sampled sample_kv_block
  Returns-blocks subtype make [] = record { returned = λ p. refl }
  Returns-blocks subtype make (block ∷ blocks) =
      Returns-then (emit_sampled env subtype (λ b rate. some (make b rate)) block)
        (emit_blocks env subtype (λ b rate. some (make b rate)) blocks) one
        (Returns-blocks subtype make blocks)
    where
      by_decision :
          (p : Process) (d : Bool × Option Float)
          → ((if d.0 then (lift (some (make block d.1)) >>= emit env) else pure tt) p).1 ≡ some tt
      by_decision p (true, rate) = refl
      by_decision p (false, rate) = refl

      one : Returns (emit_sampled env subtype (λ b rate. some (make b rate)) block)
      one = record { returned = λ p. by_decision _ _ }

-- an end leaves open what was open, but for its own transfer
finish-is_live :
    (id : String) (t : ℕ) (tid : String) (ts : ℕ) (a : EndArgs) (em : Emitter)
    → em.enabled ≡ true
    → is_live id (transfer_end t tid ts a em) ≡ (not (tid == id) && is_live id em)
unfolding is_live opened_by
finish-is_live id t tid ts a em on =
    let tracks = Tracks-finish id t tid ts a em on in ground (arith, tracks.live)

module _ (env : Env) (args : ℕ → StartArgs) where
  -- the process in which the wrapped method runs
  abbrev pub opened : Process → Process
  opened p = record p {
    em =
        transfer_start env.thread (env.ids (p.ticks + 1)) (env.draws (p.ticks + 1))
          (env.clock (p.ticks + 1)) (args (env.clock p.ticks)) p.em;
    ticks = p.ticks + 1 + 1;
  }

module _ (env : Env) (args : ℕ → StartArgs) (at_end : ℕ → ℕ → Option Obj → EndArgs)
    (rest : ℕ → ℕ → Option Obj → Action (Unit {0})) where
  -- the end of the transfer, and what the wrapper does then
  abbrev pub after : ℕ → String → Option Obj → Action (Unit {0})
  after t_start tid result =
      now env >>= λ t_end. finish env tid (at_end t_start t_end result) >> rest t_start t_end result

  module _ (keeps : (t0 t1 : ℕ) (result : Option Obj) → Keeps quiet (rest t0 t1 result))
      (returns : (t0 t1 : ℕ) (result : Option Obj) → Returns (rest t0 t1 result))
      (original : Original) (p q : Process) (result : Option Obj) where
    tid : String
    tid = env.ids (p.ticks + 1)

    ended : Process
    ended = record q {
      em =
          transfer_end env.thread tid (env.clock (q.ticks + 1))
            (at_end (env.clock p.ticks) (env.clock q.ticks) result) q.em;
      ticks = q.ticks + 1 + 1;
    }

    last : Process × Option (Unit {0})
    last = rest (env.clock p.ticks) (env.clock q.ticks) result ended

    finished : Process × Option Obj → Process × Option Obj
    finished x =
        let r = after (env.clock p.ticks) tid x.1 x.0 in
        (r.0, elim r.1 as (λ o. Option Obj) [ none ↦ none | some u ↦ x.1 ])

    closed : Option (Unit {0}) → Option Obj
    closed done = elim done [ none ↦ none | some u ↦ result ]

    bracket-ends :
        original (opened env args p) ≡ (q, result)
        → bracket env args after original p ≡ (last.0, closed last.1)
    unfolding bracket now start finish finally last ended tid finished closed
    bracket-ends called = ap finished called

    around_last :
        p.em.enabled ≡ true
        → original (opened env args p) ≡ (q, result)
        → around env args after original p ≡ (last.0, closed last.1)
    unfolding around
    around_last on called =
        when_enabled-on original (bracket env args after original) p on ∙ bracket-ends called

    pub around-ends :
        p.em.enabled ≡ true
        → original (opened env args p) ≡ (q, result)
        → q.em.enabled ≡ true
        → ((id : String)
            → is_live id (around env args after original p).0.em
              ≡ (not (env.ids (p.ticks + 1) == id) && is_live id q.em))
          × ((around env args after original p).1 ≡ result)
    unfolding is_live tid quiet last closed get ended
    around-ends on called still =
        let same = around_last on called in
        let untouched = (keeps (env.clock p.ticks) (env.clock q.ticks) result).kept ended in
        (
          λ id.
              ap (λ x. is_live id x.0.em) same
              ∙ ap (has id) untouched.live
              ∙ finish-is_live id env.thread tid (env.clock (q.ticks + 1)) _ q.em still,
          ap (λ x. x.1) same
              ∙ ap closed ((returns (env.clock p.ticks) (env.clock q.ticks) result).returned ended),
        )
