-- ===== src/Sglang/Transfers.antt =====
-- A transfer around a wrapped method, as in bkvt/integrations/sglang/hicache_probe.py and
-- disagg_probe.py: it is opened before the call and ended in the `finally` after it.
use beyond_kvtransfer.Base.{ℕ, ◌+◌, String, Option, none, some, string_eq}
use beyond_kvtransfer.Py.{Obj}
use beyond_kvtransfer.Emitter.Probe.{StartArgs, EndArgs, transfer_start, transfer_end}
use beyond_kvtransfer.Probes.{Env, Action, Original, ◌>>=◌, now, when_enabled}

-- `try: return original(…)` and `finally:`, which is told the result, none where the call raised
unfoldable pub finally : (Option Obj → Action (Unit {0})) → Original → Action Obj
finally after original p =
    let (q, result) = original p in
    let (r, done) = after result q in (r, elim done [ none ↦ none | some u ↦ result ])

module _ (env : Env) where
  -- `em.transfer_start(…)`, which returns the new id
  unfoldable pub start : StartArgs → Action String
  start a p = (
    record p {
      em =
          transfer_start env.thread (env.ids p.ticks) (env.draws p.ticks) (env.clock p.ticks) a
            p.em;
      ticks = p.ticks + 1;
    },
    some (env.ids p.ticks),
  )

  -- `em.transfer_end(…)`
  unfoldable pub finish : String → EndArgs → Action (Unit {0})
  finish tid a p = (
    record p { em = transfer_end env.thread tid (env.clock p.ticks) a p.em; ticks = p.ticks + 1 },
    some tt,
  )

  -- the wrapper of an enabled emitter
  unfoldable pub bracket :
      (ℕ → StartArgs) → (ℕ → String → Option Obj → Action (Unit {0})) → Original → Action Obj
  unfolding now start finally
  bracket args after original = do
    t_start ← now env
    tid ← start (args t_start)
    finally (after t_start tid) original

  unfoldable pub around :
      (ℕ → StartArgs) → (ℕ → String → Option Obj → Action (Unit {0})) → Original → Action Obj
  unfolding bracket when_enabled
  around args after original = when_enabled original (bracket args after original)
