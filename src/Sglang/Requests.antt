-- ===== src/Sglang/Requests.antt =====
-- The wrapped methods of the scheduler of SGLang together: bkvt/integrations/sglang/scheduler_probe.py.
-- A run is a sequence of calls of them, by one emitter and one tracker.
pub mod Untimed
pub mod Finishes
use beyond_kvtransfer.Base.{String, List, [], ◌∷◌}
use beyond_kvtransfer.Py.{Obj}
use beyond_kvtransfer.Weights.{Call}
use beyond_kvtransfer.Probes.{Process, Env, Action, Original}
use beyond_kvtransfer.Sglang.Arrival.{handle_generate_request}
use beyond_kvtransfer.Sglang.Batch.{run_batch}
use beyond_kvtransfer.Sglang.Finished.{handle_finished_requests}

-- a wrapped method, with what its wrapper reads of the call
pub data Site : Type 0 where
  generate : Call → Site
  batch : Obj → Obj → Site
  finished : Call → Site

module _ (env : Env) where
  unfoldable pub wrap : Site → Original → Action Obj
  wrap (generate call) original = handle_generate_request env call original
  wrap (batch scheduler scheduler') original = run_batch env scheduler scheduler' original
  wrap (finished call) original = handle_finished_requests env call original

  -- a call that raises ends no run
  unfoldable pub run : List (Site × Original) → Process → Process
  run [] p = p
  run ((site, original) ∷ calls) p = run calls (wrap site original p).0
