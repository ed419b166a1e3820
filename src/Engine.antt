-- ===== src/Engine.antt =====
-- The vLLM probes together: bkvt/integrations/vllm/scheduler_probe.py, block_pool_probe.py and
-- runner_probe.py work on one emitter and one tracker. A run is a sequence of calls of wrapped
-- methods.
pub mod Kept
pub mod Life
use beyond_kvtransfer.Base.{ℕ, String, Bool, Option, List, [], ◌∷◌}
use beyond_kvtransfer.Py.{Obj}
use beyond_kvtransfer.Weights.{Call}
use beyond_kvtransfer.Probes.{Process, Env, Action, Original}
use beyond_kvtransfer.BlockPool.Wrapped as BlockPool
use beyond_kvtransfer.Scheduler.Arrival.{process_inputs}
use beyond_kvtransfer.Scheduler.Steps.{schedule}
use beyond_kvtransfer.Scheduler.Endings.Forgotten.{end_request}
use beyond_kvtransfer.Runner.Tokens.{execute_model, process_outputs}

-- a wrapped method, with what its wrapper reads of the call
pub data Site : Type 0 where
  block : BlockPool.Probe → Site
  arrival : Option String → Call → Site
  step : Obj → Obj → Site
  execute : Call → Site
  outputs : Site
  -- an abort, or a finish
  ending : Bool → Call → Site

module _ (env : Env) where
  unfoldable pub wrap : Site → Original → Action Obj
  wrap (block probe) original = BlockPool.wrap env probe original
  wrap (arrival named call) original = process_inputs env named call original
  wrap (step scheduler scheduler') original = schedule env scheduler scheduler' original
  wrap (execute call) original = execute_model env call original
  wrap outputs original = process_outputs env original
  wrap (ending abort call) original = end_request env abort call original

  -- a call that raises ends no run: the engine goes on with its next call
  unfoldable pub run : List (Site × Original) → Process → Process
  run [] p = p
  run ((site, original) ∷ calls) p = run calls (wrap site original p).0
