-- ===== src/Engine/Kept.antt =====
-- What the runs of the vLLM probes leave alone.
use beyond_kvtransfer.Base.{◌≡◌, true, List, [], ◌∷◌, string_eq}
use beyond_kvtransfer.Probes.{Process, Env, Original}
use beyond_kvtransfer.Probes.Keeps.{Order, Keeps}
use beyond_kvtransfer.BlockPool.Wrapped.Quiet.{wrap-Keeps}
use beyond_kvtransfer.Scheduler.Kept.{Keeps-process_inputs, Keeps-schedule}
use beyond_kvtransfer.Scheduler.Endings.Forgotten.{end_request}
use beyond_kvtransfer.Runner.Kept.{Keeps-execute_model, Keeps-process_outputs}
use beyond_kvtransfer.Engine.{Site, block, arrival, step, execute, outputs, ending, wrap, run}

module _ (env : Env) (o : Order) where
  -- the relation is respected by the ends of requests that a run has
  abbrev pub KeepsEnds : Site → Type 0
  KeepsEnds (ending abort call) =
      (original : Original) → Keeps o original → Keeps o (end_request env abort call original)
  KeepsEnds site = Unit

  -- every wrapped method respects the relation
  abbrev pub AllKeep : List (Site × Original) → Type 0
  AllKeep [] = Unit
  AllKeep ((site, original) ∷ calls) = KeepsEnds site × Keeps o original × AllKeep calls

module _ (env : Env) (o : Order) (admits : o.takes "first_schedule_ts_ns" ≡ true)
    (marks : o.takes "first_token_ts_ns" ≡ true) where
  site-Keeps :
      (site : Site) (original : Original)
      → KeepsEnds env o site
      → Keeps o original
      → Keeps o (wrap env site original)
  unfolding wrap
  site-Keeps (block probe) original e k = wrap-Keeps env o probe original k
  site-Keeps (arrival named call) original e k = Keeps-process_inputs o env named call original k
  site-Keeps (step scheduler scheduler') original e k =
      Keeps-schedule o env admits scheduler scheduler' original k
  site-Keeps (execute call) original e k = Keeps-execute_model o marks env call original k
  site-Keeps outputs original e k = Keeps-process_outputs o marks env original k
  site-Keeps (ending abort call) original e k = e original k

  pub run-Keeps :
      (calls : List (Site × Original)) (p : Process)
      → AllKeep env o calls
      → o.rel p (run env calls p)
  unfolding run
  run-Keeps [] p k = o.same p
  run-Keeps ((site, original) ∷ calls) p k =
      let next = (wrap env site original p).0 in
      o.chain p next _ ((site-Keeps site original k.0 k.1).kept p) (run-Keeps calls next k.2)
