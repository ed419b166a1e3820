-- ===== src/Sglang/Moves.antt =====
-- The wrappers of bkvt/integrations/sglang/hicache_probe.py and disagg_probe.py that open a transfer
-- around a call.
use beyond_kvtransfer.Base.{
  ℕ, ◌+◌, ◌≡◌, refl, String, true, Option, some, map, ◌&&◌, not, ◌==◌, string_eq, is_some,
  Bool-cases, inl, inr,
}
use beyond_kvtransfer.Text.{contains, codes}
use beyond_kvtransfer.Config.{lower}
use beyond_kvtransfer.Py.{Obj, nothing, integer}
use beyond_kvtransfer.Weights.{Call}
use beyond_kvtransfer.Emitter.Probe.{StartArgs}
use beyond_kvtransfer.Connector.Tracked.{is_live}
use beyond_kvtransfer.Probes.{Process, Env, Action, Original, emit}
use beyond_kvtransfer.Probes.Keeps.{Keeps, Keeps-pure, Keeps-bind, Keeps-emit, Keeps-blocks}
use beyond_kvtransfer.Probes.Orders.{quiet}
use beyond_kvtransfer.Sglang.Blocks.{bytes_for}
use beyond_kvtransfer.Sglang.Ended.{
  Returns, Returns-then, Returns-emit, Returns-blocks, opened, around-ends,
}
use beyond_kvtransfer.Sglang.HiCache.{
  tier_plan, controller_start, controller_end, controller_summary, controller_record,
  controller_report, controller_after, hicache_transfer,
}
use beyond_kvtransfer.Sglang.HiCache as HiCache
use beyond_kvtransfer.Sglang.Disagg.{
  Site, disagg_start, disagg_end, nixl_record, nixl_call, disagg_after, disagg_transfer,
}
use beyond_kvtransfer.Sglang.Disagg as Disagg

-- a method of a cache controller, or one of the disaggregation backends, with its call
pub data Move : Type 0 where
  controller : String → Call → Move
  disagg : Site → Call → Move

module _ (env : Env) where
  unfoldable pub wrap : Move → Original → Action Obj
  wrap (controller method call) original = hicache_transfer env method call original
  wrap (disagg site call) original = disagg_transfer env site call original

  -- the arguments of the start of the transfer
  unfoldable pub start_args : Move → ℕ → StartArgs
  start_args (controller method call) =
      controller_start method (HiCache.request_id_from call) (HiCache.ids_for env call nothing)
        (bytes_for call nothing)
  start_args (disagg site call) =
      disagg_start site (Disagg.request_id_from call) (Disagg.ids_for env call nothing)
        (bytes_for call nothing)

  -- the process in which the wrapped method runs
  abbrev pub entered : Move → Process → Process
  entered move p = opened env (start_args move) p

  abbrev report_of : String → Call → ℕ → ℕ → Option Obj → Action (Unit {0})
  report_of method call t0 t1 result =
      controller_report env method (HiCache.request_id_from call)
        (HiCache.moved_ids env call result) t0 t1

  abbrev nixl_of : Site → Call → ℕ → ℕ → Option Obj → Action (Unit {0})
  nixl_of site call t0 t1 result =
      nixl_call env site (Disagg.request_id_from call) (Disagg.moved_ids env call result) t0 t1

  report-Keeps :
      (method : String) (call : Call) (t0 t1 : ℕ) (result : Option Obj)
      → Keeps quiet (report_of method call t0 t1 result)
  unfolding controller_report
  report-Keeps method call t0 t1 result =
      Keeps-bind quiet (emit env _) _ (Keeps-emit quiet env _) (λ u.
        Keeps-blocks quiet env (tier_plan method).kv_subtype
          (λ b rate. some (controller_record env method (HiCache.request_id_from call) t1 b rate))
          (map integer (HiCache.moved_ids env call result)))

  report-Returns :
      (method : String) (call : Call) (t0 t1 : ℕ) (result : Option Obj)
      → Returns (report_of method call t0 t1 result)
  unfolding controller_report
  report-Returns method call t0 t1 result =
      Returns-then (emit env _) _ (Returns-emit env _)
        (Returns-blocks env _ (controller_record env method (HiCache.request_id_from call) t1) _)

  nixl-Keeps :
      (site : Site) (call : Call) (t0 t1 : ℕ) (result : Option Obj)
      → Keeps quiet (nixl_of site call t0 t1 result)
  unfolding nixl_call
  nixl-Keeps site call t0 t1 result =
      elim (Bool-cases (contains (codes "nixl") (map lower (codes site.module_name)))) [
        | inl there ↦ rw there (Keeps-emit quiet env _)
        | inr absent ↦ rw absent (Keeps-pure quiet tt)
      ]

  nixl-Returns :
      (site : Site) (call : Call) (t0 t1 : ℕ) (result : Option Obj)
      → Returns (nixl_of site call t0 t1 result)
  unfolding nixl_call
  nixl-Returns site call t0 t1 result =
      elim (Bool-cases (contains (codes "nixl") (map lower (codes site.module_name)))) [
        | inl there ↦ rw there (Returns-emit env _)
        | inr absent ↦ rw absent (record { returned = λ p. refl })
      ]

  -- Around any call of a wrapped method of an enabled emitter that leaves it enabled, whether the
  -- method returns or raises: the wrapper gives what the method gave, the transfer that the wrapper
  -- opened is not open, and every other transfer is as the method left it.
  pub wrap-ends :
      (move : Move) (original : Original) (p q : Process) (result : Option Obj)
      → p.em.enabled ≡ true
      → original (entered move p) ≡ (q, result)
      → q.em.enabled ≡ true
      → ((id : String)
          → is_live id (wrap move original p).0.em
            ≡ (not (env.ids (p.ticks + 1) == id) && is_live id q.em))
        × ((wrap move original p).1 ≡ result)
  unfolding wrap start_args hicache_transfer controller_after disagg_transfer disagg_after
  wrap-ends (controller method call) original p q result on called still =
      around-ends env
        (controller_start method (HiCache.request_id_from call) (HiCache.ids_for env call nothing)
          (bytes_for call nothing))
        (λ t0 t1 v.
          controller_end method (HiCache.moved_ids env call v) (HiCache.moved_bytes env call v) t0
            t1 (is_some v))
        (report_of method call) (report-Keeps method call) (report-Returns method call) original p q
        result on called still
  wrap-ends (disagg site call) original p q result on called still =
      around-ends env
        (disagg_start site (Disagg.request_id_from call) (Disagg.ids_for env call nothing)
          (bytes_for call nothing))
        (λ t0 t1 v.
          disagg_end site (Disagg.moved_ids env call v) (Disagg.moved_bytes env call v) t0 t1 v)
        (nixl_of site call) (nixl-Keeps site call) (nixl-Returns site call) original p q result on
        called still
