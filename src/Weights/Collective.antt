-- ===== src/Weights/Collective.antt =====
-- That `make_collective_wrapper` of bkvt/integrations/weight_probe_common.py leaves what it found.
use beyond_kvtransfer.Base.{
  ℕ, ◌+◌, ◌≡◌, String, Bool, true, Option, none, some, if◌then◌else◌, string_eq, Bool-cases, inl,
  inr,
}
use beyond_kvtransfer.Py.{Obj}
use beyond_kvtransfer.Emitter.Probe.{transfer_start, transfer_end}
use beyond_kvtransfer.Weights.{Call}
use beyond_kvtransfer.Weights.Probes.{Payload, World, Oracle, Body, current_payload_context}
use beyond_kvtransfer.Weights.Wrappers.{collective, collective_start, collective_end}
use beyond_kvtransfer.Weights.Balanced.{IsBalanced, AllBalanced, IsBalanced-transfer}

module _ (o : Oracle) (thread : ℕ) (others : String → Bool) where
  pub collective-IsBalanced :
      (method transport : String) (default_kind : Option String) (call : Call) (original : Body)
      → AllBalanced others original
      → AllBalanced others (collective o thread method transport default_kind call original)
  unfolding collective
  collective-IsBalanced method transport default_kind call original balanced w =
      in_context (current_payload_context default_kind w)
    where
      after : Payload → World × Option Obj
      after ctx =
          let n = w.ticks in
          let tid = o.ids n in
          let em =
            transfer_start thread tid (o.draws n) (o.clock (n + 1))
              (collective_start method transport default_kind ctx call (o.clock n)) w.em in
          let (w', result) = original (record w { em = em; ticks = n + 2 }) in
          (
            record w' {
              em =
                  transfer_end thread tid (o.clock (w'.ticks + 1))
                    (collective_end method call (o.clock n) (o.clock w'.ticks) result) w'.em;
              ticks = w'.ticks + 2;
            },
            result,
          )

      traced_call : (ctx : Payload) → w.em.enabled ≡ true → IsBalanced others w (after ctx).0
      traced_call ctx on =
          let n = w.ticks in
          let tid = o.ids n in
          let em =
            transfer_start thread tid (o.draws n) (o.clock (n + 1))
              (collective_start method transport default_kind ctx call (o.clock n)) w.em in
          let opened : World = record w { em = em; ticks = n + 2 } in
          let b = balanced opened in
          IsBalanced-transfer others thread tid (o.draws n) (o.clock (n + 1)) _ _ _ w
            (original opened).0 _ on
            (record { payload = b.payload; enabled = b.enabled; live = b.live })

      in_context :
          (ctx : Option Payload)
          → IsBalanced others w
              (elim ctx as (λ x. World × Option Obj) [
                | none ↦ original w
                | some c ↦ if w.em.enabled then after c else original w
              ]).0
      in_context none = balanced w
      in_context (some c) = elim (Bool-cases w.em.enabled) [
        | inl on ↦ simp on (traced_call c on)
        | inr off ↦ simp off (balanced w)
      ]
