-- ===== src/Weights/Wrapped.antt =====
-- Every wrapper of the weight probes leaves what it found, whatever the wrapped call does.
use beyond_kvtransfer.Base.{
  ℕ, ◌+◌, ◌≡◌, refl, String, Bool, true, false, Option, none, some, List, [], ◌∷◌, string_eq, ℤ,
  ◌∙◌, Bool-cases, inl, inr,
}
use beyond_kvtransfer.Py.{Obj}
use beyond_kvtransfer.Weights.{Call}
use beyond_kvtransfer.Weights.Probes.{Payload, World, Oracle, Body, payload_context}
use beyond_kvtransfer.Weights.Wrappers.{collective, traced, plain}
use beyond_kvtransfer.Weights.Model.{load_model, loaded, offload, lora, update_weights}
use beyond_kvtransfer.Py.Reads.{Classes}
use beyond_kvtransfer.Weights.{bytes_for}
use beyond_kvtransfer.Weights.Experts.{emit_experts, routed, moe, expert_ids, experts_or, numbered}
use beyond_kvtransfer.Weights.Collective.{collective-IsBalanced}
use beyond_kvtransfer.Weights.Balanced.{
  IsBalanced-refl, IsBalanced, AllBalanced, IsBalanced-trans, emit_both-IsBalanced,
  emit_each-IsBalanced,
}

-- a wrapper, with its arguments
pub data Probe : Type 0 where
  collective_probe : String → String → Option String → Call → Probe
  load_probe : Bool → String → String → Option String → Obj → Call → Probe
  offload_probe : Bool → String → Call → Probe
  moe_probe : Classes → (Obj → String) → Obj → Call → Probe
  lora_probe : Bool → String → String → Call → Probe
  update_probe : String → Call → Probe

module _ (o : Oracle) (thread : ℕ) (layer_idx : String → Option ℤ) where
  unfoldable pub wrap : Probe → Body → Body
  wrap (collective_probe method transport default_kind call) =
      collective o thread method transport default_kind call
  wrap (load_probe coarse backend transport shard self call) =
      load_model o thread layer_idx coarse backend transport shard self call
  wrap (offload_probe promote method call) = offload o thread layer_idx promote method call
  wrap (moe_probe classes expert_name self call) =
      moe o thread layer_idx expert_name classes self call
  wrap (lora_probe activate adapter name call) = lora o thread layer_idx activate adapter name call
  wrap (update_probe version call) = update_weights o thread layer_idx version call

  module _ (others : String → Bool) where
    traced-IsBalanced :
        (p : Payload) (after : Obj → World → World) (original : Body)
        → ((v : Obj) (w : World) → w.em.enabled ≡ true → IsBalanced others w (after v w))
        → AllBalanced others original
        → (w : World) → w.em.enabled ≡ true
        → IsBalanced others w (traced o thread p after original w).0
    unfolding traced payload_context
    traced-IsBalanced p after original emits balanced w on = returned (original inside).1
      where
        inside : World
        inside = record w { payload = some p; ticks = w.ticks + 1 }

        restored : World
        restored = record (original inside).0 { payload = w.payload }

        called : IsBalanced others w restored
        called =
            let b = balanced inside in record { payload = refl; enabled = b.enabled; live = b.live }

        returned :
            (result : Option Obj)
            → IsBalanced others w
                (elim result as (λ x. World × Option Obj) [
                  | none ↦ (restored, none)
                  | some v ↦ (after v restored, some v)
                ]).0
        returned none = called
        returned (some v) =
            IsBalanced-trans others w restored _ called (emits v restored (called.enabled ∙ on))

    loaded-IsBalanced :
        (coarse : Bool) (backend transport : String) (shard : Option String) (ts : ℕ)
        (params : List (String × Obj)) (w : World)
        → w.em.enabled ≡ true
        → IsBalanced others w (loaded o thread layer_idx coarse backend transport shard ts params w)
    unfolding loaded
    loaded-IsBalanced true backend transport shard ts params w on =
        emit_both-IsBalanced others o thread _ _ w on
    loaded-IsBalanced false backend transport shard ts params w on =
        emit_each-IsBalanced others o thread _ _ params w on

    -- a call with no context of its own, and the emissions after it
    plain-IsBalanced :
        (emit : World → World) (original : Body)
        → ((w : World) → w.em.enabled ≡ true → IsBalanced others w (emit w))
        → AllBalanced others original
        → (w : World) → w.em.enabled ≡ true
        → IsBalanced others w (plain emit original w).0
    unfolding plain
    plain-IsBalanced emit original emits balanced w on = returned called.1
      where
        called : World × Option Obj
        called = original (record w { ticks = w.ticks + 1 })

        same : IsBalanced others w called.0
        same =
            let b = balanced (record w { ticks = w.ticks + 1 }) in
            record { payload = b.payload; enabled = b.enabled; live = b.live }

        returned :
            (result : Option Obj)
            → IsBalanced others w
                (elim result as (λ x. World × Option Obj) [
                  | none ↦ (called.0, none)
                  | some v ↦ (emit called.0, some v)
                ]).0
        returned none = same
        returned (some v) =
            IsBalanced-trans others w called.0 _ same (emits called.0 (same.enabled ∙ on))

    module _ (expert_name : Obj → String) where
      emit_experts-IsBalanced :
          (ts : ℕ) (bytes : Option ℤ) (experts : List (Obj × ℤ)) (w : World)
          → w.em.enabled ≡ true
          → IsBalanced others w (emit_experts o thread layer_idx expert_name ts bytes experts w)
      unfolding emit_experts
      emit_experts-IsBalanced ts bytes [] w on = IsBalanced-refl others w
      emit_experts-IsBalanced ts bytes ((expert, n) ∷ experts) w on =
          let one = emit_both-IsBalanced others o thread _ _ w on in
          IsBalanced-trans others w _ _ one
            (emit_experts-IsBalanced ts bytes experts _ (one.enabled ∙ on))

      routed-IsBalanced :
          (bytes : Option ℤ) (experts : Option (List (Obj × ℤ))) (original : Body)
          → AllBalanced others original
          → (w : World) → w.em.enabled ≡ true
          → IsBalanced others w (routed o thread layer_idx expert_name bytes experts original w).0
      unfolding routed
      routed-IsBalanced bytes none original balanced w on =
          traced-IsBalanced _ (λ v x. x) original (λ v w' on'. IsBalanced-refl others w') balanced w
            on
      routed-IsBalanced bytes (some experts) original balanced w on =
          traced-IsBalanced _
            (λ v. emit_experts o thread layer_idx expert_name (o.clock w.ticks) bytes experts)
            original (λ v w' on'. emit_experts-IsBalanced (o.clock w.ticks) bytes experts w' on')
            balanced w on

      moe-IsBalanced :
          (classes : Classes) (self : Obj) (call : Call) (original : Body)
          → AllBalanced others original
          → (w : World) → w.em.enabled ≡ true
          → (ids : Option (List ℤ))
          → IsBalanced others w
              (elim ids as (λ x. World × Option Obj) [
                | none ↦ (w, none)
                | some ns ↦
                    routed o thread layer_idx expert_name
                      (bytes_for call)
                      (numbered classes (experts_or ns self))
                      original
                      w
              ]).0
      moe-IsBalanced classes self call original balanced w on none = IsBalanced-refl others w
      moe-IsBalanced classes self call original balanced w on (some ns) =
          routed-IsBalanced (bytes_for call) (numbered classes (experts_or ns self)) original
            balanced w on

    -- Around any call that leaves no transfer of its own open and the payload context as it was,
    -- whether it returns or raises, each wrapper leaves no transfer open that was not open before,
    -- and the payload context as it was.
    pub wrap-IsBalanced :
        (p : Probe) (original : Body)
        → AllBalanced others original
        → (w : World) → IsBalanced others w (wrap p original w).0
    unfolding wrap load_model offload moe lora update_weights
    wrap-IsBalanced (collective_probe method transport default_kind call) original balanced w =
        collective-IsBalanced o thread others method transport default_kind call original balanced w
    wrap-IsBalanced (load_probe coarse backend transport shard self call) original balanced w =
        elim (Bool-cases w.em.enabled) [
          | inl on ↦ simp on (
              traced-IsBalanced _ _ original
                (λ v w' on'. loaded-IsBalanced coarse backend transport shard _ _ w' on') balanced w
                on)
          | inr off ↦ simp off (balanced w)
        ]
    wrap-IsBalanced (offload_probe promote method call) original balanced w =
        elim (Bool-cases w.em.enabled) [
          | inl on ↦ simp on (
              plain-IsBalanced _ original
                (λ w' on'. emit_both-IsBalanced others o thread _ _ w' on') balanced w on)
          | inr off ↦ simp off (balanced w)
        ]
    wrap-IsBalanced (moe_probe classes expert_name self call) original balanced w =
        elim (Bool-cases w.em.enabled) [
          | inl on ↦ simp on (
              moe-IsBalanced expert_name classes self call original balanced w on
                (expert_ids classes call))
          | inr off ↦ simp off (balanced w)
        ]
    wrap-IsBalanced (lora_probe activate adapter name call) original balanced w =
        elim (Bool-cases w.em.enabled) [
          | inl on ↦ simp on (
              traced-IsBalanced _ _ original
                (λ v w' on'. emit_both-IsBalanced others o thread _ _ w' on') balanced w on)
          | inr off ↦ simp off (balanced w)
        ]
    wrap-IsBalanced (update_probe version call) original balanced w =
        elim (Bool-cases w.em.enabled) [
          | inl on ↦ simp on (
              traced-IsBalanced _ _ original
                (λ v w' on'. emit_each-IsBalanced others o thread _ _ _ w' on') balanced w on)
          | inr off ↦ simp off (balanced w)
        ]
