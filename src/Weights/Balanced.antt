-- ===== src/Weights/Balanced.antt =====
-- The weight probes leave no transfer open and no payload context set.
use beyond_kvtransfer.Base.{
  ℕ, ◌+◌, ◌≡◌, refl, String, Bool, true, false, List, [], ◌∷◌, ◌||◌, string_eq, ◌∙◌, arith,
  Bool-cases, inl, inr, ◌==◌,
}
use beyond_kvtransfer.Py.{Obj}
use beyond_kvtransfer.Value.{Float}
use beyond_kvtransfer.Emitter.Probe.{StartArgs, EndArgs, transfer_start, transfer_end}
use beyond_kvtransfer.Emitter.Run.Live.{Tracks-start, Tracks-finish, Untouched-event}
use beyond_kvtransfer.Connector.Tracked.{is_live, start-is_live, end-is_live}
use beyond_kvtransfer.Connector.Booked.{same_is_live}
use beyond_kvtransfer.Weights.{TensorInfo}
use beyond_kvtransfer.Weights.Probes.{
  World, Oracle, Body, WeightArgs, TransferArgs, weight_start, emit_weight, emit_weight_transfer,
}
use beyond_kvtransfer.Weights.Wrappers.{emit_each}
use beyond_kvtransfer.Weights.Model.{emit_both}

module _ (others : String → Bool) where
  -- the payload context is as before, and no more transfers are open, but those of others
  pub record IsBalanced (w w' : World) : Type 0 where
    pub payload : w'.payload ≡ w.payload
    pub enabled : w'.em.enabled ≡ w.em.enabled
    pub live : (tid : String) → is_live tid w'.em ≡ true → (is_live tid w.em || others tid) ≡ true

  abbrev pub AllBalanced : Body → Type 0
  AllBalanced body = (w : World) → IsBalanced w (body w).0

  or_left : (a b : Bool) → a ≡ true → (a || b) ≡ true
  or_left a b h = ground arith

  pub IsBalanced-refl : (w : World) → IsBalanced w w
  IsBalanced-refl w = record {
    payload = refl;
    enabled = refl;
    live = λ tid h. or_left (is_live tid w.em) (others tid) h;
  }

  pub IsBalanced-trans : (a b c : World) → IsBalanced a b → IsBalanced b c → IsBalanced a c
  IsBalanced-trans a b c p q = record {
    payload = q.payload ∙ p.payload;
    enabled = q.enabled ∙ p.enabled;
    live = λ tid h. elim (Bool-cases (is_live tid b.em)) [
      | inl live ↦ p.live tid live
      | inr out ↦ let late = q.live tid h in ground arith
    ];
  }

  -- the start and the end of a transfer, with what lies between
  pub IsBalanced-transfer :
      (t : ℕ) (id : String) (draw : Float) (ts ts' : ℕ) (a : StartArgs) (e : EndArgs)
      (w between : World) (n : ℕ)
      → w.em.enabled ≡ true
      → IsBalanced (record w { em = transfer_start t id draw ts a w.em }) between
      → IsBalanced w (record between { em = transfer_end t id ts' e between.em; ticks = n })
  IsBalanced-transfer t id draw ts ts' a e w between n on b =
      let started = Tracks-start id t id draw ts a w.em on in
      let still_on : between.em.enabled ≡ true = b.enabled ∙ started.enabled ∙ on in
      record {
        payload = b.payload;
        enabled =
            (Tracks-finish id t id ts' e between.em still_on).enabled ∙ b.enabled ∙ started.enabled;
        live = λ tid h. live_before tid (end-is_live tid t id ts' e between.em still_on h);
      }
    where
      live_before :
          (tid : String)
          → (id == tid ≡ false) × (is_live tid between.em ≡ true)
          → (is_live tid w.em || others tid) ≡ true
      live_before tid (other, live) =
          elim (Bool-cases (is_live tid (transfer_start t id draw ts a w.em))) [
            | inl opened ↦ elim (start-is_live tid t id draw ts a w.em on opened) [
              | inl own ↦ ground arith
              | inr before ↦ or_left (is_live tid w.em) (others tid) before
            ]
            | inr out ↦ let left = b.live tid live in ground arith
          ]

  module _ (o : Oracle) (thread : ℕ) where
    emit_weight-IsBalanced : (a : WeightArgs) (w : World) → IsBalanced w (emit_weight o thread a w)
    unfolding emit_weight
    emit_weight-IsBalanced a w =
        let same = Untouched-event thread _ w.em in
        record {
          payload = refl;
          enabled = same.enabled;
          live = λ tid h.
              or_left (is_live tid w.em) (others tid) (same_is_live tid w.em _ same.live h);
        }

    emit_weight_transfer-IsBalanced :
        (a : TransferArgs) (w : World)
        → w.em.enabled ≡ true
        → IsBalanced w (emit_weight_transfer o thread a w)
    unfolding emit_weight_transfer
    emit_weight_transfer-IsBalanced a w on =
        let n = w.ticks in
        IsBalanced-transfer thread (o.ids n) (o.draws n) (o.clock (n + 1)) (o.clock (n + 3))
          (weight_start a) _ w
          (record w {
            em =
                transfer_start thread (o.ids n) (o.draws n) (o.clock (n + 1)) (weight_start a) w.em;
          })
          (n + 4) on (IsBalanced-refl _)

    pub emit_both-IsBalanced :
        (weight : WeightArgs) (transfer : TransferArgs) (w : World)
        → w.em.enabled ≡ true
        → IsBalanced w (emit_both o thread weight transfer w)
    unfolding emit_both
    emit_both-IsBalanced weight transfer w on =
        let first = emit_weight-IsBalanced weight w in
        IsBalanced-trans w (emit_weight o thread weight w) _ first (
          emit_weight_transfer-IsBalanced transfer (emit_weight o thread weight w)
            (first.enabled ∙ on))

    pub emit_each-IsBalanced :
        (weight : String → TensorInfo → WeightArgs) (transfer : String → TensorInfo → TransferArgs)
        (params : List (String × Obj)) (w : World)
        → w.em.enabled ≡ true
        → IsBalanced w (emit_each o thread weight transfer params w)
    unfolding emit_each emit_both
    emit_each-IsBalanced weight transfer [] w on = IsBalanced-refl w
    emit_each-IsBalanced weight transfer ((name, value) ∷ params) w on =
        let next = emit_both o thread (weight name _) (transfer name _) w in
        let both = emit_both-IsBalanced (weight name _) (transfer name _) w on in
        IsBalanced-trans w next _ both
          (emit_each-IsBalanced weight transfer params next (both.enabled ∙ on))
