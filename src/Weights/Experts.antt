-- ===== src/Weights/Experts.antt =====
-- `make_moe_wrapper` of bkvt/integrations/weight_probe_common.py. The name of a parameter, which is
-- built from the method's name and an expert, is an argument.
use beyond_kvtransfer.Base.{
  ℕ, String, Bool, true, false, Option, none, some, List, [], ◌∷◌, map, if◌then◌else◌, ◌==◌,
  string_eq, ℤ, pos, ltb_ℤ, eqb_ℤ,
}
use beyond_kvtransfer.Base.Dict.{or_else}
use beyond_kvtransfer.Py.{
  Obj, nothing, integer, returning, object, Attrs, no_attrs, attr, getattr, or_obj,
}
use beyond_kvtransfer.Py.Reads.{Classes, getattr_or, list_of, int_of}
use beyond_kvtransfer.Weights.{Call, kwarg, bytes_for}
use beyond_kvtransfer.Weights.Probes.{payload_of, World, Oracle, Body}
use beyond_kvtransfer.Weights.Wrappers.{traced}
use beyond_kvtransfer.Weights.Model.{unknown, weight_args, transfer_args, emit_both}

unfoldable pub has_name : String → Attrs → Bool
has_name name no_attrs = false
has_name name (attr n v attrs) = let rest = has_name name attrs in if n == name then true else rest

-- `hasattr(obj, name)`
unfoldable pub has_attr : String → Obj → Bool
unfolding has_name
has_attr name (object attrs) = has_name name attrs
has_attr name v = false

-- the loop over the arguments
unfoldable pub of_args : List Obj → Obj
unfolding has_attr getattr
of_args [] = nothing
of_args (v ∷ vs) =
    let rest = of_args vs in if has_attr "expert_ids" v then getattr "expert_ids" v else rest

abbrev given_or : Obj → List Obj → Obj
given_or nothing args = of_args args
given_or v args = v

-- what tells the experts of a call
unfoldable pub experts_value : Call → Obj
unfolding or_obj kwarg of_args
experts_value call =
    given_or
      (or_obj (or_obj (kwarg "expert_ids" call) (kwarg "experts" call)) (kwarg "topk_ids" call))
      call.args

-- `value.flatten().tolist()`, none where it raises
unfoldable pub tolist_of : Obj → Option Obj
unfolding getattr
tolist_of value = elim (getattr "flatten" value) as (λ x. Option Obj) [
  | returning flat ↦ elim (getattr "tolist" flat) as (λ x. Option Obj) [
    | returning values ↦ some values
    | v ↦ none
  ]
  | v ↦ none
]

-- the values: none where what `tolist` gave cannot be walked
unfoldable pub values_of : Obj → Option (List Obj)
unfolding tolist_of list_of
values_of nothing = some []
values_of value = elim (tolist_of value) [
  | some values ↦ list_of values
  | none ↦ some (or_else (list_of value) (value ∷ []))
]

-- `sorted(set(out))`, one number at a time
unfoldable pub insert : ℤ → List ℤ → List ℤ
insert n [] = n ∷ []
insert n (m ∷ ms) =
    let rest = insert n ms in
    if eqb_ℤ n m then m ∷ ms else if ltb_ℤ n m then n ∷ m ∷ ms else m ∷ rest

unfoldable pub sorted_ints : Classes → List Obj → List ℤ
unfolding insert int_of
sorted_ints classes [] = []
sorted_ints classes (v ∷ vs) = elim (int_of classes v) [
  | none ↦ sorted_ints classes vs
  | some n ↦ insert n (sorted_ints classes vs)
]

-- `_expert_ids`
unfoldable pub expert_ids : Classes → Call → Option (List ℤ)
unfolding sorted_ints values_of experts_value
expert_ids classes call = elim (values_of (experts_value call)) [
  | none ↦ none
  | some vs ↦ some (sorted_ints classes vs)
]

-- `_expert_ids(args, kwargs) or [getattr(self, "expert_id", 0)]`
unfoldable pub experts_or : List ℤ → Obj → List Obj
unfolding getattr_or
experts_or [] self = getattr_or "expert_id" (integer (pos 0)) self ∷ []
experts_or (n ∷ ns) self = map integer (n ∷ ns)

-- the experts with their numbers: none where `int` raises, which only that of `self` can do
unfoldable pub numbered : Classes → List Obj → Option (List (Obj × ℤ))
unfolding int_of
numbered classes [] = some []
numbered classes (v ∷ vs) = elim (int_of classes v) [
  | none ↦ none
  | some n ↦ elim (numbered classes vs) [ none ↦ none | some ns ↦ some ((v, n) ∷ ns) ]
]

module _ (o : Oracle) (thread : ℕ) (layer_idx : String → Option ℤ)
    (expert_name : Obj → String) where
  -- the record and the transfer of each expert
  unfoldable pub emit_experts : ℕ → Option ℤ → List (Obj × ℤ) → World → World
  unfolding emit_both weight_args transfer_args unknown
  emit_experts t_start bytes [] w = w
  emit_experts t_start bytes ((expert, n) ∷ experts) w =
      let name = expert_name expert in
      emit_experts t_start bytes experts (
        emit_both o thread
          (record (weight_args t_start "expert_dispatch" name (unknown bytes) (layer_idx name)
            "expert_routing" "HBM_LOCAL" "HBM_LOCAL") { expert_id = some n })
          (record (transfer_args "load" name bytes "HBM_PEER_RDMA" "HBM_LOCAL" "nccl_send_recv"
            t_start) { payload_kind = "activation"; expert_id = some n; issued_by = "moe_layer" })
          w)

  -- the call in its payload context, and the experts after it
  unfoldable pub routed : Option ℤ → Option (List (Obj × ℤ)) → Body → Body
  unfolding payload_of
  routed bytes none original w = (
    (traced o thread (record (payload_of "activation") { reason = some "expert_routing" })
        (λ v x. x) original w).0,
    none,
  )
  routed bytes (some experts) original w =
      traced o thread (record (payload_of "activation") { reason = some "expert_routing" })
        (λ v. emit_experts (o.clock w.ticks) bytes experts) original w

  -- `make_moe_wrapper`
  unfoldable pub moe : Classes → Obj → Call → Body → Body
  unfolding expert_ids experts_or numbered bytes_for
  moe classes self call original w =
      if w.em.enabled
      then elim (expert_ids classes call) [
        | none ↦ (w, none)
        | some ids ↦ routed (bytes_for call) (numbered classes (experts_or ids self)) original w
      ]
      else original w
