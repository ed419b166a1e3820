-- ===== src/Tests/Weights.antt =====
-- Tests of bkvt/integrations/weight_probe_common.py.
use beyond_kvtransfer.Base.{
  ◌≡◌, refl, String, Bool, true, false, none, some, [], ◌∷◌, string_eq, pos, ◌*ℤ◌,
}
use beyond_kvtransfer.Base.Dict.{get}
use beyond_kvtransfer.Value.{float_zero}
use beyond_kvtransfer.Py.{
  Obj, integer, string, object, attr, no_attrs, returning, mapping, first_attr, getattr, attr_of,
  first_item,
}
use beyond_kvtransfer.Weights.{
  Call, bytes_from, bytes_for, call_int, params_from, params_of, entries, kwarg, first_kwarg,
}
use beyond_kvtransfer.Weights.Probes.{World, Oracle, Body}
use beyond_kvtransfer.Weights.Balanced.{IsBalanced, AllBalanced, IsBalanced-refl}
use beyond_kvtransfer.Weights.Wrapped.{lora_probe, wrap, wrap-IsBalanced}
use beyond_kvtransfer.Tests.Run.{emitter}

abbrev weight : Obj
weight = object (
    attr "numel" (returning (integer (pos 6)))
      (attr "element_size" (returning (integer (pos 2))) no_attrs))

weight_bytes : bytes_from weight ≡ some (pos 12)
unfolding bytes_from first_attr getattr attr_of call_int ◌*ℤ◌
weight_bytes = refl

state_dict :
    params_from
      (object (attr "state_dict" (returning (mapping (attr "w" weight no_attrs))) no_attrs))
    ≡ ("w", weight) ∷ []
unfolding params_from params_of entries getattr attr_of
state_dict = refl

abbrev call : Call
call = record { args = weight ∷ []; kwargs = ("request_id", string "r1") ∷ [] }

call_bytes : bytes_for call ≡ some (pos 12)
unfolding bytes_for bytes_from first_kwarg first_item first_attr getattr attr_of call_int kwarg get
    ◌*ℤ◌
call_bytes = refl

abbrev oracle : Oracle
oracle = record { clock = λ n. n; ids = λ n. "u1"; draws = λ n. float_zero }

abbrev start : World
start = record { em = emitter; payload = none; ticks = 0 }

abbrev no_others : String → Bool
no_others s = false

abbrev swap : Body
swap w = (w, some (integer (pos 1)))

swap-AllBalanced : AllBalanced no_others swap
swap-AllBalanced w = IsBalanced-refl no_others w

wrap-IsBalanced_example :
    IsBalanced no_others start
      (wrap oracle 0 (λ name. none) (lora_probe true "a" "lora.a" call) swap start).0
wrap-IsBalanced_example =
    wrap-IsBalanced oracle 0 (λ name. none) no_others (lora_probe true "a" "lora.a" call) swap
      swap-AllBalanced start
