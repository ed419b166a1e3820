-- ===== src/Weights.antt =====
-- What the weight probes of bkvt/integrations/weight_probe_common.py read of the calls that they
-- wrap.
pub mod Probes
pub mod Wrappers
pub mod Model
pub mod Experts
pub mod Collective
pub mod Balanced
pub mod Wrapped
use beyond_kvtransfer.Base.{
  ℕ, String, Bool, true, false, Option, none, some, List, [], ◌∷◌, ◌++◌, ◌&&◌, if◌then◌else◌, ◌==◌,
  string_eq, ℤ, pos, ◌*ℤ◌, eqb, leb, is_empty,
}
use beyond_kvtransfer.Base.Dict.{Dict, get, or_else}
use beyond_kvtransfer.Text.{Text, codes}
use beyond_kvtransfer.Py.{
  Obj, nothing, integer, string, sequence, tuple, mapping, returning, raising, object, Objs,
  no_objs, next_obj, Attrs, no_attrs, attr, items, getattr, as_int, as_text, or_obj, first_attr,
  first_item,
}

-- the positional and the keyword arguments of a call
pub record Call : Type 0 where
  pub args : List Obj
  pub kwargs : Dict String Obj

-- `kwargs.get(k)`
unfoldable pub kwarg : String → Call → Obj
kwarg k call = or_else (get k call.kwargs) nothing

-- `int(method())` of a method without arguments
unfoldable pub call_int : Obj → Option ℤ
call_int (returning v) = as_int v
call_int v = none

-- `_bytes_from`
unfoldable pub bytes_from : Obj → Option ℤ
unfolding first_attr call_int getattr
bytes_from (integer n) = some n
bytes_from value =
    elim (first_attr as_int ("nbytes" ∷ "num_bytes" ∷ "bytes" ∷ "size_bytes" ∷ []) value) [
      | some n ↦ some n
      | none ↦ elim (call_int (getattr "numel" value)) [
        | none ↦ none
        | some numel ↦ elim (call_int (getattr "element_size" value)) [
          | none ↦ none
          | some size ↦ some (numel *ℤ size)
        ]
      ]
    ]

-- the first of these keyword arguments that the test takes
unfoldable pub first_kwarg {ℓ} : {A : Type ℓ} → (Obj → Option A) → List String → Call → Option A
unfolding kwarg
first_kwarg f [] call = none
first_kwarg f (k ∷ ks) call = elim (f (kwarg k call)) [
  | none ↦ first_kwarg f ks call
  | some a ↦ some a
]

-- the first of two optional values
abbrev pub or_option {ℓ} : {A : Type ℓ} → Option A → Option A → Option A
or_option none b = b
or_option (some a) b = some a

-- `_bytes_for`
unfoldable pub bytes_for : Call → Option ℤ
unfolding bytes_from first_kwarg first_item
bytes_for call =
    or_option (first_kwarg bytes_from ("bytes" ∷ "bytes_" ∷ "num_bytes" ∷ "size_bytes" ∷ []) call)
      (first_item bytes_from call.args)

-- `_param_name`
unfoldable pub param_name : String → Call → String
unfolding first_kwarg first_item
param_name default call =
    or_else
      (or_option (first_kwarg as_text ("param_name" ∷ "name" ∷ "weight_name" ∷ []) call)
        (first_item as_text call.args))
      default

abbrev request_attr : Obj → Option String
request_attr obj = first_attr as_text ("request_id" ∷ "req_id" ∷ "rid" ∷ "id" ∷ []) obj

-- `_request_id`
unfoldable pub request_id : Call → Option String
unfolding first_kwarg first_item first_attr or_obj kwarg
request_id call =
    or_option (first_kwarg as_text ("request_id" ∷ "req_id" ∷ "rid" ∷ []) call)
      (first_item request_attr (or_obj (kwarg "request" call) (kwarg "req" call) ∷ call.args))

-- the entries of a dict, and the pairs of a sequence of pairs, with text names; none where an item
-- is no such pair
unfoldable pub entries : Attrs → List (String × Obj)
entries no_attrs = []
entries (attr k v attrs) = (k, v) ∷ entries attrs

abbrev pair_of : Obj → Option (String × Obj)
pair_of (sequence (next_obj (string k) (next_obj v no_objs))) = some (k, v)
pair_of (tuple (next_obj (string k) (next_obj v no_objs))) = some (k, v)
pair_of v = none

unfoldable pub pairs : List Obj → Option (List (String × Obj))
pairs [] = some []
pairs (v ∷ vs) = elim (pair_of v) [
  | none ↦ none
  | some kv ↦ elim (pairs vs) [ none ↦ none | some kvs ↦ some (kv ∷ kvs) ]
]

-- what a call of `state_dict` or `named_parameters` gives; none where it raises or is not callable
unfoldable pub params_of : Obj → Option (List (String × Obj))
unfolding entries pairs items
params_of (returning (mapping attrs)) = some (entries attrs)
params_of (returning (sequence vs)) = pairs (items vs)
params_of (returning (tuple vs)) = pairs (items vs)
params_of v = none

-- `_params_from`
unfoldable pub params_from : Obj → List (String × Obj)
unfolding params_of entries getattr
params_from nothing = []
params_from (mapping attrs) = entries attrs
params_from obj =
    or_else
      (or_option (params_of (getattr "state_dict" obj))
        (params_of (getattr "named_parameters" obj)))
      []

abbrev shape_items : List Obj → Option (List ℤ)
shape_items [] = some []
shape_items (integer n ∷ vs) = elim (shape_items vs) [ none ↦ none | some ns ↦ some (n ∷ ns) ]
shape_items (v ∷ vs) = none

-- `_tensor_info`, whose `str(dtype)` without "torch." is the text of the dtype here
pub record TensorInfo : Type 0 where
  pub shape : Option (List ℤ)
  pub dtype : Option String
  pub bytes : Option ℤ

unfoldable pub shape_of : Obj → Option (List ℤ)
unfolding items
shape_of (sequence vs) = shape_items (items vs)
shape_of (tuple vs) = shape_items (items vs)
shape_of v = none

unfoldable pub tensor_info : Obj → TensorInfo
unfolding shape_of getattr bytes_from
tensor_info tensor = record {
  shape = shape_of (getattr "shape" tensor);
  dtype = as_text (getattr "dtype" tensor);
  bytes = bytes_from tensor;
}
