-- ===== src/Sglang/Radix.antt =====
-- What the probes of bkvt/integrations/sglang/radix_probe.py read of the radix cache, of the
-- allocator and of their calls.
pub mod Wrappers
pub mod Flatten
pub mod Again
use beyond_kvtransfer.Base.{
  String, Bool, true, false, Option, none, some, List, [], ◌∷◌, ◌++◌, if◌then◌else◌, ◌==◌,
  string_eq, ltb_ℤ, ℤ, pos, length,
}
use beyond_kvtransfer.Base.Dict.{or_else}
use beyond_kvtransfer.Value.{Value, nat, null}
use beyond_kvtransfer.Py.{
  Obj, nothing, integer, string, sequence, tuple, mapping, returning, object, Objs, no_objs,
  next_obj, getattr, Attrs, no_attrs, attr, as_int, first_attr, or_obj,
}
use beyond_kvtransfer.Py.Reads.{Classes, list_of, key_objs, char_objs, int_of, hex, is_given}
use beyond_kvtransfer.Weights.{Call, kwarg}
use beyond_kvtransfer.BlockPool.{kwarg_or}
use beyond_kvtransfer.Scheduler.{given}
use beyond_kvtransfer.Sglang.{req_id, value_objs}

-- `_to_list` past its test on None
unfoldable pub listed : Obj → List Obj
unfolding value_objs list_of getattr
listed (mapping attrs) = value_objs attrs
listed (string s) = string s ∷ []
listed v = elim (getattr "tolist" v) [
  | returning w ↦ or_else (list_of w) (w ∷ [])
  | method ↦ or_else (list_of v) (v ∷ [])
]

-- `_to_list`: the first item of a tuple stands for it, None too, since that is tested before
unfoldable pub to_list : Obj → List Obj
unfolding listed
to_list nothing = []
to_list (tuple (next_obj v vs)) = listed v
to_list v = listed v

-- `_flatten` of an item, and of what it stands for where it is the first of a tuple
unfoldable mutual
  pub flat_items : Objs → List Obj
  flat_items no_objs = []
  flat_items (next_obj v vs) = flat_item v ++ flat_items vs

  pub flat_item : Obj → List Obj
  flat_item (sequence vs) = flat_items vs
  flat_item (tuple no_objs) = []
  flat_item (tuple (next_obj v vs)) = flat_first v
  flat_item v = v ∷ []

  pub flat_first : Obj → List Obj
  flat_first nothing = nothing ∷ []
  flat_first (mapping attrs) = flat_values attrs
  flat_first (string s) = string s ∷ []
  flat_first (sequence vs) = flat_items vs
  flat_first (tuple vs) = flat_items vs
  flat_first (object attrs) = flat_tolist (object attrs) attrs
  flat_first v = v ∷ []

  pub flat_values : Attrs → List Obj
  flat_values no_attrs = []
  flat_values (attr k v attrs) = flat_item v ++ flat_values attrs

  -- an object with these attributes, by its method `tolist`
  pub flat_tolist : Obj → Attrs → List Obj
  flat_tolist v no_attrs = v ∷ []
  flat_tolist v (attr k w attrs) =
      let rest = flat_tolist v attrs in
      let own = flat_method v w in if k == "tolist" then own else rest

  pub flat_method : Obj → Obj → List Obj
  flat_method v (returning w) = flat_listed w
  flat_method v w = v ∷ []

  pub flat_listed : Obj → List Obj
  flat_listed (sequence vs) = flat_items vs
  flat_listed (tuple vs) = flat_items vs
  flat_listed (mapping attrs) = key_objs attrs
  flat_listed (string s) = char_objs s
  flat_listed w = w ∷ []

unfoldable pub flat_all : List Obj → List Obj
unfolding flat_item
flat_all [] = []
flat_all (v ∷ vs) = flat_item v ++ flat_all vs

-- `_flatten`
unfoldable pub flatten : Obj → List Obj
unfolding flat_all to_list
flatten v = flat_all (to_list v)

-- `kwargs.get("req") or kwargs.get("request")`, and its id
unfoldable pub request_id : Call → Option String
unfolding req_id or_obj kwarg
request_id call = req_id (or_obj (kwarg "req" call) (kwarg "request" call))

-- `args[0] if args else kwargs.get("key", kwargs.get("token_ids"))`
unfoldable pub key_arg : Call → Obj
unfolding kwarg kwarg_or
key_arg call = elim call.args [ [] ↦ kwarg_or "key" (kwarg "token_ids" call) call | v ∷ vs ↦ v ]

-- `args[0] if args else kwargs.get("free_index", kwargs.get("indices"))`
unfoldable pub freed_arg : Call → Obj
unfolding kwarg kwarg_or
freed_arg call = elim call.args [
  | [] ↦ kwarg_or "free_index" (kwarg "indices" call) call
  | v ∷ vs ↦ v
]

-- `len(_to_list(key))`, where there is a key
unfoldable pub n_keys_or : Value → Obj → Value
unfolding to_list
n_keys_or none_given key = if is_given key then nat (length (to_list key)) else none_given

-- `val if isinstance(val, int) and val > 0`
abbrev positive : Obj → Option ℤ
positive (integer n) = if ltb_ℤ (pos 0) n then some n else none
positive v = none

-- `_block_size_tokens`
unfoldable pub block_size_tokens : Obj → ℤ
unfolding first_attr
block_size_tokens cache =
    elim (first_attr positive ("page_size" ∷ "block_size" ∷ "chunk_size" ∷ []) cache) [
      | none ↦ pos 1
      | some n ↦ n
    ]

abbrev size_of : Obj → Option ℤ
size_of (returning v) = as_int v
size_of v = as_int v

-- `_cache_size`
unfoldable pub cache_size : Obj → Option ℤ
unfolding first_attr
cache_size cache = first_attr size_of ("size" ∷ "total_size" ∷ "evictable_size_" ∷ []) cache

module _ (classes : Classes) where
  abbrev hex_of : Option ℤ → Option (Option String)
  hex_of none = none
  hex_of (some n) = some (some (hex n))

  abbrev hash_of : Obj → Option (Option String)
  hash_of (string s) = some (some s)
  hash_of v = hex_of (int_of classes v)

  -- `_block_hash`: none where `int` raises
  unfoldable pub block_hash : Obj → Option (Option String)
  unfolding first_attr int_of hex
  block_hash block = elim (first_attr given ("block_hash" ∷ "content_hash" ∷ "hash" ∷ []) block) [
    | none ↦ some none
    | some v ↦ hash_of v
  ]

  -- the loop of `_first_int` over the names
  unfoldable pub int_of_kwargs : List String → Call → Option ℤ
  unfolding kwarg int_of
  int_of_kwargs [] call = none
  int_of_kwargs (name ∷ names) call =
      let rest = int_of_kwargs names call in
      if is_given (kwarg name call) then int_of classes (kwarg name call) else rest

  -- `_first_int`
  unfoldable pub first_int : List String → Call → Option ℤ
  unfolding int_of_kwargs int_of
  first_int names call = elim call.args [
    | [] ↦ int_of_kwargs names call
    | v ∷ vs ↦ elim (int_of classes v) [ none ↦ int_of_kwargs names call | some n ↦ some n ]
  ]
