-- ===== src/Sglang/Blocks.antt =====
-- What the cache and disaggregation probes of bkvt/integrations/sglang (hicache_probe.py and
-- disagg_probe.py) read of a call: the blocks, the bytes and the request. The two files differ in the
-- names that they look for, which are arguments.
use beyond_kvtransfer.Base.{
  String, Option, none, some, List, [], ◌∷◌, ◌++◌, if◌then◌else◌, ◌==◌, string_eq, ℤ,
}
use beyond_kvtransfer.Base.Dict.{or_else}
use beyond_kvtransfer.Py.{
  Obj, nothing, string, sequence, tuple, mapping, returning, Objs, no_objs, next_obj, getattr,
  first_attr, first_item,
}
use beyond_kvtransfer.Py.Reads.{Classes, list_of, int_of}
use beyond_kvtransfer.Weights.{Call, first_kwarg, or_option}
use beyond_kvtransfer.Scheduler.{given}
use beyond_kvtransfer.Connector.{bytes_from}
use beyond_kvtransfer.Sglang.{value_objs, req_id}

-- `tolist()`, where there is such a method that returns
unfoldable pub tolisted : Obj → Obj → Obj
tolisted (returning w) v = w
tolisted method v = v

-- `_to_list`
unfoldable pub to_list : Obj → List Obj
unfolding value_objs list_of getattr tolisted
to_list nothing = []
to_list (mapping attrs) = value_objs attrs
to_list (string s) = string s ∷ []
to_list v = let w = tolisted (getattr "tolist" v) v in or_else (list_of w) (w ∷ [])

-- `_flatten` of a list, and what an item adds to the result
unfoldable mutual
  pub flat_items : Objs → List Obj
  flat_items no_objs = []
  flat_items (next_obj v vs) = flat_item v ++ flat_items vs

  pub flat_item : Obj → List Obj
  flat_item (sequence vs) = flat_items vs
  flat_item (tuple vs) = flat_items vs
  flat_item v = v ∷ []

unfoldable pub flat_list : List Obj → List Obj
unfolding flat_item
flat_list [] = []
flat_list (v ∷ vs) = flat_item v ++ flat_list vs

-- `_flatten`
unfoldable pub flatten : Obj → List Obj
unfolding flat_list to_list
flatten v = flat_list (to_list v)

-- the id, where it is not empty
unfoldable pub named : Obj → Option String
unfolding req_id
named v = elim (req_id v) [ none ↦ none | some s ↦ if s == "" then none else some s ]

-- `_bytes_for`
unfoldable pub bytes_for : Call → Obj → Option ℤ
unfolding bytes_from first_kwarg first_item
bytes_for call result =
    or_option
      (or_option
        (first_kwarg bytes_from ("bytes" ∷ "bytes_" ∷ "num_bytes" ∷ "size_bytes" ∷ []) call)
        (first_item bytes_from call.args))
      (bytes_from result)

abbrev pub filled : List ℤ → Option (List ℤ)
filled [] = none
filled (n ∷ ns) = some (n ∷ ns)

module _ (classes : Classes) (names : List String) where
  -- `_block_id`, with the names of the attributes
  unfoldable pub block_id : Obj → Option ℤ
  unfolding int_of first_attr
  block_id block = elim (int_of classes block) [
    | some n ↦ some n
    | none ↦ elim (first_attr given names block) [ none ↦ none | some v ↦ int_of classes v ]
  ]

  unfoldable pub ids_of : List Obj → List ℤ
  unfolding block_id
  ids_of [] = []
  ids_of (v ∷ vs) = elim (block_id v) [ none ↦ ids_of vs | some n ↦ n ∷ ids_of vs ]

  -- `_block_ids_from`
  unfoldable pub block_ids_from : Obj → List ℤ
  unfolding ids_of flatten
  block_ids_from value = ids_of (flatten value)

  -- `_block_ids_for`, with the names of the keywords
  unfoldable pub block_ids_for : List String → Call → Obj → List ℤ
  unfolding block_ids_from first_kwarg first_item
  block_ids_for keys call result =
      or_else
        (or_option (first_kwarg (λ v. filled (block_ids_from v)) keys call)
          (first_item (λ v. filled (block_ids_from v)) call.args))
        (block_ids_from result)
