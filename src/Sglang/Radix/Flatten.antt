-- ===== src/Sglang/Radix/Flatten.antt =====
-- The two ways in which the SGLang probes flatten a value: `_flatten` of
-- bkvt/integrations/sglang/radix_probe.py and that of hicache_probe.py and disagg_probe.py.
use beyond_kvtransfer.Base.{
  ◌≡◌, ◌∙◌, refl, ap, Bool, true, false, List, [], ◌∷◌, ◌||◌, any_by, arith,
}
use beyond_kvtransfer.Py.{
  Obj, nothing, integer, string, sequence, tuple, mapping, returning, raising, object, Objs,
  no_objs, next_obj, getattr,
}
use beyond_kvtransfer.Sglang.Blocks
use beyond_kvtransfer.Py.Reads.{list_of}
use beyond_kvtransfer.Base.Dict.{or_else}
use beyond_kvtransfer.Sglang.Radix.{to_list, listed, flat_item, flat_items, flat_all, flatten}

-- whether a tuple lies in an item, in the lists of it
unfoldable mutual
  pub has_tuple : Obj → Bool
  has_tuple (tuple vs) = true
  has_tuple (sequence vs) = have_tuple vs
  has_tuple v = false

  pub have_tuple : Objs → Bool
  have_tuple no_objs = false
  have_tuple (next_obj v vs) = has_tuple v || have_tuple vs

abbrev pub is_tuple : Obj → Bool
is_tuple (tuple vs) = true
is_tuple v = false

either : (a b : Bool) → (a || b) ≡ false → (a ≡ false) × (b ≡ false)
either a b h = (ground arith, ground arith)

mutual
  unfolding has_tuple have_tuple flat_item flat_items Blocks.flat_item Blocks.flat_items

  same_item : (v : Obj) → has_tuple v ≡ false → flat_item v ≡ Blocks.flat_item v
  same_item nothing h = refl
  same_item (integer n) h = refl
  same_item (string s) h = refl
  same_item (sequence vs) h = same_items vs h
  same_item (tuple vs) h = absurd cc
  same_item (mapping attrs) h = refl
  same_item (returning w) h = refl
  same_item raising h = refl
  same_item (object attrs) h = refl

  same_items : (vs : Objs) → have_tuple vs ≡ false → flat_items vs ≡ Blocks.flat_items vs
  same_items no_objs h = refl
  same_items (next_obj v vs) h =
      let (first, rest) = either (has_tuple v) (have_tuple vs) h in
      rw (same_item v first, same_items vs rest) refl

same_all : (vs : List Obj) → any_by has_tuple vs ≡ false → flat_all vs ≡ Blocks.flat_list vs
unfolding any_by flat_all Blocks.flat_list
same_all [] h = refl
same_all (v ∷ vs) h =
    let (first, rest) = either (has_tuple v) (any_by has_tuple vs) h in
    rw (same_item v first, same_all vs rest) refl

-- `tolist()` of an object, in the two programs' ways
same_tolist :
    (method v : Obj)
    → elim method [
      | returning w ↦ or_else (list_of w) (w ∷ [])
      | other ↦ or_else (list_of v) (v ∷ [])
    ]
      ≡ or_else (list_of (Blocks.tolisted method v)) (Blocks.tolisted method v ∷ [])
unfolding Blocks.tolisted
same_tolist nothing v = refl
same_tolist (integer n) v = refl
same_tolist (string s) v = refl
same_tolist (sequence vs) v = refl
same_tolist (tuple vs) v = refl
same_tolist (mapping attrs) v = refl
same_tolist (returning w) v = refl
same_tolist raising v = refl
same_tolist (object attrs) v = refl

same_list : (v : Obj) → is_tuple v ≡ false → to_list v ≡ Blocks.to_list v
unfolding to_list listed Blocks.to_list
same_list nothing h = refl
same_list (integer n) h = same_tolist (getattr "tolist" (integer n)) (integer n)
same_list (string s) h = refl
same_list (sequence vs) h = same_tolist (getattr "tolist" (sequence vs)) (sequence vs)
same_list (tuple vs) h = absurd cc
same_list (mapping attrs) h = refl
same_list (returning w) h = same_tolist (getattr "tolist" (returning w)) (returning w)
same_list raising h = same_tolist (getattr "tolist" raising) raising
same_list (object attrs) h = same_tolist (getattr "tolist" (object attrs)) (object attrs)

-- On a value that is no tuple and that has no tuple among its items, however deep in their lists, the
-- radix probe flattens to the same list as the other two probes.
pub flatten-agrees :
    (v : Obj)
    → is_tuple v ≡ false
    → any_by has_tuple (Blocks.to_list v) ≡ false
    → flatten v ≡ Blocks.flatten v
unfolding flatten Blocks.flatten
flatten-agrees v no_tuple none_inside =
    ap flat_all (same_list v no_tuple) ∙ same_all (Blocks.to_list v) none_inside
