-- ===== src/Sglang/Radix/Again.antt =====
-- `_flatten` of bkvt/integrations/sglang/radix_probe.py calls itself on an item that is a list or a
-- tuple; the model's structural recursion does the same.
use beyond_kvtransfer.Base.{
  ◌≡◌, ◌∙◌, refl, sym, ap, List, [], ◌∷◌, ◌++◌, String, ◌==◌, string_eq, Bool-cases, inl, inr,
}
use beyond_kvtransfer.Base.Dict.{or_else}
use beyond_kvtransfer.Py.{
  Obj, nothing, integer, string, sequence, tuple, mapping, returning, raising, object, Objs,
  no_objs, next_obj, Attrs, no_attrs, attr, getattr, attr_of, items,
}
use beyond_kvtransfer.Py.Reads.{list_of, key_objs, char_objs}
use beyond_kvtransfer.Sglang.{value_objs}
use beyond_kvtransfer.Sglang.Radix.{
  to_list, listed, flat_item, flat_items, flat_first, flat_values, flat_tolist, flat_method,
  flat_listed, flat_all, flatten,
}

all_items : (vs : Objs) → flat_all (items vs) ≡ flat_items vs
unfolding flat_all items flat_items
all_items no_objs = refl
all_items (next_obj v vs) = ap (λ (x : List Obj). flat_item v ++ x) (all_items vs)

all_values : (attrs : Attrs) → flat_all (value_objs attrs) ≡ flat_values attrs
unfolding flat_all value_objs flat_values
all_values no_attrs = refl
all_values (attr k v attrs) = ap (λ (x : List Obj). flat_item v ++ x) (all_values attrs)

all_keys : (attrs : Attrs) → flat_all (key_objs attrs) ≡ key_objs attrs
unfolding flat_all key_objs flat_item
all_keys no_attrs = refl
all_keys (attr k v attrs) = ap (λ (x : List Obj). string k ∷ x) (all_keys attrs)

all_chars : (s : String) → flat_all (char_objs s) ≡ char_objs s
unfolding flat_all char_objs flat_item
all_chars String.[] = refl
all_chars (String.◌∷◌ c s) =
    ap (λ (x : List Obj). string (String.◌∷◌ c String.[]) ∷ x) (all_chars s)

-- what `list` makes of a value, or else the value alone
abbrev spread : Obj → List Obj
spread w = or_else (list_of w) (w ∷ [])

all_spread : (w : Obj) → flat_all (spread w) ≡ flat_listed w
unfolding list_of flat_listed flat_all flat_item
all_spread nothing = refl
all_spread (integer n) = refl
all_spread (string s) = all_chars s
all_spread (sequence vs) = all_items vs
all_spread (tuple vs) = all_items vs
all_spread (mapping attrs) = all_keys attrs
all_spread (returning w) = refl
all_spread raising = refl
all_spread (object attrs) = refl

all_method :
    (attrs : Attrs)
    → flat_all
        (elim (attr_of "tolist" attrs) [ returning w ↦ spread w | method ↦ object attrs ∷ [] ])
      ≡ flat_method (object attrs) (attr_of "tolist" attrs)
all_method attrs = of_method (attr_of "tolist" attrs)
  where
    of_method :
        (method : Obj)
        → flat_all (elim method [ returning w ↦ spread w | other ↦ object attrs ∷ [] ])
          ≡ flat_method (object attrs) method
    of_method (returning w) = unfold flat_method in all_spread w
    of_method nothing = unfold flat_method flat_all flat_item in refl
    of_method (integer n) = unfold flat_method flat_all flat_item in refl
    of_method (string s) = unfold flat_method flat_all flat_item in refl
    of_method (sequence vs) = unfold flat_method flat_all flat_item in refl
    of_method (tuple vs) = unfold flat_method flat_all flat_item in refl
    of_method (mapping attrs') = unfold flat_method flat_all flat_item in refl
    of_method raising = unfold flat_method flat_all flat_item in refl
    of_method (object attrs') = unfold flat_method flat_all flat_item in refl

method-tolist :
    (v : Obj) (attrs : Attrs) → flat_tolist v attrs ≡ flat_method v (attr_of "tolist" attrs)
unfolding flat_tolist attr_of flat_method
method-tolist v no_attrs = refl
method-tolist v (attr k w attrs) = elim (Bool-cases (k == "tolist")) [
  | inl here ↦ rw here refl
  | inr later ↦ rw later (method-tolist v attrs)
]

all_listed : (v : Obj) → flat_all (listed v) ≡ flat_first v
unfolding listed flat_first getattr
all_listed nothing = unfold flat_all flat_item list_of in refl
all_listed (integer n) = unfold flat_all flat_item list_of in refl
all_listed (string s) = unfold flat_all flat_item in refl
all_listed (sequence vs) = unfold list_of in all_items vs
all_listed (tuple vs) = unfold list_of in all_items vs
all_listed (mapping attrs) = all_values attrs
all_listed (returning w) = unfold flat_all flat_item list_of in refl
all_listed raising = unfold flat_all flat_item list_of in refl
all_listed (object attrs) =
    (unfold list_of in all_method attrs) ∙ sym (method-tolist (object attrs) attrs)

-- `_flatten` of an item: itself again where it is a list or a tuple
abbrev pub again : Obj → List Obj
again (sequence vs) = flatten (sequence vs)
again (tuple vs) = flatten (tuple vs)
again v = v ∷ []

pub flat_item_lem : (v : Obj) → flat_item v ≡ again v
unfolding flat_item flatten to_list
flat_item_lem nothing = refl
flat_item_lem (integer n) = refl
flat_item_lem (string s) = refl
flat_item_lem (sequence vs) = sym (unfold listed getattr list_of in all_items vs)
flat_item_lem (tuple no_objs) = unfold listed getattr list_of flat_all items in refl
flat_item_lem (tuple (next_obj v vs)) = sym (all_listed v)
flat_item_lem (mapping attrs) = refl
flat_item_lem (returning w) = refl
flat_item_lem raising = refl
flat_item_lem (object attrs) = refl
