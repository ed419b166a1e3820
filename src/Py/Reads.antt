-- ===== src/Py/Reads.antt =====
-- Reads of the values that the engine probes of bkvt/integrations make: attributes with a default,
-- truth, lengths, items, numbers, and the values that a record holds. True and False are 1 and 0.
use Prim.Native.String.{◌++◌ as append, char_at}
use beyond_kvtransfer.Base.{
  ℕ, zero, suc, ◌/◌, ◌%◌, String, Bool, true, false, Option, none, some, List, [], ◌∷◌, not,
  if◌then◌else◌, ◌==◌, string_eq, ltb, eqb_ℤ, ℤ, pos, negsuc, length,
}
use beyond_kvtransfer.Base.Dict.{set}
use beyond_kvtransfer.Text.{codes}
use beyond_kvtransfer.Value.{
  Value, Rec, Members, no_members, member, Elements, no_elements, element, text, int, null, arr,
  obj,
}
use beyond_kvtransfer.Py.{
  Obj, nothing, integer, string, sequence, tuple, mapping, object, Objs, no_objs, next_obj, Attrs,
  no_attrs, attr, items,
}

unfoldable pub attr_or : String → Obj → Attrs → Obj
attr_or name default no_attrs = default
attr_or name default (attr n v attrs) =
    let rest = attr_or name default attrs in if n == name then v else rest

-- `getattr(obj, name, default)`: an attribute that is None is there
unfoldable pub getattr_or : String → Obj → Obj → Obj
unfolding attr_or
getattr_or name default (object attrs) = attr_or name default attrs
getattr_or name default v = default

-- `v is not None`
abbrev pub is_given : Obj → Bool
is_given nothing = false
is_given (integer n) = true
is_given v = true

-- `bool(v)`
unfoldable pub is_true : Obj → Bool
is_true nothing = false
is_true (integer n) = not (eqb_ℤ n (pos 0))
is_true (string s) = not (s == "")
is_true (sequence no_objs) = false
is_true (tuple no_objs) = false
is_true (mapping no_attrs) = false
is_true v = true

unfoldable pub key_objs : Attrs → List Obj
key_objs no_attrs = []
key_objs (attr k v attrs) = string k ∷ key_objs attrs

-- the characters of a text, each a text
unfoldable pub char_objs : String → List Obj
char_objs String.[] = []
char_objs (String.◌∷◌ c s) = string (String.◌∷◌ c String.[]) ∷ char_objs s

-- `list(v)`: none where it raises
unfoldable pub list_of : Obj → Option (List Obj)
unfolding items key_objs char_objs
list_of (sequence vs) = some (items vs)
list_of (tuple vs) = some (items vs)
list_of (mapping attrs) = some (key_objs attrs)
list_of (string s) = some (char_objs s)
list_of v = none

-- `len(v)`: none where it raises
unfoldable pub len_of : Obj → Option ℕ
unfolding items key_objs
len_of (sequence vs) = some (length (items vs))
len_of (tuple vs) = some (length (items vs))
len_of (mapping attrs) = some (length (key_objs attrs))
len_of (string s) = some (length (codes s))
len_of v = none

-- the digits of `hex`, before those that are there; with fuel
unfoldable pub hex_onto : ℕ → ℕ → String → String
hex_onto zero n s = s
hex_onto (suc fuel) n s =
    let s' : String = String.◌∷◌ (char_at "0123456789abcdef" (n % 16)) s in
    let rest = hex_onto fuel (n / 16) s' in if ltb n 16 then s' else rest

-- `hex(n)`
unfoldable pub hex : ℤ → String
unfolding hex_onto
hex (pos n) = append "0x" (hex_onto (suc n) n "")
hex (negsuc n) = append "-0x" (hex_onto (suc (suc n)) (suc n) "")

-- what the methods of classes that are not known here give, and Python's `int` of a text
pub record Classes : Type 0 where
  -- `int(s)`, `v.__int__()` and `v.__index__()`, none where they raise
  pub int_of_text : String → Option ℤ
  pub int_of_object : Attrs → Option ℤ
  pub index_of_object : Attrs → Option ℤ
  -- `str(v)`
  pub shown : Obj → String

module _ (classes : Classes) where
  -- `int(v)`: none where it raises
  unfoldable pub int_of : Obj → Option ℤ
  int_of (integer n) = some n
  int_of (string s) = classes.int_of_text s
  int_of (object attrs) = classes.int_of_object attrs
  int_of v = none

  -- `v if isinstance(v, str) else hex(v)`: none where it raises
  unfoldable pub hash_text : Obj → Option String
  unfolding hex
  hash_text (string s) = some s
  hash_text (integer n) = some (hex n)
  hash_text (object attrs) = elim (classes.index_of_object attrs) [
    | none ↦ none
    | some n ↦ some (hex n)
  ]
  hash_text v = none

  -- what a record holds for a value, with the writer's `default=str`
  unfoldable mutual
    pub value_of : Obj → Value
    value_of nothing = null
    value_of (integer n) = int n
    value_of (string s) = text s
    value_of (sequence vs) = arr (values_of vs)
    value_of (tuple vs) = arr (values_of vs)
    value_of (mapping attrs) = obj (members_of_attrs attrs)
    value_of v = text (classes.shown v)

    pub values_of : Objs → Elements
    values_of no_objs = no_elements
    values_of (next_obj v vs) = element (value_of v) (values_of vs)

    pub members_of_attrs : Attrs → Members
    members_of_attrs no_attrs = no_members
    members_of_attrs (attr k v attrs) = member k (value_of v) (members_of_attrs attrs)

  -- `if v is not None: rec[k] = v`
  unfoldable pub add_obj : String → Obj → Rec → Rec
  unfolding value_of
  add_obj k v r = if is_given v then set k (value_of v) r else r

  -- `if v: rec[k] = v`
  unfoldable pub add_true : String → Obj → Rec → Rec
  unfolding value_of is_true
  add_true k v r = if is_true v then set k (value_of v) r else r
