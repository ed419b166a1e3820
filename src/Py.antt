-- ===== src/Py.antt =====
-- The values that the probes take from the serving engines: integers, texts, sequences, dicts,
-- methods, and objects with attributes. An iterable that is no tuple
-- is a sequence here, and an object of any other class is true.
pub mod Reads
use beyond_kvtransfer.Base.{
  ℕ, ◌+◌, ◌-◌, ◌*◌, String, Option, none, some, List, [], ◌∷◌, ◌&&◌, if◌then◌else◌, ◌==◌, string_eq,
  leb, eqb_ℤ, ℤ, pos,
}
use beyond_kvtransfer.Text.{Text}

mutual
  pub data Obj : Type 0 where
    nothing : Obj
    integer : ℤ → Obj
    string : String → Obj
    sequence : Objs → Obj
    tuple : Objs → Obj
    -- a dict with text keys
    mapping : Attrs → Obj
    -- methods without arguments: what the call returns, and one that raises
    returning : Obj → Obj
    raising : Obj
    object : Attrs → Obj

  pub data Objs : Type 0 where
    no_objs : Objs
    next_obj : Obj → Objs → Objs

  -- the attributes of an object, with their values
  pub data Attrs : Type 0 where
    no_attrs : Attrs
    attr : String → Obj → Attrs → Attrs

unfoldable pub attr_of : String → Attrs → Obj
attr_of name no_attrs = nothing
attr_of name (attr n v attrs) = let rest = attr_of name attrs in if n == name then v else rest

-- `getattr(obj, name, None)`, for a name that no built-in type has
unfoldable pub getattr : String → Obj → Obj
unfolding attr_of
getattr name (object attrs) = attr_of name attrs
getattr name v = nothing

-- `isinstance(v, int)` and `isinstance(v, str)`, with the value
abbrev pub as_int : Obj → Option ℤ
as_int (integer n) = some n
as_int v = none

abbrev pub as_text : Obj → Option String
as_text (string s) = some s
as_text v = none

-- `a or b`
unfoldable pub or_obj : Obj → Obj → Obj
or_obj nothing b = b
or_obj (integer n) b = if eqb_ℤ n (pos 0) then b else integer n
or_obj (string s) b = if s == "" then b else string s
or_obj (sequence no_objs) b = b
or_obj (sequence (next_obj v vs)) b = sequence (next_obj v vs)
or_obj (tuple no_objs) b = b
or_obj (tuple (next_obj v vs)) b = tuple (next_obj v vs)
or_obj (mapping no_attrs) b = b
or_obj (mapping (attr k v kvs)) b = mapping (attr k v kvs)
or_obj (object attrs) b = object attrs
or_obj (returning v) b = returning v
or_obj raising b = raising

-- the first of these attributes that the test takes
unfoldable pub first_attr {ℓ} : {A : Type ℓ} → (Obj → Option A) → List String → Obj → Option A
unfolding getattr
first_attr f [] obj = none
first_attr f (name ∷ names) obj = elim (f (getattr name obj)) [
  | none ↦ first_attr f names obj
  | some a ↦ some a
]

unfoldable pub items : Objs → List Obj
items no_objs = []
items (next_obj v vs) = v ∷ items vs

-- the first item that the test takes
unfoldable pub first_item {ℓ} : {A : Type ℓ} → (Obj → Option A) → List Obj → Option A
first_item f [] = none
first_item f (v ∷ vs) = elim (f v) [ none ↦ first_item f vs | some a ↦ some a ]

-- the last run of ASCII digits of a text: the run that is being read, and the last one before it
unfoldable pub last_number : Option ℕ → Option ℕ → Text → Option ℕ
last_number none last [] = last
last_number (some n) last [] = some n
last_number none last (c ∷ s) =
    let other = last_number none last s in
    let digit = last_number (some (c - 48)) last s in if leb 48 c && leb c 57 then digit else other
last_number (some n) last (c ∷ s) =
    let other = last_number none (some n) s in
    let digit = last_number (some (10 * n + (c - 48))) last s in
    if leb 48 c && leb c 57 then digit else other
