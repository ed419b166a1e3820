-- ===== src/Value.antt =====
-- The values that a trace record holds: what Python's dicts and JSON hold.
pub mod Key
use beyond_kvtransfer.Base.{
  ℕ, ◌^◌, String, Bool, true, false, Option, some, List, [], ◌∷◌, ℤ, pos, leb_ℤ, ltb_ℤ, ◌==◌,
  string_eq, ◌≡◌, arith,
}
use beyond_kvtransfer.Base.Dict.{Dict}

-- A binary64 float: every finite one is an integer multiple of 2^-1074, which is exact.
pub data Float : Type 0 where
  finite : ℤ → Float
  inf neg_inf nan : Float

abbrev pub unit : ℕ
unit = 2 ^ 1074

pub one_scaled : ℕ
one_scaled = unit

abbrev pub float_zero : Float
float_zero = finite (pos 0)

unfoldable pub float_one : Float
unfolding one_scaled
float_one = finite (pos one_scaled)

-- `a <= b` and `a < b`: false where one is nan
unfoldable pub float_le : Float → Float → Bool
float_le nan b = false
float_le neg_inf nan = false
float_le neg_inf b = true
float_le (finite a) (finite b) = leb_ℤ a b
float_le (finite a) inf = true
float_le (finite a) b = false
float_le inf inf = true
float_le inf b = false

unfoldable pub float_lt : Float → Float → Bool
float_lt nan b = false
float_lt neg_inf nan = false
float_lt neg_inf neg_inf = false
float_lt neg_inf b = true
float_lt (finite a) (finite b) = ltb_ℤ a b
float_lt (finite a) inf = true
float_lt (finite a) b = false
float_lt inf b = false

-- `None`, numbers, texts, and JSON's objects and arrays, whose members have types of their own
mutual
  pub data Members : Type 0 where
    no_members : Members
    member : String → Value → Members → Members

  pub data Value : Type 0 where
    float : Float → Value
    int : ℤ → Value
    text : String → Value
    obj : Members → Value
    bool : Bool → Value
    arr : Elements → Value
    null : Value

  pub data Elements : Type 0 where
    no_elements : Elements
    element : Value → Elements → Elements

-- a record: a `dict` with text keys
abbrev pub Rec : Type 0
Rec = Dict String Value

abbrev pub is_null : Value → Bool
is_null null = true
is_null (int n) = false
is_null v = false

abbrev pub nat : ℕ → Value
nat n = int (pos n)

-- `d.get(k) == "…"`
abbrev pub is_text : String → Option Value → Bool
is_text s (some (text t)) = t == s
is_text s o = false

unfoldable pub elements_of : List Value → Elements
elements_of [] = no_elements
elements_of (v ∷ vs) = element v (elements_of vs)

unfoldable pub members_of : Rec → Members
members_of [] = no_members
members_of ((k, v) ∷ d) = member k v (members_of d)

-- of two floats, not both comparisons hold
pub float-total : (a b : Float) → float_lt a b ≡ true → float_le b a ≡ false
unfolding float_le float_lt
float-total nan b h = ground arith
float-total neg_inf b h = ground arith
float-total (finite a) b h = ground arith
float-total inf b h = ground arith
