-- ===== src/Value/Key.antt =====
-- Values as the keys of a dict: Python compares `True`, `1` and `1.0` equal, and refuses lists and
-- dicts.
use Prim.Native.Nat.{pred}
use mathlib.Core.Logic.{◌↔◌}
use beyond_kvtransfer.Base.{
  suc, ◌/◌, ◌%◌, String, Bool, true, false, Option, none, some, ℤ, pos, negsuc, eqb, eqb_ℤ,
  eqb_ℤ_iff, Eq, ◌==◌, ==_iff, string_eq, ◌≡◌, arith, if◌then◌else◌,
}
use beyond_kvtransfer.Value.{
  Value, Float, finite, inf, neg_inf, nan, null, bool, int, float, text, arr, obj, one_scaled,
  no_elements, element, no_members, member,
}

-- a nan is a key like any other here
pub data Key : Type 0 where
  text_key : String → Key
  int_key : ℤ → Key
  float_key : Float → Key
  none_key : Key

unfoldable pub float_to_key : Float → Key
float_to_key (finite (pos n)) =
    if eqb (n % one_scaled) 0 then int_key (pos (n / one_scaled)) else float_key (finite (pos n))
float_to_key (finite (negsuc n)) =
    if eqb (suc n % one_scaled) 0
    then int_key (negsuc (pred (suc n / one_scaled)))
    else float_key (finite (negsuc n))
float_to_key inf = float_key inf
float_to_key neg_inf = float_key neg_inf
float_to_key nan = float_key nan

-- none where `hash` raises a TypeError
unfoldable pub key_of : Value → Option Key
unfolding float_to_key
key_of null = some none_key
key_of (bool b) = some (int_key (pos (if b then 1 else 0)))
key_of (int n) = some (int_key n)
key_of (float x) = some (float_to_key x)
key_of (text s) = some (text_key s)
key_of (arr vs) = none
key_of (obj vs) = none

abbrev float_same : Float → Float → Bool
float_same (finite a) (finite b) = eqb_ℤ a b
float_same inf inf = true
float_same neg_inf neg_inf = true
float_same nan nan = true
float_same _ _ = false

pub float_same_iff : (a b : Float) → (float_same a b ≡ true) ↔ (a ≡ b)
float_same_iff (finite a) (finite b) = ground (arith, eqb_ℤ_iff a b)
float_same_iff inf inf = ground arith
float_same_iff neg_inf neg_inf = ground arith
float_same_iff nan nan = ground arith
float_same_iff _ _ = ground arith

unfoldable pub key_same : Key → Key → Bool
key_same (text_key a) (text_key b) = a == b
key_same (int_key a) (int_key b) = eqb_ℤ a b
key_same (float_key a) (float_key b) = float_same a b
key_same none_key none_key = true
key_same _ _ = false

pub key_same_iff : (a b : Key) → (key_same a b ≡ true) ↔ (a ≡ b)
unfolding key_same
key_same_iff (text_key a) (text_key b) = ground (arith, ==_iff a b)
key_same_iff (int_key a) (int_key b) = ground (arith, eqb_ℤ_iff a b)
key_same_iff (float_key a) (float_key b) = ground (arith, float_same_iff a b)
key_same_iff none_key none_key = ground arith
key_same_iff _ _ = ground arith

instance abbrev pub key_eq : Eq Key
key_eq = record { same = key_same; same_iff = key_same_iff }

-- `bool(v)`
unfoldable pub truthy : Value → Bool
truthy null = false
truthy (bool b) = b
truthy (int n) = if eqb_ℤ n (pos 0) then false else true
truthy (float x) = if float_same x (finite (pos 0)) then false else true
truthy (text s) = if s == "" then false else true
truthy (arr no_elements) = false
truthy (arr (element v vs)) = true
truthy (obj no_members) = false
truthy (obj (member k v vs)) = true

-- `v == 1`
unfoldable pub is_one : Option Value → Bool
is_one none = false
is_one (some v) = elim (key_of v) [ none ↦ false | some k ↦ k == int_key (pos 1) ]
