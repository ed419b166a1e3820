-- ===== src/Text.antt =====
-- Texts as lists of code points: decimal printing, and the paths of Python's `os.path`.
pub mod Decimal
pub mod Occurs
use Prim.Native.Char.{code}
use beyond_kvtransfer.Base.{
  ℕ, zero, suc, ◌+◌, ◌-◌, ◌/◌, ◌%◌, String, Bool, true, false, Option, none, some, List, [], ◌∷◌,
  ◌++◌, ◌&&◌, ◌||◌, not, eqb, ltb, any_by, is_empty, length, if◌then◌else◌, map, ◌≡◌, refl, ◌↔◌,
  arith, Eq, ℤ, pos, negsuc,
}

abbrev pub Text : Type 0
Text = List ℕ

-- `String` has its own `[]` and `∷`.
abbrev pub codes : String → Text
codes String.[] = []
codes (String.◌∷◌ c s) = code c ∷ codes s

unfoldable pub text_beq : Text → Text → Bool
text_beq [] [] = true
text_beq [] (d ∷ t) = false
text_beq (c ∷ s) [] = false
text_beq (c ∷ s) (d ∷ t) = eqb c d && text_beq s t

pub text_beq_iff : (s t : Text) → (text_beq s t ≡ true) ↔ (s ≡ t)
unfolding text_beq
text_beq_iff [] [] = ground arith
text_beq_iff [] (d ∷ t) = ground arith
text_beq_iff (c ∷ s) [] = ground arith
text_beq_iff (c ∷ s) (d ∷ t) = ground (arith, text_beq_iff s t)

instance abbrev pub text_eq : Eq Text
text_eq = record { same = text_beq; same_iff = text_beq_iff }

-- `str(n)`, with fuel for the digits
unfoldable pub digits : ℕ → ℕ → Text
digits zero n = []
digits (suc fuel) n =
    let rest = digits fuel (n / 10) ++ (48 + n % 10) ∷ [] in
    if ltb n 10 then (48 + n) ∷ [] else rest

unfoldable pub decimal : ℕ → Text
unfolding digits
decimal n = digits (suc n) n

unfoldable pub zeros : ℕ → Text
zeros zero = []
zeros (suc n) = 48 ∷ zeros n

-- `f"{n:04d}"`
unfoldable pub decimal4 : ℕ → Text
unfolding zeros decimal
decimal4 n = let s = decimal n in zeros (4 - length s) ++ s

-- `f"{n}"` of an integer
unfoldable pub decimal_int : ℤ → Text
unfolding decimal
decimal_int (pos n) = decimal n
decimal_int (negsuc n) = 45 ∷ decimal (suc n)

abbrev slash : ℕ
slash = 47

abbrev dot : ℕ
dot = 46

-- the text from the last dot on, where no slash follows it
unfoldable pub cut_ext : Text → Option (Text × Text)
unfolding any_by
cut_ext [] = none
cut_ext (c ∷ p) = elim (cut_ext p) [
  | some (base, ext) ↦ some (c ∷ base, ext)
  | none ↦ if eqb c dot && not (any_by (λ d. eqb d slash) p) then some ([], c ∷ p) else none
]

unfoldable pub last_component : Text → Text
unfolding any_by
last_component [] = []
last_component (c ∷ p) = if any_by (λ d. eqb d slash) (c ∷ p) then last_component p else c ∷ p

-- `os.path.splitext`: leading dots of the name start no extension
unfoldable pub splitext : Text → Text × Text
unfolding cut_ext last_component any_by
splitext p = elim (cut_ext p) [
  | none ↦ (p, [])
  | some (base, ext) ↦
      if any_by (λ c. not (eqb c dot)) (last_component base) then (base, ext) else (p, [])
]

unfoldable pub ends_with_slash : Text → Bool
ends_with_slash [] = false
ends_with_slash (c ∷ []) = eqb c slash
ends_with_slash (c ∷ d ∷ p) = ends_with_slash (d ∷ p)

-- `os.path.join` of two parts
unfoldable pub join : Text → Text → Text
unfolding ends_with_slash
join a [] = if is_empty a then [] else if ends_with_slash a then a else a ++ slash ∷ []
join a (c ∷ b) =
    if eqb c slash
    then c ∷ b
    else if is_empty a
    then c ∷ b
    else if ends_with_slash a
    then a ++ c ∷ b
    else a ++ (slash ∷ c ∷ b)

-- `s.replace(old, new)` of one character
unfoldable pub replace : ℕ → ℕ → Text → Text
replace old new = map (λ c. if eqb c old then new else c)

-- `s.startswith(p)`
abbrev pub prefix : Text → Text → Bool
prefix [] s = true
prefix (c ∷ p) [] = false
prefix (c ∷ p) (d ∷ s) = eqb c d && prefix p s

-- `p in s`
unfoldable pub contains : Text → Text → Bool
contains p [] = prefix p []
contains p (c ∷ s) = prefix p (c ∷ s) || contains p s
