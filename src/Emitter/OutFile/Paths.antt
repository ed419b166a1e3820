-- ===== src/Emitter/OutFile/Paths.antt =====
-- The names of the rotated files.
use mathlib.Core.List.{append_cancel_left, append_cancel_right}
use beyond_kvtransfer.Base.{
  ℕ, ◌≡◌, Bool, true, false, none, some, [], ◌∷◌, ◌++◌, not, any_by, eqb, is_empty, Bool-cases, inl,
  inr, refl, arith,
}
use beyond_kvtransfer.Text.{Text, codes, splitext, cut_ext, last_component, decimal4}
use beyond_kvtransfer.Text.Decimal.{decimal4-injective}
use beyond_kvtransfer.Emitter.OutFile.{path_at, numbered}

numbered-injective : (base ext : Text) (m n : ℕ) → numbered base m ext ≡ numbered base n ext → m ≡ n
unfolding numbered
numbered-injective base ext m n e = decimal4-injective m n (
    append_cancel_right (decimal4 m) (decimal4 n) ext
      (append_cancel_left (codes ".") _ _ (append_cancel_left base _ _ e)))

abbrev pub is_dot : ℕ → Bool
is_dot c = eqb c 46

abbrev pub is_slash : ℕ → Bool
is_slash c = eqb c 47

-- Rotation never comes back to the name of an earlier file of the same output.
pub path_at-injective : (path : Text) (m n : ℕ) → path_at path m ≡ path_at path n → m ≡ n
unfolding path_at
path_at-injective path m n e = elim (Bool-cases (is_empty (splitext path).1)) [
  | inl h ↦ numbered-injective path (codes ".jsonl") m n (rw h at e)
  | inr h ↦ numbered-injective (splitext path).0 (splitext path).1 m n (rw h at e)
]

cut_ext-none : (p : Text) → any_by is_dot p ≡ false → cut_ext p ≡ none
unfolding cut_ext any_by
cut_ext-none [] h = refl
cut_ext-none (c ∷ p) h = rw (cut_ext-none p (ground (arith, h))) (ground (arith, h))

cut_ext-last :
    (base ext : Text)
    → any_by is_dot ext ≡ false
    → any_by is_slash ext ≡ false
    → cut_ext (base ++ 46 ∷ ext) ≡ some (base, 46 ∷ ext)
unfolding cut_ext
cut_ext-last [] ext d s = rw (cut_ext-none ext d, s) refl
cut_ext-last (c ∷ base) ext d s = rw (cut_ext-last base ext d s) refl

splitext-last :
    (base ext : Text)
    → any_by is_dot ext ≡ false
    → any_by is_slash ext ≡ false
    → any_by (λ c. not (is_dot c)) (last_component base) ≡ true
    → splitext (base ++ 46 ∷ ext) ≡ (base, 46 ∷ ext)
unfolding splitext
splitext-last base ext d s named = ground (arith, cut_ext-last base ext d s, named)

-- A path that ends in a dot and a text with no dot and no slash keeps that ending, and not `.jsonl`:
-- the number goes before the last dot. The last component of what stands before that dot is not of
-- dots alone.
pub path_at_extension :
    (base ext : Text) (seq : ℕ)
    → any_by is_dot ext ≡ false
    → any_by is_slash ext ≡ false
    → any_by (λ c. not (is_dot c)) (last_component base) ≡ true
    → path_at (base ++ 46 ∷ ext) seq ≡ base ++ (46 ∷ decimal4 seq ++ 46 ∷ ext)
unfolding path_at numbered
path_at_extension base ext seq d s named = rw (splitext-last base ext d s named) refl
