-- ===== src/Text/Decimal.antt =====
-- Printed numbers can be read back, so distinct numbers print differently.
use mathlib.Core.Path.{◌≡◌, refl, ap, sym, ◌∙◌}
use beyond_kvtransfer.Base.{
  ℕ, zero, suc, ◌+◌, ◌-◌, ◌*◌, ◌/◌, ◌%◌, ◌<◌, Bool, true, ◌&&◌, not, leb, if◌then◌else◌, [], ◌∷◌,
  ◌++◌, arith, ltb, length, Bool-cases, inl, inr,
}
use beyond_kvtransfer.Text.{Text, digits, decimal, decimal4, zeros}

-- the number that a run of digits reads as, after `n`
unfoldable pub read_from : ℕ → Text → ℕ
read_from n [] = n
read_from n (c ∷ s) = read_from (10 * n + (c - 48)) s

read-append : (n : ℕ) (s t : Text) → read_from n (s ++ t) ≡ read_from (read_from n s) t
unfolding read_from
read-append n [] t = refl
read-append n (c ∷ s) t = read-append (10 * n + (c - 48)) s t

read-digits : (fuel n : ℕ) → n < fuel → read_from 0 (digits fuel n) ≡ n
unfolding read_from digits
read-digits zero n h = elim h [ ]
read-digits (suc fuel) n h = elim (Bool-cases (ltb n 10)) [
  | inl small ↦ rw small (omega arith)
  | inr large ↦
      rw (large, read-append 0 (digits fuel (n / 10)) ((48 + n % 10) ∷ []))
        (omega (arith, read-digits fuel (n / 10) (ground arith)))
]

read-zeros : (k : ℕ) (s : Text) → read_from 0 (zeros k ++ s) ≡ read_from 0 s
unfolding read_from zeros
read-zeros zero s = refl
read-zeros (suc k) s = read-zeros k s

pub read-decimal4 : (n : ℕ) → read_from 0 (decimal4 n) ≡ n
unfolding decimal4
read-decimal4 n =
    read-zeros (4 - length (decimal n)) (decimal n) ∙ read-digits (suc n) n (omega arith)

-- Distinct numbers print differently.
pub decimal4-injective : (m n : ℕ) → decimal4 m ≡ decimal4 n → m ≡ n
decimal4-injective m n e = sym (read-decimal4 m) ∙ ap (read_from 0) e ∙ read-decimal4 n

pub read-decimal : (n : ℕ) → read_from 0 (decimal n) ≡ n
unfolding decimal
read-decimal n = read-digits (suc n) n (omega arith)

-- whether a text has digits only, and whether it starts with none
unfoldable pub all_digits : Text → Bool
all_digits [] = true
all_digits (c ∷ s) = leb 48 c && leb c 57 && all_digits s

unfoldable pub no_digit : Text → Bool
no_digit [] = true
no_digit (c ∷ s) = not (leb 48 c && leb c 57)

all_digits-append :
    (s t : Text) → all_digits s ≡ true → all_digits t ≡ true → all_digits (s ++ t) ≡ true
unfolding all_digits
all_digits-append [] t h k = k
all_digits-append (c ∷ s) t h k = ground (arith, all_digits-append s t)

all_digits-digits : (fuel n : ℕ) → all_digits (digits fuel n) ≡ true
unfolding all_digits digits
all_digits-digits zero n = refl
all_digits-digits (suc fuel) n =
    let rest =
      all_digits-append (digits fuel (n / 10)) ((48 + n % 10) ∷ [])
        (all_digits-digits fuel (n / 10)) (ground arith) in
    ground (arith, rest)

-- the number that a text starts with, after `n`, and what follows it
unfoldable pub read_number : ℕ → Text → ℕ × Text
read_number n [] = (n, [])
read_number n (c ∷ s) =
    let rest = read_number (10 * n + (c - 48)) s in
    if leb 48 c && leb c 57 then rest else (n, c ∷ s)

read_number-append :
    (n : ℕ) (s t : Text)
    → all_digits s ≡ true
    → no_digit t ≡ true
    → read_number n (s ++ t) ≡ (read_from n s, t)
unfolding read_number read_from all_digits no_digit
read_number-append n [] [] h k = refl
read_number-append n [] (c ∷ t) h k = ground arith
read_number-append n (c ∷ s) t h k = ground (arith, read_number-append (10 * n + (c - 48)) s t)

-- a printed number that no digit follows is read back, with what follows it
pub read_number-decimal :
    (n : ℕ) (t : Text) → no_digit t ≡ true → read_number 0 (decimal n ++ t) ≡ (n, t)
read_number-decimal n t h =
    read_number-append 0 (decimal n) t (unfold decimal in all_digits-digits (suc n) n) h
    ∙ ap (λ m. (m, t)) (read-decimal n)
