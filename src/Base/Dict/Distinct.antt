-- ===== src/Base/Dict/Distinct.antt =====
-- The keys of a dict are distinct, and stay so; sums over its values are decided by its keys.
use mathlib.Core.Path.{◌≡◌, refl}
use mathlib.Core.Bool.{Bool, true, ◌&&◌, not}
use mathlib.Core.Option.{none, some}
use mathlib.Core.List.{[], ◌∷◌}
use Prim.Native.Nat.{ℕ, ◌+◌}
use mathlib.Core.Logic.{inl, inr}
use native.Mathlib.Omega.{arith}
use beyond_kvtransfer.Base.Tests.{Bool-cases, Option-cases}
use beyond_kvtransfer.Base.Equality.{Eq, ◌==◌}
use beyond_kvtransfer.Base.Dict.{Dict, get, set, has, remove, get-set, get-remove}

module _ {ℓ κ} {K : Type ℓ} {V : Type κ} where
  -- the sum of a number over the values
  unfoldable pub sum_values : (V → ℕ) → Dict K V → ℕ
  sum_values f [] = 0
  sum_values f ((k, v) ∷ d) = f v + sum_values f d

module _ {ℓ κ} {K : Type ℓ} {V : Type κ} ⦃eq : Eq K⦄ where
  abbrev pub Distinct : Dict K V → Type κ
  Distinct [] = Unit
  Distinct ((k, v) ∷ d) = (get k d ≡ none) × Distinct d

  pub set-Distinct : (k : K) (v : V) (d : Dict K V) → Distinct d → Distinct (set k v d)
  unfolding get set
  set-Distinct k v [] h = (refl, tt)
  set-Distinct k v ((j, w) ∷ d) h =
      ground (arith, set-Distinct k v d, get-set j k v d, eq.same_iff k j, eq.same_iff j k)

  -- no value at a key counts, exactly when the sum is 0
  pub sum_zero_get :
      (f : V → ℕ) (d : Dict K V) → sum_values f d ≡ 0 → (k : K) (v : V) → get k d ≡ some v → f v ≡ 0
  unfolding get sum_values
  sum_zero_get f [] z k v h = cc
  sum_zero_get f ((j, w) ∷ d) z k v h = elim (Bool-cases (j == k)) [
    | inl here ↦ let found : some w ≡ some v = rw here at h in ground (arith, found)
    | inr later ↦ sum_zero_get f d (omega arith) k v (rw later at h)
  ]

  pub get_sum_zero :
      (f : V → ℕ) (d : Dict K V)
      → Distinct d
      → ((k : K) (v : V) → get k d ≡ some v → f v ≡ 0)
      → sum_values f d ≡ 0
  unfolding get sum_values
  get_sum_zero f [] u h = refl
  get_sum_zero f ((j, w) ∷ d) u h =
      let first : f w ≡ 0 = h j w (ground (arith, eq.same_iff j j)) in
      omega (arith, first, get_sum_zero f d u.1 rest)
    where
      rest : (k : K) (v : V) → get k d ≡ some v → f v ≡ 0
      rest k v found = h k v (ground (arith, eq.same_iff j k, u.0, found))

  -- the test of it, which a dict with known keys computes
  unfoldable pub distinct : Dict K V → Bool
  distinct [] = true
  distinct ((k, v) ∷ d) = not (has k d) && distinct d

  pub distinct-Distinct : (d : Dict K V) → distinct d ≡ true → Distinct d
  unfolding distinct
  distinct-Distinct [] h = tt
  distinct-Distinct ((k, v) ∷ d) h = elim (Option-cases (get k d)) [
    | inl fresh ↦ (fresh, distinct-Distinct d (ground arith))
    | inr (w, found) ↦ ground arith
  ]

  pub remove-Distinct : (k : K) (d : Dict K V) → Distinct d → Distinct (remove k d)
  unfolding remove
  remove-Distinct k [] h = tt
  remove-Distinct k ((j, w) ∷ d) h =
      ground (arith, remove-Distinct k d h.1, get-remove j k d, eq.same_iff k j, h.0)
