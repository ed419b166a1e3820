-- ===== src/Base/Dict.antt =====
-- Python's `dict`, with its insertion order, as an association list.
pub mod Distinct
use mathlib.Core.Path.{◌≡◌, refl}
use mathlib.Core.Bool.{Bool}
use mathlib.Core.Option.{Option, none, some}
use mathlib.Core.List.{List, [], ◌∷◌}
use native.Mathlib.Omega.{arith}
use beyond_kvtransfer.Base.Tests.{if◌then◌else◌, is_some}
use beyond_kvtransfer.Base.Equality.{Eq, ◌==◌}

abbrev pub Dict {ℓ κ} : Type ℓ → Type κ → Type (ℓ ⊔ κ)
Dict K V = List (K × V)

abbrev pub or_else {ℓ} : {A : Type ℓ} → Option A → A → A
or_else none d = d
or_else (some a) d = a

module _ {ℓ κ} {K : Type ℓ} {V : Type κ} ⦃e : Eq K⦄ where
  -- `d.get(k)`
  unfoldable pub get : K → Dict K V → Option V
  get k [] = none
  get k ((j, v) ∷ d) = if j == k then some v else get k d

  -- `d[k] = v`: the place of a key that is there stays
  unfoldable pub set : K → V → Dict K V → Dict K V
  set k v [] = (k, v) ∷ []
  set k v ((j, w) ∷ d) = if j == k then (j, v) ∷ d else (j, w) ∷ set k v d

  -- `d.setdefault(k, v)`
  unfoldable pub setdefault : K → V → Dict K V → Dict K V
  setdefault k v [] = (k, v) ∷ []
  setdefault k v ((j, w) ∷ d) = if j == k then (j, w) ∷ d else (j, w) ∷ setdefault k v d

  -- `d.update(other)`
  unfoldable pub update : Dict K V → Dict K V → Dict K V
  update d [] = d
  update d ((k, v) ∷ other) = update (set k v d) other

  -- `d.pop(k, None)`, without the value
  unfoldable pub remove : K → Dict K V → Dict K V
  remove k [] = []
  remove k ((j, w) ∷ d) = let rest = remove k d in if j == k then rest else (j, w) ∷ rest

  -- `k in d`
  abbrev pub has : K → Dict K V → Bool
  has k d = is_some (get k d)

  pub get-set :
      (j k : K) (v : V) (d : Dict K V) → get j (set k v d) ≡ (if k == j then some v else get j d)
  unfolding get set
  get-set j k v [] = refl
  get-set j k v ((i, w) ∷ d) =
      ground (arith, e.same_iff k j, e.same_iff i k, e.same_iff i j, get-set j k v d)

  pub get-setdefault :
      (j k : K) (v : V) (d : Dict K V)
      → get j (setdefault k v d) ≡ (if k == j then some (or_else (get k d) v) else get j d)
  unfolding get setdefault
  get-setdefault j k v [] = refl
  get-setdefault j k v ((i, w) ∷ d) =
      ground (arith, e.same_iff k j, e.same_iff i k, e.same_iff i j, get-setdefault j k v d)

  pub get-remove :
      (j k : K) (d : Dict K V) → get j (remove k d) ≡ (if k == j then none else get j d)
  unfolding get remove
  get-remove j k [] = ground arith
  get-remove j k ((i, w) ∷ d) =
      ground (arith, e.same_iff k j, e.same_iff i k, e.same_iff i j, get-remove j k d)

  -- an update that does not name a key leaves it
  pub get-update_absent :
      (j : K) (d other : Dict K V) → get j other ≡ none → get j (update d other) ≡ get j d
  unfolding get update
  get-update_absent j d [] h = refl
  get-update_absent j d ((k, v) ∷ other) h =
      ground (arith, get-update_absent j (set k v d) other, get-set j k v d)
