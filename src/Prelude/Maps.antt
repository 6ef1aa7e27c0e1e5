-- ===== src/Prelude/Maps.antt =====
-- A `BTreeMap` with numbers for keys, of which only single keys are looked at: an association list.
use os_resources.Prelude.Tests.{◌==◌, if◌then◌else◌}
use Prim.Native.Nat.{ℕ}
use mathlib.Core.Path.{◌≡◌, refl}
use mathlib.Core.Option.{Option, none, some}
use mathlib.Core.List.{List, [], ◌∷◌}
use native.Mathlib.Omega.{arith}

module _ {ℓ} {V : Type ℓ} where
  -- `get` and `get_mut`.
  unfoldable pub get : ℕ → List (ℕ × V) → Option V
  get k [] = none
  get k ((j, v) ∷ m) = if k == j then some v else get k m

  -- `insert`, without the old value that it returns.
  unfoldable pub insert : ℕ → V → List (ℕ × V) → List (ℕ × V)
  insert k v m = (k, v) ∷ m

  unfoldable pub remove : ℕ → List (ℕ × V) → List (ℕ × V)
  remove k [] = []
  remove k ((j, v) ∷ m) = let rest = remove k m in if k == j then rest else (j, v) ∷ rest

  pub get-insert :
      (k j : ℕ) (v : V) (m : List (ℕ × V))
      → get j (insert k v m) ≡ (if j == k then some v else get j m)
  unfolding get insert
  get-insert k j v m = refl

  pub get-remove :
      (k j : ℕ) (m : List (ℕ × V)) → get j (remove k m) ≡ (if j == k then none else get j m)
  unfolding get remove
  get-remove k j [] = ground arith
  get-remove k j ((i, v) ∷ m) = ground (arith, get-remove k j m)
