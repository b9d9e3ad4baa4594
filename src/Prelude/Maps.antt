-- ===== src/Prelude/Maps.antt =====
-- Go maps whose keys are texts, as association lists, with the laws of their operations.
use mathlib.Core.Path.{◌≡◌, refl}
use mathlib.Core.Option.{Option, none, some}
use mathlib.Core.List.{List, [], ◌∷◌}
use native.Mathlib.Omega.{arith}
use xqua_go.Prelude.Tests.{if◌then◌else◌}
use xqua_go.Prelude.Text.{Bytes, bytes_eq, bytes_eq_iff}

-- The map operations of the source: `m[k]`, `m[k] = v`, and the copy without `k`.
module _ {ℓ} {V : Type ℓ} where
  unfoldable pub find_key : Bytes → List (Bytes × V) → Option V
  find_key k [] = none
  find_key k ((j, v) ∷ m) = if bytes_eq j k then some v else find_key k m

  unfoldable pub set_key : Bytes → V → List (Bytes × V) → List (Bytes × V)
  set_key k v [] = (k, v) ∷ []
  set_key k v ((j, w) ∷ m) = if bytes_eq j k then (j, v) ∷ m else (j, w) ∷ set_key k v m

  unfoldable pub drop_key : Bytes → List (Bytes × V) → List (Bytes × V)
  drop_key k [] = []
  drop_key k ((j, w) ∷ m) = let rest = drop_key k m in if bytes_eq j k then rest else (j, w) ∷ rest

module _ {ℓ} {V : Type ℓ} where
  pub find_key-set_key :
      (k j : Bytes) (v : V) (m : List (Bytes × V))
      → find_key j (set_key k v m) ≡ (if bytes_eq k j then some v else find_key j m)
  unfolding find_key set_key
  find_key-set_key k j v [] = refl
  find_key-set_key k j v ((i, w) ∷ m) =
      ground (arith, bytes_eq_iff k j, bytes_eq_iff i k, bytes_eq_iff i j, find_key-set_key k j v m)

  pub find_key-drop_key :
      (k j : Bytes) (m : List (Bytes × V))
      → find_key j (drop_key k m) ≡ (if bytes_eq k j then none else find_key j m)
  unfolding find_key drop_key
  find_key-drop_key k j [] = ground arith
  find_key-drop_key k j ((i, w) ∷ m) =
      ground (arith, bytes_eq_iff k j, bytes_eq_iff i k, bytes_eq_iff i j, find_key-drop_key k j m)
