-- ===== src/Base/Map.antt =====
-- Go maps with string keys, as association lists: `m[k] = v` and the two-valued read.
use mathlib.Core.Path.{◌≡◌, refl}
use mathlib.Core.Logic.{◌≢◌, ◌⊎◌}
use mathlib.Core.Option.{Option, none, some}
use mathlib.Core.List.{List, [], ◌∷◌}
use native.Mathlib.Omega.{arith}
use holochain.Base.Tests.{if◌then◌else◌}
use holochain.Base.ByteStrings.{Bytes, bytes_equal, bytes_equal_iff, bytes_equal_refl}

abbrev pub Map {ℓ} : Type ℓ → Type ℓ
Map V = List (Bytes × V)

module _ {ℓ} {V : Type ℓ} where
  unfoldable pub lookup : Bytes → Map V → Option V
  lookup k [] = none
  lookup k ((j, v) ∷ m) = if bytes_equal j k then some v else lookup k m

  unfoldable pub insert : Bytes → V → Map V → Map V
  insert k v [] = (k, v) ∷ []
  insert k v ((j, w) ∷ m) = if bytes_equal j k then (k, v) ∷ m else (j, w) ∷ insert k v m

  unfoldable pub delete : Bytes → Map V → Map V
  delete k [] = []
  delete k ((j, w) ∷ m) = let rest = delete k m in if bytes_equal j k then rest else (j, w) ∷ rest

  pub lookup-insert :
      (k j : Bytes) (v : V) (m : Map V)
      → lookup j (insert k v m) ≡ (if bytes_equal k j then some v else lookup j m)
  unfolding lookup insert
  lookup-insert k j v [] = refl
  lookup-insert k j v ((i, w) ∷ m) =
      ground (
        arith,
        bytes_equal_iff k j,
        bytes_equal_iff i k,
        bytes_equal_iff i j,
        lookup-insert k j v m,
      )

  pub lookup-delete :
      (k j : Bytes) (m : Map V)
      → lookup j (delete k m) ≡ (if bytes_equal k j then none else lookup j m)
  unfolding lookup delete
  lookup-delete k j [] = ground arith
  lookup-delete k j ((i, w) ∷ m) =
      ground
        (arith, bytes_equal_iff k j, bytes_equal_iff i k, bytes_equal_iff i j, lookup-delete k j m)

module _ {ℓ} {V : Type ℓ} (k : Bytes) (v : V) (m : Map V) where
  pub lookup-insert_same : lookup k (insert k v m) ≡ some v
  lookup-insert_same = ground (arith, lookup-insert k k v m, bytes_equal_refl k)

  pub lookup-insert_apart : (j : Bytes) → k ≢ j → lookup j (insert k v m) ≡ lookup j m
  lookup-insert_apart j apart = ground (arith, lookup-insert k j v m, bytes_equal_iff k j)

  pub insert-cases :
      (j : Bytes) {w : V}
      → lookup j (insert k v m) ≡ some w
      → ((k ≡ j) × (w ≡ v)) ⊎ (lookup j m ≡ some w)
  insert-cases j h = ground (arith, lookup-insert k j v m, bytes_equal_iff k j)

pub ruleset map_laws = (lookup-insert, lookup-delete)
