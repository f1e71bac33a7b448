-- ===== src/Base/Assoc.antt =====
-- A Go map as an association list with one entry for a key. The order of the entries is the order
-- of the first writes; Go's is unspecified, and nothing below depends on it but what says so.
use Prim.Native.Nat.{◌+◌, ◌≤◌}
use mathlib.Core.Path.{◌≡◌, refl}
use mathlib.Core.Logic.{◌≢◌, ◌⊎◌}
use mathlib.Core.Option.{Option, none, some}
use mathlib.Core.List.{List, [], ◌∷◌}
use native.Mathlib.Omega.{arith}
use turnhive.Base.Tests.{Eq, ◌==◌, if◌then◌else◌, is_some}
use turnhive.Base.Lists.{length}

module _ {ℓ κ} {K : Type ℓ} {V : Type κ} ⦃e : Eq K⦄ where
  -- v, ok := m[k]
  unfoldable pub lookup : K → List (K × V) → Option V
  lookup k [] = none
  lookup k ((j, v) ∷ m) = if j == k then some v else lookup k m

  -- m[k] = v
  unfoldable pub insert : K → V → List (K × V) → List (K × V)
  insert k v [] = (k, v) ∷ []
  insert k v ((j, held) ∷ m) = if j == k then (k, v) ∷ m else (j, held) ∷ insert k v m

  -- delete(m, k)
  unfoldable pub remove : K → List (K × V) → List (K × V)
  remove k [] = []
  remove k ((j, held) ∷ m) = let rest = remove k m in if j == k then rest else (j, held) ∷ rest

  pub lookup-insert :
      (k j : K) (v : V) (m : List (K × V))
      → lookup j (insert k v m) ≡ (if k == j then some v else lookup j m)
  unfolding lookup insert
  lookup-insert k j v [] = refl
  lookup-insert k j v ((key, held) ∷ m) =
      ground (arith, e.test_iff k j, e.test_iff key k, e.test_iff key j, lookup-insert k j v m)

  pub lookup-remove :
      (k j : K) (m : List (K × V)) → lookup j (remove k m) ≡ (if k == j then none else lookup j m)
  unfolding lookup remove
  lookup-remove k j [] = ground arith
  lookup-remove k j ((key, held) ∷ m) =
      ground (arith, e.test_iff k j, e.test_iff key k, e.test_iff key j, lookup-remove k j m)

  -- A write adds an entry exactly when the key is new.
  pub length-insert :
      (k : K) (v : V) (m : List (K × V))
      → length (insert k v m) ≡ (if is_some (lookup k m) then length m else length m + 1)
  unfolding lookup insert
  length-insert k v [] = omega arith
  length-insert k v ((key, held) ∷ m) = ground (arith, length-insert k v m)

  pub length-remove-le : (k : K) (m : List (K × V)) → length (remove k m) ≤ length m
  unfolding remove
  length-remove-le k [] = omega arith
  length-remove-le k ((key, held) ∷ m) = ground (arith, length-remove-le k m)

pub ruleset map_laws = (lookup-insert, lookup-remove, length-insert)

module _ {ℓ κ} {K : Type ℓ} {V : Type κ} ⦃e : Eq K⦄ where
  -- A write of a new key is undone by its deletion.
  pub remove-insert :
      (k : K) (v : V) (m : List (K × V)) → lookup k m ≡ none → remove k (insert k v m) ≡ m
  unfolding lookup insert remove
  remove-insert k v [] h = ground (arith, e.test_iff k k)
  remove-insert k v ((key, held) ∷ m) h = ground (arith, e.test_iff key k, remove-insert k v m)

  pub lookup-insert_self : (k : K) (v : V) (m : List (K × V)) → lookup k (insert k v m) ≡ some v
  lookup-insert_self k v m = ground (arith, lookup-insert k k v m, e.test_iff k k)

  pub lookup-insert_ne :
      (k j : K) (v : V) (m : List (K × V)) → k ≢ j → lookup j (insert k v m) ≡ lookup j m
  lookup-insert_ne k j v m h = ground (arith, lookup-insert k j v m, e.test_iff k j)

  -- What is found after a write is the write or was there.
  pub lookup-insert-some :
      (k j : K) (v held : V) (m : List (K × V))
      → lookup j (insert k v m) ≡ some held
      → ((k ≡ j) × (v ≡ held)) ⊎ (lookup j m ≡ some held)
  lookup-insert-some k j v held m h = ground (arith, lookup-insert k j v m, e.test_iff k j)

  pub lookup-remove-some :
      (k j : K) (held : V) (m : List (K × V))
      → lookup j (remove k m) ≡ some held
      → (k ≢ j) × (lookup j m ≡ some held)
  lookup-remove-some k j held m h = ground (arith, lookup-remove k j m, e.test_iff k j)

  pub lookup-remove-none :
      (k j : K) (m : List (K × V)) → lookup j m ≡ none → lookup j (remove k m) ≡ none
  lookup-remove-none k j m h = ground (arith, lookup-remove k j m)
