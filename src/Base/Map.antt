-- ===== src/Base/Map.antt =====
-- Go's `map[K]V` as an association list in which a key stands at most once.
use mathlib.Core.Path.{◌≡◌, refl}
use mathlib.Core.List.{List, [], ◌∷◌}
use mathlib.Core.Option.{Option, none, some}
use mathlib.Core.Logic.{◌⊎◌, inl, inr}
use Prim.Native.Nat.{◌+◌, ◌≤◌, ◌<◌}
use zju_portal_core.Base.Lists.{length}
use native.Mathlib.Omega.{arith}
use zju_portal_core.Base.Tests.{Comparable, ◌==◌, if◌then◌else◌}

module _ {ℓ κ} {K : Type ℓ} {V : Type κ} ⦃e : Comparable K⦄ where
  unfoldable pub lookup : K → List (K × V) → Option V
  lookup k [] = none
  lookup k ((j, v) ∷ m) = if j == k then some v else lookup k m

  unfoldable pub insert : K → V → List (K × V) → List (K × V)
  insert k v [] = (k, v) ∷ []
  insert k v ((j, w) ∷ m) = if j == k then (j, v) ∷ m else (j, w) ∷ insert k v m

  unfoldable pub delete : K → List (K × V) → List (K × V)
  delete k [] = []
  delete k ((j, v) ∷ m) = if j == k then delete k m else (j, v) ∷ delete k m

  pub lookup-insert :
      (key other : K) (new : V) (entries : List (K × V))
      → lookup other (insert key new entries)
        ≡ (if key == other then some new else lookup other entries)
  unfolding lookup insert
  lookup-insert key other new [] = refl
  lookup-insert key other new ((head, old) ∷ entries) = ground (
    arith,
    e.test_iff key other,
    e.test_iff head key,
    e.test_iff head other,
    lookup-insert key other new entries,
  )

  pub lookup-delete :
      (k j : K) (m : List (K × V)) → lookup j (delete k m) ≡ (if k == j then none else lookup j m)
  unfolding lookup delete
  lookup-delete k j [] = ground arith
  lookup-delete k j ((i, w) ∷ m) =
      ground (arith, e.test_iff k j, e.test_iff i k, e.test_iff i j, lookup-delete k j m)

  pub length-delete_le : (k : K) (m : List (K × V)) → length (delete k m) ≤ length m
  unfolding delete
  length-delete_le k [] = omega arith
  length-delete_le k ((j, v) ∷ m) = ground (arith, length-delete_le k m)

  -- A key that is there takes an entry with it.
  pub length-delete-lt :
      (k : K) (v : V) (m : List (K × V)) → lookup k m ≡ some v → length (delete k m) < length m
  unfolding delete lookup
  length-delete-lt k v [] h = cc
  length-delete-lt k v ((j, w) ∷ m) h = ground (arith, length-delete_le k m, length-delete-lt k v m)

  pub length-insert_le : (k : K) (v : V) (m : List (K × V)) → length (insert k v m) ≤ length m + 1
  unfolding insert
  length-insert_le k v [] = omega arith
  length-insert_le k v ((j, w) ∷ m) = ground (arith, length-insert_le k v m)

  -- No key stands twice.
  abbrev pub IsMap : List (K × V) → Type κ
  IsMap [] = Unit
  IsMap ((k, v) ∷ m) = (lookup k m ≡ none) × IsMap m

  pub insert-IsMap : (k : K) (v : V) (m : List (K × V)) → IsMap m → IsMap (insert k v m)
  unfolding insert lookup
  insert-IsMap k v [] h = (refl, tt)
  insert-IsMap k v ((j, w) ∷ m) h =
      ground (arith, e.test_iff k j, e.test_iff j k, lookup-insert k j v m, insert-IsMap k v m h.1)

  pub delete-IsMap : (k : K) (m : List (K × V)) → IsMap m → IsMap (delete k m)
  unfolding delete
  delete-IsMap k [] h = tt
  delete-IsMap k ((j, w) ∷ m) h = ground (arith, lookup-delete k j m, delete-IsMap k m h.1)

  -- An entry of the list.
  abbrev pub HasEntry : K → V → List (K × V) → Type (ℓ ⊔ κ)
  HasEntry k v [] = ⊥ × Unit
  HasEntry k v ((j, w) ∷ m) = ((j ≡ k) × (w ≡ v)) ⊎ HasEntry k v m

  pub lookup-HasEntry :
      (k : K) (v : V) (m : List (K × V)) → IsMap m → HasEntry k v m → lookup k m ≡ some v
  unfolding lookup
  lookup-HasEntry k v [] d i = absurd i.0
  lookup-HasEntry k v ((j, w) ∷ m) d (inl h) = ground (arith, e.test_iff j k)
  lookup-HasEntry k v ((j, w) ∷ m) d (inr i) =
      ground (arith, e.test_iff j k, lookup-HasEntry k v m d.1 i)
