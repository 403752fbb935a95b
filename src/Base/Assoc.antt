-- ===== src/Base/Assoc.antt =====
-- Hash maps and hash sets over keys with a decidable equality: a map is the list of its entries
-- in an order of iteration, a set the list of its elements.
use Prim.Native.Nat.{◌≤◌}
use mathlib.Core.Bool.{Bool, true, false, ◌||◌}
use mathlib.Core.List.{List, [], ◌∷◌}
use mathlib.Core.Logic.{ite, if_pos, if_neg}
use mathlib.Core.Option.{Option, none, some}
use mathlib.Core.Path.{◌≡◌, refl, subst}
use native.Mathlib.Omega.{arith}
use cedar_spec.Base.Tests.{test}
use cedar_spec.Base.Lists.{All, length}

module _ {K : Type 0} (dec : Discrete K) where
  -- `set.contains(a)` and `set.insert(a)`
  unfoldable pub contains : K → List K → Bool
  contains a [] = false
  contains a (x ∷ xs) = test (dec x a) || contains a xs

  unfoldable pub insert_elem : K → List K → List K
  insert_elem a xs = elim (contains a xs) [ true ↦ xs | false ↦ a ∷ xs ]

  pub contains-insert_elem :
      (a b : K) (xs : List K) → contains b (insert_elem a xs) ≡ (test (dec a b) || contains b xs)
  unfolding insert_elem contains
  contains-insert_elem a b xs = ground arith

module _ {K V : Type 0} (dec : Discrete K) where
  -- `map.get(k)`
  unfoldable pub lookup : K → List (K × V) → Option V
  lookup k [] = none
  lookup k ((j, v) ∷ m) = ite (dec j k) (some v) (lookup k m)

  -- `map.insert(k, v)`
  unfoldable pub insert : K → V → List (K × V) → List (K × V)
  insert k v [] = (k, v) ∷ []
  insert k v ((j, w) ∷ m) = ite (dec j k) ((k, v) ∷ m) ((j, w) ∷ insert k v m)

  -- `map.remove(k)`
  unfoldable pub remove : K → List (K × V) → List (K × V)
  remove k [] = []
  remove k ((j, w) ∷ m) = ite (dec j k) (remove k m) ((j, w) ∷ remove k m)

  -- No key twice.
  abbrev pub Distinct : List (K × V) → Type 0
  Distinct [] = Unit
  Distinct ((k, v) ∷ m) = (lookup k m ≡ none) × Distinct m

  pub lookup-insert :
      (k j : K) (v : V) (m : List (K × V))
      → lookup j (insert k v m) ≡ ite (dec k j) (some v) (lookup j m)
  unfolding lookup insert
  lookup-insert k j v [] = refl
  lookup-insert k j v ((i, w) ∷ m) = ground (arith, lookup-insert k j v m)

  pub insert-Distinct : (k : K) (v : V) (m : List (K × V)) → Distinct m → Distinct (insert k v m)
  unfolding lookup insert
  insert-Distinct k v [] d = (refl, tt)
  insert-Distinct k v ((j, w) ∷ m) d =
      ground (arith, insert-Distinct k v m d.1, lookup-insert k j v m)

  pub insert-All :
      (P : K × V → Type 0) (k : K) (v : V) (m : List (K × V))
      → P (k, v)
      → All P m
      → All P (insert k v m)
  unfolding insert
  insert-All P k v [] p a = (p, tt)
  insert-All P k v ((j, w) ∷ m) p a = elim (dec j k) [
    | yes e ↦ rw (if_pos _ e) (p, a.1)
    | no n ↦ rw (if_neg _ n) (a.0, insert-All P k v m p a.1)
  ]

  pub lookup-All :
      (P : K × V → Type 0) (k : K) (m : List (K × V)) {v : V}
      → All P m
      → lookup k m ≡ some v
      → P (k, v)
  unfolding lookup
  lookup-All P k [] a e = cc
  lookup-All P k ((j, w) ∷ m) a e = elim (dec j k) [
    | yes h ↦ subst P (ground arith) a.0
    | no n ↦ lookup-All P k m a.1 (ground arith)
  ]

  pub lookup-remove :
      (k j : K) (m : List (K × V)) → lookup j (remove k m) ≡ ite (dec k j) none (lookup j m)
  unfolding lookup remove
  lookup-remove k j [] = ground arith
  lookup-remove k j ((i, w) ∷ m) = ground (arith, lookup-remove k j m)

  pub length-remove-le : (k : K) (m : List (K × V)) → length (remove k m) ≤ length m
  unfolding remove
  length-remove-le k [] = omega arith
  length-remove-le k ((i, w) ∷ m) = ground (arith, length-remove-le k m)
