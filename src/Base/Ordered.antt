-- ===== src/Base/Ordered.antt =====
-- Ordered collections: a `BTreeMap` or a `BTreeSet` is the list of its entries, in the order of
-- iteration.
use Prim.Native.Nat.{Ordering}
use mathlib.Core.List.{List, [], ◌∷◌}
use mathlib.Core.Path.{◌≡◌, refl}
use native.Mathlib.Omega.{arith}

-- An order on the entries of a map, from one on its keys.
abbrev pub by_first : {K V : Type 0} → (K → K → Ordering) → K × V → K × V → Ordering
by_first cmp (k, v) (j, w) = cmp k j

module _ {A : Type 0} (cmp : A → A → Ordering) where
  -- An entry before those collected so far; one that follows it in the sequence replaces it.
  unfoldable pub collect_entry : A → List A → List A
  collect_entry a [] = a ∷ []
  collect_entry a (b ∷ xs) = elim (cmp a b) [
    | Ordering.lt ↦ a ∷ b ∷ xs
    | Ordering.eq ↦ b ∷ xs
    | Ordering.gt ↦ b ∷ collect_entry a xs
  ]

  -- `BTreeMap::from_iter` and `BTreeSet::from_iter`
  unfoldable pub collect_ordered : List A → List A
  collect_ordered [] = []
  collect_ordered (a ∷ xs) = collect_entry a (collect_ordered xs)

  abbrev pub Precedes : A → List A → Type 0
  Precedes a [] = Unit
  Precedes a (b ∷ xs) = cmp a b ≡ Ordering.lt

  abbrev pub IsAscending : List A → Type 0
  IsAscending [] = Unit
  IsAscending (a ∷ xs) = Precedes a xs × IsAscending xs

  collect_entry-Precedes : (a : A) (xs : List A) → Precedes a xs → collect_entry a xs ≡ a ∷ xs
  unfolding collect_entry
  collect_entry-Precedes a [] p = refl
  collect_entry-Precedes a (b ∷ xs) p = ground arith

  -- The entries of an ordered collection, collected again, are that collection.
  pub collect_ordered-IsAscending : (xs : List A) → IsAscending xs → collect_ordered xs ≡ xs
  unfolding collect_ordered
  collect_ordered-IsAscending [] h = refl
  collect_ordered-IsAscending (a ∷ xs) h =
      rw (collect_ordered-IsAscending xs h.1) (collect_entry-Precedes a xs h.0)
