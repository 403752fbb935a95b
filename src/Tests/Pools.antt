-- ===== src/Tests/Pools.antt =====
-- The theorems on hierarchies and on timings, at a pool of two entity types and at short runs.
use cedar_spec.Base.{
  ap, ◌∙◌, All, Bool-cases, leb, ltb, if◌then◌else◌, Option, ℕ, zero, suc, ◌+◌, ◌<◌, ◌≤◌, ◌≡◌, refl,
  ◌⊎◌, inl, inr, true, List, [], ◌∷◌, some, Exec, ok, ℕ_discrete, Ensures, arith, length, get_elem?,
}
use cedar_spec.Hierarchy.{
  Pool, Hierarchy, hierarchy_new, uids, uids_of, drop, position, uids_for_type, pool_of,
  from_uids_by_type, generate_parents, schema_based,
}
use cedar_spec.Hierarchy.Index.{
  IsIndexed, Once, of_type, hierarchy_new-IsIndexed, uids_for_type_lem,
}
use cedar_spec.Hierarchy.Shuffle.{ChoiceLaws, IsRearranged, from_uids_by_type-IsIndexed}
use cedar_spec.Hierarchy.Acyclic.{Ancestor, generate_parents_acyclic}
use cedar_spec.Benchmark.Timing.{
  sum_u128, TimingInfo, SortLaws, IsSorted, IsSummary, from_runs, from_runs-IsSummary, sum,
  u128_mod,
}
use Prim.Native.Nat.{◌%◌}

-- Uids below 10 are of type 0, the others of type 1.
abbrev type_of : ℕ → ℕ
type_of uid = if ltb uid 10 then 0 else 1

-- The last choice below the bound, and an error where there is none.
abbrev last_choice : ℕ → ℕ → ℕ ⊎ (ℕ × ℕ)
last_choice zero u = inl 0
last_choice (suc n) u = inr (n, suc u)

abbrev pool : Pool
pool = record {
  EntityType = ℕ;
  EntityUid = ℕ;
  Entity = ℕ;
  Error = ℕ;
  Unstructured = ℕ;
  type_discrete = ℕ_discrete;
  uid_discrete = ℕ_discrete;
  entity_type = type_of;
  with_uid = λ uid. uid;
  choose_index = last_choice;
  ratio = λ a b u. inr (true, suc u);
}

last_choice-lt :
    (n u : ℕ) {k u' : ℕ} → ◌≡◌ {A = ℕ ⊎ (ℕ × ℕ)} (last_choice n u) (inr (k, u')) → k < n
last_choice-lt zero u h = cc
last_choice-lt (suc n) u h = ground arith

pool-ChoiceLaws : ChoiceLaws pool
pool-ChoiceLaws = record { choose_index-lt = λ n u h. last_choice-lt n u h }

abbrev entities : List (ℕ × ℕ)
entities = (1, 1) ∷ (11, 11) ∷ (2, 2) ∷ (12, 12) ∷ []

entities-Once : Once (uids_of pool entities)
entities-Once = ground arith

abbrev indexed : Hierarchy pool
indexed = hierarchy_new pool entities (0 ∷ 1 ∷ [])

hierarchy_new-IsIndexed_example : IsIndexed pool (hierarchy_new pool entities (0 ∷ 1 ∷ []))
hierarchy_new-IsIndexed_example = hierarchy_new-IsIndexed pool entities (0 ∷ 1 ∷ []) entities-Once

indexed-IsIndexed : IsIndexed pool indexed
indexed-IsIndexed = hierarchy_new-IsIndexed pool entities (0 ∷ 1 ∷ []) entities-Once

position_of_two : position ℕ_discrete 2 (uids pool indexed) ≡ some 2
unfolding hierarchy_new position ℕ_discrete
position_of_two = refl

uids_for_type_lem_example :
    uids_for_type pool indexed 1 2 ≡ ok (of_type pool 1 (drop 3 (uids pool indexed)))
uids_for_type_lem_example = uids_for_type_lem pool indexed 1 2 indexed-IsIndexed position_of_two

abbrev by_type : List (ℕ × List ℕ)
by_type = (0, 1 ∷ 2 ∷ []) ∷ (1, 11 ∷ 12 ∷ []) ∷ []

by_type-Once : Once (pool_of pool by_type)
unfolding pool_of
by_type-Once = ground arith

from_uids_by_type-IsIndexed_example :
    Ensures
      (λ r. IsIndexed pool r.0 × IsRearranged ℕ_discrete (pool_of pool by_type) (uids pool r.0))
      (from_uids_by_type pool by_type 0)
from_uids_by_type-IsIndexed_example =
    from_uids_by_type-IsIndexed pool pool-ChoiceLaws by_type 0 by_type-Once

-- Entities of either type may have parents of type 1.
abbrev allowed_parents : ℕ → Option (List ℕ)
allowed_parents ty = some (1 ∷ [])

abbrev keep_source : ℕ → List ℕ → ℕ → Exec ℕ ℕ
keep_source uid parents u = ok u

generate_parents_acyclic_example :
    Ensures
      (λ r. (a : ℕ) → ¬ Ancestor pool indexed indexed-IsIndexed r.0 a a)
      (generate_parents pool keep_source
        (schema_based allowed_parents)
        indexed
        (uids pool indexed)
        0)
generate_parents_acyclic_example =
    generate_parents_acyclic pool indexed indexed-IsIndexed keep_source (λ a parents u. tt)
      (schema_based allowed_parents) (λ a i. (1 ∷ [], refl)) 0

-- Insertion sort.
abbrev insert_sorted : ℕ → List ℕ → List ℕ
insert_sorted x [] = x ∷ []
insert_sorted x (y ∷ ys) = if leb x y then x ∷ y ∷ ys else y ∷ insert_sorted x ys

abbrev sort : List ℕ → List ℕ
sort [] = []
sort (x ∷ xs) = insert_sorted x (sort xs)

abbrev Ordered : List ℕ → Type 0
Ordered [] = Unit {0}
Ordered (x ∷ xs) = All (λ y. x ≤ y) xs × Ordered xs

All-insert_sorted :
    (z x : ℕ) (ys : List ℕ) → z ≤ x → All (λ y. z ≤ y) ys → All (λ y. z ≤ y) (insert_sorted x ys)
All-insert_sorted z x [] h k = (h, tt)
All-insert_sorted z x (y ∷ ys) h k = elim (Bool-cases (leb x y)) [
  | inl t ↦ rw t (h, k)
  | inr f ↦ rw f (k.0, All-insert_sorted z x ys h k.1)
]

All-le : (z x : ℕ) (ys : List ℕ) → z ≤ x → All (λ y. x ≤ y) ys → All (λ y. z ≤ y) ys
All-le z x [] h k = tt
All-le z x (y ∷ ys) h k = (omega (arith, k.0), All-le z x ys h k.1)

Ordered-insert_sorted : (x : ℕ) (ys : List ℕ) → Ordered ys → Ordered (insert_sorted x ys)
Ordered-insert_sorted x [] o = (tt, tt)
Ordered-insert_sorted x (y ∷ ys) o = elim (Bool-cases (leb x y)) [
  | inl t ↦ let l : x ≤ y = ground arith in rw t ((l, All-le x y ys l o.0), o)
  | inr f ↦
      let l : y ≤ x = ground arith in
      rw f (All-insert_sorted y x ys l o.0, Ordered-insert_sorted x ys o.1)
]

Ordered-sort : (xs : List ℕ) → Ordered (sort xs)
Ordered-sort [] = tt
Ordered-sort (x ∷ xs) = Ordered-insert_sorted x (sort xs) (Ordered-sort xs)

All-get_elem? :
    (z : ℕ) (xs : List ℕ) (i a : ℕ) → All (λ y. z ≤ y) xs → get_elem? xs i ≡ some a → z ≤ a
All-get_elem? z [] i a h e = cc
All-get_elem? z (x ∷ xs) zero a h e = ground (arith, h.0)
All-get_elem? z (x ∷ xs) (suc i) a h e = All-get_elem? z xs i a h.1 e

Ordered-IsSorted : (xs : List ℕ) → Ordered xs → IsSorted xs
Ordered-IsSorted [] o i j a b l e f = cc
Ordered-IsSorted (x ∷ xs) o zero zero a b l e f = ground arith
Ordered-IsSorted (x ∷ xs) o zero (suc j) a b l e f = ground (arith, All-get_elem? x xs j b o.0 f)
Ordered-IsSorted (x ∷ xs) o (suc i) zero a b l e f = absurd (omega arith)
Ordered-IsSorted (x ∷ xs) o (suc i) (suc j) a b l e f =
    Ordered-IsSorted xs o.1 i j a b (omega arith) e f

length-insert_sorted : (x : ℕ) (ys : List ℕ) → length (insert_sorted x ys) ≡ suc (length ys)
length-insert_sorted x [] = refl
length-insert_sorted x (y ∷ ys) = ground (arith, length-insert_sorted x ys)

length-sort : (xs : List ℕ) → length (sort xs) ≡ length xs
length-sort [] = refl
length-sort (x ∷ xs) = omega (arith, length-insert_sorted x (sort xs), length-sort xs)

sum_u128-insert_sorted :
    (x : ℕ) (ys : List ℕ) → sum_u128 (insert_sorted x ys) ≡ (x + sum_u128 ys) % u128_mod
unfolding sum_u128
sum_u128-insert_sorted x [] = refl
sum_u128-insert_sorted x (y ∷ ys) = elim (Bool-cases (leb x y)) [
  | inl t ↦ rw t refl
  | inr f ↦ rw f (omega (arith, sum_u128-insert_sorted x ys))
]

sum_u128-sort : (xs : List ℕ) → sum_u128 (sort xs) ≡ sum_u128 xs
unfolding sum_u128
sum_u128-sort [] = refl
sum_u128-sort (x ∷ xs) =
    sum_u128-insert_sorted x (sort xs) ∙ ap (λ s. (x + s) % u128_mod) (sum_u128-sort xs)

sort-SortLaws : SortLaws sort
sort-SortLaws = record {
  sorted = λ xs. Ordered-IsSorted (sort xs) (Ordered-sort xs);
  length-sort = length-sort;
  sum-sort = sum_u128-sort;
}

abbrev no_deviation : List ℕ → ℕ → ℕ
no_deviation xs average = 0

abbrev timings : List ℕ
timings = 30 ∷ 10 ∷ 20 ∷ 40 ∷ []

timings-lt : sum timings < u128_mod
unfolding sum
timings-lt = omega arith

from_runs-IsSummary_example :
    (t : TimingInfo ℕ) × (from_runs sort no_deviation {E = ℕ} timings ≡ ok t) × IsSummary timings t
from_runs-IsSummary_example =
    from_runs-IsSummary sort no_deviation ℕ sort-SortLaws timings (omega arith) timings-lt
