-- ===== src/Hierarchy/Shuffle.antt =====
-- cedar-policy-generators/src/hierarchy.rs: `from_uids_by_type` makes a pool with each given uid once,
-- in a shuffled order, and a hierarchy that is indexed.
use cedar_spec.Base.{
  ℕ, zero, suc, ◌+◌, ◌-◌, ◌≤◌, ◌<◌, ◌≡◌, refl, sym, subst, ap, ◌∙◌, ◌⊎◌, inl, inr, List, [], ◌∷◌,
  ◌++◌, map, some, length, get_elem?, get_elem?-some, In, In-append, arith, Ensures, Ensures-bind,
  Ensures-mono,
}
use mathlib.Core.List.{append_assoc, append-nil}
use mathlib.Core.Logic.{ite}
use cedar_spec.Base.Assoc.{insert}
use cedar_spec.Hierarchy.{
  Pool, uids, uids_of, set, swap, shuffle, pool_of, collect_uids, hierarchy_new, from_uids_by_type,
  attempt',
}
use cedar_spec.Hierarchy.Index.{IsIndexed, hierarchy_new-IsIndexed, Once}

module _ {A : Type 0} (dec : Discrete A) where
  abbrev one : A → A → ℕ
  one x a = ite (dec x a) 1 0

  -- How often `a` stands in a list.
  unfoldable pub count : A → List A → ℕ
  count a [] = 0
  count a (x ∷ xs) = one x a + count a xs

  count-set :
      (a : A) (xs : List A) (i : ℕ) (x v : A)
      → get_elem? xs i ≡ some x
      → count a (set xs i v) + one x a ≡ count a xs + one v a
  unfolding count
  count-set a [] i x v e = cc
  count-set a (y ∷ xs) zero x v e = ground arith
  count-set a (y ∷ xs) (suc i) x v e = omega (arith, count-set a xs i x v e)

  get_elem?-set_keeps :
      (xs : List A) (i j : ℕ) (x y : A)
      → get_elem? xs i ≡ some x
      → get_elem? xs j ≡ some y
      → get_elem? (set xs i y) j ≡ some y
  get_elem?-set_keeps [] i j x y e f = cc
  get_elem?-set_keeps (z ∷ xs) zero zero x y e f = refl
  get_elem?-set_keeps (z ∷ xs) zero (suc j) x y e f = f
  get_elem?-set_keeps (z ∷ xs) (suc i) zero x y e f = f
  get_elem?-set_keeps (z ∷ xs) (suc i) (suc j) x y e f = get_elem?-set_keeps xs i j x y e f

  length-set : (xs : List A) (i : ℕ) (v : A) → length (set xs i v) ≡ length xs
  length-set [] i v = refl
  length-set (x ∷ xs) zero v = refl
  length-set (x ∷ xs) (suc i) v = ap suc (length-set xs i v)

  -- The same elements, as often.
  pub record IsRearranged (xs ys : List A) : Type 0 where
    pub same_length : length ys ≡ length xs
    pub same_count : (a : A) → count a ys ≡ count a xs

  swap-IsRearranged :
      (E : Type 0) (xs : List A) (i j : ℕ)
      → i < length xs
      → j < length xs
      → Ensures {E = E} (IsRearranged xs) (swap xs i j)
  unfolding swap
  swap-IsRearranged E xs i j h k =
      let (x, e) = get_elem?-some xs i h in
      let (y, f) = get_elem?-some xs j k in
      rw (e, f)
        (record {
          same_length = length-set (set xs i y) j x ∙ length-set xs i y;
          same_count = λ a. omega (
            arith,
            count-set a xs i x y e,
            count-set a (set xs i y) j y x (get_elem?-set_keeps xs i j x y e f),
          );
        })

  In-count : (a : A) (xs : List A) → In a xs → 1 ≤ count a xs
  unfolding count
  In-count a [] i = absurd i
  In-count a (x ∷ xs) (inl e) = ground arith
  In-count a (x ∷ xs) (inr i) = omega (arith, In-count a xs i)

  count-In : (a : A) (xs : List A) → 1 ≤ count a xs → In a xs
  unfolding count
  count-In a [] h = absurd (omega arith)
  count-In a (x ∷ xs) h = ground (arith, count-In a xs)

  count-absent : (a : A) (xs : List A) → ¬ In a xs → count a xs ≡ 0
  unfolding count
  count-absent a [] n = refl
  count-absent a (x ∷ xs) n = ground (arith, count-absent a xs (λ i. n (inr i)))

  Once-count : (a : A) (xs : List A) → Once xs → count a xs ≤ 1
  unfolding count
  Once-count a [] o = omega arith
  Once-count a (x ∷ xs) o = elim (dec x a) [
    | yes p ↦ ground (arith, count-absent a xs (subst (λ t. ¬ In t xs) p o.0))
    | no n ↦ ground (arith, Once-count a xs o.1)
  ]

  count-Once : (xs : List A) → ((a : A) → count a xs ≤ 1) → Once xs
  unfolding count
  count-Once [] h = tt
  count-Once (x ∷ xs) h =
      (λ i. ground (arith, In-count x xs i, h x), count-Once xs (λ a. omega (arith, h a)))

  IsRearranged-Once : (xs ys : List A) → IsRearranged xs ys → Once xs → Once ys
  IsRearranged-Once xs ys r o =
      count-Once ys (λ a. omega (arith, r.same_count a, Once-count a xs o))

-- The crate documents that a chosen index is below the bound that was given.
pub record ChoiceLaws (c : Pool) : Type 0 where
  pub choose_index-lt :
      (n : ℕ) (u : c.Unstructured) {k : ℕ} {u' : c.Unstructured}
      → c.choose_index n u ≡ inr (k, u')
      → k < n

module _ (c : Pool) (laws : ChoiceLaws c) where
  open c use {EntityType, EntityUid, Entity, Error, Unstructured}

  abbrev Rearranged : List EntityUid → List EntityUid → Type 0
  Rearranged = IsRearranged c.uid_discrete

  chosen : (n : ℕ) (u : Unstructured) → Ensures (λ r. r.0 < n) (attempt' (c.choose_index n u))
  chosen n u = go (c.choose_index n u) refl
    where
      go :
          (m : Error ⊎ (ℕ × Unstructured))
          → c.choose_index n u ≡ m
          → Ensures (λ r. r.0 < n) (attempt' m)
      go (inl e) q = tt
      go (inr (k, u')) q = laws.choose_index-lt n u q

  -- The shuffle does not index out of bounds, and it loses no uid and makes none up.
  shuffle-IsRearranged :
      (rounds i : ℕ) (pool : List EntityUid) (u : Unstructured)
      → i + rounds ≡ length pool
      → Ensures (λ r. Rearranged pool r.0) (shuffle c rounds i pool u)
  unfolding shuffle
  shuffle-IsRearranged zero i pool u h = record { same_length = refl; same_count = λ a. refl }
  shuffle-IsRearranged (suc rounds) i pool u h =
      Ensures-bind (λ r. r.0 < length pool - i) (λ r. Rearranged pool r.0) _ _
        (chosen (length pool - i) u)
        (λ (k, u') _ l.
          Ensures-bind (Rearranged pool) (λ r. Rearranged pool r.0) _ _
            (swap-IsRearranged c.uid_discrete Error pool i (i + k) (omega arith) (omega arith))
            (λ pool' _ s.
              Ensures-mono (λ r. Rearranged pool' r.0) (λ r. Rearranged pool r.0) _
                (λ r _ t. record {
                  same_length = t.same_length ∙ s.same_length;
                  same_count = λ a. t.same_count a ∙ s.same_count a;
                })
                (shuffle-IsRearranged rounds (suc i) pool' u' (omega (arith, s.same_length)))))

  uids-insert :
      (uid : EntityUid) (e : Entity) (m : List (EntityUid × Entity))
      → ¬ In uid (uids_of c m)
      → uids_of c (insert c.uid_discrete uid e m) ≡ uids_of c m ++ (uid ∷ [])
  unfolding insert
  uids-insert uid e [] n = refl
  uids-insert uid e ((k, v) ∷ m) n = ground (arith, uids-insert uid e m (λ i. n (inr i)))

  -- Collecting different uids keeps them all, in their order.
  uids-collect_uids :
      (pool : List EntityUid) (m : List (EntityUid × Entity))
      → Once pool
      → ((a : EntityUid) → In a pool → ¬ In a (uids_of c m))
      → uids_of c (collect_uids c pool m) ≡ uids_of c m ++ pool
  unfolding collect_uids
  uids-collect_uids [] m o n = sym (append-nil _)
  uids-collect_uids (uid ∷ pool) m o n =
      let added = uids-insert uid (c.with_uid uid) m (n uid (inl refl)) in
      uids-collect_uids pool (insert c.uid_discrete uid (c.with_uid uid) m) o.1 (λ a i j.
        elim ((In-append a (uids_of c m) (uid ∷ [])).0 (subst (In a) added j)) [
          | inl old ↦ n a (inr i) old
          | inr new ↦ elim new [ inl eq ↦ o.0 (subst (λ t. In t pool) eq i) | inr b ↦ b ]
        ])
      ∙ ap (λ l. l ++ pool) added
      ∙ append_assoc (uids_of c m) (uid ∷ []) pool

  -- From sets of uids that have no uid in common, and where a chosen index is below its bound,
  -- `from_uids_by_type` does not panic, and makes an indexed hierarchy that holds each of the uids
  -- once and no other.
  pub from_uids_by_type-IsIndexed :
      (m : List (EntityType × List EntityUid)) (u : Unstructured)
      → Once (pool_of c m)
      → Ensures
          (λ r. IsIndexed c r.0 × IsRearranged c.uid_discrete (pool_of c m) (uids c r.0))
          (from_uids_by_type c m u)
  unfolding from_uids_by_type hierarchy_new
  from_uids_by_type-IsIndexed m u o =
      Ensures-bind (λ r. Rearranged (pool_of c m) r.0) _ _ _
        (shuffle-IsRearranged (length (pool_of c m)) 0 (pool_of c m) u (omega arith))
        (λ (pool, u') _ r.
          let once = IsRearranged-Once c.uid_discrete (pool_of c m) pool r o in
          let same = uids-collect_uids pool [] once (λ a i j. j) in
          (
            hierarchy_new-IsIndexed c (collect_uids c pool []) (map (λ e. e.0) m)
                (subst Once (sym same) once),
            subst (Rearranged (pool_of c m)) (sym same) r,
          ))
