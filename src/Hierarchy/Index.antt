-- ===== src/Hierarchy/Index.antt =====
-- cedar-policy-generators/src/hierarchy.rs: the index by type holds, for each type, the uids of that
-- type in the order of the pool, and `uids_for_type` returns those that come after an entity.
use cedar_spec.Base.{
  ℕ, zero, suc, ◌≤◌, ◌<◌, ◌≡◌, refl, sym, subst, ap, ◌∙◌, inl, inr, Bool, true, false, List, [],
  ◌∷◌, ◌++◌, some, ok, if◌then◌else◌, test, In, Option-cases, arith,
}
use mathlib.Core.Option.{get_or}
use mathlib.Core.List.{append_assoc, append-nil}
use cedar_spec.Base.Assoc.{lookup, insert, lookup-insert}
use cedar_spec.Hierarchy.{
  Pool, Hierarchy, hierarchy_new, uids, drop, position, index_of, push_entry, index_uids,
  declare_types, replace_entities, uids_for_type, skip_until, uids_of,
}

module _ {A : Type 0} where
  abbrev pub take : ℕ → List A → List A
  take zero xs = []
  take (suc n) [] = []
  take (suc n) (x ∷ xs) = x ∷ take n xs

  pub take-append-drop : (n : ℕ) (xs : List A) → take n xs ++ drop n xs ≡ xs
  take-append-drop zero xs = refl
  take-append-drop (suc n) [] = refl
  take-append-drop (suc n) (x ∷ xs) = ap (◌∷◌ x) (take-append-drop n xs)

  -- No element stands twice.
  abbrev pub Once : List A → Type 0
  Once [] = Unit
  Once (x ∷ xs) = (¬ In x xs) × Once xs

  pub In-drop : (n : ℕ) (x : A) (xs : List A) → In x (drop n xs) → In x xs
  In-drop zero x xs h = h
  In-drop (suc n) x [] h = absurd h
  In-drop (suc n) x (y ∷ xs) h = inr (In-drop n x xs h)

  module _ (dec : Discrete A) where
    pub position-take :
        (n : ℕ) (x : A) (xs : List A)
        → In x (take n xs)
        → (i : ℕ) × (position dec x xs ≡ some i) × (i < n)
    unfolding position
    position-take zero x xs h = absurd h
    position-take (suc n) x [] h = absurd h
    position-take (suc n) x (y ∷ xs) (inl e) = (0, ground arith, omega arith)
    position-take (suc n) x (y ∷ xs) (inr i) =
        let (j, e, l) = position-take n x xs i in
        elim (dec y x) [
          | yes p ↦ (0, ground arith, omega arith)
          | no p ↦ (suc j, ground arith, omega arith)
        ]

    pub position-In : (x : A) (xs : List A) → In x xs → (i : ℕ) × (position dec x xs ≡ some i)
    unfolding position
    position-In x [] h = absurd h
    position-In x (y ∷ xs) (inl e) = (0, ground arith)
    position-In x (y ∷ xs) (inr i) =
        let (j, e) = position-In x xs i in
        elim (dec y x) [ yes p ↦ (0, ground arith) | no p ↦ (suc j, ground arith) ]

    pub position-drop :
        (n : ℕ) (x : A) (xs : List A)
        → Once xs
        → In x (drop n xs)
        → (i : ℕ) × (position dec x xs ≡ some i) × (n ≤ i)
    unfolding position
    position-drop zero x xs o h = let (i, e) = position-In x xs h in (i, e, omega arith)
    position-drop (suc n) x [] o h = absurd h
    position-drop (suc n) x (y ∷ xs) o h =
        let (j, e, l) = position-drop n x xs o.1 h in
        elim (dec y x) [
          | yes p ↦ absurd (o.0 (subst (λ t. In t xs) (sym p) (In-drop n x xs h)))
          | no p ↦ (suc j, ground arith, omega arith)
        ]

right_nil : {A : Type 0} (xs ys : List A) → xs ++ ys ≡ [] → ys ≡ []
right_nil [] ys h = h
right_nil (x ∷ xs) ys h = cc

push_if :
    {A : Type 0} (b : Bool) (l : List A) (x : A) (r : List A)
    → (if b then l ++ (x ∷ []) else l) ++ r ≡ l ++ (if b then x ∷ r else r)
push_if true l x r = append_assoc l (x ∷ []) r
push_if false l x r = refl

module _ (c : Pool) where
  open c use {EntityType, EntityUid, Entity, Error}

  -- The uids of a type, in their order.
  unfoldable pub of_type : EntityType → List EntityUid → List EntityUid
  of_type ty [] = []
  of_type ty (uid ∷ uids') =
      let rest = of_type ty uids' in
      if test (c.type_discrete (c.entity_type uid) ty) then uid ∷ rest else rest

  pub of_type-append :
      (ty : EntityType) (xs ys : List EntityUid)
      → of_type ty (xs ++ ys) ≡ of_type ty xs ++ of_type ty ys
  unfolding of_type
  of_type-append ty [] ys = refl
  of_type-append ty (x ∷ xs) ys = ground (arith, of_type-append ty xs ys)

  pub In-of_type :
      (ty : EntityType) (x : EntityUid) (xs : List EntityUid) → In x (of_type ty xs) → In x xs
  unfolding of_type
  In-of_type ty x [] h = absurd h
  In-of_type ty x (y ∷ xs) h = ground (arith, In-of_type ty x xs)

  -- What the index lists for a type.
  abbrev pub listed : List (EntityType × List EntityUid) → EntityType → List EntityUid
  listed m ty = get_or (lookup c.type_discrete ty m) []

  -- The invariant of a hierarchy: no uid twice, and an index in the order of the entities.
  pub record IsIndexed (h : Hierarchy c) : Type 0 where
    pub once : Once (uids c h)
    pub by_type : (ty : EntityType) → listed h.uids_by_type ty ≡ of_type ty (uids c h)

  listed-push_entry :
      (ty t : EntityType) (uid : EntityUid) (m : List (EntityType × List EntityUid))
      → listed (push_entry c ty uid m) t
        ≡ (if test (c.type_discrete ty t) then listed m t ++ (uid ∷ []) else listed m t)
  unfolding push_entry lookup
  listed-push_entry ty t uid [] = ground arith
  listed-push_entry ty t uid ((s, found) ∷ m) = ground (arith, listed-push_entry ty t uid m)

  listed-index_uids :
      (t : EntityType) (us : List EntityUid) (m : List (EntityType × List EntityUid))
      → listed (index_uids c us m) t ≡ listed m t ++ of_type t us
  unfolding index_uids of_type
  listed-index_uids t [] m = sym (append-nil _)
  listed-index_uids t (u ∷ us) m =
      listed-index_uids t us (push_entry c (c.entity_type u) u m)
      ∙ ap (λ l. l ++ of_type t us) (listed-push_entry (c.entity_type u) t u m)
      ∙ push_if (test (c.type_discrete (c.entity_type u) t)) (listed m t) u (of_type t us)

  listed-declare_types :
      (t : EntityType) (tys : List EntityType) (m : List (EntityType × List EntityUid))
      → listed m t ≡ []
      → listed (declare_types c tys m) t ≡ []
  unfolding declare_types
  listed-declare_types t [] m h = h
  listed-declare_types t (ty ∷ tys) m h =
      listed-declare_types t tys (insert c.type_discrete ty [] m)
        (ground (arith, lookup-insert {V = List EntityUid} c.type_discrete ty t [] m))

  -- From entities with distinct uids `Hierarchy::new` makes an indexed hierarchy, whatever types
  -- are declared.
  pub hierarchy_new-IsIndexed :
      (entities : List (EntityUid × Entity)) (declared : List EntityType)
      → Once (uids_of c entities)
      → IsIndexed (hierarchy_new c entities declared)
  unfolding hierarchy_new lookup
  hierarchy_new-IsIndexed entities declared o = record {
    once = o;
    by_type = λ ty.
        listed-index_uids ty (uids_of c entities) (declare_types c declared [])
        ∙ ap (λ l. l ++ of_type ty (uids_of c entities)) (listed-declare_types ty declared [] refl);
  }

  -- `replace_entities` keeps a hierarchy indexed, where the new entities have the uids of the old,
  -- in their order.
  pub replace_entities-IsIndexed :
      (h : Hierarchy c) (new_entities : List (EntityUid × Entity))
      → uids_of c new_entities ≡ uids c h
      → IsIndexed h
      → IsIndexed (replace_entities c h new_entities)
  unfolding replace_entities
  replace_entities-IsIndexed h new_entities e k = record {
    once = subst Once (sym e) k.once;
    by_type = λ ty. k.by_type ty ∙ ap (of_type ty) (sym e);
  }

  -- The scan passes over a part that lies before the bound and stops at a part that lies after it.
  skip_until_lem :
      (h : Hierarchy c) (idx : ℕ) (xs ys : List EntityUid)
      → ((u : EntityUid) → In u xs → (i : ℕ) × (index_of c h u ≡ ok i) × (i ≤ idx))
      → ((u : EntityUid) → In u ys → (i : ℕ) × (index_of c h u ≡ ok i) × (idx < i))
      → skip_until c h idx (xs ++ ys) ≡ ok ys
  unfolding skip_until
  skip_until_lem h idx [] [] p q = refl
  skip_until_lem h idx [] (y ∷ ys) p q = let (i, e, l) = q y (inl refl) in rw e (ground arith)
  skip_until_lem h idx (x ∷ xs) ys p q =
      let (i, e, l) = p x (inl refl) in
      rw e (ground (arith, skip_until_lem h idx xs ys (λ u j. p u (inr j)) q))

  pub index_of_lem :
      (h : Hierarchy c) (u : EntityUid) {i : ℕ}
      → position c.uid_discrete u (uids c h) ≡ some i
      → index_of c h u ≡ ok i
  unfolding index_of
  index_of_lem h u e = rw e

  -- In an indexed hierarchy, `uids_for_type` does not panic on an entity of the hierarchy: it
  -- returns the uids of the type that come after the entity, in the order of the pool, also where
  -- the type has no entry.
  pub uids_for_type_lem :
      (h : Hierarchy c) (ty : EntityType) (entity : EntityUid) {idx : ℕ}
      → IsIndexed h
      → position c.uid_discrete entity (uids c h) ≡ some idx
      → uids_for_type c h ty entity ≡ ok (of_type ty (drop (suc idx) (uids c h)))
  unfolding uids_for_type
  uids_for_type_lem h ty entity {idx} k e =
      elim (Option-cases (lookup c.type_discrete ty h.uids_by_type)) [
        | inl none' ↦
            rw (index_of_lem h entity e, none')
              (ap ok (
                sym (
                  right_nil before after
                    (split ∙ sym (k.by_type ty) ∙ ap (λ o. get_or o []) none'))))
        | inr (found, some') ↦
            rw (index_of_lem h entity e, some')
              (subst (λ l. skip_until c h idx l ≡ ok after)
                (split ∙ sym (k.by_type ty) ∙ ap (λ o. get_or o []) some')
                (skip_until_lem h idx before after early late))
      ]
    where
      before : List EntityUid
      before = of_type ty (take (suc idx) (uids c h))

      after : List EntityUid
      after = of_type ty (drop (suc idx) (uids c h))

      split : before ++ after ≡ of_type ty (uids c h)
      split = sym (of_type-append ty _ _) ∙ ap (of_type ty) (take-append-drop (suc idx) (uids c h))

      early : (u : EntityUid) → In u before → (i : ℕ) × (index_of c h u ≡ ok i) × (i ≤ idx)
      early u i =
          let (j, q, l) =
            position-take c.uid_discrete (suc idx) u (uids c h) (In-of_type ty u _ i) in
          (j, index_of_lem h u q, omega arith)

      late : (u : EntityUid) → In u after → (i : ℕ) × (index_of c h u ≡ ok i) × (idx < i)
      late u i =
          let (j, q, l) =
            position-drop c.uid_discrete (suc idx) u (uids c h) k.once (In-of_type ty u _ i) in
          (j, index_of_lem h u q, omega arith)
