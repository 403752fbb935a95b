-- ===== src/Hierarchy/Acyclic.antt =====
-- cedar-policy-generators/src/hierarchy.rs: the parents that `generate` chooses come later in the pool,
-- so the hierarchy has no cycle.
use cedar_spec.Base.{
  ℕ, suc, ◌<◌, ◌≡◌, refl, sym, subst, ap, ◌⊎◌, inl, inr, Bool, true, false, List, [], ◌∷◌, map,
  some, Exec, ok, if◌then◌else◌, In, arith, Ensures, Ensures-bind, Ensures-mono, Ensures-then,
  panic, Bool-cases,
}
use native.Mathlib.Numerals.{add-one}
use cedar_spec.Base.Assoc.{contains, insert_elem, contains-insert_elem}
use cedar_spec.Hierarchy.{
  Pool, Hierarchy, uids, drop, position, uids_after, flip_each, schema_parents, choose_parents,
  generate_parents, Mode, schema_based, arbitrary, attempt',
}
use cedar_spec.Hierarchy.Index.{
  IsIndexed, In-of_type, position-In, position-drop, uids_for_type_lem, index_of_lem,
}

module _ (c : Pool) (h : Hierarchy c) (k : IsIndexed c h) where
  open c use {EntityType, EntityUid, Error, Unstructured}

  -- `b` comes after `a` in the pool.
  pub record IsAfter (a b : EntityUid) : Type 0 where
    pub place : ℕ
    pub later : ℕ
    pub at_place : position c.uid_discrete a (uids c h) ≡ some place
    pub at_later : position c.uid_discrete b (uids c h) ≡ some later
    pub order : place < later

  abbrev AllAfter : EntityUid → List EntityUid → Type 0
  AllAfter a parents = (q : EntityUid) → contains c.uid_discrete q parents ≡ true → IsAfter a q

  attempt'-Ensures : {A : Type 0} (m : Error ⊎ A) → Ensures (λ _. Unit {0}) (attempt' m)
  attempt'-Ensures (inl e) = tt
  attempt'-Ensures (inr a) = tt

  flip_each-AllAfter :
      (x y : ℕ) (a : EntityUid) (candidates parents : List EntityUid) (u : Unstructured)
      → ((q : EntityUid) → In q candidates → IsAfter a q)
      → AllAfter a parents
      → Ensures (λ r. AllAfter a r.0) (flip_each c x y candidates parents u)
  unfolding flip_each
  flip_each-AllAfter x y a [] parents u i p = p
  flip_each-AllAfter x y a (q ∷ qs) parents u i p =
      Ensures-then (λ r. AllAfter a r.0) (attempt' (c.ratio x y u)) _
        (attempt'-Ensures (c.ratio x y u))
        (λ (heads, u'). flip_each-AllAfter x y a qs _ u' (λ t j. i t (inr j)) (added heads))
    where
      added :
          (heads : Bool)
          → AllAfter a (if heads then insert_elem c.uid_discrete q parents else parents)
      added false t e = p t e
      added true t e = elim (c.uid_discrete q t) [
        | yes eq ↦ subst (IsAfter a) eq (i q (inl refl))
        | no n ↦ p t (ground (arith, contains-insert_elem c.uid_discrete q t parents))
      ]

  drop-IsAfter :
      (a q : EntityUid) (idx : ℕ)
      → position c.uid_discrete a (uids c h) ≡ some idx
      → In q (drop (suc idx) (uids c h))
      → IsAfter a q
  drop-IsAfter a q idx e i =
      let (j, f, l) = position-drop c.uid_discrete (suc idx) q (uids c h) k.once i in
      record { place = idx; later = j; at_place = e; at_later = f; order = omega arith }

  IsAfter-irrefl : (a : EntityUid) → ¬ IsAfter a a
  IsAfter-irrefl a t = ground (arith, t.at_place, t.at_later, t.order)

  IsAfter-trans : (a b d : EntityUid) → IsAfter a b → IsAfter b d → IsAfter a d
  IsAfter-trans a b d s t = record {
    place = s.place;
    later = t.later;
    at_place = s.at_place;
    at_later = t.at_later;
    order = ground (arith, s.at_later, t.at_place, s.order, t.order);
  }

  schema_parents-AllAfter :
      (a : EntityUid) (idx : ℕ) (tys : List EntityType) (parents : List EntityUid)
      (u : Unstructured)
      → position c.uid_discrete a (uids c h) ≡ some idx
      → AllAfter a parents
      → Ensures (λ r. AllAfter a r.0) (schema_parents c h a tys parents u)
  unfolding schema_parents
  schema_parents-AllAfter a idx [] parents u e p = p
  schema_parents-AllAfter a idx (ty ∷ tys) parents u e p = rw (uids_for_type_lem c h ty a k e) (
      Ensures-bind (λ r. AllAfter a r.0) (λ r. AllAfter a r.0) _ _
        (flip_each-AllAfter 1 2 a _ parents u
          (λ q i. drop-IsAfter a q idx e (In-of_type c ty q _ i)) p)
        (λ (parents', u') _ p'. schema_parents-AllAfter a idx tys parents' u' e p'))

  -- The schema knows the type of every entity of the pool.
  abbrev pub Serves : Mode c → Type 0
  Serves (schema_based allowed) =
      (a : EntityUid)
      → In a (uids c h)
      → (tys : List EntityType) × (allowed (c.entity_type a) ≡ some tys)
  Serves arbitrary = Unit {0}

  nothing-AllAfter : (a : EntityUid) → AllAfter a []
  unfolding contains
  nothing-AllAfter a q e = cc

  -- The assertion that an entity is not its own parent does not fail.
  no_self :
      (a : EntityUid) (parents : List EntityUid) (u : Unstructured)
      → AllAfter a parents
      → Ensures {E = Error} {A = List EntityUid × Unstructured}
          (λ r. AllAfter a r.0)
          (if contains c.uid_discrete a parents then panic else ok (parents, u))
  no_self a parents u p = elim (Bool-cases (contains c.uid_discrete a parents)) [
    | inl t ↦ absurd (IsAfter-irrefl a (p a t))
    | inr f ↦ rw f p
  ]

  choose_parents-AllAfter :
      (mode : Mode c) (a : EntityUid) (u : Unstructured)
      → Serves mode
      → In a (uids c h)
      → Ensures (λ r. AllAfter a r.0) (choose_parents c mode h a u)
  unfolding choose_parents uids_after
  choose_parents-AllAfter (schema_based allowed) a u s i =
      let (tys, q) = s a i in
      let (idx, e) = position-In c.uid_discrete a (uids c h) i in
      rw q (schema_parents-AllAfter a idx tys [] u e (nothing-AllAfter a))
  choose_parents-AllAfter arbitrary a u s i =
      let (idx, e) = position-In c.uid_discrete a (uids c h) i in
      rw (index_of_lem c h a e) (
        Ensures-bind (λ r. AllAfter a r.0) (λ r. AllAfter a r.0) _ _
          (flip_each-AllAfter 1 3 a _ [] u
            (λ q j. drop-IsAfter a q idx e (subst (λ n. In q (drop n (uids c h))) (add-one idx) j))
            (nothing-AllAfter a))
          (λ (parents, u') _ p. no_self a parents u' p))

  -- `b` is a parent of `a`, or an ancestor by several steps.
  pub data Ancestor (edges : List (EntityUid × List EntityUid))
      : EntityUid → EntityUid → Type 0 where
    parent :
        {a b : EntityUid} (parents : List EntityUid)
        → In (a, parents) edges
        → contains c.uid_discrete b parents ≡ true
        → Ancestor edges a b
    further : {a b d : EntityUid} → Ancestor edges a b → Ancestor edges b d → Ancestor edges a d

  -- The edges that were chosen for the entities of `todo`, each to a later entity.
  pub record IsForward (todo : List EntityUid) (edges : List (EntityUid × List EntityUid))
      : Type 0 where
    pub sources : map (λ e. e.0) edges ≡ todo
    pub forward :
        (a : EntityUid) (parents : List EntityUid) → In (a, parents) edges → AllAfter a parents

  Ancestor-IsAfter :
      (todo : List EntityUid) (edges : List (EntityUid × List EntityUid)) (f : IsForward todo edges)
      {a b : EntityUid}
      → Ancestor edges a b
      → IsAfter a b
  Ancestor-IsAfter todo edges f (parent {a = a} {b = b} parents i e) = f.forward a parents i b e
  Ancestor-IsAfter todo edges f (further {a = a} {b = b} {d = d} s t) =
      IsAfter-trans a b d (Ancestor-IsAfter todo edges f s) (Ancestor-IsAfter todo edges f t)

  module _ (rest : EntityUid → List EntityUid → Unstructured → Exec Error Unstructured)
      (rest_returns : (a : EntityUid) (parents : List EntityUid) (u : Unstructured)
        → Ensures (λ _. Unit {0}) (rest a parents u))
      (mode : Mode c) (serves : Serves mode) where
    generate_parents-IsForward :
        (todo : List EntityUid) (u : Unstructured)
        → ((a : EntityUid) → In a todo → In a (uids c h))
        → Ensures (λ r. IsForward todo r.0) (generate_parents c rest mode h todo u)
    unfolding generate_parents
    generate_parents-IsForward [] u i = record { sources = refl; forward = λ a parents j. absurd j }
    generate_parents-IsForward (a ∷ todo) u i =
        Ensures-bind (λ r. AllAfter a r.0) (λ r. IsForward (a ∷ todo) r.0) _ _
          (choose_parents-AllAfter mode a u serves (i a (inl refl)))
          (λ (parents, u1) _ p.
            Ensures-then (λ r. IsForward (a ∷ todo) r.0) (rest a parents u1) _
              (rest_returns a parents u1)
              (λ u2.
                Ensures-bind (λ r. IsForward todo r.0) (λ r. IsForward (a ∷ todo) r.0) _ _
                  (generate_parents-IsForward todo u2 (λ b j. i b (inr j)))
                  (λ (edges, u3) _ f. record {
                    sources = ap (◌∷◌ a) f.sources;
                    forward = forward_cons a parents p edges f.forward;
                  })))
      where
        forward_cons :
            (a : EntityUid) (parents : List EntityUid)
            → AllAfter a parents
            → (edges : List (EntityUid × List EntityUid))
            → ((b : EntityUid) (ps : List EntityUid) → In (b, ps) edges → AllAfter b ps)
            → (b : EntityUid) (ps : List EntityUid) → In (b, ps) ((a, parents) ∷ edges)
            → AllAfter b ps
        forward_cons a parents p edges f b ps (inl e) = subst (λ x. AllAfter x.0 x.1) (sym e) p
        forward_cons a parents p edges f b ps (inr i) = f b ps i

    -- In an indexed hierarchy, where the schema of the mode knows the types of the pool and the
    -- rest of the generation does not panic: choosing the parents of every entity does not panic,
    -- in either mode, and by the parents chosen no entity is its own ancestor.
    pub generate_parents_acyclic :
        (u : Unstructured)
        → Ensures
            (λ r. (a : EntityUid) → ¬ Ancestor r.0 a a)
            (generate_parents c rest mode h (uids c h) u)
    generate_parents_acyclic u =
        Ensures-mono (λ r. IsForward (uids c h) r.0) (λ r. (a : EntityUid) → ¬ Ancestor r.0 a a) _
          (λ r _ f a s. IsAfter-irrefl a (Ancestor-IsAfter (uids c h) r.0 f s))
          (generate_parents-IsForward (uids c h) u (λ a i. i))
