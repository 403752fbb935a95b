-- ===== src/Schemas/Declarations/Fragments.antt =====
-- Fragments are equivalent in both directions.
use cedar_spec.Base.{
  ◌≡◌, refl, sym, subst, In, ◌>>◌, ◌∙◌, ◌↔◌, Bool, true, not, ◌||◌, [], ◌∷◌, Option, none, some, ok,
  err, panic, ◌>>=◌, ok_or, All, after_step, Bool-cases, inl, inr, length, ◌==◌, ==_iff,
}
use Prim.Native.String.{String}
use mathlib.Core.Option.{some-injective}
use mathlib.Core.Logic.{if_pos, if_neg}
use cedar_spec.Base.Assoc.{lookup}
use cedar_spec.Base.Pigeonhole.{IsRepeatFree}
use cedar_spec.Schemas.{Names, Checked, keys_of, map_equiv, annotations_equiv}
use cedar_spec.Schemas.Maps.{Matches, Matches-sym, map_equiv_iff, lookup-In, All-mono}
use cedar_spec.Schemas.Declarations.{
  NamespaceDefinition, Fragment, namespace_equiv, is_trivial_namespace, is_named,
  nontrivial_namespaces, and_then, namespaces_equiv, equivalence_check, option_discrete,
  entity_decl_equiv, common_type_equiv, action_equiv,
}
use cedar_spec.Schemas.Declarations.Symmetric.{NamespaceKeyed, namespace_equiv_sym}

module _ (n : Names) where
  -- The order of names of namespaces.
  abbrev pub name_dec : Discrete (Option n.InternalName)
  name_dec = option_discrete n.internal_discrete

  abbrev pub is_kept : Option n.InternalName → NamespaceDefinition n → Bool
  is_kept name d = is_named n name || not (is_trivial_namespace n d)

  abbrev pub Equivalent : NamespaceDefinition n → NamespaceDefinition n → Type 0
  Equivalent d e = namespace_equiv n d e ≡ ok tt

  -- No key of a map in the fragment is repeated.
  abbrev pub FragmentKeyed : Fragment n → Type 0
  FragmentKeyed f = IsRepeatFree (keys_of f) × All (λ p. NamespaceKeyed n p.1) f

  and_then-ok : (a b : Checked) → (and_then n a b ≡ ok tt) ↔ ((a ≡ ok tt) × (b ≡ ok tt))
  and_then-ok (ok u) b = (λ h. (refl, h), λ p. p.1)
  and_then-ok (err e) (ok u) = (λ h. cc, λ p. p.0)
  and_then-ok (err e) (err f) = (λ h. cc, λ p. p.0)
  and_then-ok (err e) panic = (λ h. cc, λ p. cc (p.0))
  and_then-ok panic b = (λ h. cc, λ p. p.0)

  namespaces_equiv_iff :
      (f rhs : Fragment n) (acc : Checked)
      → (namespaces_equiv n f rhs acc ≡ ok tt) ↔ ((acc ≡ ok tt) × Matches name_dec Equivalent f rhs)
  unfolding namespaces_equiv
  namespaces_equiv_iff [] rhs acc = (λ h. (h, tt), λ p. p.0)
  namespaces_equiv_iff ((name, d) ∷ f) rhs acc =
      let one =
        (ok_or "namespace does not exist in RHS schema" (lookup name_dec name rhs)
          >>= namespace_equiv n d) in
      let more = namespaces_equiv_iff f rhs (and_then n acc one) in
      (
        λ h.
            let p = more.0 h in
            let a = (and_then-ok acc one).0 p.0 in
            let x =
              after_step (ok_or "namespace does not exist in RHS schema" (lookup name_dec name rhs))
                _ a.1 in
            (a.0, ((x.0, ok_or-some (lookup name_dec name rhs) x.1, x.2), p.1)),
        λ p. more.1 ((and_then-ok acc one).1 (p.0, rw p.1.0.1 p.1.0.2), p.1.1),
      )
    where
      ok_or-some :
          {A : Type 0} (o : Option A) {a : A}
          → ok_or {E = String} "namespace does not exist in RHS schema" o ≡ ok a
          → o ≡ some a
      ok_or-some none e = cc
      ok_or-some (some b) e = cc

  -- The checks before that of the actions.
  abbrev namespace_head : NamespaceDefinition n → NamespaceDefinition n → Checked
  namespace_head d e =
      annotations_equiv d.annotations e.annotations
      >> map_equiv (entity_decl_equiv n) d.entity_types e.entity_types
      >> map_equiv (common_type_equiv n) d.common_types e.common_types

  is_trivial_namespace-Equivalent :
      (d e : NamespaceDefinition n)
      → Equivalent d e
      → is_trivial_namespace n d ≡ is_trivial_namespace n e
  unfolding namespace_equiv is_trivial_namespace
  is_trivial_namespace-Equivalent d e h =
      let a = after_step (namespace_head d e) _ h in
      let b =
        after_step
          (annotations_equiv d.annotations e.annotations
            >> map_equiv (entity_decl_equiv n) d.entity_types e.entity_types)
          _ a.1 in
      let c = after_step (annotations_equiv d.annotations e.annotations) _ b.1 in
      rw
        (
          ((map_equiv_iff (entity_decl_equiv n) d.entity_types e.entity_types).0 c.2).0,
          ((map_equiv_iff (common_type_equiv n) d.common_types e.common_types).0 b.2).0,
          ((map_equiv_iff (action_equiv n) d.actions e.actions).0 a.2).0,
        )
        refl

  kept_same :
      (k name : Option n.InternalName) (e d : NamespaceDefinition n)
      → k ≡ name
      → ◌≡◌ {A = Option (NamespaceDefinition n)} (some e) (some d)
      → is_kept k e ≡ is_kept name d
  kept_same k name e d p q = λ i. is_kept (p i) (some-injective e d q i)

  -- What is kept of a fragment is found as in the fragment.
  pub lookup-nontrivial :
      (name : Option n.InternalName) (f : Fragment n)
      → IsRepeatFree (keys_of f)
      → (d : NamespaceDefinition n)
      → (lookup name_dec name (nontrivial_namespaces n f) ≡ some d)
        ↔ ((lookup name_dec name f ≡ some d) × (is_kept name d ≡ true))
  unfolding nontrivial_namespaces lookup
  lookup-nontrivial name [] u d = (λ h. cc, λ p. p.0)
  lookup-nontrivial name ((k, e) ∷ f) u d =
      let ih = lookup-nontrivial name f u.1 d in
      elim (name_dec k name) [
        | yes p ↦ rw (if_pos (name_dec k name) p) (elim (Bool-cases (is_kept k e)) [
          | inl kept ↦
              rw (kept, lookup)
                (rw (if_pos (name_dec k name) p)
                  (λ h. (h, sym (kept_same k name e d p h) ∙ kept), λ q. q.0))
          | inr lost ↦ rw lost (
            λ h. absurd (
                u.0 (subst (λ z. In z (keys_of f)) (sym p) (lookup-In name_dec name f (ih.0 h).0))),
            λ q. cc (kept_same k name e d p q.0, lost, q.1),
          )
        ])
        | no q ↦ rw (if_neg (name_dec k name) q) (elim (Bool-cases (is_kept k e)) [
          | inl kept ↦ rw (kept, lookup) (rw (if_neg (name_dec k name) q) ih)
          | inr lost ↦ rw lost ih
        ])
      ]

  pub nontrivial_namespaces-kept :
      (f : Fragment n) → All (λ p. is_kept p.0 p.1 ≡ true) (nontrivial_namespaces n f)
  unfolding nontrivial_namespaces
  nontrivial_namespaces-kept [] = tt
  nontrivial_namespaces-kept ((k, e) ∷ f) = elim (Bool-cases (is_kept k e)) [
    | inl kept ↦ rw kept (kept, nontrivial_namespaces-kept f)
    | inr lost ↦ rw lost (nontrivial_namespaces-kept f)
  ]

  keys-nontrivial :
      (k : Option n.InternalName) (f : Fragment n)
      → In k (keys_of (nontrivial_namespaces n f))
      → In k (keys_of f)
  unfolding nontrivial_namespaces
  keys-nontrivial k [] i = i
  keys-nontrivial k ((j, e) ∷ f) i = elim (Bool-cases (is_kept j e)) [
    | inl kept ↦ elim (rw kept at i) [ inl p ↦ inl p | inr r ↦ inr (keys-nontrivial k f r) ]
    | inr lost ↦ inr (keys-nontrivial k f (rw lost at i))
  ]

  pub nontrivial-FragmentKeyed :
      (f : Fragment n) → FragmentKeyed f → FragmentKeyed (nontrivial_namespaces n f)
  unfolding nontrivial_namespaces
  nontrivial-FragmentKeyed [] h = h
  nontrivial-FragmentKeyed ((k, e) ∷ f) h =
      let ih = nontrivial-FragmentKeyed f (h.0.1, h.1.1) in
      elim (Bool-cases (is_kept k e)) [
        | inl kept ↦ rw kept ((λ i. h.0.0 (keys-nontrivial k f i), ih.0), (h.1.0, ih.1))
        | inr lost ↦ rw lost ih
      ]

  Matches-kept :
      (m rhs : Fragment n)
      → IsRepeatFree (keys_of rhs)
      → All (λ p. is_kept p.0 p.1 ≡ true) m
      → Matches name_dec Equivalent m rhs
      → Matches name_dec Equivalent m (nontrivial_namespaces n rhs)
  Matches-kept [] rhs u k h = tt
  Matches-kept ((name, d) ∷ m) rhs u k h = (
    (
      h.0.0,
      (lookup-nontrivial name rhs u h.0.0).1
          (h.0.1, rw (← is_trivial_namespace-Equivalent d h.0.0 h.0.2) k.0),
      h.0.2,
    ),
    Matches-kept m rhs u k.1 h.1,
  )

  pub equivalence_check_iff :
      (l r : Fragment n)
      → (equivalence_check n l r ≡ ok tt) ↔ (
          (length (nontrivial_namespaces n l) ≡ length (nontrivial_namespaces n r))
          × Matches name_dec Equivalent (nontrivial_namespaces n l) r)
  unfolding equivalence_check
  equivalence_check_iff l r =
      let c = namespaces_equiv_iff (nontrivial_namespaces n l) r (ok tt) in
      elim (Bool-cases (length (nontrivial_namespaces n l) == length (nontrivial_namespaces n r))) [
        | inl e ↦ rw e (λ h. ((==_iff _ _).0 e, (c.0 h).1), λ p. c.1 (refl, p.1))
        | inr e ↦ rw e (λ h. cc, λ p. cc ((==_iff _ _).1 p.0))
      ]

  -- Where no key is repeated in two fragments, and the first is equivalent to the second, the second
  -- is equivalent to the first.
  pub equivalence_check_sym :
      (l r : Fragment n)
      → FragmentKeyed l
      → FragmentKeyed r
      → equivalence_check n l r ≡ ok tt
      → equivalence_check n r l ≡ ok tt
  equivalence_check_sym l r kl kr h =
      let p = (equivalence_check_iff l r).0 h in
      let nl = nontrivial-FragmentKeyed l kl in
      let nr = nontrivial-FragmentKeyed r kr in
      let back =
        Matches-sym name_dec Equivalent (NamespaceKeyed n) _ _ nl.0 nr.0 p.0 nr.1
          (All-mono _ _ (λ q k w kw e. namespace_equiv_sym n q.1 w k kw e)
            (nontrivial_namespaces n l) nl.1)
          (Matches-kept (nontrivial_namespaces n l) r kr.0 (nontrivial_namespaces-kept l) p.1) in
      (equivalence_check_iff r l).1 (
        sym p.0,
        All-mono _ _ (λ q m. (m.0, ((lookup-nontrivial q.0 l kl.0 m.0).0 m.1).0, m.2))
            (nontrivial_namespaces n r) back,
      )
