-- ===== src/PstEquiv/Passes.antt =====
-- When the checks of a round trip pass.
use cedar_spec.Base.{
  suc, ◌≡◌, refl, sym, ap, subst, ◌∙◌, ◌↔◌, inl, inr, Bool, true, false, List, [], ◌∷◌, Option,
  none, some, Exec, ok, err, panic, ◌>>=◌, ◌>>◌, expect, length, ℕ_discrete, if◌then◌else◌, arith,
  Option-cases, length-map, Zip,
}
use cedar_spec.Base.Assoc.{lookup, lookup-All}
use cedar_spec.Base.Pigeonhole.{IsRepeatFree, IsSubset, pigeonhole, length-subset}
use cedar_spec.Schemas.{keys_of}
use cedar_spec.Schemas.Maps.{Matches, keys_of-lookup, lookup-In, All-In, entry-lookup}
use cedar_spec.PstEquiv.{
  PstTypes, assert_eq, TemplateLink, PolicySet, check_template_equivalence, check_entries,
  check_links, check_policy_set_equivalence,
}

abbrev pub Passes : Exec ⊥ (Unit {0}) → Type 0
Passes m = m ≡ ok tt

assert_eq_iff : {P : Type 0} (d : Dec P) → Passes (assert_eq d) ↔ P
assert_eq_iff (yes p) = (λ h. p, λ q. refl)
assert_eq_iff (no n) = (λ h. absurd (cc h), λ q. absurd (n q))

-- One check after another.
then_iff :
    {P Q : Type 0} (m k : Exec ⊥ (Unit {0}))
    → Passes m ↔ P
    → Passes k ↔ Q
    → Passes (m >> k) ↔ (P × Q)
then_iff (ok tt) k h g = (λ e. (h.0 refl, g.0 e), λ pq. g.1 pq.1)
then_iff (err e) k h g = absurd e
then_iff panic k h g = (λ e. absurd (cc e), λ pq. absurd (cc (h.1 pq.0)))

abbrev pub SameOption : {V : Type 0} → (V → V → Type 0) → Option V → Option V → Type 0
SameOption R none none = Unit
SameOption R (some v) (some w) = R v w
SameOption R _ _ = ⊥

left_value :
    {V : Type 0} (R : V → V → Type 0) (o q : Option V) {v : V}
    → SameOption R o q
    → o ≡ some v
    → (w : V) × (q ≡ some w) × R v w
left_value R none q s e = absurd (cc e)
left_value R (some a) none s e = absurd s
left_value R (some a) (some w) s e = (w, refl, subst (λ z. R z w) (cc e) s)

right_value :
    {V : Type 0} (R : V → V → Type 0) (o q : Option V) {w : V}
    → SameOption R o q
    → q ≡ some w
    → (v : V) × (o ≡ some v)
right_value R none none s e = absurd (cc e)
right_value R none (some b) s e = absurd s
right_value R (some v) q s e = (v, refl)

-- Both maps have the same keys, with related values.
module _ {K V : Type 0} (dec : Discrete K) (R : V → V → Type 0) where
  abbrev pub SameMap : List (K × V) → List (K × V) → Type 0
  SameMap l r = (k : K) → SameOption R (lookup dec k l) (lookup dec k r)

  Matches-SameMap :
      (l r : List (K × V))
      → IsRepeatFree (keys_of l)
      → length l ≡ length r
      → Matches dec R l r
      → SameMap l r
  Matches-SameMap l r u e m k = elim (Option-cases (lookup dec k l)) [
    | inl n ↦ elim (Option-cases (lookup dec k r)) [
      | inl o ↦ rw (n, o) tt
      | inr w ↦
          let found = keys_of-lookup dec k l (back k (lookup-In dec k r w.1)) in
          absurd (cc (n, found.1))
    ]
    | inr v ↦
        let x = lookup-All dec (λ q. (w : V) × (lookup dec q.0 r ≡ some w) × R q.1 w) k l m v.1 in
        rw (v.1, x.1) (x.2)
  ]
    where
      subset : IsSubset (keys_of l) (keys_of r)
      subset k i =
          let f = keys_of-lookup dec k l i in
          lookup-In dec k r
            (lookup-All dec (λ q. (w : V) × (lookup dec q.0 r ≡ some w) × R q.1 w) k l m f.1).1

      back : IsSubset (keys_of r) (keys_of l)
      back =
          pigeonhole dec (keys_of l) (keys_of r) u subset
            (length-map _ l ∙ e ∙ sym (length-map _ r))

  SameMap-subset : (l r : List (K × V)) → SameMap l r → IsSubset (keys_of l) (keys_of r)
  SameMap-subset l r s k i =
      lookup-In dec k r (left_value R _ _ (s k) (keys_of-lookup dec k l i).1).1

  SameMap-back : (l r : List (K × V)) → SameMap l r → IsSubset (keys_of r) (keys_of l)
  SameMap-back l r s k i =
      lookup-In dec k l (right_value R _ _ (s k) (keys_of-lookup dec k r i).1).1

  SameMap-Matches :
      (l r : List (K × V)) → IsRepeatFree (keys_of l) → SameMap l r → Matches dec R l r
  SameMap-Matches l r u s =
      All-In dec _ l (λ q i. left_value R _ _ (s q.0) (entry-lookup dec q l u i))

  SameMap-length :
      (l r : List (K × V))
      → IsRepeatFree (keys_of l)
      → IsRepeatFree (keys_of r)
      → SameMap l r
      → length l ≡ length r
  SameMap-length l r ul ur s =
      let a = length-subset dec (keys_of l) (keys_of r) ul (SameMap-subset l r s) in
      let b = length-subset dec (keys_of r) (keys_of l) ur (SameMap-back l r s) in
      omega (arith, length-map (λ q. q.0) l, length-map (λ q. q.0) r)

module _ (p : PstTypes) where
  abbrev pub SameParts : p.Template → p.Template → Type 0
  SameParts a b =
      (p.effect a ≡ p.effect b)
      × ((p.principal a ≡ p.principal b)
          × ((p.action a ≡ p.action b)
              × ((p.resource a ≡ p.resource b)
                  × ((p.clauses a ≡ p.clauses b) × (p.annotations a ≡ p.annotations b)))))

  -- The two templates have the same parts, and where ids are checked the same id.
  abbrev pub SameTemplate : Bool → p.Template → p.Template → Type 0
  SameTemplate check_ids a b = (check_ids ≡ true → p.id a ≡ p.id b) × SameParts a b

  check_template_iff :
      (check_ids : Bool) (a b : p.Template)
      → Passes (check_template_equivalence p a b check_ids) ↔ SameTemplate check_ids a b
  unfolding check_template_equivalence
  check_template_iff check_ids a b = then_iff _ _ (ids check_ids) (
      then_iff _ _ (assert_eq_iff _) (
        then_iff _ _ (assert_eq_iff _) (
          then_iff _ _ (assert_eq_iff _)
            (then_iff _ _ (assert_eq_iff _) (then_iff _ _ (assert_eq_iff _) (assert_eq_iff _))))))
    where
      ids :
          (check_ids : Bool)
          → Passes (if check_ids then assert_eq (p.id_discrete (p.id a) (p.id b)) else ok tt)
            ↔ (check_ids ≡ true → p.id a ≡ p.id b)
      ids true = (λ h _. (assert_eq_iff _).0 h, λ e. (assert_eq_iff _).1 (e refl))
      ids false = (λ h t. absurd (cc t), λ e. refl)

  expect_iff :
      {V : Type 0} (P : V → Type 0) (o : Option V) (k : V → Exec ⊥ (Unit {0})) {Q : Type 0}
      → ((v : V) → Passes (k v) ↔ (P v × Q))
      → Passes (expect o >>= k) ↔ (((v : V) × (o ≡ some v) × P v) × Q)
  expect_iff P none k h = (λ e. absurd (cc e), λ q. absurd (cc (q.0.1)))
  expect_iff P (some v) k h = (
    λ e. let x = (h v).0 e in ((v, refl, x.0), x.1),
    λ q. (h v).1 (subst P (cc (q.0.1)) q.0.2, q.1),
  )

  check_entries_iff :
      {V : Type 0} (check : V → V → Exec ⊥ (Unit {0})) (R : V → V → Type 0)
      → ((a b : V) → Passes (check a b) ↔ R a b)
      → (l r : List (p.PolicyId × V))
      → Passes (check_entries p check l r) ↔ Matches p.id_discrete R l r
  unfolding check_entries
  check_entries_iff check R h [] r = (λ e. tt, λ m. refl)
  check_entries_iff check R h ((k, v) ∷ l) r =
      expect_iff (R v) (lookup p.id_discrete k r) _
        (λ w. then_iff _ _ (h v w) (check_entries_iff check R h l r))

  -- The entries and the number of entries of two maps.
  check_map_iff :
      {V : Type 0} (check : V → V → Exec ⊥ (Unit {0})) (R : V → V → Type 0)
      → ((a b : V) → Passes (check a b) ↔ R a b)
      → (l r : List (p.PolicyId × V)) → IsRepeatFree (keys_of l)
      → IsRepeatFree (keys_of r)
      → {Q : Type 0} (k : Exec ⊥ (Unit {0})) → Passes k ↔ Q
      → Passes (check_entries p check l r >> (assert_eq (ℕ_discrete (length l) (length r)) >> k))
        ↔ (SameMap p.id_discrete R l r × Q)
  check_map_iff check R h l r ul ur k q =
      let t =
        then_iff _ _ (check_entries_iff check R h l r)
          (then_iff _ k (assert_eq_iff (ℕ_discrete (length l) (length r))) q) in
      (
        λ e. let m = t.0 e in (Matches-SameMap p.id_discrete R l r ul m.1.0 m.0, m.1.1),
        λ s. t.1 (
          SameMap-Matches p.id_discrete R l r ul s.0,
          (SameMap-length p.id_discrete R l r ul ur s.0, s.1),
        ),
      )

  -- Two links with the same parts.
  abbrev pub SameLinks : List (TemplateLink p) → List (TemplateLink p) → Type 0
  SameLinks =
      Zip (λ a b. (a.template_id ≡ b.template_id) × ((a.new_id ≡ b.new_id) × (a.values ≡ b.values)))

  links_iff :
      (l r : List (TemplateLink p))
      → (Passes (check_links p l r) × (length l ≡ length r)) ↔ SameLinks l r
  unfolding check_links
  links_iff [] [] = (λ e. tt, λ z. (refl, refl))
  links_iff [] (y ∷ r) = (λ e. absurd (omega (arith, e.1)), λ z. absurd z)
  links_iff (x ∷ l) [] = (λ e. absurd (omega (arith, e.1)), λ z. absurd z)
  links_iff (x ∷ l) (y ∷ r) =
      let ih = links_iff l r in
      let t = then_iff _ _ (assert_eq_iff _) (
        then_iff _ _ (assert_eq_iff _)
          (then_iff _ (check_links p l r) (assert_eq_iff _) (λ e. e, λ e. e))) in
      (
        λ e. let u = t.0 e.0 in ((u.0, (u.1.0, u.1.1.0)), ih.0 (u.1.1.1, omega (arith, e.1))),
        λ z. let w = ih.1 z.1 in (t.1 (z.0.0, (z.0.1.0, (z.0.1.1, w.0))), ap suc w.1),
      )

  check_links_iff :
      (l r : List (TemplateLink p))
      → Passes (check_links p l r >> assert_eq (ℕ_discrete (length l) (length r))) ↔ SameLinks l r
  check_links_iff l r =
      let t =
        then_iff (check_links p l r) _ (λ e. e, λ e. e)
          (assert_eq_iff (ℕ_discrete (length l) (length r))) in
      (λ e. (links_iff l r).0 (t.0 e), λ z. t.1 ((links_iff l r).1 z))

  -- The check of two policy sets in which no id is repeated passes exactly where they have templates and static
  -- policies under the same ids, with the same parts, and where ids are checked the same id, and the same links
  -- in the same order.
  pub check_policy_set_iff :
      (check_ids : Bool) (a b : PolicySet p)
      → IsRepeatFree (keys_of a.templates)
      → IsRepeatFree (keys_of b.templates)
      → IsRepeatFree (keys_of a.policies)
      → IsRepeatFree (keys_of b.policies)
      → Passes (check_policy_set_equivalence p a b check_ids) ↔ (
          SameMap p.id_discrete (SameTemplate check_ids) a.templates b.templates
          × (SameMap p.id_discrete
                (λ v w. SameTemplate check_ids (p.body v) (p.body w))
                a.policies
                b.policies
              × SameLinks a.template_links b.template_links))
  unfolding check_policy_set_equivalence
  check_policy_set_iff check_ids a b ta tb pa pb =
      check_map_iff _ _ (check_template_iff check_ids) a.templates b.templates ta tb _ (
        check_map_iff _ _ (λ v w. check_template_iff check_ids (p.body v) (p.body w)) a.policies
          b.policies pa pb _ (check_links_iff a.template_links b.template_links))
