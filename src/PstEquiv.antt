-- ===== src/PstEquiv.antt =====
-- cedar-drt/fuzz/src/pst_equiv.rs: the checks that policy sets of the public syntax tree are equivalent after a
-- round trip. A failed assertion is a panic. A map is the list of its entries, a key once.
pub mod Passes
use cedar_spec.Base.{
  ℕ, Bool, true, false, List, [], ◌∷◌, Option, none, some, Exec, ok, panic, ◌>>=◌, ◌>>◌, expect,
  length, test, ℕ_discrete, if◌then◌else◌,
}
use cedar_spec.Base.Assoc.{lookup}

-- The types of `cedar_policy::pst`, and what the checks read of them.
pub record PstTypes : Type 1 where
  pub PolicyId : Type 0
  pub id_discrete : Discrete PolicyId
  pub Effect : Type 0
  pub effect_discrete : Discrete Effect
  pub PrincipalConstraint : Type 0
  pub principal_discrete : Discrete PrincipalConstraint
  pub ActionConstraint : Type 0
  pub action_discrete : Discrete ActionConstraint
  pub ResourceConstraint : Type 0
  pub resource_discrete : Discrete ResourceConstraint
  pub Clauses : Type 0
  pub clauses_discrete : Discrete Clauses
  pub Annotations : Type 0
  pub annotations_discrete : Discrete Annotations
  pub Values : Type 0
  pub values_discrete : Discrete Values
  pub Template : Type 0
  pub id : Template → PolicyId
  pub effect : Template → Effect
  pub principal : Template → PrincipalConstraint
  pub action : Template → ActionConstraint
  pub resource : Template → ResourceConstraint
  pub clauses : Template → Clauses
  pub annotations : Template → Annotations
  pub StaticPolicy : Type 0
  pub body : StaticPolicy → Template

-- `assert_eq!`, by the decision whether the two are equal.
abbrev pub assert_eq : {P : Type 0} → Dec P → Exec ⊥ (Unit {0})
assert_eq d = if test d then ok tt else panic

module _ (p : PstTypes) where
  open p use {PolicyId, Template, StaticPolicy}

  pub record TemplateLink : Type 0 where
    pub template_id : PolicyId
    pub new_id : PolicyId
    pub values : p.Values

  pub record PolicySet : Type 0 where
    pub templates : List (PolicyId × Template)
    pub policies : List (PolicyId × StaticPolicy)
    pub template_links : List TemplateLink

  unfoldable pub check_template_equivalence : Template → Template → Bool → Exec ⊥ (Unit {0})
  check_template_equivalence original roundtripped check_ids = do
    (if check_ids then assert_eq (p.id_discrete (p.id original) (p.id roundtripped)) else ok tt)
    assert_eq (p.effect_discrete (p.effect original) (p.effect roundtripped))
    assert_eq (p.principal_discrete (p.principal original) (p.principal roundtripped))
    assert_eq (p.action_discrete (p.action original) (p.action roundtripped))
    assert_eq (p.resource_discrete (p.resource original) (p.resource roundtripped))
    assert_eq (p.clauses_discrete (p.clauses original) (p.clauses roundtripped))
    assert_eq (p.annotations_discrete (p.annotations original) (p.annotations roundtripped))

  -- The loop over the entries of a map, with the check of two values.
  unfoldable pub check_entries :
      {V : Type 0}
      → (V → V → Exec ⊥ (Unit {0}))
      → List (PolicyId × V)
      → List (PolicyId × V)
      → Exec ⊥ (Unit {0})
  check_entries check [] roundtripped = ok tt
  check_entries check ((id, orig) ∷ rest) roundtripped = do
    rt ← expect (lookup p.id_discrete id roundtripped)
    check orig rt
    check_entries check rest roundtripped

  -- The loop over the links of both sets, which ends with the shorter one.
  unfoldable pub check_links : List TemplateLink → List TemplateLink → Exec ⊥ (Unit {0})
  check_links (orig ∷ rest) (rt ∷ more) = do
    assert_eq (p.id_discrete orig.template_id rt.template_id)
    assert_eq (p.id_discrete orig.new_id rt.new_id)
    assert_eq (p.values_discrete orig.values rt.values)
    check_links rest more
  check_links _ _ = ok tt

  unfoldable pub check_policy_set_equivalence : PolicySet → PolicySet → Bool → Exec ⊥ (Unit {0})
  check_policy_set_equivalence original roundtripped check_ids = do
    check_entries (λ a b. check_template_equivalence a b check_ids) original.templates
        roundtripped.templates
    assert_eq (ℕ_discrete (length original.templates) (length roundtripped.templates))
    check_entries (λ a b. check_template_equivalence (p.body a) (p.body b) check_ids)
        original.policies roundtripped.policies
    assert_eq (ℕ_discrete (length original.policies) (length roundtripped.policies))
    check_links original.template_links roundtripped.template_links
    assert_eq (ℕ_discrete (length original.template_links) (length roundtripped.template_links))
