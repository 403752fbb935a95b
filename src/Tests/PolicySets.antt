-- ===== src/Tests/PolicySets.antt =====
-- The check of policy sets after a round trip, where a template is its number.
use cedar_spec.Base.{ℕ, ◌↔◌, false, [], ◌∷◌, ℕ_discrete}
use cedar_spec.PstEquiv.{PstTypes, PolicySet, check_policy_set_equivalence}
use cedar_spec.PstEquiv.Passes.{Passes, SameMap, SameTemplate, SameLinks, check_policy_set_iff}

abbrev numbers : PstTypes
numbers = record {
  PolicyId = ℕ;
  id_discrete = ℕ_discrete;
  Effect = ℕ;
  effect_discrete = ℕ_discrete;
  PrincipalConstraint = ℕ;
  principal_discrete = ℕ_discrete;
  ActionConstraint = ℕ;
  action_discrete = ℕ_discrete;
  ResourceConstraint = ℕ;
  resource_discrete = ℕ_discrete;
  Clauses = ℕ;
  clauses_discrete = ℕ_discrete;
  Annotations = ℕ;
  annotations_discrete = ℕ_discrete;
  Values = ℕ;
  values_discrete = ℕ_discrete;
  Template = ℕ;
  id = λ t. t;
  effect = λ t. 0;
  principal = λ t. 1;
  action = λ t. 2;
  resource = λ t. 3;
  clauses = λ t. t;
  annotations = λ t. 4;
  StaticPolicy = ℕ;
  body = λ s. s;
}

abbrev before : PolicySet numbers
before = record {
  templates = (1, 10) ∷ [];
  policies = (2, 20) ∷ [];
  template_links = record { template_id = 1; new_id = 3; values = 5 } ∷ [];
}

abbrev after : PolicySet numbers
after = record { templates = (1, 10) ∷ []; policies = (2, 20) ∷ []; template_links = [] }

check_policy_set_iff_example : Passes (check_policy_set_equivalence numbers before after false) ↔ (
    SameMap ℕ_discrete (SameTemplate numbers false) before.templates after.templates
    × (SameMap ℕ_discrete (λ v w. SameTemplate numbers false v w) before.policies after.policies
        × SameLinks numbers before.template_links after.template_links))
check_policy_set_iff_example =
    check_policy_set_iff numbers false before after (λ i. absurd i, tt) (λ i. absurd i, tt)
      (λ i. absurd i, tt) (λ i. absurd i, tt)
