-- ===== src/Tests/Policies.antt =====
-- The theorems on the policy analysis and on request environments, at the sample policies.
use cedar_spec.Base.{
  ◌⊎◌, Bool, ℕ, ◌≡◌, ◌≢◌, refl, ◌↔◌, true, false, List, [], ◌∷◌, none, some, ok, err, panic,
  ℕ_discrete, In, Ensures, Zip, arith,
}
use cedar_spec.Cedar.{permit, forbid}
use cedar_spec.Cli.RequestEnvs.{
  OpenRequestEnv, any, to_request_envs, envs_for_actions, envs_for_action, envs_for_principals,
  envs_for_principal, envs_for_resources, incompatible,
}
use cedar_spec.Cli.RequestEnvs.Consistency.{
  IsConsistent, In-to_request_envs, to_request_envs-incompatible,
}
use cedar_spec.Analysis.Vacuity.{VacuityResult, matches_some, policy_vacuous, policyset_vacuous}
use cedar_spec.Analysis.Shadowing.{
  compute_permit_shadowing_result, compute_forbid_shadowing_result,
  compute_forbid_overrides_shadow_result,
}
use cedar_spec.Analysis.Pairs.{no_findings, compare_pair}
use cedar_spec.Analysis.Compared.{AllSized, Compared, compare_pair-Compared}
use cedar_spec.Analysis.Marks.{no_findings-IsSized}
use cedar_spec.Analysis.Report.{policyset_findings, per_sig_findings_new}
use cedar_spec.Analysis.NoPanic.{policyset_findings-ne-panic}
use cedar_spec.Analysis.Classes.{
  IsEquivalence, IsPartition, per_sig_findings_new-IsPartition, related, related_in,
}
use cedar_spec.Base.Assoc.{lookup, contains}
use cedar_spec.Analysis.Verdicts.{HasVacuity}
use cedar_spec.Analysis.Meaning.{policy_vacuous-HasVacuity, policyset_vacuous-HasVacuity}
use cedar_spec.Analysis.Documented.{
  ComparesShadowing, ComparesOverride, compute_permit_shadowing_result-ComparesShadowing,
  compute_forbid_shadowing_result-ComparesShadowing,
  compute_forbid_overrides_shadow_result-ComparesOverride,
}
use cedar_spec.Analysis.Compare.{HasStatus, compare_policysets, compare_policysets-HasStatus}
use cedar_spec.Tests.Samples.{
  sample, solver, sample-CombinationLaws, sample-EnvLaws, solver-SolverLaws, solver-CexLaws,
  SamplePolicy, SampleEnv, narrow, narrow_again, wide, block, some_env, allowed,
}

abbrev both_policies : List SamplePolicy
both_policies = narrow ∷ narrow_again ∷ wide ∷ block ∷ []

policyset_findings-ne-panic_example : policyset_findings sample solver tt both_policies ≢ panic
policyset_findings-ne-panic_example =
    policyset_findings-ne-panic sample solver sample-CombinationLaws tt both_policies

policy_vacuous-HasVacuity_example :
    Ensures
      (Zip (λ e. HasVacuity narrow.matches) (some_env ∷ []))
      (policy_vacuous sample solver narrow (some_env ∷ []))
policy_vacuous-HasVacuity_example =
    policy_vacuous-HasVacuity solver-SolverLaws narrow (some_env ∷ [])

policyset_vacuous-HasVacuity_example :
    Ensures
      (Zip (λ e. HasVacuity (allowed both_policies)) (some_env ∷ []))
      (policyset_vacuous sample solver both_policies (some_env ∷ []))
policyset_vacuous-HasVacuity_example =
    policyset_vacuous-HasVacuity solver-SolverLaws both_policies (some_env ∷ [])

abbrev vacuity_some : List VacuityResult
vacuity_some = matches_some ∷ []

some_request :
    (f : Bool → Bool)
    → f true ≡ true
    → f false ≡ false
    → Zip (λ e. HasVacuity f) (some_env ∷ []) vacuity_some
some_request f t n = (((λ h. cc (h false)), (λ h. cc (h true))), tt)

compute_permit_shadowing_result-ComparesShadowing_example :
    Ensures (Zip (λ e. ComparesShadowing narrow.matches narrow_again.matches) (some_env ∷ [])) (
      compute_permit_shadowing_result sample solver narrow vacuity_some narrow_again vacuity_some
        (some_env ∷ []))
compute_permit_shadowing_result-ComparesShadowing_example =
    compute_permit_shadowing_result-ComparesShadowing solver-SolverLaws narrow narrow_again
      vacuity_some vacuity_some (some_env ∷ []) (some_request narrow.matches refl refl)
      (some_request narrow_again.matches refl refl) refl refl

compute_forbid_shadowing_result-ComparesShadowing_example :
    Ensures (Zip (λ e. ComparesShadowing block.matches block.matches) (some_env ∷ [])) (
      compute_forbid_shadowing_result sample solver block vacuity_some block vacuity_some
        (some_env ∷ []))
compute_forbid_shadowing_result-ComparesShadowing_example =
    compute_forbid_shadowing_result-ComparesShadowing solver-SolverLaws block block vacuity_some
      vacuity_some (some_env ∷ []) (some_request block.matches refl refl)
      (some_request block.matches refl refl)

compute_forbid_overrides_shadow_result-ComparesOverride_example :
    Ensures (Zip (λ e. ComparesOverride block.matches narrow.matches) (some_env ∷ [])) (
      compute_forbid_overrides_shadow_result sample solver block vacuity_some narrow vacuity_some
        (some_env ∷ []))
compute_forbid_overrides_shadow_result-ComparesOverride_example =
    compute_forbid_overrides_shadow_result-ComparesOverride solver-SolverLaws block narrow
      vacuity_some vacuity_some (some_env ∷ []) (some_request block.matches refl refl)
      (some_request narrow.matches refl refl)

abbrev env : ℕ → ℕ → SampleEnv
env p r = record { principal = p; action = 0; resource = r }

abbrev pub all_envs : List SampleEnv
all_envs = env 1 1 ∷ env 1 2 ∷ env 2 1 ∷ env 2 2 ∷ []

pub all_envs_lem : to_request_envs sample (any sample) tt ≡ ok all_envs
unfolding to_request_envs any envs_for_actions envs_for_action envs_for_principals
    envs_for_principal envs_for_resources
all_envs_lem = refl

compare_policysets-HasStatus_example :
    Ensures
      (Zip (λ e r. HasStatus solver-CexLaws (narrow ∷ []) (wide ∷ []) e r.status) all_envs)
      (compare_policysets sample solver tt (narrow ∷ []) (wide ∷ []))
compare_policysets-HasStatus_example =
    compare_policysets-HasStatus solver-CexLaws tt (narrow ∷ []) (wide ∷ []) all_envs_lem

In-to_request_envs_example : In some_env all_envs ↔ IsConsistent (any sample) tt (0 ∷ []) some_env
In-to_request_envs_example =
    In-to_request_envs (any sample) tt sample-EnvLaws (0 ∷ []) refl all_envs_lem some_env

-- No action takes a resource of type 3.
abbrev impossible : OpenRequestEnv sample
impossible = record { principal_type = none; action_id = none; resource_type = some 3 }

to_request_envs-incompatible_example :
    (to_request_envs sample impossible tt ≡ err (incompatible sample impossible tt))
    ↔ ((true ≡ true) × ((e : SampleEnv) → ¬ IsConsistent impossible tt (0 ∷ []) e))
to_request_envs-incompatible_example = to_request_envs-incompatible impossible tt (0 ∷ []) refl

-- Two policies that are redundant with each other.
abbrev twins : List (ℕ × List ℕ)
twins = (1, 2 ∷ []) ∷ (2, 1 ∷ []) ∷ []

twins_lem :
    (p q : ℕ) → (related ℕ_discrete twins p q ≡ true) ↔ (((p ≡ 1) ⊎ (p ≡ 2)) × ((q ≡ 1) ⊎ (q ≡ 2)))
unfolding related related_in lookup contains
twins_lem p q = ground arith

twins-IsEquivalence : IsEquivalence ℕ_discrete twins
twins-IsEquivalence = record {
  symmetric = λ p q h. (twins_lem q p).1 (let (a, b) = (twins_lem p q).0 h in (b, a));
  transitive = λ p q r h k. (twins_lem p r).1 (((twins_lem p q).0 h).0, ((twins_lem q r).0 k).1);
}

per_sig_findings_new-IsPartition_example :
    IsPartition ℕ_discrete twins (per_sig_findings_new sample some_env twins [] [] []).equiv_classes
per_sig_findings_new-IsPartition_example =
    per_sig_findings_new-IsPartition sample some_env twins [] [] [] twins-IsEquivalence

abbrev one_env : List SampleEnv
one_env = some_env ∷ []

no_findings-AllSized : AllSized sample solver one_env no_findings
no_findings-AllSized = record {
  redundant_sized = no_findings-IsSized ℕ_discrete 1;
  permits_sized = no_findings-IsSized ℕ_discrete 1;
  overridden_sized = no_findings-IsSized ℕ_discrete 1;
  forbids_sized = no_findings-IsSized ℕ_discrete 1;
}

compare_pair-Compared_example :
    Ensures
      (λ f'.
        AllSized sample solver one_env f'
        × Compared sample solver one_env permit forbid narrow vacuity_some block vacuity_some
            no_findings f')
      (compare_pair sample solver one_env permit forbid narrow vacuity_some block vacuity_some
        no_findings)
compare_pair-Compared_example =
    compare_pair-Compared sample solver one_env permit forbid narrow vacuity_some block vacuity_some
      no_findings refl refl no_findings-AllSized
