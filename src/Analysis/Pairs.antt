-- ===== src/Analysis/Pairs.antt =====
-- cedar-lean-cli/src/analysis.rs: the loop of `analyze_policyset` over the pairs of policies.
use cedar_spec.Base.{List, [], ◌∷◌, Exec, ok, ◌>>=◌, expect}
use cedar_spec.Base.Assoc.{lookup, insert}
use cedar_spec.Cedar.{Cedar, LeanFfi, Effect, permit, forbid}
use cedar_spec.Cli.Err.{ExecError}
use cedar_spec.Analysis.Vacuity.{VacuityResult, policy_vacuous}
use cedar_spec.Analysis.Shadowing.{
  ShadowingResult, ShadowingResult-discrete, equivalent, policy1_shadows2, policy2_shadows1,
  OverrideResult-discrete, overrides, compute_permit_shadowing_result,
  compute_forbid_shadowing_result, compute_forbid_overrides_shadow_result,
}
use cedar_spec.Analysis.Update.{FindingsMap, update_findings}

-- The maps that the loop fills.
pub record Findings (PolicyId : Type 0) : Type 0 where
  pub redundant : FindingsMap PolicyId
  pub permit_shadowed_by_permit : FindingsMap PolicyId
  pub permit_overridden_by_forbid : FindingsMap PolicyId
  pub forbid_shadowed_by_forbid : FindingsMap PolicyId

abbrev pub no_findings : {PolicyId : Type 0} → Findings PolicyId
no_findings = record {
  redundant = [];
  permit_shadowed_by_permit = [];
  permit_overridden_by_forbid = [];
  forbid_shadowed_by_forbid = [];
}

module _ (c : Cedar) (ffi : LeanFfi c) where
  open c use {PolicyId, Policy, RequestEnv, BoxedError, FfiError}

  -- The four updates that follow the comparison of two policies of one effect: both are redundant
  -- where they are equivalent, and one is shadowed where the other allows or denies more.
  unfoldable pub update_shadowing :
      PolicyId
      → PolicyId
      → List ShadowingResult
      → FindingsMap PolicyId
      → FindingsMap PolicyId
      → Exec (ExecError BoxedError FfiError) (FindingsMap PolicyId × FindingsMap PolicyId)
  update_shadowing id1 id2 results redundant shadowed = do
    redundant1 ← update_findings dec eq id1 id2 results redundant equivalent
    redundant2 ← update_findings dec eq id2 id1 results redundant1 equivalent
    shadowed1 ← update_findings dec eq id1 id2 results shadowed policy2_shadows1
    shadowed2 ← update_findings dec eq id2 id1 results shadowed1 policy1_shadows2
    ok (redundant2, shadowed2)
    where
      dec : Discrete PolicyId
      dec = c.policy_id_discrete

      eq : Discrete ShadowingResult
      eq = ShadowingResult-discrete

  module _ (req_envs : List RequestEnv) where
    -- `match (policy1.effect(), policy2.effect())`
    unfoldable pub compare_pair :
        Effect
        → Effect
        → Policy
        → List VacuityResult
        → Policy
        → List VacuityResult
        → Findings PolicyId
        → Exec (ExecError BoxedError FfiError) (Findings PolicyId)
    compare_pair permit permit policy1 svr policy2 tvr f = do
      results ← compute_permit_shadowing_result c ffi policy1 svr policy2 tvr req_envs
      (redundant', shadowed) ←
          update_shadowing (c.id policy1) (c.id policy2) results f.redundant
            f.permit_shadowed_by_permit
      ok (record f { redundant = redundant'; permit_shadowed_by_permit = shadowed })
    compare_pair permit forbid policy1 svr policy2 tvr f = do
      results ← compute_forbid_overrides_shadow_result c ffi policy2 tvr policy1 svr req_envs
      overridden ←
          update_findings c.policy_id_discrete OverrideResult-discrete (c.id policy1) (c.id policy2)
            results f.permit_overridden_by_forbid overrides
      ok (record f { permit_overridden_by_forbid = overridden })
    compare_pair forbid permit policy1 svr policy2 tvr f = do
      results ← compute_forbid_overrides_shadow_result c ffi policy1 svr policy2 tvr req_envs
      overridden ←
          update_findings c.policy_id_discrete OverrideResult-discrete (c.id policy2) (c.id policy1)
            results f.permit_overridden_by_forbid overrides
      ok (record f { permit_overridden_by_forbid = overridden })
    compare_pair forbid forbid policy1 svr policy2 tvr f = do
      results ← compute_forbid_shadowing_result c ffi policy1 svr policy2 tvr req_envs
      (redundant', shadowed) ←
          update_shadowing (c.id policy1) (c.id policy2) results f.redundant
            f.forbid_shadowed_by_forbid
      ok (record f { redundant = redundant'; forbid_shadowed_by_forbid = shadowed })

    -- The first loop: the vacuity of each policy, by its id.
    unfoldable pub policies_vacuity :
        List Policy
        → List (PolicyId × List VacuityResult)
        → Exec (ExecError BoxedError FfiError) (List (PolicyId × List VacuityResult))
    policies_vacuity [] vacuity = ok vacuity
    policies_vacuity (policy ∷ policies) vacuity = do
      pvr ← policy_vacuous c ffi policy req_envs
      policies_vacuity policies (insert c.policy_id_discrete (c.id policy) pvr vacuity)

    module _ (vacuity : List (PolicyId × List VacuityResult)) where
      unfoldable pub compare_policies :
          Policy × Policy
          → Findings PolicyId
          → Exec (ExecError BoxedError FfiError) (Findings PolicyId)
      compare_policies (policy1, policy2) f = do
        svr ← expect (lookup c.policy_id_discrete (c.id policy1) vacuity)
        tvr ← expect (lookup c.policy_id_discrete (c.id policy2) vacuity)
        compare_pair (c.effect policy1) (c.effect policy2) policy1 svr policy2 tvr f

      unfoldable pub compare_pairs :
          List (Policy × Policy)
          → Findings PolicyId
          → Exec (ExecError BoxedError FfiError) (Findings PolicyId)
      compare_pairs [] f = ok f
      compare_pairs (pair ∷ pairs) f = do f' ← compare_policies pair f; compare_pairs pairs f'
