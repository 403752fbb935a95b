-- ===== src/Analysis/Reports/Complete.antt =====
-- cedar-lean-cli/src/analysis.rs: the findings that a whole run of `analyze_policyset` computes.
use cedar_spec.Base.{
  ◌≡◌, refl, subst, List, [], get_elem?, some, ok, Ensures, Ensures-bind, Ensures-then,
  Ensures-both, Ensures-mono, Zip, arith, sym,
}
use cedar_spec.Cedar.{Cedar, LeanFfi, CombinationLaws, permit, forbid}
use cedar_spec.Cli.RequestEnvs.{to_request_envs, any}
use cedar_spec.Analysis.Vacuity.{VacuityResult}
use cedar_spec.Analysis.Pairs.{no_findings, compare_pairs, policies_vacuity}
use cedar_spec.Analysis.Report.{
  policyset_findings, analyze_policy_findings_new, AnalyzePolicyFindings,
}
use cedar_spec.Analysis.Verdicts.{SolverLaws, HasVacuity}
use cedar_spec.Analysis.Meaning.{policy_vacuous-HasVacuity}
use cedar_spec.Analysis.NoPanic.{
  policies_vacuity-IsPrecomputed, policyset_vacuous-Ensures, IsPrecomputed,
}
use cedar_spec.Analysis.Loop.{IdsDistinct, Known}
use cedar_spec.Analysis.Loop.Recorded.{compare_pairs-IsRecorded}
use cedar_spec.Analysis.Loop.Overrides.{IsOverridden, overridden_view, overrides-Round}
use cedar_spec.Analysis.Loop.Shadows.{IsNarrower, IsRedundant}
use cedar_spec.Analysis.Loop.Redundant.{redundant_view, Redundant-Round}
use cedar_spec.Analysis.Loop.Narrower.{permits_view, forbids_view, permits-Round, forbids-Round}
use cedar_spec.Analysis.Reports.Described.{IsDescription, AllRecorded, findings_from-IsDescription}

module _ (c : Cedar) (ffi : LeanFfi c) (laws : SolverLaws c ffi) (ps : List c.Policy)
    (ids : IdsDistinct c ps) where
  open c use {Policy, PolicyId, RequestEnv, BoxedError, FfiError}

  module _ (req_envs : List RequestEnv) where
    -- The vacuities that the first loop computes are those of the policies.
    policies_vacuity-Known :
        Ensures
          (IsPrecomputed c ffi req_envs (Known c ffi laws req_envs ps) ps [])
          (policies_vacuity c ffi req_envs ps [])
    policies_vacuity-Known =
        policies_vacuity-IsPrecomputed c ffi req_envs (Known c ffi laws req_envs ps) ps []
          (λ p ip.
            Ensures-mono (Zip (λ e. HasVacuity (laws.matches p e)) req_envs) _ _
              (λ vrs _ z q iq same.
                subst (λ t. Zip (λ e. HasVacuity (laws.matches t e)) req_envs vrs)
                  (ids p q ip iq (sym same)) z)
              (policy_vacuous-HasVacuity laws p req_envs))
          tt

    compare_pairs-AllRecorded :
        (combines : CombinationLaws c) (vacuity : List (PolicyId × List VacuityResult))
        → IsPrecomputed c ffi req_envs (Known c ffi laws req_envs ps) ps [] vacuity
        → Ensures
            (AllRecorded c ffi laws ps ids req_envs)
            (compare_pairs c ffi req_envs vacuity (c.combinations ps) no_findings)
    compare_pairs-AllRecorded combines vacuity known =
        Ensures-mono _ (AllRecorded c ffi laws ps ids req_envs) _
          (λ f _ ((z, r), ((z1, o), ((z2, p), (z3, q)))). record {
            sized = z;
            redundant = r;
            overridden = o;
            permits = p;
            forbids = q;
          })
          (Ensures-both _ _ _
            (compare_pairs-IsRecorded c ffi laws req_envs (redundant_view c ffi laws req_envs)
              (IsRedundant c ffi laws) (Redundant-Round c ffi laws req_envs) ps vacuity known
              combines refl)
            (Ensures-both _ _ _
              (compare_pairs-IsRecorded c ffi laws req_envs (overridden_view c ffi laws req_envs)
                (IsOverridden c ffi laws) (overrides-Round c ffi laws req_envs) ps vacuity known
                combines refl)
              (Ensures-both _ _ _
                (compare_pairs-IsRecorded c ffi laws req_envs (permits_view c ffi laws req_envs)
                  (IsNarrower c ffi laws permit) (permits-Round c ffi laws req_envs) ps vacuity
                  known combines refl)
                (compare_pairs-IsRecorded c ffi laws req_envs (forbids_view c ffi laws req_envs)
                  (IsNarrower c ffi laws forbid) (forbids-Round c ffi laws req_envs) ps vacuity
                  known combines refl))))

-- For a policy set in which no two policies have one id, where the request environments of the
-- schema are es, combinations lists the pairs of the policies, and the solver answers as
-- documented: policyset_findings does not panic, and the findings that it returns, if a call does
-- not fail, are, in order and without those that are empty, one for each of es, with its texts. In
-- each, a permit policy is listed with a forbid policy as overridden exactly where each matches
-- some request but not all and the second matches all that the first matches; of two policies of
-- one effect, the first is listed with the second as shadowed exactly where each matches some
-- request and the second matches strictly more; and two different policies stand together in one of
-- the disjoint classes exactly where they have one effect, each matches some request and they match
-- the same ones.
pub policyset_findings-IsDescription :
    {c : Cedar} {ffi : LeanFfi c} (laws : SolverLaws c ffi) (combines : CombinationLaws c)
    (schema : c.Schema) (policy_set : c.PolicySet) (ids : IdsDistinct c (c.policies policy_set))
    {es : List c.RequestEnv}
    → to_request_envs c (any c) schema ≡ ok es
    → Ensures
        (λ r. IsDescription c ffi laws (c.policies policy_set) ids es r.per_sig_findings)
        (policyset_findings c ffi schema policy_set)
unfolding policyset_findings analyze_policy_findings_new
policyset_findings-IsDescription {c} {ffi} laws combines schema policy_set ids {es} h =
    let ps = c.policies policy_set in
    let Goal : AnalyzePolicyFindings c → Type 0 =
      λ r. IsDescription c ffi laws ps ids es r.per_sig_findings in
    rw h (
      Ensures-bind (IsPrecomputed c ffi es (Known c ffi laws es ps) ps []) Goal _ _
        (policies_vacuity-Known c ffi laws ps ids es)
        (λ vacuity _ known.
          Ensures-then Goal _ _ (policyset_vacuous-Ensures c ffi policy_set es) (λ pv.
            Ensures-bind (AllRecorded c ffi laws ps ids es) Goal _ _
              (compare_pairs-AllRecorded c ffi laws ps ids es combines vacuity known)
              (λ f _ rec.
                Ensures-bind (IsDescription c ffi laws ps ids es) Goal _ _
                  (findings_from-IsDescription c ffi laws ps ids es f 0 es rec
                    (λ i e at. subst (λ n. get_elem? es n ≡ some e) (omega arith) at))
                  (λ sigs _ d. d)))))
