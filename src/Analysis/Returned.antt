-- ===== src/Analysis/Returned.antt =====
-- cedar-lean-cli/src/analysis.rs: the comparisons of policies return no errors but those of the calls that
-- they make.
pub mod Run
use cedar_spec.Base.{
  refl, ◌≡◌, ◌⊎◌, inr, inl, Bool, true, false, List, [], ◌∷◌, Option, none, some, ok, expect,
  attempt, Fails, Fails-bind, Fails-for_each, arith, ℕ, suc, get_elem?,
}
use cedar_spec.Cedar.{Cedar, LeanFfi, Effect, permit, forbid, CombinationLaws}
use cedar_spec.Cli.Err.{ExecError, lean_ffi_error, policy_into_policy_set_error}
use cedar_spec.Cli.RequestEnvs.{to_request_envs, any}
use cedar_spec.Base.Assoc.{lookup}
use cedar_spec.Analysis.Vacuity.{
  VacuityResult, matches_all, matches_some, matches_none, vacuity_of, policy_vacuous,
  policyset_vacuous,
}
use cedar_spec.Analysis.Shadowing.{
  shadowing_entry, override_entry, ShadowingResult, compute_permit_shadowing_result,
  compute_forbid_shadowing_result, compute_forbid_overrides_shadow_result,
}
use cedar_spec.Analysis.Update.{FindingsMap, mark_results, update_findings}
use cedar_spec.Analysis.Pairs.{
  Findings, no_findings, update_shadowing, compare_pair, policies_vacuity, compare_policies,
  compare_pairs,
}
use cedar_spec.Analysis.Report.{
  SetMap, at_signature, findings_at, findings_from, analyze_policy_findings_new, policyset_findings,
  AnalyzePolicyFindings,
}
use cedar_spec.Analysis.Verdicts.{SolverLaws}
use cedar_spec.Analysis.Loop.{IdsDistinct}

-- An error that a call of the solver gave, or the making of a policy set.
pub data IsCallError (c : Cedar) (ffi : LeanFfi c)
    : ExecError c.BoxedError c.FfiError → Type 0 where
  from_policy :
      (p : c.Policy) {x : c.BoxedError}
      → c.from_policy p ≡ inl x
      → IsCallError c ffi (policy_into_policy_set_error x)
  always_allows :
      (s : c.PolicySet) (e : c.RequestEnv) {x : c.FfiError}
      → ffi.run_check_always_allows s e ≡ inl x
      → IsCallError c ffi (lean_ffi_error x)
  always_denies :
      (s : c.PolicySet) (e : c.RequestEnv) {x : c.FfiError}
      → ffi.run_check_always_denies s e ≡ inl x
      → IsCallError c ffi (lean_ffi_error x)
  always_matches :
      (p : c.Policy) (e : c.RequestEnv) {x : c.FfiError}
      → ffi.run_check_always_matches p e ≡ inl x
      → IsCallError c ffi (lean_ffi_error x)
  never_matches :
      (p : c.Policy) (e : c.RequestEnv) {x : c.FfiError}
      → ffi.run_check_never_matches p e ≡ inl x
      → IsCallError c ffi (lean_ffi_error x)
  implies :
      (s t : c.PolicySet) (e : c.RequestEnv) {x : c.FfiError}
      → ffi.run_check_implies s t e ≡ inl x
      → IsCallError c ffi (lean_ffi_error x)
  matches_implies :
      (p q : c.Policy) (e : c.RequestEnv) {x : c.FfiError}
      → ffi.run_check_matches_implies p q e ≡ inl x
      → IsCallError c ffi (lean_ffi_error x)

pub attempt-Fails :
    {E F A : Type 0} (P : E → Type 0) (wrap : F → E) (m : F ⊎ A)
    → ((x : F) → m ≡ inl x → P (wrap x))
    → Fails P (attempt wrap m)
attempt-Fails P wrap (inl e) h = h e refl
attempt-Fails P wrap (inr a) h = tt

pub expect-Fails : {E : Type 0} (P : E → Type 0) {A : Type 0} (o : Option A) → Fails P (expect o)
expect-Fails P none = tt
expect-Fails P (some a) = tt

module _ {PolicyId T E : Type 0} (P : E → Type 0) (dec : Discrete PolicyId) (eq : Discrete T) where
  pub mark_results-Fails :
      (pid : PolicyId) (wanted : T) (results : List T) (sets : List (List PolicyId))
      → Fails P (mark_results dec eq pid wanted results sets)
  unfolding mark_results
  mark_results-Fails pid wanted [] sets = tt
  mark_results-Fails pid wanted (r ∷ results) [] =
      let rest = mark_results-Fails pid wanted results [] in ground arith
  mark_results-Fails pid wanted (r ∷ results) (s ∷ sets) =
      Fails-bind P _ _ (mark_results-Fails pid wanted results sets) (λ rest. tt)

  pub update_findings-Fails :
      (p q : PolicyId) (results : List T) (f : FindingsMap PolicyId) (wanted : T)
      → Fails P (update_findings dec eq p q results f wanted)
  unfolding update_findings
  update_findings-Fails p q results f wanted =
      Fails-bind P _ _ (expect-Fails P _)
        (λ sets. Fails-bind P _ _ (mark_results-Fails q wanted results sets) (λ marked. tt))

module _ (c : Cedar) (ffi : LeanFfi c) where
  open c use {Policy, PolicyId, PolicySet, RequestEnv, BoxedError, FfiError}

  -- A call of the solver fails with such an error.
  abbrev Allowed : {A : Type 0} → FfiError ⊎ A → Type 0
  Allowed m = (x : FfiError) → m ≡ inl x → IsCallError c ffi (lean_ffi_error x)

  pub vacuity_of-Fails :
      (always never : FfiError ⊎ Bool)
      → Allowed always
      → Allowed never
      → Fails (IsCallError c ffi) (vacuity_of always never)
  unfolding vacuity_of
  vacuity_of-Fails (inl x) never a n = a x refl
  vacuity_of-Fails (inr true) never a n = tt
  vacuity_of-Fails (inr false) (inl x) a n = n x refl
  vacuity_of-Fails (inr false) (inr b) a n = tt

  shadowing_entry-Fails :
      (vr1 vr2 : VacuityResult) (fwd bwd : FfiError ⊎ Bool)
      → Allowed fwd
      → Allowed bwd
      → Fails (IsCallError c ffi) (shadowing_entry vr1 vr2 fwd bwd)
  unfolding shadowing_entry
  shadowing_entry-Fails matches_none vr2 fwd bwd a b = tt
  shadowing_entry-Fails matches_all matches_none fwd bwd a b = tt
  shadowing_entry-Fails matches_some matches_none fwd bwd a b = tt
  shadowing_entry-Fails matches_all matches_all fwd bwd a b = tt
  shadowing_entry-Fails matches_all matches_some fwd bwd a b = tt
  shadowing_entry-Fails matches_some matches_all fwd bwd a b = tt
  shadowing_entry-Fails matches_some matches_some (inl x) bwd a b = a x refl
  shadowing_entry-Fails matches_some matches_some (inr y) (inl x) a b = b x refl
  shadowing_entry-Fails matches_some matches_some (inr y) (inr z) a b = tt

  override_entry-Fails :
      (vr1 vr2 : VacuityResult) (implied : FfiError ⊎ Bool)
      → Allowed implied
      → Fails (IsCallError c ffi) (override_entry vr1 vr2 implied)
  unfolding override_entry
  override_entry-Fails matches_none vr2 implied a = tt
  override_entry-Fails matches_all vr2 implied a = tt
  override_entry-Fails matches_some matches_none implied a = tt
  override_entry-Fails matches_some matches_all implied a = tt
  override_entry-Fails matches_some matches_some (inl x) a = a x refl
  override_entry-Fails matches_some matches_some (inr y) a = tt

  pub policy_vacuous-Fails :
      (p : Policy) (es : List RequestEnv) → Fails (IsCallError c ffi) (policy_vacuous c ffi p es)
  unfolding policy_vacuous
  policy_vacuous-Fails p es =
      Fails-for_each (IsCallError c ffi) _ es
        (λ e. vacuity_of-Fails _ _ (λ x k. always_matches p e k) (λ x k. never_matches p e k))

  pub policyset_vacuous-Fails :
      (s : PolicySet) (es : List RequestEnv)
      → Fails (IsCallError c ffi) (policyset_vacuous c ffi s es)
  unfolding policyset_vacuous
  policyset_vacuous-Fails s es =
      Fails-for_each (IsCallError c ffi) _ es
        (λ e. vacuity_of-Fails _ _ (λ x k. always_allows s e k) (λ x k. always_denies s e k))

  module _ (es : List RequestEnv) (p : Policy) (svr : List VacuityResult) (q : Policy)
      (tvr : List VacuityResult) where
    pub permit_shadowing-Fails :
        Fails (IsCallError c ffi) (compute_permit_shadowing_result c ffi p svr q tvr es)
    unfolding compute_permit_shadowing_result
    permit_shadowing-Fails =
        Fails-bind (IsCallError c ffi) _ _
          (attempt-Fails (IsCallError c ffi) _ _ (λ x k. from_policy p k))
          (λ s.
            Fails-bind (IsCallError c ffi) _ _
              (attempt-Fails (IsCallError c ffi) _ _ (λ x k. from_policy q k))
              (λ t. Fails-for_each (IsCallError c ffi) _ _ (λ (vr1, vr2, e).
                shadowing_entry-Fails vr1 vr2 _ _ (λ x k. implies s t e k)
                  (λ x k. implies t s e k))))

    pub forbid_shadowing-Fails :
        Fails (IsCallError c ffi) (compute_forbid_shadowing_result c ffi p svr q tvr es)
    unfolding compute_forbid_shadowing_result
    forbid_shadowing-Fails = Fails-for_each (IsCallError c ffi) _ _ (λ (vr1, vr2, e).
        shadowing_entry-Fails vr1 vr2 _ _ (λ x k. matches_implies p q e k)
          (λ x k. matches_implies q p e k))

    pub overrides-Fails :
        Fails (IsCallError c ffi) (compute_forbid_overrides_shadow_result c ffi p svr q tvr es)
    unfolding compute_forbid_overrides_shadow_result
    overrides-Fails =
        Fails-for_each (IsCallError c ffi) _ _
          (λ (vr1, vr2, e). override_entry-Fails vr1 vr2 _ (λ x k. matches_implies q p e k))
