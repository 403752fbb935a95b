-- ===== src/Analysis/Vacuity.antt =====
-- cedar-lean-cli/src/analysis.rs: `VacuityResult` and the loops that compute it for each request
-- environment.
use cedar_spec.Base.{
  ◌⊎◌, Bool, true, ◌&&◌, List, [], ◌∷◌, Exec, ok, ◌>>=◌, attempt, for_each, test, if◌then◌else◌,
}
use cedar_spec.Cedar.{Cedar, LeanFfi}
use cedar_spec.Cli.Err.{ExecError, lean_ffi_error}

pub data VacuityResult : Type 0 where
  matches_all matches_some matches_none : VacuityResult

pub VacuityResult-discrete : Discrete VacuityResult
VacuityResult-discrete = hlevel

-- `results.iter().all(|res| *res == v)`
unfoldable pub all_are : VacuityResult → List VacuityResult → Bool
all_are v [] = true
all_are v (res ∷ results) = test (VacuityResult-discrete res v) && all_are v results

unfoldable pub vacuous_finding_from_results : List VacuityResult → VacuityResult
vacuous_finding_from_results results =
    if all_are matches_all results
    then matches_all
    else if all_are matches_none results
    then matches_none
    else matches_some

-- One round of either loop: a check that all requests match and, where it fails, a check that none
-- does.
unfoldable pub vacuity_of :
    {E F : Type 0} → F ⊎ Bool → F ⊎ Bool → Exec (ExecError E F) VacuityResult
vacuity_of always never = do
  all ← attempt lean_ffi_error always
  if all then ok matches_all else do
    nothing ← attempt lean_ffi_error never
    ok (if nothing then matches_none else matches_some)

module _ (c : Cedar) (ffi : LeanFfi c) where
  open c use {Policy, PolicySet, RequestEnv, BoxedError, FfiError}

  unfoldable pub policyset_vacuous :
      PolicySet → List RequestEnv → Exec (ExecError BoxedError FfiError) (List VacuityResult)
  policyset_vacuous policyset = for_each λ req_env.
      vacuity_of (ffi.run_check_always_allows policyset req_env)
        (ffi.run_check_always_denies policyset req_env)

  unfoldable pub policy_vacuous :
      Policy → List RequestEnv → Exec (ExecError BoxedError FfiError) (List VacuityResult)
  policy_vacuous policy = for_each λ req_env.
      vacuity_of (ffi.run_check_always_matches policy req_env)
        (ffi.run_check_never_matches policy req_env)
