-- ===== src/Analysis/Shadowing.antt =====
-- cedar-lean-cli/src/analysis.rs: `ShadowingResult` and `OverrideResult`, computed for two policies
-- in each request environment.
use cedar_spec.Base.{
  ◌⊎◌, Bool, true, false, List, [], ◌∷◌, Exec, ok, ◌>>=◌, attempt, for_each, if◌then◌else◌,
}
use cedar_spec.Cedar.{Cedar, LeanFfi}
use cedar_spec.Cli.Err.{ExecError, lean_ffi_error, policy_into_policy_set_error}
use cedar_spec.Analysis.Vacuity.{VacuityResult, matches_all, matches_some, matches_none}

pub data ShadowingResult : Type 0 where
  equivalent policy1_shadows2 policy2_shadows1 no_result : ShadowingResult

pub ShadowingResult-discrete : Discrete ShadowingResult
ShadowingResult-discrete = hlevel

pub data OverrideResult : Type 0 where
  overrides no_result : OverrideResult

pub OverrideResult-discrete : Discrete OverrideResult
OverrideResult-discrete = hlevel

module _ {A B C : Type 0} where
  -- `zip(zip(as, bs), cs)`, which stops with the shortest list
  unfoldable pub zip3 : List A → List B → List C → List (A × B × C)
  zip3 [] bs cs = []
  zip3 (a ∷ as') [] cs = []
  zip3 (a ∷ as') (b ∷ bs) [] = []
  zip3 (a ∷ as') (b ∷ bs) (d ∷ cs) = (a, b, d) ∷ zip3 as' bs cs

-- `match (policy1shadows2, policy2shadows1)`: what the two implications say.
unfoldable pub direction : Bool → Bool → ShadowingResult
direction true true = equivalent
direction true false = policy2_shadows1
direction false true = policy1_shadows2
direction false false = ShadowingResult.no_result

module _ {E F : Type 0} where
  -- `match (vr1, vr2)`: the two checks are calls, made in this order in the last case alone.
  unfoldable pub shadowing_entry :
      VacuityResult → VacuityResult → F ⊎ Bool → F ⊎ Bool → Exec (ExecError E F) ShadowingResult
  shadowing_entry matches_none vr2 fwd bwd = ok ShadowingResult.no_result
  shadowing_entry matches_all matches_none fwd bwd = ok ShadowingResult.no_result
  shadowing_entry matches_some matches_none fwd bwd = ok ShadowingResult.no_result
  shadowing_entry matches_all matches_all fwd bwd = ok equivalent
  shadowing_entry matches_all matches_some fwd bwd = ok policy1_shadows2
  shadowing_entry matches_some matches_all fwd bwd = ok policy2_shadows1
  shadowing_entry matches_some matches_some fwd bwd = do
    policy1shadows2 ← attempt lean_ffi_error fwd
    policy2shadows1 ← attempt lean_ffi_error bwd
    ok (direction policy1shadows2 policy2shadows1)

  -- `match (forbid_vr, permit_vr)`
  unfoldable pub override_entry :
      VacuityResult → VacuityResult → F ⊎ Bool → Exec (ExecError E F) OverrideResult
  override_entry matches_none permit_vr implied = ok OverrideResult.no_result
  override_entry matches_all permit_vr implied = ok OverrideResult.no_result
  override_entry matches_some matches_none implied = ok OverrideResult.no_result
  override_entry matches_some matches_all implied = ok OverrideResult.no_result
  override_entry matches_some matches_some implied = do
    holds ← attempt lean_ffi_error implied
    ok (if holds then overrides else OverrideResult.no_result)

module _ (c : Cedar) (ffi : LeanFfi c) where
  open c use {Policy, RequestEnv, BoxedError, FfiError}

  unfoldable pub compute_permit_shadowing_result :
      Policy
      → List VacuityResult
      → Policy
      → List VacuityResult
      → List RequestEnv
      → Exec (ExecError BoxedError FfiError) (List ShadowingResult)
  compute_permit_shadowing_result policy1 vrs1 policy2 vrs2 req_envs = do
    pset1 ← attempt policy_into_policy_set_error (c.from_policy policy1)
    pset2 ← attempt policy_into_policy_set_error (c.from_policy policy2)
    for_each
        (λ (vr1, vr2, req_env).
          shadowing_entry vr1 vr2 (ffi.run_check_implies pset1 pset2 req_env)
            (ffi.run_check_implies pset2 pset1 req_env))
        (zip3 vrs1 vrs2 req_envs)

  unfoldable pub compute_forbid_shadowing_result :
      Policy
      → List VacuityResult
      → Policy
      → List VacuityResult
      → List RequestEnv
      → Exec (ExecError BoxedError FfiError) (List ShadowingResult)
  compute_forbid_shadowing_result policy1 vrs1 policy2 vrs2 req_envs =
      for_each
        (λ (vr1, vr2, req_env).
          shadowing_entry vr1 vr2 (ffi.run_check_matches_implies policy1 policy2 req_env)
            (ffi.run_check_matches_implies policy2 policy1 req_env))
        (zip3 vrs1 vrs2 req_envs)

  unfoldable pub compute_forbid_overrides_shadow_result :
      Policy
      → List VacuityResult
      → Policy
      → List VacuityResult
      → List RequestEnv
      → Exec (ExecError BoxedError FfiError) (List OverrideResult)
  compute_forbid_overrides_shadow_result forbid_policy forbid_vrs permit_policy permit_vrs
        req_envs =
      for_each
        (λ (forbid_vr, permit_vr, req_env).
          override_entry forbid_vr permit_vr
            (ffi.run_check_matches_implies permit_policy forbid_policy req_env))
        (zip3 forbid_vrs permit_vrs req_envs)
