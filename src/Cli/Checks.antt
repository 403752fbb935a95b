-- ===== src/Cli/Checks.antt =====
-- cedar-lean-cli/src/symcc.rs: the commands that ask the solver about each request environment, and what they
-- report. The texts that are printed are not modelled: a report is which of the three headlines is printed, whether
-- it names the restrictions, the widths of the columns and the rows.
pub mod Reports
use Prim.Native.String.{len}
use Prim.Native.Nat.{max}
use cedar_spec.Base.{
  ℕ, ◌⊎◌, Bool, true, false, not, ◌&&◌, List, [], ◌∷◌, Exec, ok, ◌>>=◌, attempt, for_each,
  if◌then◌else◌,
}
use cedar_spec.Cedar.{Cedar}
use cedar_spec.Cli.Err.{ExecError, lean_ffi_error}
use cedar_spec.Cli.RequestEnvs.{OpenRequestEnv, is_any, to_request_envs}

-- The calls of the Lean bindings, at a loaded schema.
pub record CheckCalls (c : Cedar) : Type 1 where
  pub LeanSchema : Type 0
  pub load_lean_schema_object : c.Schema → c.FfiError ⊎ LeanSchema
  pub run_check_never_errors : c.Policy → LeanSchema → c.RequestEnv → c.FfiError ⊎ Bool
  pub run_check_always_allows : c.PolicySet → LeanSchema → c.RequestEnv → c.FfiError ⊎ Bool
  pub run_check_always_denies : c.PolicySet → LeanSchema → c.RequestEnv → c.FfiError ⊎ Bool
  pub run_check_equivalent :
      c.PolicySet → c.PolicySet → LeanSchema → c.RequestEnv → c.FfiError ⊎ Bool
  pub run_check_implies : c.PolicySet → c.PolicySet → LeanSchema → c.RequestEnv → c.FfiError ⊎ Bool
  pub run_check_disjoint : c.PolicySet → c.PolicySet → LeanSchema → c.RequestEnv → c.FfiError ⊎ Bool

-- `results.iter().all(|r| *r)` and `results.iter().all(|r| !*r)`
abbrev pub all_true : List Bool → Bool
all_true [] = true
all_true (r ∷ rs) = r && all_true rs

abbrev pub all_false : List Bool → Bool
all_false [] = true
all_false (r ∷ rs) = not r && all_false rs

pub data Headline : Type 0 where
  for_all for_none for_some : Headline

-- The tests at the start of each `print_check_…_results`
unfoldable pub headline : List Bool → Headline
headline results =
    if all_true results then for_all else (if all_false results then for_none else for_some)

abbrev pub zip : {A B : Type 0} → List A → List B → List (A × B)
zip (a ∷ as_) (b ∷ bs) = (a, b) ∷ zip as_ bs
zip _ _ = []

pub record SigWidths : Type 0 where
  pub principal_width : ℕ
  pub action_width : ℕ
  pub resource_width : ℕ

module _ (c : Cedar) where
  pub record CheckReport : Type 0 where
    pub headline : Headline
    pub restricted : Bool
    pub widths : SigWidths
    pub rows : List (c.RequestEnv × Bool)

  -- A round of the loop of `SigWidths::from_req_envs`
  abbrev pub widen : SigWidths → c.RequestEnv → SigWidths
  widen w env = record {
    principal_width = max w.principal_width (len (c.basename (c.principal env)));
    action_width = max w.action_width (len (c.escaped (c.entity_id (c.action env))));
    resource_width = max w.resource_width (len (c.basename (c.resource env)));
  }

  unfoldable pub widen_all : SigWidths → List c.RequestEnv → SigWidths
  widen_all w [] = w
  widen_all w (env ∷ envs) = widen_all (widen w env) envs

  unfoldable pub from_req_envs : List c.RequestEnv → SigWidths
  from_req_envs envs =
      widen_all (record { principal_width = 13; action_width = 10; resource_width = 12 }) envs

  -- `print_check_…_results`
  unfoldable pub report_results : List Bool → List c.RequestEnv → OpenRequestEnv c → CheckReport
  report_results results envs open_env = record {
    headline = headline results;
    restricted = not (is_any c open_env);
    widths = from_req_envs envs;
    rows = zip envs results;
  }

  module _ (calls : CheckCalls c) (schema : c.Schema) (open_env : OpenRequestEnv c) where
    -- The body that the six commands share, with the call of each.
    unfoldable pub run_checks :
        (calls.LeanSchema → c.RequestEnv → c.FfiError ⊎ Bool)
        → Exec (ExecError c.BoxedError c.FfiError) CheckReport
    run_checks call = do
      req_envs ← to_request_envs c open_env schema
      lean_schema ← attempt lean_ffi_error (calls.load_lean_schema_object schema)
      results ← for_each (λ env. attempt lean_ffi_error (call lean_schema env)) req_envs
      ok (report_results results req_envs open_env)

    unfoldable pub run_check_never_errors :
        c.Policy → Exec (ExecError c.BoxedError c.FfiError) CheckReport
    run_check_never_errors policy = run_checks (calls.run_check_never_errors policy)

    unfoldable pub run_check_always_allows :
        c.PolicySet → Exec (ExecError c.BoxedError c.FfiError) CheckReport
    run_check_always_allows policyset = run_checks (calls.run_check_always_allows policyset)

    unfoldable pub run_check_always_denies :
        c.PolicySet → Exec (ExecError c.BoxedError c.FfiError) CheckReport
    run_check_always_denies policyset = run_checks (calls.run_check_always_denies policyset)

    unfoldable pub run_check_equivalent :
        c.PolicySet → c.PolicySet → Exec (ExecError c.BoxedError c.FfiError) CheckReport
    run_check_equivalent pset1 pset2 = run_checks (calls.run_check_equivalent pset1 pset2)

    unfoldable pub run_check_implies :
        c.PolicySet → c.PolicySet → Exec (ExecError c.BoxedError c.FfiError) CheckReport
    run_check_implies pset1 pset2 = run_checks (calls.run_check_implies pset1 pset2)

    unfoldable pub run_check_disjoint :
        c.PolicySet → c.PolicySet → Exec (ExecError c.BoxedError c.FfiError) CheckReport
    run_check_disjoint pset1 pset2 = run_checks (calls.run_check_disjoint pset1 pset2)
