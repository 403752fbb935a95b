-- ===== src/Tests/Checks.antt =====
-- The commands that ask the solver, where it allows requests on resources of type 1 alone.
use cedar_spec.Base.{ℕ, ◌≡◌, refl, ◌↔◌, ◌⊎◌, inr, Bool, ◌==◌, [], All, Ensures}
use cedar_spec.Base.Returns.{Returns}
use cedar_spec.Cli.RequestEnvs.{any}
use cedar_spec.Cli.Checks.{CheckCalls, run_checks}
use cedar_spec.Cli.Checks.Reports.{IsReport, run_checks-IsReport}
use cedar_spec.Tests.Samples.{sample, SampleEnv}
use cedar_spec.Tests.Policies.{all_envs, all_envs_lem}

abbrev answer : SampleEnv → ℕ ⊎ Bool
answer e = inr (e.resource == 1)

abbrev calls : CheckCalls sample
calls = record {
  LeanSchema = Unit;
  load_lean_schema_object = λ s. inr tt;
  run_check_never_errors = λ p s e. answer e;
  run_check_always_allows = λ p s e. answer e;
  run_check_always_denies = λ p s e. answer e;
  run_check_equivalent = λ p q s e. answer e;
  run_check_implies = λ p q s e. answer e;
  run_check_disjoint = λ p q s e. answer e;
}

run_checks-IsReport_example :
    (Returns (run_checks sample calls tt (any sample) (calls.run_check_always_allows []))
      ↔ All (λ e. (b : Bool) × (◌≡◌ {A = ℕ ⊎ Bool} (answer e) (inr b))) all_envs)
    × Ensures
        (IsReport sample calls tt (any sample) all_envs answer)
        (run_checks sample calls tt (any sample) (calls.run_check_always_allows []))
run_checks-IsReport_example =
    run_checks-IsReport sample calls tt (any sample) all_envs tt (calls.run_check_always_allows [])
      all_envs_lem refl
