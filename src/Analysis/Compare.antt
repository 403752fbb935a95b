-- ===== src/Analysis/Compare.antt =====
-- cedar-lean-cli/src/analysis.rs: `compare_policysets`, which compares two policy sets in each
-- request environment by counterexamples.
use cedar_spec.Base.{
  attempt-eq, arith, ◌≡◌, inr, Bool, true, false, List, Option, none, some, Exec, ok, ◌>>=◌,
  attempt, for_each, Ensures, Ensures-bind, for_each-Zip, Zip,
}
use cedar_spec.Cedar.{Cedar, LeanFfi}
use cedar_spec.Cli.Err.{ExecError, lean_ffi_error}
use cedar_spec.Cli.RequestEnvs.{to_request_envs, any}
use cedar_spec.Analysis.Report.{RequestEnvSer, request_env_ser}

pub data PolicySetComparisonStatus (ExampleEnv : Type 0) : Type 0 where
  more_permissive : ExampleEnv → PolicySetComparisonStatus ExampleEnv
  less_permissive : ExampleEnv → PolicySetComparisonStatus ExampleEnv
  equivalent : PolicySetComparisonStatus ExampleEnv
  incomparable : ExampleEnv → ExampleEnv → PolicySetComparisonStatus ExampleEnv

pub record PolicySetComparisonResult (ExampleEnv : Type 0) : Type 0 where
  pub req_env : RequestEnvSer
  pub status : PolicySetComparisonStatus ExampleEnv

-- `match (fwd_implies, bwd_implies)`
unfoldable pub status_of : {X : Type 0} → Option X → Option X → PolicySetComparisonStatus X
status_of none none = equivalent
status_of none (some cex) = less_permissive cex
status_of (some cex) none = more_permissive cex
status_of (some more_cex) (some less_cex) = incomparable more_cex less_cex

module _ (c : Cedar) (ffi : LeanFfi c) where
  open c use {PolicySet, RequestEnv, Schema, BoxedError, FfiError}

  -- The closure that is mapped over the request environments.
  unfoldable pub compare_at :
      PolicySet
      → PolicySet
      → RequestEnv
      → Exec (ExecError BoxedError FfiError) (PolicySetComparisonResult ffi.Env)
  compare_at pset1 pset2 req_env = do
    fwd_implies ← attempt lean_ffi_error (ffi.run_check_implies_with_cex pset1 pset2 req_env)
    bwd_implies ← attempt lean_ffi_error (ffi.run_check_implies_with_cex pset2 pset1 req_env)
    ok (record { req_env = request_env_ser c req_env; status = status_of fwd_implies bwd_implies })

  -- `compare_policysets` up to the printing of its results
  unfoldable pub compare_policysets :
      Schema
      → PolicySet
      → PolicySet
      → Exec (ExecError BoxedError FfiError) (List (PolicySetComparisonResult ffi.Env))
  compare_policysets schema pset1 pset2 = do
    req_envs ← to_request_envs c (any c) schema
    for_each (compare_at pset1 pset2) req_envs

  -- What the solver documents of a counterexample: with none, all that the first set allows is
  -- allowed by the second; one is a request that the first allows and the second denies.
  pub record CexLaws : Type 1 where
    pub allows : PolicySet → RequestEnv → ffi.Env → Bool
    pub no_cex :
        (s t : PolicySet) (e : RequestEnv)
        → ffi.run_check_implies_with_cex s t e ≡ inr none
        → (x : ffi.Env) → allows s e x ≡ true
        → allows t e x ≡ true
    pub cex :
        (s t : PolicySet) (e : RequestEnv) (x : ffi.Env)
        → ffi.run_check_implies_with_cex s t e ≡ inr (some x)
        → (allows s e x ≡ true) × (allows t e x ≡ false)

module _ {c : Cedar} {ffi : LeanFfi c} (laws : CexLaws c ffi) where
  open c use {PolicySet, RequestEnv, BoxedError, FfiError}
  open laws use {allows}

  -- What a status says: the inclusions that hold, and an example for each that fails.
  abbrev pub HasStatus :
      PolicySet → PolicySet → RequestEnv → PolicySetComparisonStatus ffi.Env → Type 0
  HasStatus s t e equivalent = (x : ffi.Env) → allows s e x ≡ allows t e x
  HasStatus s t e (more_permissive x) =
      (allows s e x ≡ true)
      × (allows t e x ≡ false)
      × ((y : ffi.Env) → allows t e y ≡ true → allows s e y ≡ true)
  HasStatus s t e (less_permissive x) =
      (allows s e x ≡ false)
      × (allows t e x ≡ true)
      × ((y : ffi.Env) → allows s e y ≡ true → allows t e y ≡ true)
  HasStatus s t e (incomparable x y) =
      (allows s e x ≡ true)
      × (allows t e x ≡ false)
      × (allows s e y ≡ false)
      × (allows t e y ≡ true)

  status_of-HasStatus :
      (s t : PolicySet) (e : RequestEnv) (fwd bwd : Option ffi.Env)
      → ffi.run_check_implies_with_cex s t e ≡ inr fwd
      → ffi.run_check_implies_with_cex t s e ≡ inr bwd
      → HasStatus s t e (status_of fwd bwd)
  unfolding status_of
  status_of-HasStatus s t e none none h k =
      λ x. ground (arith, laws.no_cex s t e h x, laws.no_cex t s e k x)
  status_of-HasStatus s t e none (some x) h k =
      let (a, d) = laws.cex t s e x k in (d, a, laws.no_cex s t e h)
  status_of-HasStatus s t e (some x) none h k =
      let (a, d) = laws.cex s t e x h in (a, d, laws.no_cex t s e k)
  status_of-HasStatus s t e (some x) (some y) h k =
      let (a, d) = laws.cex s t e x h in let (a', d') = laws.cex t s e y k in (a, d, d', a')

  compare_at-HasStatus :
      (s t : PolicySet) (e : RequestEnv)
      → Ensures (λ r. HasStatus s t e r.status) (compare_at c ffi s t e)
  unfolding compare_at
  compare_at-HasStatus s t e =
      Ensures-bind (λ fwd. ffi.run_check_implies_with_cex s t e ≡ inr fwd)
        (λ r. HasStatus s t e r.status) _ _
        (attempt-eq lean_ffi_error (ffi.run_check_implies_with_cex s t e))
        (λ fwd _ h.
          Ensures-bind (λ bwd. ffi.run_check_implies_with_cex t s e ≡ inr bwd)
            (λ r. HasStatus s t e r.status) _ _
            (attempt-eq lean_ffi_error (ffi.run_check_implies_with_cex t s e))
            (λ bwd _ k. status_of-HasStatus s t e fwd bwd h k))

  -- Where the request environments of the schema are `es` and the solver answers as documented:
  -- each result of `compare_policysets` states, for its request environment, which of the two
  -- policy sets allows what the other allows, with an example for each inclusion that fails; it
  -- does not panic.
  pub compare_policysets-HasStatus :
      (schema : c.Schema) (s t : PolicySet) {es : List RequestEnv}
      → to_request_envs c (any c) schema ≡ ok es
      → Ensures (Zip (λ e r. HasStatus s t e r.status) es) (compare_policysets c ffi schema s t)
  unfolding compare_policysets
  compare_policysets-HasStatus schema s t {es} h = rw h (
      for_each-Zip (λ e r. HasStatus s t e r.status) (compare_at c ffi s t) es
        (compare_at-HasStatus s t))
