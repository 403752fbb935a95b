-- ===== src/Client/Calls/Solver.antt =====
-- cedar-lean-ffi/src/lean_ffi.rs: the macros of the calls of the symbolic compiler.
use Prim.Native.String.{String}
use cedar_spec.Base.{Exec}
use cedar_spec.LeanObject.{Runtime}
use cedar_spec.Datatypes.Crate.{Crate}
use cedar_spec.Datatypes.Ffi.{Terms}
use cedar_spec.Messages.Terms.{Models}
use cedar_spec.Messages.Requests.{
  RequestModels, CheckPolicyRequest, CheckPolicySetRequest, ComparePoliciesRequest,
  ComparePolicySetsRequest, CheckAssertsRequest, check_policy_request, check_policy_set_request,
  compare_policies_request, compare_policy_sets_request, check_asserts_request,
}
use cedar_spec.Client.Responses.{FfiError, ResultDef, TimedDef, TimedResult}
use cedar_spec.Client.Calls.{Reader, untimed, timed_response}

module _ (t : Runtime) where
  module _ (r : RequestModels) {A U : Type 0} (from_str : Reader t (ResultDef (TimedDef A)))
      (f : A → U) where
    -- `checkPolicy_func!`
    unfoldable pub check_policy_timed :
        (t.Pointer → CheckPolicyRequest r → t.Pointer)
        → r.Policy
        → t.Pointer
        → r.RequestEnv
        → Exec (FfiError t) (TimedResult U)
    check_policy_timed lean_func policy schema env =
        timed_response t from_str f (lean_func schema (check_policy_request r policy env))

    unfoldable pub check_policy :
        (t.Pointer → CheckPolicyRequest r → t.Pointer)
        → r.Policy
        → t.Pointer
        → r.RequestEnv
        → Exec (FfiError t) U
    check_policy lean_func policy schema env =
        untimed t (check_policy_timed lean_func policy schema env)

    -- `checkPolicySet_func!`
    unfoldable pub check_policy_set_timed :
        (t.Pointer → CheckPolicySetRequest r → t.Pointer)
        → r.PolicySet
        → t.Pointer
        → r.RequestEnv
        → Exec (FfiError t) (TimedResult U)
    check_policy_set_timed lean_func policyset schema env =
        timed_response t from_str f (lean_func schema (check_policy_set_request r policyset env))

    unfoldable pub check_policy_set :
        (t.Pointer → CheckPolicySetRequest r → t.Pointer)
        → r.PolicySet
        → t.Pointer
        → r.RequestEnv
        → Exec (FfiError t) U
    check_policy_set lean_func policyset schema env =
        untimed t (check_policy_set_timed lean_func policyset schema env)

    -- `comparePolicies_func!`
    unfoldable pub compare_policies_timed :
        (t.Pointer → ComparePoliciesRequest r → t.Pointer)
        → r.Policy
        → r.Policy
        → t.Pointer
        → r.RequestEnv
        → Exec (FfiError t) (TimedResult U)
    compare_policies_timed lean_func src tgt schema env =
        timed_response t from_str f (lean_func schema (compare_policies_request r src tgt env))

    unfoldable pub compare_policies :
        (t.Pointer → ComparePoliciesRequest r → t.Pointer)
        → r.Policy
        → r.Policy
        → t.Pointer
        → r.RequestEnv
        → Exec (FfiError t) U
    compare_policies lean_func src tgt schema env =
        untimed t (compare_policies_timed lean_func src tgt schema env)

    -- `comparePolicySet_func!`
    unfoldable pub compare_policy_sets_timed :
        (t.Pointer → ComparePolicySetsRequest r → t.Pointer)
        → r.PolicySet
        → r.PolicySet
        → t.Pointer
        → r.RequestEnv
        → Exec (FfiError t) (TimedResult U)
    compare_policy_sets_timed lean_func src tgt schema env =
        timed_response t from_str f (lean_func schema (compare_policy_sets_request r src tgt env))

    unfoldable pub compare_policy_sets :
        (t.Pointer → ComparePolicySetsRequest r → t.Pointer)
        → r.PolicySet
        → r.PolicySet
        → t.Pointer
        → r.RequestEnv
        → Exec (FfiError t) U
    compare_policy_sets lean_func src tgt schema env =
        untimed t (compare_policy_sets_timed lean_func src tgt schema env)

    -- `comparePolicySetGivenRawModel_func!`
    unfoldable pub compare_policy_sets_given_raw_model_timed :
        (t.Pointer → ComparePolicySetsRequest r → String → t.Pointer)
        → r.PolicySet
        → r.PolicySet
        → t.Pointer
        → r.RequestEnv
        → String
        → Exec (FfiError t) (TimedResult U)
    compare_policy_sets_given_raw_model_timed lean_func src tgt schema env raw_model =
        timed_response t from_str f
          (lean_func schema (compare_policy_sets_request r src tgt env) raw_model)

    unfoldable pub compare_policy_sets_given_raw_model :
        (t.Pointer → ComparePolicySetsRequest r → String → t.Pointer)
        → r.PolicySet
        → r.PolicySet
        → t.Pointer
        → r.RequestEnv
        → String
        → Exec (FfiError t) U
    compare_policy_sets_given_raw_model lean_func src tgt schema env raw_model =
        untimed t (compare_policy_sets_given_raw_model_timed lean_func src tgt schema env raw_model)

    -- `checkAsserts_func!`
    unfoldable pub check_asserts_timed :
        {c : Crate} (m : Models c)
        → (t.Pointer → CheckAssertsRequest r m → t.Pointer)
        → Terms c
        → t.Pointer
        → r.RequestEnv
        → Exec (FfiError t) (TimedResult U)
    check_asserts_timed m lean_func asserts schema env =
        timed_response t from_str f (lean_func schema (check_asserts_request r m asserts env))

    unfoldable pub check_asserts :
        {c : Crate} (m : Models c)
        → (t.Pointer → CheckAssertsRequest r m → t.Pointer)
        → Terms c
        → t.Pointer
        → r.RequestEnv
        → Exec (FfiError t) U
    check_asserts m lean_func asserts schema env =
        untimed t (check_asserts_timed m lean_func asserts schema env)
