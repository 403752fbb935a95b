-- ===== src/Client/Calls.antt =====
-- cedar-lean-ffi/src/lean_ffi.rs and lean_ffi/tpe.rs: the calls of the Lean functions. A Lean function is an
-- argument: the encoded message, after the schema where there is one, to the object that it returns. Each macro
-- is two functions, the timed one and the one that drops the time. The reader of a response is an argument.
pub mod Solver
pub mod Engine
pub mod Partial
use Prim.Native.String.{String}
use cedar_spec.Base.{ℕ, List, Option, ◌⊎◌, inl, inr, Exec, ok, err, ◌>>=◌, lift_error}
use cedar_spec.LeanObject.{Runtime, as_result, as_rust_str}
use cedar_spec.Datatypes.Crate.{Crate, ℤ}
use cedar_spec.Datatypes.Ffi.{Terms}
use cedar_spec.Messages.Terms.{Models}
use cedar_spec.Messages.Requests.{
  RequestModels, ValidationMode, CheckPolicyRequest, CheckPolicySetRequest, ComparePoliciesRequest,
  ComparePolicySetsRequest, AuthorizationRequest, EvaluationRequestChecked, ValidationRequest,
  LevelValidationRequest, EntityValidationRequest, RequestValidationRequest,
  BatchedAuthorizationRequest, CheckAssertsRequest, check_policy_request, check_policy_set_request,
  compare_policies_request, compare_policy_sets_request, authorization_request, evaluation_request,
  evaluation_request_checked, validation_request, level_validation_request,
  entity_validation_request, request_validation_request, batched_authorization_request,
  check_asserts_request,
}
use cedar_spec.Messages.Partial.{
  PartialModels, PartialRequest, PartialEntity, PartialRequestMessage, PartialEntityMessage,
  entities_from_inner, entities_from_unchecked, request_from_inner, request_from_unchecked,
}
use cedar_spec.Client.Responses.{
  FfiError, lean_backend_error, lean_object_error, ResultDef, to_result, TimedDef, TimedResult,
  from_def, take_result, transform, transform_m, AuthorizationResponseInner, AuthorizationResponse,
  authorization_from_inner, TpeResponseInner, TpeResponse, tpe_from_inner, deserialize_into,
}

-- `ValidationResponse`
pub data ValidationResponse : Type 0 where
  valid : ValidationResponse
  invalid : String → ValidationResponse

-- What Lean answers to a request for partial evaluation.
abbrev pub PartialAnswer : Type 0 → Type 0
PartialAnswer Residual = ResultDef (TimedDef (ResultDef (TpeResponseInner Residual)))

module _ (t : Runtime) where
  -- The reader of a response of a type.
  abbrev pub Reader : Type 0 → Type 0
  Reader A = t.Text → String ⊎ A

  -- `match … { ResultDef::Ok(t) => Ok(TimedResult::from_def(t).transform(…)), … }`
  unfoldable pub finish :
      {A U : Type 0} → (A → U) → ResultDef (TimedDef A) → Exec (FfiError t) (TimedResult U)
  finish f (ResultDef.ok_def d) = ok (transform f (from_def d))
  finish f (ResultDef.error_def s) = err (lean_backend_error s)

  -- The response of a call, made a timed result.
  unfoldable pub timed_response :
      {A U : Type 0}
      → Reader (ResultDef (TimedDef A))
      → (A → U)
      → t.Pointer
      → Exec (FfiError t) (TimedResult U)
  timed_response from_str f response = do d ← deserialize_into t from_str response; finish f d

  -- `Ok(timed?.take_result())`
  unfoldable pub untimed : {A : Type 0} → Exec (FfiError t) (TimedResult A) → Exec (FfiError t) A
  untimed timed = do r ← timed; ok (take_result r)

  -- `match … as_result()? { Ok(obj) => …, Err(obj) => … }`
  unfoldable pub loaded : (t.Text → String) → t.Pointer ⊎ t.Pointer → Exec (FfiError t) t.Pointer
  loaded to_string (inr schema) = ok schema
  loaded to_string (inl failure) = do
    text ← lift_error lean_object_error (as_rust_str t failure)
    err (lean_backend_error (to_string text))

  unfoldable pub load_lean_schema_object :
      {Message : Type 0}
      → (t.Text → String)
      → (Message → t.Pointer)
      → Message
      → Exec (FfiError t) t.Pointer
  load_lean_schema_object to_string lean_func message = do
    answer ← lift_error lean_object_error (as_result t (lean_func message))
    loaded to_string answer
