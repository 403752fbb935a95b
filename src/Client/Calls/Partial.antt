-- ===== src/Client/Calls/Partial.antt =====
-- cedar-lean-ffi/src/lean_ffi/tpe.rs: the calls that evaluate partially, and the batched authorization of
-- cedar-lean-ffi/src/lean_ffi.rs.
use Prim.Native.String.{String}
use cedar_spec.Base.{ℕ, List, Exec, ok, err, ◌>>=◌, ◌⊎◌}
use cedar_spec.LeanObject.{Runtime}
use cedar_spec.Messages.Requests.{
  RequestModels, BatchedAuthorizationRequest, batched_authorization_request,
}
use cedar_spec.Messages.Partial.{PartialModels, PartialRequest, PartialEntity}
use cedar_spec.Messages.PartialRequests.{
  EntitiesValidationMessage, RequestValidationMessage, PartialAuthorizationRequest,
  EntityConsistencyMessage, RequestConsistencyMessage, partial_entity_validation_request,
  partial_request_validation_request, partial_authorization_request,
  partial_entity_consistency_request, partial_request_consistency_request,
}
use cedar_spec.Messages.Residuals.{
  ResidualModels, CoreResidual, ReauthorizationRequest, reauthorization_request,
}
use cedar_spec.Client.Responses.{
  CheckResult, FfiError, lean_backend_error, ResultDef, to_result, TimedDef, TimedResult, from_def,
  take_result, transform_m, TpeResponseInner, TpeResponse, tpe_from_inner, deserialize_into,
}
use cedar_spec.Client.Calls.{Reader, PartialAnswer, ValidationResponse, untimed}

module _ (t : Runtime) where
  module _ (PolicyId : Type 0) (policy_id : String → PolicyId) where
    module _ {Residual : Type 0} where
      -- What `batched_authorization_timed` makes of an answer.
      unfoldable pub batched :
          PartialAnswer Residual
          → Exec (FfiError t) (TimedResult (TpeResponse PolicyId policy_id Residual))
      batched answer = do
        def ← to_result lean_backend_error answer
        inner ← transform_m (to_result lean_backend_error) (from_def def)
        transform_m (tpe_from_inner PolicyId policy_id t) inner

      -- What `is_authorized_partial_timed` makes of an answer.
      unfoldable pub partially_evaluated :
          ResultDef (TpeResponseInner Residual)
          → ℕ
          → Exec (FfiError t) (TimedResult (TpeResponse PolicyId policy_id Residual))
      partially_evaluated (ResultDef.ok_def inner) duration = do
        answer ← tpe_from_inner PolicyId policy_id t inner
        ok (from_def (record { payload = answer; duration = duration }))
      partially_evaluated (ResultDef.error_def s) duration = err (lean_backend_error s)

      unfoldable pub partial :
          PartialAnswer Residual
          → Exec (FfiError t) (TimedResult (TpeResponse PolicyId policy_id Residual))
      partial (ResultDef.ok_def resp) = partially_evaluated resp.payload resp.duration
      partial (ResultDef.error_def s) = err (lean_backend_error s)

      module _ (r : RequestModels) (p : PartialModels) where
        unfoldable pub is_authorized_partial_timed :
            Reader t (PartialAnswer Residual)
            → (PartialAuthorizationRequest p r → t.Pointer)
            → r.PolicySet
            → PartialRequest p
            → List (PartialEntity p)
            → r.Schema
            → Exec (FfiError t) (TimedResult (TpeResponse PolicyId policy_id Residual))
        is_authorized_partial_timed from_str lean_func policies request entities schema = do
          answer ←
              deserialize_into t from_str
                (lean_func (partial_authorization_request p r schema request entities policies))
          partial answer

        unfoldable pub is_authorized_partial :
            Reader t (PartialAnswer Residual)
            → (PartialAuthorizationRequest p r → t.Pointer)
            → r.PolicySet
            → PartialRequest p
            → List (PartialEntity p)
            → r.Schema
            → Exec (FfiError t) (TpeResponse PolicyId policy_id Residual)
        is_authorized_partial from_str lean_func policies request entities schema =
            untimed t
              (is_authorized_partial_timed from_str lean_func policies request entities schema)

  module _ (r : RequestModels) where
    module _ (PolicyId : Type 0) (policy_id : String → PolicyId) where
      module _ {Residual : Type 0} where
        unfoldable pub batched_authorization_timed :
            Reader t (PartialAnswer Residual)
            → (BatchedAuthorizationRequest r → t.Pointer)
            → r.PolicySet
            → r.Schema
            → r.Request
            → r.Entities
            → ℕ
            → Exec (FfiError t) (TimedResult (TpeResponse PolicyId policy_id Residual))
        batched_authorization_timed from_str lean_func policyset schema request entities iteration =
            do
              answer ← deserialize_into t from_str (
                  lean_func
                    (batched_authorization_request r policyset schema request entities iteration))
              batched PolicyId policy_id answer

        unfoldable pub batched_authorization :
            Reader t (PartialAnswer Residual)
            → (BatchedAuthorizationRequest r → t.Pointer)
            → r.PolicySet
            → r.Schema
            → r.Request
            → r.Entities
            → ℕ
            → Exec (FfiError t) (TpeResponse PolicyId policy_id Residual)
        batched_authorization from_str lean_func policyset schema request entities iteration =
            untimed t (
              batched_authorization_timed from_str lean_func policyset schema request entities
                iteration)

  -- `ResultDef::Ok(res) => Ok(TimedResult::from_def(res).take_result())`
  unfoldable pub taken : {A : Type 0} → ResultDef (TimedDef A) → Exec (FfiError t) A
  taken (ResultDef.ok_def res) = ok (take_result (from_def res))
  taken (ResultDef.error_def s) = err (lean_backend_error s)

  unfoldable pub check_reauthorize_residual :
      (m : ResidualModels) (r : RequestModels)
      → Reader t (ResultDef (TimedDef CheckResult))
      → (ReauthorizationRequest m r → t.Pointer)
      → CoreResidual m
      → r.Request
      → r.Entities
      → Unit {0} ⊎ m.Value
      → Exec (FfiError t) CheckResult
  check_reauthorize_residual m r from_str lean_func whole request entities expected = do
    answer ←
        deserialize_into t from_str
          (lean_func (reauthorization_request m r whole request entities expected))
    taken answer

  module _ (p : PartialModels) (from_str : Reader t (ResultDef (TimedDef ValidationResponse))) where
    unfoldable pub validate_partial_entities :
        (t.Pointer → EntitiesValidationMessage p → t.Pointer)
        → t.Pointer
        → List (PartialEntity p)
        → Exec (FfiError t) ValidationResponse
    validate_partial_entities lean_func schema entities = do
      answer ←
          deserialize_into t from_str
            (lean_func schema (partial_entity_validation_request p entities))
      taken answer

    unfoldable pub validate_partial_request :
        (t.Pointer → RequestValidationMessage p → t.Pointer)
        → t.Pointer
        → PartialRequest p
        → Exec (FfiError t) ValidationResponse
    validate_partial_request lean_func schema request = do
      answer ←
          deserialize_into t from_str
            (lean_func schema (partial_request_validation_request p request))
      taken answer

    module _ (r : RequestModels) where
      unfoldable pub check_partial_entity_consistency :
          (EntityConsistencyMessage p r → t.Pointer)
          → r.Entities
          → List (PartialEntity p)
          → Exec (FfiError t) ValidationResponse
      check_partial_entity_consistency lean_func entities partial_entities = do
        answer ←
            deserialize_into t from_str
              (lean_func (partial_entity_consistency_request p r entities partial_entities))
        taken answer

      unfoldable pub check_partial_request_consistency :
          (RequestConsistencyMessage p r → t.Pointer)
          → r.Request
          → PartialRequest p
          → Exec (FfiError t) ValidationResponse
      check_partial_request_consistency lean_func request partial_request = do
        answer ←
            deserialize_into t from_str
              (lean_func (partial_request_consistency_request p r request partial_request))
        taken answer
