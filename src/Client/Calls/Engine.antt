-- ===== src/Client/Calls/Engine.antt =====
-- cedar-lean-ffi/src/lean_ffi.rs: the calls of the authorizer, the evaluator and the validator.
use Prim.Native.String.{String}
use cedar_spec.Base.{Option, Exec, ok, err, ◌>>=◌}
use cedar_spec.LeanObject.{Runtime}
use cedar_spec.Datatypes.Crate.{ℤ}
use cedar_spec.Messages.Requests.{
  RequestModels, ValidationMode, AuthorizationRequest, EvaluationRequestChecked, ValidationRequest,
  LevelValidationRequest, EntityValidationRequest, RequestValidationRequest, authorization_request,
  evaluation_request, evaluation_request_checked, validation_request, level_validation_request,
  entity_validation_request, request_validation_request,
}
use cedar_spec.Client.Responses.{
  FfiError, lean_backend_error, ResultDef, TimedDef, TimedResult, from_def,
  AuthorizationResponseInner, AuthorizationResponse, authorization_from_inner, deserialize_into,
}
use cedar_spec.Client.Calls.{Reader, ValidationResponse, untimed, timed_response}

module _ (t : Runtime) where
  module _ (PolicyId : Type 0) (policy_id : String → PolicyId) where
    unfoldable pub authorized :
        ResultDef (TimedDef AuthorizationResponseInner)
        → Exec (FfiError t) (TimedResult (AuthorizationResponse PolicyId policy_id))
    authorized (ResultDef.ok_def resp) = do
      answer ← authorization_from_inner PolicyId policy_id t resp.payload
      ok (from_def (record { payload = answer; duration = resp.duration }))
    authorized (ResultDef.error_def s) = err (lean_backend_error s)

  module _ (r : RequestModels) where
    unfoldable pub print_evaluation_timed :
        Reader t (ResultDef (TimedDef (Unit {0})))
        → (EvaluationRequestChecked r → t.Pointer)
        → r.Expression
        → r.Entities
        → r.Request
        → Exec (FfiError t) (TimedResult (Unit {0}))
    print_evaluation_timed from_str lean_func expr entities request =
        timed_response t from_str (λ u. u) (lean_func (evaluation_request r expr entities request))

    unfoldable pub check_evaluate_timed :
        {A : Type 0}
        → Reader t (ResultDef (TimedDef A))
        → (EvaluationRequestChecked r → t.Pointer)
        → r.Expression
        → r.Entities
        → r.Request
        → Option r.Expression
        → Exec (FfiError t) (TimedResult A)
    check_evaluate_timed from_str lean_func input_expr entities request output_expr =
        timed_response t from_str (λ b. b)
          (lean_func (evaluation_request_checked r input_expr entities request output_expr))

    -- The calls that take the result out of a timed one.
    unfoldable pub print_evaluation :
        Reader t (ResultDef (TimedDef (Unit {0})))
        → (EvaluationRequestChecked r → t.Pointer)
        → r.Expression
        → r.Entities
        → r.Request
        → Exec (FfiError t) (Unit {0})
    print_evaluation from_str lean_func expr entities request = do
      timed ← print_evaluation_timed from_str lean_func expr entities request
      ok tt

    unfoldable pub check_evaluate :
        {A : Type 0}
        → Reader t (ResultDef (TimedDef A))
        → (EvaluationRequestChecked r → t.Pointer)
        → r.Expression
        → r.Entities
        → r.Request
        → Option r.Expression
        → Exec (FfiError t) A
    check_evaluate from_str lean_func input_expr entities request output_expr =
        untimed t (check_evaluate_timed from_str lean_func input_expr entities request output_expr)

    module _ (from_str : Reader t (ResultDef (TimedDef ValidationResponse))) where
      -- The request is made first, which panics where the mode is not strict.
      unfoldable pub validate_timed :
          (ValidationRequest r → t.Pointer)
          → r.PolicySet
          → r.Schema
          → ValidationMode
          → Exec (FfiError t) (TimedResult ValidationResponse)
      validate_timed lean_func policyset schema mode = do
        message ← validation_request r policyset schema mode
        timed_response t from_str (λ v. v) (lean_func message)

      unfoldable pub validate :
          (ValidationRequest r → t.Pointer)
          → r.PolicySet
          → r.Schema
          → ValidationMode
          → Exec (FfiError t) ValidationResponse
      validate lean_func policyset schema mode =
          untimed t (validate_timed lean_func policyset schema mode)

      unfoldable pub level_validate_timed :
          (LevelValidationRequest r → t.Pointer)
          → r.PolicySet
          → r.Schema
          → ℤ
          → Exec (FfiError t) (TimedResult ValidationResponse)
      level_validate_timed lean_func policyset schema level =
          timed_response t from_str (λ v. v)
            (lean_func (level_validation_request r policyset schema level))

      unfoldable pub validate_entities_timed :
          (EntityValidationRequest r → t.Pointer)
          → r.Schema
          → r.Entities
          → Exec (FfiError t) (TimedResult ValidationResponse)
      validate_entities_timed lean_func schema entities =
          timed_response t from_str (λ v. v)
            (lean_func (entity_validation_request r schema entities))

      unfoldable pub validate_request_timed :
          (RequestValidationRequest r → t.Pointer)
          → r.Schema
          → r.Request
          → Exec (FfiError t) (TimedResult ValidationResponse)
      validate_request_timed lean_func schema request =
          timed_response t from_str (λ v. v)
            (lean_func (request_validation_request r schema request))

      unfoldable pub level_validate :
          (LevelValidationRequest r → t.Pointer)
          → r.PolicySet
          → r.Schema
          → ℤ
          → Exec (FfiError t) ValidationResponse
      level_validate lean_func policyset schema level =
          untimed t (level_validate_timed lean_func policyset schema level)

      unfoldable pub validate_entities :
          (EntityValidationRequest r → t.Pointer)
          → r.Schema
          → r.Entities
          → Exec (FfiError t) ValidationResponse
      validate_entities lean_func schema entities =
          untimed t (validate_entities_timed lean_func schema entities)

      unfoldable pub validate_request :
          (RequestValidationRequest r → t.Pointer)
          → r.Schema
          → r.Request
          → Exec (FfiError t) ValidationResponse
      validate_request lean_func schema request =
          untimed t (validate_request_timed lean_func schema request)

    module _ (PolicyId : Type 0) (policy_id : String → PolicyId) where
      unfoldable pub is_authorized_timed :
          Reader t (ResultDef (TimedDef AuthorizationResponseInner))
          → (AuthorizationRequest r → t.Pointer)
          → r.PolicySet
          → r.Entities
          → r.Request
          → Exec (FfiError t) (TimedResult (AuthorizationResponse PolicyId policy_id))
      is_authorized_timed from_str lean_func policyset entities request = do
        d ←
            deserialize_into t from_str
              (lean_func (authorization_request r policyset entities request))
        authorized PolicyId policy_id d

      unfoldable pub is_authorized :
          Reader t (ResultDef (TimedDef AuthorizationResponseInner))
          → (AuthorizationRequest r → t.Pointer)
          → r.PolicySet
          → r.Entities
          → r.Request
          → Exec (FfiError t) (AuthorizationResponse PolicyId policy_id)
      is_authorized from_str lean_func policyset entities request =
          untimed t (is_authorized_timed from_str lean_func policyset entities request)
