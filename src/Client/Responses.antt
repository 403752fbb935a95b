-- ===== src/Client/Responses.antt =====
-- cedar-lean-ffi/src/datatypes.rs and datatypes/tpe.rs: the responses of Lean, and cedar-lean-ffi/src/err.rs.
-- A response arrives as text; the reader of its type is a parameter, since serde derives it. A set of
-- policy ids is the list of its elements.
use Prim.Native.String.{String}
use cedar_spec.Base.{
  Bool, ℕ, List, map, Option, none, some, ◌⊎◌, Exec, ok, err, ◌>>=◌, attempt, lift_error,
  if◌then◌else◌, test,
}
use cedar_spec.Base.Texts.{string_discrete}
use cedar_spec.LeanObject.{Runtime, LeanObjectError, as_rust_str}

pub data FfiError (t : Runtime) : Type 0 where
  lean_deserialization_error : String → FfiError t
  lean_backend_error : String → FfiError t
  lean_object_error : LeanObjectError t.Utf8Error → FfiError t

-- `Except String T` of Lean.
pub data ResultDef (A : Type 0) : Type 0 where
  ok_def : A → ResultDef A
  error_def : String → ResultDef A

-- `ResultDef::to_result`, with the `map_err` of its callers.
abbrev pub to_result : {E A : Type 0} → (String → E) → ResultDef A → Exec E A
to_result wrap (ResultDef.ok_def a) = ok a
to_result wrap (ResultDef.error_def s) = err (wrap s)

pub record TimedDef (A : Type 0) : Type 0 where
  pub payload : A
  pub duration : ℕ

pub record TimedResult (A : Type 0) : Type 0 where
  pub result : A
  pub duration : ℕ

module _ {A : Type 0} where
  -- `TimedResult::from_def` and `TimedDef::to_timed_result`
  abbrev pub from_def : TimedDef A → TimedResult A
  from_def tdef = record { result = tdef.payload; duration = tdef.duration }

  abbrev pub take_result : TimedResult A → A
  take_result r = r.result

  abbrev pub transform : {U : Type 0} → (A → U) → TimedResult A → TimedResult U
  transform f r = record { result = f r.result; duration = r.duration }

  abbrev pub transform_m : {E U : Type 0} → (A → Exec E U) → TimedResult A → Exec E (TimedResult U)
  transform_m f r = do u ← f r.result; ok (record { result = u; duration = r.duration })

pub data Decision : Type 0 where
  allow deny : Decision

module _ (t : Runtime) where
  unfoldable pub decision_of : String → Exec (FfiError t) Decision
  decision_of s =
      if test (string_discrete s "allow")
      then ok allow
      else (if test (string_discrete s "deny") then ok deny else err (lean_deserialization_error s))

  unfoldable pub optional_decision : Option String → Exec (FfiError t) (Option Decision)
  optional_decision none = ok none
  optional_decision (some s) = do d ← decision_of s; ok (some d)

pub record AuthorizationResponseInner : Type 0 where
  pub decision : String
  pub determining_policies : List String
  pub erroring_policies : List String

-- The ids of the policies for one effect: satisfied, false, with an error, and residual.
pub record PolicyClasses (Key : Type 0) : Type 0 where
  pub satisfied : List Key
  pub false_ids : List Key
  pub errors : List Key
  pub residual : List Key

pub record ResidualPolicy (Key Residual : Type 0) : Type 0 where
  pub id : Key
  pub effect : String
  pub residual : Residual

-- `TpeResponseInner`, and below `TpeResponse`; the residuals stay as they are.
pub record TpeResponseInner (Residual : Type 0) : Type 0 where
  pub decision : Option String
  pub permits : PolicyClasses String
  pub forbids : PolicyClasses String
  pub residuals : List (ResidualPolicy String Residual)

-- The verdict of the model on an answer that was sent to it.
pub record CheckResult : Type 0 where
  pub agrees : Bool
  pub expected : String
  pub actual : String

module _ (PolicyId : Type 0) (policy_id : String → PolicyId) where
  pub record AuthorizationResponse : Type 0 where
    pub decision : Decision
    pub determining : List PolicyId
    pub erroring : List PolicyId

  pub record TpeResponse (Residual : Type 0) : Type 0 where
    pub decision : Option Decision
    pub permits : PolicyClasses PolicyId
    pub forbids : PolicyClasses PolicyId
    pub residuals : List (ResidualPolicy PolicyId Residual)

  module _ (t : Runtime) where
    -- `AuthorizationResponse::from_inner`
    unfoldable pub authorization_from_inner :
        AuthorizationResponseInner → Exec (FfiError t) AuthorizationResponse
    authorization_from_inner inner = do
      decision ← decision_of t inner.decision
      ok (record {
        decision = decision;
        determining = map policy_id inner.determining_policies;
        erroring = map policy_id inner.erroring_policies;
      })

    -- `to_set` of the four lists.
    abbrev pub classes_from : PolicyClasses String → PolicyClasses PolicyId
    classes_from s = record {
      satisfied = map policy_id s.satisfied;
      false_ids = map policy_id s.false_ids;
      errors = map policy_id s.errors;
      residual = map policy_id s.residual;
    }

    abbrev pub residual_from :
        {Residual : Type 0} → ResidualPolicy String Residual → ResidualPolicy PolicyId Residual
    residual_from r = record { id = policy_id r.id; effect = r.effect; residual = r.residual }

    -- `TpeResponse::from_inner`
    unfoldable pub tpe_from_inner :
        {Residual : Type 0} → TpeResponseInner Residual → Exec (FfiError t) (TpeResponse Residual)
    tpe_from_inner inner = do
      decision ← optional_decision t inner.decision
      ok (record {
        decision = decision;
        permits = classes_from inner.permits;
        forbids = classes_from inner.forbids;
        residuals = map residual_from inner.residuals;
      })

-- `LeanObject::deserialize_into`
unfoldable pub deserialize_into :
    {A : Type 0} (t : Runtime) → (t.Text → String ⊎ A) → t.Pointer → Exec (FfiError t) A
deserialize_into t from_str p = do
  text ← lift_error lean_object_error (as_rust_str t p)
  attempt lean_deserialization_error (from_str text)
