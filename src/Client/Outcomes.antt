-- ===== src/Client/Outcomes.antt =====
-- What the calls of the Lean functions return, by the text of the object that Lean returned.
use Prim.Native.String.{String}
use cedar_spec.Base.{◌≡◌, inr, map, Option, none, some, ok}
use cedar_spec.LeanObject.{Runtime, as_rust_str}
use cedar_spec.Client.Responses.{
  ResultDef, TimedResult, Decision, TpeResponseInner, TpeResponse, classes_from, residual_from,
}
use cedar_spec.Client.Calls.{Reader, PartialAnswer}

module _ (t : Runtime) where
  -- The object is a string, which reads as the value.
  abbrev pub ReadsAs : {A : Type 0} → Reader t A → t.Pointer → A → Type 0
  ReadsAs from_str p a = (text : t.Text) × (as_rust_str t p ≡ ok text) × (from_str text ≡ inr a)

  abbrev pub IsDecision : String → Decision → Type 0
  IsDecision s Decision.allow = s ≡ "allow"
  IsDecision s Decision.deny = s ≡ "deny"

  -- A decision that is given, or none.
  abbrev pub IsOptionalDecision : Option String → Option Decision → Type 0
  IsOptionalDecision none d = d ≡ none
  IsOptionalDecision (some s) d = (a : Decision) × (d ≡ some a) × IsDecision s a

  module _ (PolicyId : Type 0) (policy_id : String → PolicyId) where
    module _ {Residual : Type 0} where
      -- The same of a partial answer, which may have no decision.
      pub record EvaluatesTo (inner : TpeResponseInner Residual)
          (a : TpeResponse PolicyId policy_id Residual) : Type 0 where
        pub decision : IsOptionalDecision inner.decision a.decision
        pub permits : a.permits ≡ classes_from PolicyId policy_id t inner.permits
        pub forbids : a.forbids ≡ classes_from PolicyId policy_id t inner.forbids
        pub residuals : a.residuals ≡ map (residual_from PolicyId policy_id t) inner.residuals

      -- An answer that Lean gives without an error, and what is made of it.
      abbrev pub Answers :
          PartialAnswer Residual → TimedResult (TpeResponse PolicyId policy_id Residual) → Type 0
      Answers answer r =
          (inner : TpeResponseInner Residual) × (answer
            ≡ ResultDef.ok_def (record { payload = ResultDef.ok_def inner; duration = r.duration }))
          × EvaluatesTo inner r.result

      abbrev pub Answered :
          Reader t (PartialAnswer Residual)
          → t.Pointer
          → TimedResult (TpeResponse PolicyId policy_id Residual)
          → Type 0
      Answered from_str p r =
          (inner : TpeResponseInner Residual) × (ReadsAs from_str p (
              ResultDef.ok_def (record { payload = ResultDef.ok_def inner; duration = r.duration }))
            × EvaluatesTo inner r.result)
