-- ===== src/Messages/Requests.antt =====
-- cedar-lean-ffi/src/messages.rs: the messages of the requests to Lean, whose fields are optional in the
-- format. The messages of policies, schemas, requests and entities are those of the crate.
use cedar_spec.Base.{ℕ, Option, none, some, Exec, ok, panic}
use cedar_spec.Datatypes.Crate.{Crate, ℤ}
use cedar_spec.Datatypes.Ffi.{Terms}
use cedar_spec.Messages.Terms.{Models, TermMessages, term_messages}

-- The types of `cedar_policy` that requests hold, and their messages in `cedar_policy::proto::models`.
pub record RequestModels : Type 1 where
  pub Policy : Type 0
  pub PolicySet : Type 0
  pub Schema : Type 0
  pub Entities : Type 0
  pub Request : Type 0
  pub Expression : Type 0
  pub RequestEnv : Type 0
  pub TemplateBodyModel : Type 0
  pub PolicyModel : Type 0
  pub PolicySetModel : Type 0
  pub SchemaModel : Type 0
  pub EntitiesModel : Type 0
  pub RequestModel : Type 0
  pub ExprModel : Type 0
  pub NameModel : Type 0
  pub EuidModel : Type 0
  -- the template of a policy, and the policy without it
  pub template_from : Policy → TemplateBodyModel
  pub policy_from : Policy → PolicyModel
  pub policy_set_from : PolicySet → PolicySetModel
  pub schema_from : Schema → SchemaModel
  pub entities_from : Entities → EntitiesModel
  pub request_from : Request → RequestModel
  pub expr_from : Expression → ExprModel
  -- the messages of the parts of a request environment
  pub principal_from : RequestEnv → NameModel
  pub action_from : RequestEnv → EuidModel
  pub resource_from : RequestEnv → NameModel
  -- `models::ValidationMode::Strict` as a number
  pub strict : ℤ

-- `cedar_policy::ValidationMode`, which names `Strict` and others.
pub data ValidationMode : Type 0 where
  strict other : ValidationMode

module _ (r : RequestModels) where
  pub record PolicyMessage : Type 0 where
    pub template : Option r.TemplateBodyModel
    pub policy : Option r.PolicyModel

  pub record RequestEnvMessage : Type 0 where
    pub principal : Option r.NameModel
    pub action : Option r.EuidModel
    pub resource : Option r.NameModel

  pub record CheckPolicyRequest : Type 0 where
    pub policy : Option PolicyMessage
    pub request : Option RequestEnvMessage

  pub record CheckPolicySetRequest : Type 0 where
    pub policy_set : Option r.PolicySetModel
    pub request : Option RequestEnvMessage

  pub record ComparePoliciesRequest : Type 0 where
    pub policy1 : Option PolicyMessage
    pub policy2 : Option PolicyMessage
    pub request : Option RequestEnvMessage

  pub record ComparePolicySetsRequest : Type 0 where
    pub src_policy_set : Option r.PolicySetModel
    pub tgt_policy_set : Option r.PolicySetModel
    pub request : Option RequestEnvMessage

  pub record AuthorizationRequest : Type 0 where
    pub request : Option r.RequestModel
    pub policies : Option r.PolicySetModel
    pub entities : Option r.EntitiesModel

  pub record EvaluationRequestChecked : Type 0 where
    pub expr : Option r.ExprModel
    pub request : Option r.RequestModel
    pub entities : Option r.EntitiesModel
    pub expected : Option r.ExprModel

  pub record ValidationRequest : Type 0 where
    pub schema : Option r.SchemaModel
    pub policies : Option r.PolicySetModel
    pub mode : ℤ

  pub record LevelValidationRequest : Type 0 where
    pub schema : Option r.SchemaModel
    pub policies : Option r.PolicySetModel
    pub level : ℤ

  pub record EntityValidationRequest : Type 0 where
    pub schema : Option r.SchemaModel
    pub entities : Option r.EntitiesModel

  pub record RequestValidationRequest : Type 0 where
    pub schema : Option r.SchemaModel
    pub request : Option r.RequestModel

  pub record BatchedAuthorizationRequest : Type 0 where
    pub policies : Option r.PolicySetModel
    pub schema : Option r.SchemaModel
    pub request : Option r.RequestModel
    pub entities : Option r.EntitiesModel
    pub iteration : ℕ

  -- `impl From<&Policy> for proto::Policy`
  unfoldable pub policy_message : r.Policy → PolicyMessage
  policy_message p = record { template = some (r.template_from p); policy = some (r.policy_from p) }

  -- `impl From<&RequestEnv> for proto::RequestEnv`
  unfoldable pub request_env_message : r.RequestEnv → RequestEnvMessage
  request_env_message env = record {
    principal = some (r.principal_from env);
    action = some (r.action_from env);
    resource = some (r.resource_from env);
  }

  unfoldable pub check_policy_request : r.Policy → r.RequestEnv → CheckPolicyRequest
  check_policy_request policy env = record {
    policy = some (policy_message policy);
    request = some (request_env_message env);
  }

  unfoldable pub check_policy_set_request : r.PolicySet → r.RequestEnv → CheckPolicySetRequest
  check_policy_set_request policyset env = record {
    policy_set = some (r.policy_set_from policyset);
    request = some (request_env_message env);
  }

  unfoldable pub compare_policies_request :
      r.Policy → r.Policy → r.RequestEnv → ComparePoliciesRequest
  compare_policies_request src tgt env = record {
    policy1 = some (policy_message src);
    policy2 = some (policy_message tgt);
    request = some (request_env_message env);
  }

  unfoldable pub compare_policy_sets_request :
      r.PolicySet → r.PolicySet → r.RequestEnv → ComparePolicySetsRequest
  compare_policy_sets_request src tgt env = record {
    src_policy_set = some (r.policy_set_from src);
    tgt_policy_set = some (r.policy_set_from tgt);
    request = some (request_env_message env);
  }

  unfoldable pub authorization_request : r.PolicySet → r.Entities → r.Request → AuthorizationRequest
  authorization_request policyset entities request = record {
    request = some (r.request_from request);
    policies = some (r.policy_set_from policyset);
    entities = some (r.entities_from entities);
  }

  -- `expected.map(Expr::from)`
  abbrev pub expected_from : Option r.Expression → Option r.ExprModel
  expected_from none = none
  expected_from (some e) = some (r.expr_from e)

  unfoldable pub evaluation_request_checked :
      r.Expression → r.Entities → r.Request → Option r.Expression → EvaluationRequestChecked
  evaluation_request_checked expr entities request expected = record {
    expr = some (r.expr_from expr);
    request = some (r.request_from request);
    entities = some (r.entities_from entities);
    expected = expected_from expected;
  }

  -- `EvaluationRequestChecked::new`
  unfoldable pub evaluation_request :
      r.Expression → r.Entities → r.Request → EvaluationRequestChecked
  evaluation_request expr entities request = record {
    expr = some (r.expr_from expr);
    request = some (r.request_from request);
    entities = some (r.entities_from entities);
    expected = none;
  }

  -- A panic where the mode is not strict.
  unfoldable pub validation_request :
      {E : Type 0} → r.PolicySet → r.Schema → ValidationMode → Exec E ValidationRequest
  validation_request policyset schema ValidationMode.strict = ok (record {
    schema = some (r.schema_from schema);
    policies = some (r.policy_set_from policyset);
    mode = r.strict;
  })
  validation_request policyset schema ValidationMode.other = panic

  unfoldable pub level_validation_request : r.PolicySet → r.Schema → ℤ → LevelValidationRequest
  level_validation_request policyset schema level = record {
    schema = some (r.schema_from schema);
    policies = some (r.policy_set_from policyset);
    level = level;
  }

  unfoldable pub entity_validation_request : r.Schema → r.Entities → EntityValidationRequest
  entity_validation_request schema entities = record {
    schema = some (r.schema_from schema);
    entities = some (r.entities_from entities);
  }

  unfoldable pub request_validation_request : r.Schema → r.Request → RequestValidationRequest
  request_validation_request schema request = record {
    schema = some (r.schema_from schema);
    request = some (r.request_from request);
  }

  unfoldable pub batched_authorization_request :
      r.PolicySet → r.Schema → r.Request → r.Entities → ℕ → BatchedAuthorizationRequest
  batched_authorization_request policies schema request entities iteration = record {
    policies = some (r.policy_set_from policies);
    schema = some (r.schema_from schema);
    request = some (r.request_from request);
    entities = some (r.entities_from entities);
    iteration = iteration;
  }

  module _ {c : Crate} (m : Models c) where
    pub record Asserts : Type 0 where
      pub asserts : TermMessages m

    pub record CheckAssertsRequest : Type 0 where
      pub asserts : Option Asserts
      pub request : Option RequestEnvMessage

    unfoldable pub check_asserts_request : Terms c → r.RequestEnv → CheckAssertsRequest
    check_asserts_request asserts env = record {
      asserts = some (record { asserts = term_messages m asserts });
      request = some (request_env_message env);
    }
