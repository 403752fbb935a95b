-- ===== src/Tests/Calls.antt =====
-- The theorems on requests and calls, where every message is the value that it is made of.
use Prim.Native.String.{String}
use cedar_spec.Base.{ℕ, ◌≡◌, refl, ◌⊎◌, inr, [], ◌∷◌, none, some, ok}
use cedar_spec.Datatypes.Crate.{ℤ}
use cedar_spec.Datatypes.Ffi.{
  Term, Terms, Fields, Op, PatElem, TermType, TermPrimType, TermPrim, Ext, IpAddr,
}
use cedar_spec.Messages.Terms.{Models}
use cedar_spec.Messages.Terms.Reading.{ModelsRead}
use cedar_spec.Messages.Requests.{RequestModels, check_asserts_request}
use cedar_spec.Messages.Asserts.{read_asserts, read_asserts-request}
use cedar_spec.Messages.Partial.{
  PartialModels, PartialEntity, PartialRequest, entity_from_inner, entity_from_unchecked,
  request_from_inner, request_from_unchecked,
}
use cedar_spec.Messages.Residuals.{ResidualModels, CoreResidual, CoreFields, CoreBinaryOp}
use cedar_spec.Messages.Residuals.Reading.{ResidualReaders, read_request as read_reauthorization}
use cedar_spec.Messages.Partial.Reading.{PartialReaders, read_entity, read_request, read-from_inner}
use cedar_spec.Client.Responses.{ResultDef, TimedResult, TpeResponse}
use cedar_spec.Client.Calls.{PartialAnswer}
use cedar_spec.Tests.Shared.{crate}

abbrev requests : RequestModels
requests = record {
  Policy = String;
  PolicySet = String;
  Schema = String;
  Entities = String;
  Request = String;
  Expression = String;
  RequestEnv = String;
  TemplateBodyModel = String;
  PolicyModel = String;
  PolicySetModel = String;
  SchemaModel = String;
  EntitiesModel = String;
  RequestModel = String;
  ExprModel = String;
  NameModel = String;
  EuidModel = String;
  template_from = λ p. p;
  policy_from = λ p. p;
  policy_set_from = λ p. p;
  schema_from = λ p. p;
  entities_from = λ p. p;
  request_from = λ p. p;
  expr_from = λ p. p;
  principal_from = λ p. p;
  action_from = λ p. p;
  resource_from = λ p. p;
  strict = ℤ.pos 1;
}

abbrev models : Models crate
models = record {
  Name = String;
  name_from = λ n. n;
  name_read = λ n. some n;
  EntityUid = String;
  euid_from = λ e. e;
  euid_read = λ e. some e;
}

models_read : ModelsRead models
models_read = record { name = λ n. refl; euid = λ e. refl }

-- `{user: "a"} like` over a record with an address.
abbrev asserted : Terms crate
asserted =
    Terms.term
      (Term.app (Op.string_like (PatElem.star ∷ PatElem.char 97 ∷ []))
        (Terms.term
          (Term.record_of (
            Fields.field "user" (Term.prim (TermPrim.entity "User::1")) (
              Fields.field "from"
                (Term.prim (
                  TermPrim.ext (
                    Ext.ipaddr (
                      IpAddr.v4
                        (record { addr = record { width = 32; val = "7" }; prefix = none })))))
                Fields.no_fields)))
          Terms.no_terms)
        (TermType.prim (TermPrimType.entity "User")))
      Terms.no_terms

read_asserts-request_example :
    read_asserts requests models (check_asserts_request requests models asserted "env")
    ≡ ok asserted
read_asserts-request_example = read_asserts-request requests models models_read asserted "env"

abbrev partial_models : PartialModels
partial_models = record {
  Name = String;
  NameModel = String;
  name_from = λ n. n;
  EntityUid = String;
  EuidModel = String;
  euid_from = λ e. e;
  Value = ℕ;
  ExprModel = ℕ;
  expr_from = λ e. e;
}

abbrev partial_readers : PartialReaders partial_models
partial_readers = record {
  name_read = λ n. n;
  euid_read = λ e. e;
  expr_read = λ e. e;
  name = λ n. refl;
  euid = λ e. refl;
  expr = λ e. refl;
}

-- No attributes that are known, and tags that are not.
abbrev half_known : PartialEntity partial_models
half_known = record {
  uid = "User::1";
  attrs = some [];
  ancestors = some ("Group::1" ∷ []);
  tags = none;
}

abbrev any_user : PartialRequest partial_models
any_user = record {
  principal = record { ty = "User"; eid = none };
  action = "view";
  resource = record { ty = "Photo"; eid = some "2" };
  context = some (("at", 3) ∷ []);
}

read-from_inner_example :
    ((read_entity partial_models partial_readers (entity_from_inner partial_models half_known)
        ≡ ok half_known)
      × (read_entity partial_models partial_readers
            (entity_from_unchecked partial_models half_known)
          ≡ ok half_known))
    × ((read_request partial_models partial_readers (request_from_inner partial_models any_user)
          ≡ ok any_user)
        × (read_request partial_models partial_readers
              (request_from_unchecked partial_models any_user)
            ≡ ok any_user))
read-from_inner_example = read-from_inner partial_models partial_readers half_known any_user

-- A text reads as an answer with no decision, where one policy is satisfied.
abbrev answer : PartialAnswer String
answer = ResultDef.ok_def (record {
  payload = ResultDef.ok_def (record {
    decision = none;
    permits = record { satisfied = "p" ∷ []; false_ids = []; errors = []; residual = [] };
    forbids = record { satisfied = []; false_ids = []; errors = []; residual = "q" ∷ [] };
    residuals = record { id = "q"; effect = "forbid"; residual = "context.a" } ∷ [];
  });
  duration = 4;
})

abbrev reader : String → String ⊎ PartialAnswer String
reader text = inr answer

abbrev response : TimedResult (TpeResponse String (λ s. s) String)
response = record {
  result = record {
    decision = none;
    permits = record { satisfied = "p" ∷ []; false_ids = []; errors = []; residual = [] };
    forbids = record { satisfied = []; false_ids = []; errors = []; residual = "q" ∷ [] };
    residuals = record { id = "q"; effect = "forbid"; residual = "context.a" } ∷ [];
  };
  duration = 4;
}

abbrev residual_models : ResidualModels
residual_models = record {
  Ty = ℕ;
  TypeModel = ℕ;
  type_from = λ t. t;
  Value = ℕ;
  ExprModel = ℕ;
  value_from = λ v. v;
  Var = ℕ;
  VarModel = ℕ;
  var_from = λ v. v;
  Name = String;
  NameModel = String;
  name_from = λ n. n;
  PatternElem = ℕ;
  PatternModel = ℕ;
  pattern_from = λ p. p;
  default_var = 0;
}

abbrev residual_readers : ResidualReaders residual_models
residual_readers = record {
  type_read = λ t. t;
  value_read = λ v. v;
  var_read = λ v. v;
  name_read = λ n. n;
  pattern_read = λ p. p;
  type = λ t. refl;
  value = λ v. refl;
  var = λ v. refl;
  name = λ n. refl;
  pattern = λ p. refl;
}

-- `{limit: context.limit}.limit < 7`
abbrev unfinished : CoreResidual residual_models
unfinished =
    CoreResidual.binary_app CoreBinaryOp.less
      (CoreResidual.get_attr
        (CoreResidual.record_of
          (CoreFields.field "limit" (CoreResidual.get_attr (CoreResidual.var 3 1) "limit" 2)
            CoreFields.no_fields)
          4)
        "limit" 2)
      (CoreResidual.concrete 7 2) 5
