-- ===== src/Cli/Inputs.antt =====
-- cedar-lean-cli/src/util.rs: policies, schemas, entities, expressions and requests from files and
-- arguments. A path is a text; what a file holds is a function of the caller's, since each parser
-- reads a file at most once.
pub mod Loading
use Prim.Native.String.{String}
use cedar_spec.Base.{
  ◌⊎◌, inl, inr, Bool, List, [], ◌∷◌, Option, none, some, Exec, ok, err, panic, ◌>>=◌, attempt,
  if◌then◌else◌,
}
use cedar_spec.Cedar.{Cedar}
use cedar_spec.Cli.Err.{
  ContentType, entities, expression, policy, policy_set, request, schema_json, RequestElement,
  principal, action, resource, ExecError, file_read_error, parse_error, rename_id_error,
  parse_json_error, request_error, request_validation_error,
}

-- What the parsers take from the crates `cedar_policy`, `serde_json` and `miette` and from the system.
pub record Parsers (c : Cedar) : Type 1 where
  pub Template : Type 0
  pub Entities : Type 0
  pub Expression : Type 0
  pub Context : Type 0
  pub Request : Type 0
  pub Value : Type 0
  pub read_to_string : String → c.BoxedError ⊎ String
  -- `fname.extension().is_some_and(|ext| ext == "json")`
  pub has_json_extension : String → Bool
  pub policy_from_str : String → c.BoxedError ⊎ c.Policy
  pub policyset_from_str : String → c.BoxedError ⊎ c.PolicySet
  pub schema_from_str : String → c.BoxedError ⊎ c.Schema
  pub schema_from_json_str : String → c.BoxedError ⊎ c.Schema
  pub entities_from_json_str : String → Option c.Schema → c.BoxedError ⊎ Entities
  pub expression_from_str : String → c.BoxedError ⊎ Expression
  pub uid_from_str : String → c.BoxedError ⊎ c.EntityUid
  pub context_empty : Context
  pub context_from_json_str : String → Option (c.Schema × c.EntityUid) → c.BoxedError ⊎ Context
  -- `Request::new` without a schema
  pub request_new : c.EntityUid → c.EntityUid → c.EntityUid → Context → c.BoxedError ⊎ Request
  pub value_from_str : String → c.BoxedError ⊎ Value
  pub get : Value → String → Option Value
  -- the text of a `Value::String`
  pub as_string : Value → Option String
  pub to_string : Value → String
  -- `annotation("id")`, the parser of ids, which does not fail, and `new_id`
  pub policy_annotation : c.Policy → Option String
  pub policy_id : String → c.PolicyId
  pub policy_new_id : c.PolicyId → c.Policy → c.Policy
  pub template_annotation : Template → Option String
  pub template_new_id : c.PolicyId → Template → Template
  pub templates : c.PolicySet → List Template
  pub policyset_new : c.PolicySet
  pub add_template : Template → c.PolicySet → c.BoxedError ⊎ c.PolicySet
  pub add : c.Policy → c.PolicySet → c.BoxedError ⊎ c.PolicySet
  pub wrap_err : String → c.BoxedError → c.BoxedError

pub data ContextArg : Type 0 where
  default : ContextArg
  from_string : String → ContextArg
  from_file : String → ContextArg

pub data RequestArgsEnum : Type 0 where
  from_args : String → String → String → ContextArg → RequestArgsEnum
  from_file : String → RequestArgsEnum

module _ (c : Cedar) (ps : Parsers c) where
  open c use {EntityUid, Policy, PolicySet, Schema, BoxedError, FfiError}
  open ps use {Template, Entities, Expression, Context, Request, Value}

  -- `match read_to_string(fname) { Ok(text) => match parse(text) { … }, … }`
  unfoldable pub parse_file :
      {A : Type 0}
      → ContentType
      → String
      → (String → BoxedError ⊎ A)
      → Exec (ExecError BoxedError FfiError) A
  parse_file content_type fname parse = do
    text ← attempt (file_read_error content_type fname) (ps.read_to_string fname)
    attempt (parse_error content_type fname) (parse text)

  unfoldable pub rename_from_id_annotation_policy : Policy → Policy
  rename_from_id_annotation_policy p = elim (ps.policy_annotation p) [
    | none ↦ p
    | some anno ↦ ps.policy_new_id (ps.policy_id anno) p
  ]

  unfoldable pub rename_template : Template → Template
  rename_template t = elim (ps.template_annotation t) [
    | none ↦ t
    | some anno ↦ ps.template_new_id (ps.policy_id anno) t
  ]

  unfoldable pub parse_policy : String → Exec (ExecError BoxedError FfiError) Policy
  parse_policy fname = do
    p ← parse_file policy fname ps.policy_from_str
    ok (rename_from_id_annotation_policy p)

  -- The first loop of `rename_from_id_annotation_policyset`.
  unfoldable pub add_templates : List Template → PolicySet → Exec BoxedError PolicySet
  add_templates [] new_ps = ok new_ps
  add_templates (t ∷ ts) new_ps = do
    new_ps' ←
        attempt (ps.wrap_err "failed to add template to policy set")
          (ps.add_template (rename_template t) new_ps)
    add_templates ts new_ps'

  -- The second loop.
  unfoldable pub add_policies : List Policy → PolicySet → Exec BoxedError PolicySet
  add_policies [] new_ps = ok new_ps
  add_policies (p ∷ rest) new_ps = do
    new_ps' ←
        attempt (ps.wrap_err "failed to add policy to policy set")
          (ps.add (rename_from_id_annotation_policy p) new_ps)
    add_policies rest new_ps'

  unfoldable pub rename_from_id_annotation_policyset : PolicySet → Exec BoxedError PolicySet
  rename_from_id_annotation_policyset policyset = do
    new_ps ← add_templates (ps.templates policyset) ps.policyset_new
    add_policies (c.policies policyset) new_ps

  -- `match rename_from_id_annotation_policyset(policyset)`
  unfoldable pub map_err : {E F A : Type 0} → (E → F) → Exec E A → Exec F A
  map_err wrap (ok a) = ok a
  map_err wrap (err e) = err (wrap e)
  map_err wrap panic = panic

  unfoldable pub parse_policyset : String → Exec (ExecError BoxedError FfiError) PolicySet
  parse_policyset fname = do
    policyset ← parse_file policy_set fname ps.policyset_from_str
    map_err (rename_id_error policy_set fname) (rename_from_id_annotation_policyset policyset)

  -- The format follows the extension; a file that cannot be read is reported as a schema in either.
  unfoldable pub parse_schema : String → Exec (ExecError BoxedError FfiError) Schema
  parse_schema fname = do
    schema_text ← attempt (file_read_error ContentType.schema fname) (ps.read_to_string fname)
    let from_json = attempt (parse_error schema_json fname) (ps.schema_from_json_str schema_text)
    let from_cedar = attempt (parse_error ContentType.schema fname) (ps.schema_from_str schema_text)
    if ps.has_json_extension fname then from_json else from_cedar

  unfoldable pub parse_entities :
      String → Option Schema → Exec (ExecError BoxedError FfiError) Entities
  parse_entities fname schema =
      parse_file entities fname (λ text. ps.entities_from_json_str text schema)

  unfoldable pub parse_expression : String → Exec (ExecError BoxedError FfiError) Expression
  parse_expression fname = parse_file expression fname ps.expression_from_str

  -- `ContextArg::parse`
  unfoldable pub parse_context :
      ContextArg → Option (Schema × EntityUid) → Exec (ExecError BoxedError FfiError) Context
  parse_context default schema = ok ps.context_empty
  parse_context (from_string json_str) schema =
      attempt (request_error RequestElement.context json_str)
        (ps.context_from_json_str json_str schema)
  parse_context (ContextArg.from_file file_name) schema =
      parse_file ContentType.context file_name (λ text. ps.context_from_json_str text schema)

  unfoldable pub parse_entity_uid :
      String → RequestElement → Exec (ExecError BoxedError FfiError) EntityUid
  parse_entity_uid input_str element =
      attempt (request_error element input_str) (ps.uid_from_str input_str)

  -- `schema.map(|schema| (schema, &action))`
  abbrev pub with_action : Option Schema → EntityUid → Option (Schema × EntityUid)
  with_action none a = none
  with_action (some schema) a = some (schema, a)

  unfoldable pub request_from_args :
      String
      → String
      → String
      → ContextArg
      → Option Schema
      → Exec (ExecError BoxedError FfiError) Request
  request_from_args p a r context schema = do
    p' ← parse_entity_uid p principal
    a' ← parse_entity_uid a action
    r' ← parse_entity_uid r resource
    context' ← parse_context context (with_action schema a')
    attempt request_validation_error (ps.request_new p' a' r' context')

  unfoldable pub string_from_value : Option Value → Option String
  string_from_value none = none
  string_from_value (some v) = ps.as_string v

  -- `match (principal, action, resource, context)`
  unfoldable pub request_from_parts :
      Option String
      → Option String
      → Option String
      → Option Value
      → String
      → Option Schema
      → Exec (ExecError BoxedError FfiError) Request
  request_from_parts (some p) (some a) (some r) (some v) fname schema =
      request_from_args p a r (from_string (ps.to_string v)) schema
  request_from_parts (some p) (some a) (some r) none fname schema =
      err (parse_json_error request fname)
  request_from_parts (some p) (some a) none v fname schema = err (parse_json_error request fname)
  request_from_parts (some p) none r v fname schema = err (parse_json_error request fname)
  request_from_parts none a r v fname schema = err (parse_json_error request fname)

  unfoldable pub request_from_json_value :
      Value → String → Option Schema → Exec (ExecError BoxedError FfiError) Request
  request_from_json_value v fname schema =
      request_from_parts (string_from_value (ps.get v "principal"))
        (string_from_value (ps.get v "action")) (string_from_value (ps.get v "resource"))
        (ps.get v "context") fname schema

  -- `RequestArgsEnum::parse`
  unfoldable pub parse_request :
      RequestArgsEnum → Option Schema → Exec (ExecError BoxedError FfiError) Request
  parse_request (from_args p a r context) schema = request_from_args p a r context schema
  parse_request (RequestArgsEnum.from_file file_name) schema = do
    v ← parse_file request file_name ps.value_from_str
    request_from_json_value v file_name schema
