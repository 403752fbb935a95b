-- ===== src/Cli/Inputs/Loading.antt =====
-- cedar-lean-cli/src/util.rs: what a policy set from a file holds and what a request is made of.
use Prim.Native.String.{String}
use cedar_spec.Base.{
  ◌≡◌, refl, ◌↔◌, ◌⊎◌, inl, inr, List, map, Option, none, some, ok, In, after_call, after_step,
  attempt,
}
use cedar_spec.Cedar.{Cedar}
use cedar_spec.Cli.Inputs.{
  Parsers, ContextArg, from_string, RequestArgsEnum, rename_from_id_annotation_policy, parse_file,
  parse_context, request_from_args, request_from_parts, string_from_value, request_from_json_value,
  parse_request, with_action,
}

-- Adding a template leaves the policies of a set as they are, and adding a policy adds that one.
pub record PolicySetLaws (c : Cedar) (ps : Parsers c) : Type 0 where
  pub new_empty : (p : c.Policy) → ¬ In p (c.policies ps.policyset_new)
  pub in_add_template :
      (t : ps.Template) (s s' : c.PolicySet) (p : c.Policy)
      → ps.add_template t s ≡ inr s'
      → In p (c.policies s') ↔ In p (c.policies s)
  pub in_add :
      (q : c.Policy) (s s' : c.PolicySet) (p : c.Policy)
      → ps.add q s ≡ inr s'
      → In p (c.policies s') ↔ (In p (c.policies s) ⊎ (p ≡ q))

module _ (c : Cedar) (ps : Parsers c) where
  open c use {EntityUid, Policy, PolicySet, Schema, BoxedError, FfiError}
  open ps use {Template, Context, Request, Value}

  -- The policies of the second set are those of the first and the listed ones.
  abbrev Extends : PolicySet → List Policy → PolicySet → Type 0
  Extends s qs s' =
      (p : Policy)
      → In p (c.policies s')
        ↔ (In p (c.policies s) ⊎ In p (map (rename_from_id_annotation_policy c ps) qs))

  abbrev SamePolicies : PolicySet → PolicySet → Type 0
  SamePolicies s s' = (p : Policy) → In p (c.policies s') ↔ In p (c.policies s)

  abbrev pub IsRenamed : PolicySet → PolicySet → Type 0
  IsRenamed s s' =
      (p : Policy)
      → In p (c.policies s') ↔ In p (map (rename_from_id_annotation_policy c ps) (c.policies s))

  abbrev pub IsLoaded : String → PolicySet → Type 0
  IsLoaded fname s' =
      (text : String) × (s : PolicySet) × (ps.read_to_string fname ≡ inr text)
      × (ps.policyset_from_str text ≡ inr s)
      × IsRenamed s s'

  -- The parts that a request is made of.
  pub record IsRequest (p a r : String) (context : ContextArg) (schema : Option Schema)
      (q : Request) : Type 0 where
    pub principal_uid : EntityUid
    pub action_uid : EntityUid
    pub resource_uid : EntityUid
    pub parsed : Context
    pub principal_eq : ps.uid_from_str p ≡ inr principal_uid
    pub action_eq : ps.uid_from_str a ≡ inr action_uid
    pub resource_eq : ps.uid_from_str r ≡ inr resource_uid
    pub context_eq : parse_context c ps context (with_action c ps schema action_uid) ≡ ok parsed
    pub request_eq : ps.request_new principal_uid action_uid resource_uid parsed ≡ inr q

  attempt_ok :
      {E F A : Type 0} (wrap : E → F) (call : E ⊎ A) {a : A}
      → attempt wrap call ≡ ok a
      → call ≡ inr a
  attempt_ok wrap (inl e) h = cc
  attempt_ok wrap (inr a) h = cc

  -- The parts of a request in a file.
  pub record IsFileRequest (file_name : String) (schema : Option Schema) (q : Request)
      : Type 0 where
    pub text : String
    pub value : Value
    pub principal : String
    pub action : String
    pub resource : String
    pub context : Value
    pub text_eq : ps.read_to_string file_name ≡ inr text
    pub value_eq : ps.value_from_str text ≡ inr value
    pub principal_eq : string_from_value c ps (ps.get value "principal") ≡ some principal
    pub action_eq : string_from_value c ps (ps.get value "action") ≡ some action
    pub resource_eq : string_from_value c ps (ps.get value "resource") ≡ some resource
    pub context_eq : ps.get value "context" ≡ some context
    pub request_eq :
        parse_request c ps
          (RequestArgsEnum.from_args principal action resource (from_string (ps.to_string context)))
          schema
        ≡ ok q

  parts_of :
      (p a r : Option String) (v : Option Value) (fname : String) (schema : Option Schema)
      (q : Request)
      → request_from_parts c ps p a r v fname schema ≡ ok q
      → (p' : String) × (a' : String) × (r' : String) × (v' : Value) × (p ≡ some p')
        × (a ≡ some a')
        × (r ≡ some r')
        × (v ≡ some v')
        × (request_from_args c ps p' a' r' (from_string (ps.to_string v')) schema ≡ ok q)
  unfolding request_from_parts
  parts_of (some p) (some a) (some r) (some v) fname schema q h =
      (p, a, r, v, refl, refl, refl, refl, h)
  parts_of (some p) (some a) (some r) none fname schema q h = cc
  parts_of (some p) (some a) none v fname schema q h = cc
  parts_of (some p) none r v fname schema q h = cc
  parts_of none a r v fname schema q h = cc

  -- A request file gives a request exactly where it can be read, holds a JSON value with the three
  -- uids as strings and a context, and these parts, given as arguments, make the request.
  pub parse_request-IsFileRequest :
      (file_name : String) (schema : Option Schema) (q : Request)
      → (parse_request c ps (RequestArgsEnum.from_file file_name) schema ≡ ok q)
        ↔ IsFileRequest file_name schema q
  unfolding parse_request request_from_json_value request_from_parts parse_file
  parse_request-IsFileRequest file_name schema q = (parts, parse)
    where
      parts :
          parse_request c ps (RequestArgsEnum.from_file file_name) schema ≡ ok q
          → IsFileRequest file_name schema q
      parts h =
          let (v, ev, h1) = after_step _ _ h in
          let (text, et, h2) = after_call _ _ _ ev in
          let (p, a, r, x, ep, ea, er, ex, made) = parts_of _ _ _ _ file_name schema q h1 in
          record {
            text = text;
            value = v;
            principal = p;
            action = a;
            resource = r;
            context = x;
            text_eq = et;
            value_eq = attempt_ok _ _ h2;
            principal_eq = ep;
            action_eq = ea;
            resource_eq = er;
            context_eq = ex;
            request_eq = made;
          }

      parse :
          IsFileRequest file_name schema q
          → parse_request c ps (RequestArgsEnum.from_file file_name) schema ≡ ok q
      parse k =
          rw (k.text_eq, k.value_eq, k.principal_eq, k.action_eq, k.resource_eq, k.context_eq)
            k.request_eq
