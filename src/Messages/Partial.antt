-- ===== src/Messages/Partial.antt =====
-- cedar-lean-ffi/src/messages.rs, module tpe: the messages of partial requests and partial entities. A part
-- that is not known is an empty message and a flag. A map is the list of its entries.
pub mod Reading
use Prim.Native.String.{String}
use cedar_spec.Base.{Bool, true, false, List, [], ◌∷◌, map, Option, none, some}

-- The types of the crates, and their messages.
pub record PartialModels : Type 1 where
  pub Name : Type 0
  pub NameModel : Type 0
  pub name_from : Name → NameModel
  pub EntityUid : Type 0
  pub EuidModel : Type 0
  pub euid_from : EntityUid → EuidModel
  -- a value or a restricted expression, sent as an expression
  pub Value : Type 0
  pub ExprModel : Type 0
  pub expr_from : Value → ExprModel

abbrev pub is_some : {A : Type 0} → Option A → Bool
is_some none = false
is_some (some a) = true

module _ (p : PartialModels) where
  pub record PartialEntityUid : Type 0 where
    pub ty : p.Name
    pub eid : Option String

  pub record PartialRequest : Type 0 where
    pub principal : PartialEntityUid
    pub action : p.EntityUid
    pub resource : PartialEntityUid
    pub context : Option (List (String × p.Value))

  -- `UncheckedPartialEntity`, which has the parts of a partial entity.
  pub record PartialEntity : Type 0 where
    pub uid : p.EntityUid
    pub attrs : Option (List (String × p.Value))
    pub ancestors : Option (List p.EntityUid)
    pub tags : Option (List (String × p.Value))

  pub record PartialEntityUidMessage : Type 0 where
    pub ty : Option p.NameModel
    pub id : Option String

  pub record PartialRequestMessage : Type 0 where
    pub principal : Option PartialEntityUidMessage
    pub action : Option p.EuidModel
    pub resource : Option PartialEntityUidMessage
    pub context : List (String × p.ExprModel)
    pub has_context : Bool

  pub record PartialEntityMessage : Type 0 where
    pub uid : Option p.EuidModel
    pub attrs : List (String × p.ExprModel)
    pub ancestors : List p.EuidModel
    pub tags : List (String × p.ExprModel)
    pub has_attrs : Bool
    pub has_ancestors : Bool
    pub has_tags : Bool

  -- `PartialEntityUid::from_inner`
  unfoldable pub partial_euid_message : PartialEntityUid → PartialEntityUidMessage
  partial_euid_message u = record { ty = some (p.name_from u.ty); id = u.eid }

  abbrev pub exprs_from : List (String × p.Value) → List (String × p.ExprModel)
  exprs_from m = map (λ e. (e.0, p.expr_from e.1)) m

  -- `to_proto_exprs`
  unfoldable pub to_proto_exprs : Option (List (String × p.Value)) → List (String × p.ExprModel)
  to_proto_exprs none = []
  to_proto_exprs (some m) = exprs_from m

  -- `ancestors.iter().flatten().map(EntityUid::from).collect()`
  unfoldable pub to_proto_euids : Option (List p.EntityUid) → List p.EuidModel
  to_proto_euids none = []
  to_proto_euids (some us) = map p.euid_from us

  -- `PartialEntity::from_unchecked`
  unfoldable pub entity_from_unchecked : PartialEntity → PartialEntityMessage
  entity_from_unchecked e = record {
    uid = some (p.euid_from e.uid);
    attrs = to_proto_exprs e.attrs;
    ancestors = to_proto_euids e.ancestors;
    tags = to_proto_exprs e.tags;
    has_attrs = is_some e.attrs;
    has_ancestors = is_some e.ancestors;
    has_tags = is_some e.tags;
  }

  -- `PartialRequest::from_unchecked`
  unfoldable pub request_from_unchecked : PartialRequest → PartialRequestMessage
  request_from_unchecked r = record {
    principal = some (partial_euid_message r.principal);
    action = some (p.euid_from r.action);
    resource = some (partial_euid_message r.resource);
    context = to_proto_exprs r.context;
    has_context = is_some r.context;
  }

  -- The entries of a part with its flag.
  abbrev pub known_exprs : Option (List (String × p.Value)) → List (String × p.ExprModel) × Bool
  known_exprs none = ([], false)
  known_exprs (some m) = (exprs_from m, true)

  abbrev pub known_euids : Option (List p.EntityUid) → List p.EuidModel × Bool
  known_euids none = ([], false)
  known_euids (some us) = (map p.euid_from us, true)

  -- `PartialEntity::from_inner`
  unfoldable pub entity_from_inner : PartialEntity → PartialEntityMessage
  entity_from_inner e =
      let (attrs, has_attrs) = known_exprs e.attrs in
      let (ancestors, has_ancestors) = known_euids e.ancestors in
      let (tags, has_tags) = known_exprs e.tags in
      record {
        uid = some (p.euid_from e.uid);
        attrs = attrs;
        ancestors = ancestors;
        tags = tags;
        has_attrs = has_attrs;
        has_ancestors = has_ancestors;
        has_tags = has_tags;
      }

  -- `PartialRequest::from_inner`
  unfoldable pub request_from_inner : PartialRequest → PartialRequestMessage
  request_from_inner r =
      let (context, has_context) = known_exprs r.context in
      record {
        principal = some (partial_euid_message r.principal);
        action = some (p.euid_from r.action);
        resource = some (partial_euid_message r.resource);
        context = context;
        has_context = has_context;
      }

  -- `PartialEntities::from_inner`, and the list in `PartialEntityValidationRequest::new`
  unfoldable pub entities_from_inner : List PartialEntity → List PartialEntityMessage
  entities_from_inner es = map entity_from_inner es

  unfoldable pub entities_from_unchecked : List PartialEntity → List PartialEntityMessage
  entities_from_unchecked es = map entity_from_unchecked es
