-- ===== src/Messages/Partial/Reading.antt =====
-- A reader of the messages of partial requests and entities, which takes a part only where its flag is set.
use Prim.Native.String.{String}
use cedar_spec.Base.{
  ◌≡◌, refl, Bool, List, [], ◌∷◌, map, Option, none, some, ◌>>=◌, if◌then◌else◌, Exec, ok, ok_or,
}
use cedar_spec.Messages.Partial.{
  PartialModels, PartialEntityUid, PartialRequest, PartialEntity, PartialEntityUidMessage,
  PartialRequestMessage, PartialEntityMessage, partial_euid_message, exprs_from, to_proto_exprs,
  to_proto_euids, entity_from_unchecked, request_from_unchecked, known_exprs, known_euids,
  entity_from_inner, request_from_inner, is_some,
}

-- The readers of the messages of the crate.
pub record PartialReaders (p : PartialModels) : Type 0 where
  pub name_read : p.NameModel → p.Name
  pub euid_read : p.EuidModel → p.EntityUid
  pub expr_read : p.ExprModel → p.Value
  -- Each reads back what was sent.
  pub name : (n : p.Name) → name_read (p.name_from n) ≡ n
  pub euid : (u : p.EntityUid) → euid_read (p.euid_from u) ≡ u
  pub expr : (v : p.Value) → expr_read (p.expr_from v) ≡ v

abbrev pub flagged : {A : Type 0} → Bool → A → Option A
flagged has a = if has then some a else none

module _ (p : PartialModels) (q : PartialReaders p) where
  abbrev read_exprs : List (String × p.ExprModel) → List (String × p.Value)
  read_exprs m = map (λ e. (e.0, q.expr_read e.1)) m

  abbrev read_euid : PartialEntityUidMessage p → Exec String (PartialEntityUid p)
  read_euid u = do ty ← ok_or "ty" u.ty; ok (record { ty = q.name_read ty; eid = u.id })

  -- An entity whose uid is set.
  pub read_entity : PartialEntityMessage p → Exec String (PartialEntity p)
  read_entity e = do
    uid ← ok_or "uid" e.uid
    ok (record {
      uid = q.euid_read uid;
      attrs = flagged e.has_attrs (read_exprs e.attrs);
      ancestors = flagged e.has_ancestors (map q.euid_read e.ancestors);
      tags = flagged e.has_tags (read_exprs e.tags);
    })

  -- A request whose principal, action and resource are set.
  pub read_request : PartialRequestMessage p → Exec String (PartialRequest p)
  read_request r = do
    principal ← ok_or "principal" r.principal
    principal ← read_euid principal
    action ← ok_or "action" r.action
    resource ← ok_or "resource" r.resource
    resource ← read_euid resource
    ok (record {
      principal = principal;
      action = q.euid_read action;
      resource = resource;
      context = flagged r.has_context (read_exprs r.context);
    })

  read_exprs-from : (m : List (String × p.Value)) → read_exprs (exprs_from p m) ≡ m
  read_exprs-from [] = refl
  read_exprs-from (e ∷ m) = rw (q.expr e.1, read_exprs-from m) refl

  read_euids-from : (us : List p.EntityUid) → map q.euid_read (map p.euid_from us) ≡ us
  read_euids-from [] = refl
  read_euids-from (u ∷ us) = rw (q.euid u, read_euids-from us) refl

  read-to_proto_exprs :
      (o : Option (List (String × p.Value)))
      → flagged (is_some o) (read_exprs (to_proto_exprs p o)) ≡ o
  unfolding to_proto_exprs
  read-to_proto_exprs none = refl
  read-to_proto_exprs (some m) = rw (read_exprs-from m) refl

  read-to_proto_euids :
      (o : Option (List p.EntityUid))
      → flagged (is_some o) (map q.euid_read (to_proto_euids p o)) ≡ o
  unfolding to_proto_euids
  read-to_proto_euids none = refl
  read-to_proto_euids (some us) = rw (read_euids-from us) refl

  -- The two ways to make a message agree.
  known_exprs-to_proto :
      (o : Option (List (String × p.Value))) → known_exprs p o ≡ (to_proto_exprs p o, is_some o)
  unfolding to_proto_exprs
  known_exprs-to_proto none = refl
  known_exprs-to_proto (some m) = refl

  known_euids-to_proto :
      (o : Option (List p.EntityUid)) → known_euids p o ≡ (to_proto_euids p o, is_some o)
  unfolding to_proto_euids
  known_euids-to_proto none = refl
  known_euids-to_proto (some us) = refl

  entity_from_inner-unchecked :
      (e : PartialEntity p) → entity_from_inner p e ≡ entity_from_unchecked p e
  unfolding entity_from_inner entity_from_unchecked
  entity_from_inner-unchecked e =
      rw
        (
          known_exprs-to_proto e.attrs,
          known_euids-to_proto e.ancestors,
          known_exprs-to_proto e.tags,
        )
        refl

  request_from_inner-unchecked :
      (r : PartialRequest p) → request_from_inner p r ≡ request_from_unchecked p r
  unfolding request_from_inner request_from_unchecked
  request_from_inner-unchecked r = rw (known_exprs-to_proto r.context) refl

  read_entity-unchecked : (e : PartialEntity p) → read_entity (entity_from_unchecked p e) ≡ ok e
  unfolding read_entity entity_from_unchecked
  read_entity-unchecked e =
      rw
        (
          q.euid e.uid,
          read-to_proto_exprs e.attrs,
          read-to_proto_euids e.ancestors,
          read-to_proto_exprs e.tags,
        )
        refl

  read_request-unchecked : (r : PartialRequest p) → read_request (request_from_unchecked p r) ≡ ok r
  unfolding read_request request_from_unchecked partial_euid_message
  read_request-unchecked r =
      rw
        (
          q.euid r.action,
          q.name r.principal.ty,
          q.name r.resource.ty,
          read-to_proto_exprs r.context,
        )
        refl

  -- The message of a partial entity and the message of a partial request, each made in either of the two
  -- ways, are read back as the entity and the request: a part that is known and empty is not taken for a part
  -- that is not known.
  pub read-from_inner :
      (e : PartialEntity p) (r : PartialRequest p)
      → ((read_entity (entity_from_inner p e) ≡ ok e)
          × (read_entity (entity_from_unchecked p e) ≡ ok e))
        × ((read_request (request_from_inner p r) ≡ ok r)
            × (read_request (request_from_unchecked p r) ≡ ok r))
  read-from_inner e r = (
    (rw (entity_from_inner-unchecked e) (read_entity-unchecked e), read_entity-unchecked e),
    (rw (request_from_inner-unchecked r) (read_request-unchecked r), read_request-unchecked r),
  )
