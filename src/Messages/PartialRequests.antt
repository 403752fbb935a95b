-- ===== src/Messages/PartialRequests.antt =====
-- cedar-lean-ffi/src/messages.rs, module tpe: the requests that hold partial requests and entities.
-- `PartialEntities`, a message of one list, is the list.
use cedar_spec.Base.{List, Option, some}
use cedar_spec.Messages.Requests.{RequestModels}
use cedar_spec.Messages.Partial.{
  PartialModels, PartialRequest, PartialEntity, PartialRequestMessage, PartialEntityMessage,
  request_from_inner, request_from_unchecked, entities_from_inner, entities_from_unchecked,
}

module _ (p : PartialModels) where
  pub record EntitiesValidationMessage : Type 0 where
    pub entities : Option (List (PartialEntityMessage p))

  pub record RequestValidationMessage : Type 0 where
    pub request : Option (PartialRequestMessage p)

  -- `PartialEntityValidationRequest::new`
  unfoldable pub partial_entity_validation_request :
      List (PartialEntity p) → EntitiesValidationMessage
  partial_entity_validation_request entities = record {
    entities = some (entities_from_unchecked p entities);
  }

  -- `PartialRequestValidationRequest::new`
  unfoldable pub partial_request_validation_request : PartialRequest p → RequestValidationMessage
  partial_request_validation_request request = record {
    request = some (request_from_unchecked p request);
  }

  module _ (r : RequestModels) where
    pub record PartialAuthorizationRequest : Type 0 where
      pub schema : Option r.SchemaModel
      pub policies : Option r.PolicySetModel
      pub request : Option (PartialRequestMessage p)
      pub entities : Option (List (PartialEntityMessage p))

    pub record EntityConsistencyMessage : Type 0 where
      pub entities : Option r.EntitiesModel
      pub partial_entities : Option (List (PartialEntityMessage p))

    pub record RequestConsistencyMessage : Type 0 where
      pub request : Option r.RequestModel
      pub partial_request : Option (PartialRequestMessage p)

    unfoldable pub partial_authorization_request :
        r.Schema
        → PartialRequest p
        → List (PartialEntity p)
        → r.PolicySet
        → PartialAuthorizationRequest
    partial_authorization_request schema request entities policies = record {
      schema = some (r.schema_from schema);
      policies = some (r.policy_set_from policies);
      request = some (request_from_inner p request);
      entities = some (entities_from_inner p entities);
    }

    -- `PartialEntityConsistencyRequest::new`
    unfoldable pub partial_entity_consistency_request :
        r.Entities → List (PartialEntity p) → EntityConsistencyMessage
    partial_entity_consistency_request entities partial_entities = record {
      entities = some (r.entities_from entities);
      partial_entities = some (entities_from_inner p partial_entities);
    }

    -- `PartialRequestConsistencyRequest::new`
    unfoldable pub partial_request_consistency_request :
        r.Request → PartialRequest p → RequestConsistencyMessage
    partial_request_consistency_request request partial_request = record {
      request = some (r.request_from request);
      partial_request = some (request_from_inner p partial_request);
    }
