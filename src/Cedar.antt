-- ===== src/Cedar.antt =====
-- What the program takes from the crates `cedar_policy`, `itertools` and `cedar_lean_ffi` when it
-- analyses policies: types, accessors and the solver's calls, as fields of records. Their documented
-- behaviour, where a theorem needs it, is a record of laws of its own.
use cedar_spec.Base.{◌≡◌, ◌↔◌, ◌⊎◌, Bool, List, [], ◌∷◌, ◌++◌, map, Option, In}
use Prim.Native.String.{String}

pub data Effect : Type 0 where
  permit forbid : Effect

pub Effect-discrete : Discrete Effect
Effect-discrete = hlevel

pub record Cedar : Type 1 where
  pub PolicyId : Type 0
  pub EntityTypeName : Type 0
  pub EntityId : Type 0
  pub EntityUid : Type 0
  pub Entity : Type 0
  pub Policy : Type 0
  pub PolicySet : Type 0
  pub Schema : Type 0
  pub RequestEnv : Type 0
  -- a boxed error of the crate, and an error of the Lean bindings
  pub BoxedError : Type 0
  pub FfiError : Type 0
  pub policy_id_discrete : Discrete PolicyId
  pub type_name_discrete : Discrete EntityTypeName
  pub entity_id_discrete : Discrete EntityId
  pub id : Policy → PolicyId
  pub effect : Policy → Effect
  pub policies : PolicySet → List Policy
  -- `PolicySet::from_policies` of one policy
  pub from_policy : Policy → BoxedError ⊎ PolicySet
  pub uid : Entity → EntityUid
  pub entity_id : EntityUid → EntityId
  pub from_type_name_and_id : EntityTypeName → EntityId → EntityUid
  -- `EntityTypeName::from_str` and `EntityId::from_str`, which does not fail
  pub parse_type_name : String → BoxedError ⊎ EntityTypeName
  pub parse_entity_id : String → EntityId
  pub basename : EntityTypeName → String
  pub escaped : EntityId → String
  pub action_entities : Schema → BoxedError ⊎ List Entity
  pub principals_for_action : Schema → EntityUid → Option (List EntityTypeName)
  pub resources_for_action : Schema → EntityUid → Option (List EntityTypeName)
  -- `RequestEnv::new`, its accessors and `sort` by the order of request environments
  pub new_request_env : EntityTypeName → EntityUid → EntityTypeName → RequestEnv
  pub principal : RequestEnv → EntityTypeName
  pub action : RequestEnv → EntityUid
  pub resource : RequestEnv → EntityTypeName
  pub sort_request_envs : List RequestEnv → List RequestEnv
  -- `itertools::array_combinations` into pairs
  pub combinations : List Policy → List (Policy × Policy)

-- The solver's calls, at the schema that the analyser has loaded.
pub record LeanFfi (c : Cedar) : Type 1 where
  -- a request with its entities, on which two policy sets differ
  pub Env : Type 0
  pub run_check_always_allows : c.PolicySet → c.RequestEnv → c.FfiError ⊎ Bool
  pub run_check_always_denies : c.PolicySet → c.RequestEnv → c.FfiError ⊎ Bool
  pub run_check_always_matches : c.Policy → c.RequestEnv → c.FfiError ⊎ Bool
  pub run_check_never_matches : c.Policy → c.RequestEnv → c.FfiError ⊎ Bool
  pub run_check_implies : c.PolicySet → c.PolicySet → c.RequestEnv → c.FfiError ⊎ Bool
  pub run_check_matches_implies : c.Policy → c.Policy → c.RequestEnv → c.FfiError ⊎ Bool
  pub run_check_implies_with_cex :
      c.PolicySet → c.PolicySet → c.RequestEnv → c.FfiError ⊎ Option Env

-- Sorting keeps the elements; a request environment has the parts that it was made of.
pub record EnvLaws (c : Cedar) : Type 0 where
  pub principal-new :
      (p : c.EntityTypeName) (a : c.EntityUid) (r : c.EntityTypeName)
      → c.principal (c.new_request_env p a r) ≡ p
  pub action-new :
      (p : c.EntityTypeName) (a : c.EntityUid) (r : c.EntityTypeName)
      → c.action (c.new_request_env p a r) ≡ a
  pub resource-new :
      (p : c.EntityTypeName) (a : c.EntityUid) (r : c.EntityTypeName)
      → c.resource (c.new_request_env p a r) ≡ r
  pub in_sort :
      (e : c.RequestEnv) (es : List c.RequestEnv) → In e es ↔ In e (c.sort_request_envs es)

-- The pairs come in the order of the list, the first of a pair before the second.
pub record CombinationLaws (c : Cedar) : Type 0 where
  pub combinations-nil : c.combinations [] ≡ []
  pub combinations-cons :
      (p : c.Policy) (ps : List c.Policy)
      → c.combinations (p ∷ ps) ≡ map (λ q. (p, q)) ps ++ c.combinations ps
