-- ===== src/Cli/RequestEnvs.antt =====
-- cedar-lean-cli/src/util.rs: `OpenRequestEnv` and the request environments that it stands for.
pub mod Consistency
use Prim.Native.String.{String}
use cedar_spec.Base.{
  ◌⊎◌, inl, inr, Bool, true, false, ◌&&◌, ◌||◌, List, [], ◌∷◌, ◌++◌, Option, none, some, Exec, ok,
  err, ◌>>=◌, attempt, test, if◌then◌else◌, map,
}
use cedar_spec.Cedar.{Cedar}
use cedar_spec.Cli.Err.{
  EntityType, principal_type_name, resource_type_name, ExecError, entity_type_error,
  actions_from_schema_error, request_env_args_incompatible,
}
use mathlib.Core.Option.{get_or}
use mathlib.Core.Option

pub record OpenRequestEnv (c : Cedar) : Type 0 where
  pub principal_type : Option c.EntityTypeName
  pub action_id : Option c.EntityUid
  pub resource_type : Option c.EntityTypeName

module _ {ℓ} {A : Type ℓ} where
  abbrev pub is_some : Option A → Bool
  is_some none = false
  is_some (some a) = true

  abbrev pub is_empty : List A → Bool
  is_empty [] = true
  is_empty (x ∷ xs) = false

  -- `Some(req) if req != x => continue`: whether the loop goes on with `x`.
  abbrev pub admits : Discrete A → Option A → A → Bool
  admits dec none x = true
  admits dec (some req) x = test (dec req x)

module _ (c : Cedar) where
  open c use {EntityTypeName, EntityUid, EntityId, Entity, Schema, RequestEnv, BoxedError, FfiError}

  unfoldable pub any : OpenRequestEnv c
  any = record { principal_type = none; action_id = none; resource_type = none }

  unfoldable pub is_any : OpenRequestEnv c → Bool
  is_any self =
      not_some self.principal_type && not_some self.action_id && not_some self.resource_type
    where
      not_some : {A : Type 0} → Option A → Bool
      not_some none = true
      not_some (some a) = false

  unfoldable pub entity_type_from_str :
      Option String → EntityType → Exec (ExecError BoxedError FfiError) (Option EntityTypeName)
  entity_type_from_str none err_type = ok none
  entity_type_from_str (some type_str) err_type = do
    type_name ← attempt (entity_type_error err_type type_str) (c.parse_type_name type_str)
    ok (some type_name)

  -- `EntityTypeName::from_str("Action").unwrap()`
  unfoldable pub action_id_from_str :
      Option String → Exec (ExecError BoxedError FfiError) (Option EntityUid)
  action_id_from_str none = ok none
  action_id_from_str (some action_name) = elim (c.parse_type_name "Action") [
    | inl e ↦ Exec.panic
    | inr action_type ↦
        ok (some (c.from_type_name_and_id action_type (c.parse_entity_id action_name)))
  ]

  -- `OpenRequestEnv::new`
  unfoldable pub open_request_env :
      Option String
      → Option String
      → Option String
      → Exec (ExecError BoxedError FfiError) (OpenRequestEnv c)
  unfolding entity_type_from_str action_id_from_str
  open_request_env principal_type action_name resource_type = do
    p ← entity_type_from_str principal_type principal_type_name
    a ← action_id_from_str action_name
    r ← entity_type_from_str resource_type resource_type_name
    ok (record { principal_type = p; action_id = a; resource_type = r })

  module _ (self : OpenRequestEnv c) (schema : Schema) where
    -- The innermost loop of `to_request_envs`, over the resource types of an action.
    unfoldable pub envs_for_resources :
        EntityTypeName → EntityUid → List EntityTypeName → List RequestEnv
    envs_for_resources p a [] = []
    envs_for_resources p a (r ∷ rs) =
        let rest = envs_for_resources p a rs in
        if admits c.type_name_discrete self.resource_type r
        then c.new_request_env p a r ∷ rest
        else rest

    -- `if let Some(resource_types) = schema.resources_for_action(&action_id)`
    unfoldable pub envs_for_principal : EntityTypeName → EntityUid → List RequestEnv
    envs_for_principal p a = elim (c.resources_for_action schema a) [
      | none ↦ []
      | some rs ↦ envs_for_resources p a rs
    ]

    unfoldable pub envs_for_principals : EntityUid → List EntityTypeName → List RequestEnv
    envs_for_principals a [] = []
    envs_for_principals a (p ∷ ps) =
        let rest = envs_for_principals a ps in
        if admits c.type_name_discrete self.principal_type p
        then envs_for_principal p a ++ rest
        else rest

    unfoldable pub envs_for_action : EntityUid → List RequestEnv
    envs_for_action a = elim (c.principals_for_action schema a) [
      | none ↦ []
      | some ps ↦ envs_for_principals a ps
    ]

    -- Actions are compared by their ids alone.
    unfoldable pub envs_for_actions : List EntityUid → List RequestEnv
    envs_for_actions [] = []
    envs_for_actions (a ∷ as') =
        let rest = envs_for_actions as' in
        if admits c.entity_id_discrete (Option.map c.entity_id self.action_id) (c.entity_id a)
        then envs_for_action a ++ rest
        else rest

    abbrev pub restricted : Bool
    restricted = is_some self.action_id || is_some self.principal_type || is_some self.resource_type

    -- The texts that the error shows for the parts that are given.
    abbrev pub incompatible : ExecError BoxedError FfiError
    incompatible =
        request_env_args_incompatible
          (get_or (Option.map c.basename self.principal_type) "Every principal")
          (get_or (Option.map (λ a. c.escaped (c.entity_id a)) self.action_id) "perform any action")
          (get_or (Option.map c.basename self.resource_type) "any resource")

    unfoldable pub to_request_envs : Exec (ExecError BoxedError FfiError) (List RequestEnv)
    to_request_envs = do
      entities ← attempt actions_from_schema_error (c.action_entities schema)
      let req_envs = envs_for_actions (map c.uid entities)
      if is_empty req_envs && restricted
          then err incompatible
          else ok (c.sort_request_envs req_envs)
