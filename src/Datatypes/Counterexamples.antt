-- ===== src/Datatypes/Counterexamples.antt =====
-- cedar-lean-ffi/src/datatypes.rs: the conversion of a counterexample of Lean, a request with entities.
use cedar_spec.Base.{List, map, Exec, ok, ◌>>=◌, attempt, for_each}
use cedar_spec.Datatypes.Crate.{Crate}
use cedar_spec.Datatypes.Values.{Expressions, Attrs, attrs_try_into}

module _ (c : Crate) where
  -- `Request`
  pub record LeanRequest : Type 0 where
    pub principal : c.EntityUid
    pub action : c.EntityUid
    pub resource : c.EntityUid
    pub context : Attrs c

  pub record EntityData : Type 0 where
    pub attrs : Attrs c
    pub ancestors : List c.EntityUid
    pub tags : Attrs c

  -- `Env`
  pub record LeanEnv : Type 0 where
    pub request : LeanRequest
    pub entities : List (c.EntityUid × EntityData)

module _ {c : Crate} (x : Expressions c) where
  -- `cedar_policy_symcc::Env`
  pub record SymccEnv : Type 0 where
    pub request : x.Request
    pub entities : x.Entities

  -- `impl TryFrom<Request> for cedar_policy::Request`
  unfoldable pub request_try_into : LeanRequest c → Exec x.Diagnostic x.Request
  request_try_into req = do
    pairs ← attrs_try_into x req.context
    context ← attempt (λ e. e) (x.context_from_pairs pairs)
    attempt (λ e. e)
        (x.request_new (x.euid_from req.principal) (x.euid_from req.action)
          (x.euid_from req.resource) context)

  unfoldable pub entity_try_into : c.EntityUid × EntityData c → Exec x.Diagnostic x.Entity
  entity_try_into (uid, ed) = do
    attrs ← attrs_try_into x ed.attrs
    tags ← attrs_try_into x ed.tags
    attempt (λ e. e) (x.new_with_tags (x.euid_from uid) attrs (map x.euid_from ed.ancestors) tags)

  -- `impl TryFrom<Env> for cedar_policy_symcc::Env`
  unfoldable pub env_try_into : LeanEnv c → Exec x.Diagnostic SymccEnv
  env_try_into env = do
    request ← request_try_into env.request
    converted ← for_each entity_try_into env.entities
    entities ← attempt (λ e. e) (x.from_entities converted)
    ok (record { request = request; entities = entities })
