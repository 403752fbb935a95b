-- ===== src/Cli/RequestEnvs/Consistency.antt =====
-- cedar-lean-cli/src/util.rs: `to_request_envs` against a description of the request environments
-- that are consistent with the restrictions and with the schema.
use cedar_spec.Base.{
  guard_append-there, In-guard_append, guard_append-here, In-guard_cons, ◌≡◌, refl, sym, subst, ◌↔◌,
  inl, inr, Bool, true, false, ◌&&◌, List, [], ◌∷◌, Option, none, some, ok, err, if◌then◌else◌, map,
  In, arith, Option-cases,
}
use mathlib.Core.Option
use cedar_spec.Cedar.{Cedar, EnvLaws}
use cedar_spec.Cli.RequestEnvs.{
  is_any, OpenRequestEnv, admits, is_empty, restricted, incompatible, envs_for_resources,
  envs_for_principal, envs_for_principals, envs_for_action, envs_for_actions, to_request_envs,
}

-- A restriction that is absent, or that names the value.
abbrev pub Agrees : {A : Type 0} → Option A → A → Type 0
Agrees none x = Unit {0}
Agrees (some req) x = req ≡ x

admits_iff :
    {A : Type 0} (dec : Discrete A) (o : Option A) (x : A) → (admits dec o x ≡ true) ↔ Agrees o x
admits_iff dec none x = (λ _. tt, λ _. refl)
admits_iff dec (some req) x = ground arith

if_ok :
    {E A : Type 0} (b : Bool) (x : E) (r : A) {a : A} → (if b then err x else ok r) ≡ ok a → r ≡ a
if_ok true x r h = cc
if_ok false x r h = cc

if_err :
    {E A : Type 0} (b b' : Bool) (x : E) (r : A)
    → ((if b && b' then err x else ok r) ≡ err x) ↔ ((b' ≡ true) × (b ≡ true))
if_err true true x r = ground arith
if_err true false x r = ground arith
if_err false b' x r = ground arith

is_empty_iff : {A : Type 0} (xs : List A) → (is_empty xs ≡ true) ↔ ((x : A) → ¬ In x xs)
is_empty_iff [] = (λ _ x i. i, λ _. refl)
is_empty_iff (x ∷ xs) = (λ h. absurd (cc), λ h. absurd (h x (inl refl)))

module _ {c : Cedar} (self : OpenRequestEnv c) (schema : c.Schema) where
  open c use {EntityTypeName, EntityUid, Entity, RequestEnv}

  -- The environment of a principal type, an action and a resource type that the schema allows
  -- together and that the restrictions admit. Actions are compared by their ids.
  pub record IsConsistent (actions : List EntityUid) (e : RequestEnv) : Type 0 where
    pub principal : EntityTypeName
    pub action : EntityUid
    pub resource : EntityTypeName
    pub principals : List EntityTypeName
    pub resources : List EntityTypeName
    pub env : e ≡ c.new_request_env principal action resource
    pub in_actions : In action actions
    pub principals_eq : c.principals_for_action schema action ≡ some principals
    pub resources_eq : c.resources_for_action schema action ≡ some resources
    pub in_principals : In principal principals
    pub in_resources : In resource resources
    pub agrees_principal : Agrees self.principal_type principal
    pub agrees_action : Agrees (Option.map c.entity_id self.action_id) (c.entity_id action)
    pub agrees_resource : Agrees self.resource_type resource

  abbrev FromResources : EntityTypeName → EntityUid → List EntityTypeName → RequestEnv → Type 0
  FromResources p a rs e =
      (r : EntityTypeName) × In r rs × Agrees self.resource_type r × (e ≡ c.new_request_env p a r)

  In-envs_for_resources :
      (p : EntityTypeName) (a : EntityUid) (rs : List EntityTypeName) (e : RequestEnv)
      → In e (envs_for_resources c self schema p a rs)
      → FromResources p a rs e
  unfolding envs_for_resources
  In-envs_for_resources p a [] e h = absurd h
  In-envs_for_resources p a (r ∷ rs) e h =
      elim (In-guard_cons (admits c.type_name_discrete self.resource_type r)
        (c.new_request_env p a r) e _ h) [
          | inl (t, eq) ↦
              (r, inl refl, (admits_iff c.type_name_discrete self.resource_type r).0 t, eq)
          | inr i ↦ let (q, j, g, eq) = In-envs_for_resources p a rs e i in (q, inr j, g, eq)
        ]

  envs_for_resources-In :
      (p : EntityTypeName) (a : EntityUid) (rs : List EntityTypeName) (r : EntityTypeName)
      → In r rs
      → Agrees self.resource_type r
      → In (c.new_request_env p a r) (envs_for_resources c self schema p a rs)
  unfolding envs_for_resources
  envs_for_resources-In p a (r ∷ rs) q i g =
      ground (
        arith,
        admits_iff c.type_name_discrete self.resource_type r,
        envs_for_resources-In p a rs q,
      )
  envs_for_resources-In p a [] q i g = absurd i

  abbrev FromPrincipal : EntityTypeName → EntityUid → RequestEnv → Type 0
  FromPrincipal p a e =
      (rs : List EntityTypeName) × (c.resources_for_action schema a ≡ some rs)
      × FromResources p a rs e

  In-envs_for_principal :
      (p : EntityTypeName) (a : EntityUid) (e : RequestEnv)
      → In e (envs_for_principal c self schema p a)
      → FromPrincipal p a e
  unfolding envs_for_principal
  In-envs_for_principal p a e h = elim (Option-cases (c.resources_for_action schema a)) [
    | inl n ↦ absurd (rw (n, envs_for_principal) at h)
    | inr (rs, q) ↦ (rs, q, In-envs_for_resources p a rs e (rw (q, envs_for_principal) at h))
  ]

  In-envs_for_principals :
      (a : EntityUid) (ps : List EntityTypeName) (e : RequestEnv)
      → In e (envs_for_principals c self schema a ps)
      → (p : EntityTypeName) × In p ps × Agrees self.principal_type p × FromPrincipal p a e
  unfolding envs_for_principals
  In-envs_for_principals a [] e h = absurd h
  In-envs_for_principals a (p ∷ ps) e h =
      elim (In-guard_append (admits c.type_name_discrete self.principal_type p)
        (envs_for_principal c self schema p a) e _ h) [
          | inl (t, i) ↦ (
            p,
            inl refl,
            (admits_iff c.type_name_discrete self.principal_type p).0 t,
            In-envs_for_principal p a e i,
          )
          | inr i ↦ let (q, j, g, from) = In-envs_for_principals a ps e i in (q, inr j, g, from)
        ]

  In-envs_for_action :
      (a : EntityUid) (e : RequestEnv)
      → In e (envs_for_action c self schema a)
      → (ps : List EntityTypeName) × (c.principals_for_action schema a ≡ some ps)
        × In e (envs_for_principals c self schema a ps)
  unfolding envs_for_action
  In-envs_for_action a e h = elim (Option-cases (c.principals_for_action schema a)) [
    | inl n ↦ absurd (rw (n, envs_for_action) at h)
    | inr (ps, q) ↦ (ps, q, rw (q, envs_for_action) at h)
  ]

  IsConsistent-cons :
      (a : EntityUid) (as' : List EntityUid) (e : RequestEnv)
      → IsConsistent as' e
      → IsConsistent (a ∷ as') e
  IsConsistent-cons a as' e k = record {
    principal = k.principal;
    action = k.action;
    resource = k.resource;
    principals = k.principals;
    resources = k.resources;
    env = k.env;
    in_actions = inr k.in_actions;
    principals_eq = k.principals_eq;
    resources_eq = k.resources_eq;
    in_principals = k.in_principals;
    in_resources = k.in_resources;
    agrees_principal = k.agrees_principal;
    agrees_action = k.agrees_action;
    agrees_resource = k.agrees_resource;
  }

  In-envs_for_actions :
      (as' : List EntityUid) (e : RequestEnv)
      → In e (envs_for_actions c self schema as')
      → IsConsistent as' e
  unfolding envs_for_actions
  In-envs_for_actions [] e h = absurd h
  In-envs_for_actions (a ∷ as') e h =
      elim (In-guard_append
        (admits c.entity_id_discrete (Option.map c.entity_id self.action_id) (c.entity_id a))
        (envs_for_action c self schema a) e _ h) [
          | inl (t, i) ↦
              let (ps, pe, j) = In-envs_for_action a e i in
              let (p, ip, gp, from) = In-envs_for_principals a ps e j in
              let (rs, re, inner) = from in
              let (r, ir, gr, eq) = inner in
              record {
                principal = p;
                action = a;
                resource = r;
                principals = ps;
                resources = rs;
                env = eq;
                in_actions = inl refl;
                principals_eq = pe;
                resources_eq = re;
                in_principals = ip;
                in_resources = ir;
                agrees_principal = gp;
                agrees_action = (admits_iff c.entity_id_discrete _ _).0 t;
                agrees_resource = gr;
              }
          | inr i ↦ IsConsistent-cons a as' e (In-envs_for_actions as' e i)
        ]

  envs_for_principals-In :
      (a : EntityUid) (ps : List EntityTypeName) (p : EntityTypeName) (e : RequestEnv)
      → In p ps
      → Agrees self.principal_type p
      → In e (envs_for_principal c self schema p a)
      → In e (envs_for_principals c self schema a ps)
  unfolding envs_for_principals
  envs_for_principals-In a [] p e i g h = absurd i
  envs_for_principals-In a (q ∷ ps) p e (inl eq) g h =
      guard_append-here _ _ e _
        ((admits_iff c.type_name_discrete self.principal_type q).1
          (subst (Agrees self.principal_type) eq g))
        (subst (λ t. In e (envs_for_principal c self schema t a)) eq h)
  envs_for_principals-In a (q ∷ ps) p e (inr i) g h =
      guard_append-there _ _ e _ (envs_for_principals-In a ps p e i g h)

  envs_for_actions-In :
      (as' : List EntityUid) (a : EntityUid) (e : RequestEnv)
      → In a as'
      → Agrees (Option.map c.entity_id self.action_id) (c.entity_id a)
      → In e (envs_for_action c self schema a)
      → In e (envs_for_actions c self schema as')
  unfolding envs_for_actions
  envs_for_actions-In [] a e i g h = absurd i
  envs_for_actions-In (q ∷ as') a e (inl eq) g h =
      guard_append-here _ _ e _
        ((admits_iff c.entity_id_discrete (Option.map c.entity_id self.action_id) (c.entity_id q)).1
          (subst (λ t. Agrees (Option.map c.entity_id self.action_id) (c.entity_id t)) eq g))
        (subst (λ t. In e (envs_for_action c self schema t)) eq h)
  envs_for_actions-In (q ∷ as') a e (inr i) g h =
      guard_append-there _ _ e _ (envs_for_actions-In as' a e i g h)

  IsConsistent-In :
      (as' : List EntityUid) (e : RequestEnv)
      → IsConsistent as' e
      → In e (envs_for_actions c self schema as')
  unfolding envs_for_principal envs_for_action
  IsConsistent-In as' e k = envs_for_actions-In as' k.action e k.in_actions k.agrees_action (
      rw (k.principals_eq, envs_for_action)
        (envs_for_principals-In k.action k.principals k.principal e k.in_principals
          k.agrees_principal
          (rw (k.resources_eq, envs_for_principal)
            (subst (λ t. In t (envs_for_resources c self schema k.principal k.action k.resources))
              (sym k.env)
              (envs_for_resources-In k.principal k.action k.resources k.resource k.in_resources
                k.agrees_resource)))))

  -- The loops find exactly the consistent request environments.
  envs_for_actions_iff :
      (as' : List EntityUid) (e : RequestEnv)
      → In e (envs_for_actions c self schema as') ↔ IsConsistent as' e
  envs_for_actions_iff as' e = (In-envs_for_actions as' e, IsConsistent-In as' e)

  -- Where `to_request_envs` returns a list, and sorting keeps the elements, what stands in it are
  -- exactly the request environments that are consistent with the restrictions and with the actions
  -- of the schema.
  pub In-to_request_envs :
      (laws : EnvLaws c) (entities : List Entity) {es : List RequestEnv}
      → c.action_entities schema ≡ inr entities
      → to_request_envs c self schema ≡ ok es
      → (e : RequestEnv) → In e es ↔ IsConsistent (map c.uid entities) e
  unfolding to_request_envs
  In-to_request_envs laws entities q h e =
      let sorted = if_ok _ _ _ (rw (q, to_request_envs) at h) in
      let found = envs_for_actions_iff (map c.uid entities) e in
      let kept = laws.in_sort e (envs_for_actions c self schema (map c.uid entities)) in
      (
        λ i. found.0 (kept.1 (subst (In e) (sym sorted) i)),
        λ k. subst (In e) sorted (kept.0 (found.1 k)),
      )

  -- Where the schema yields its actions, `to_request_envs` fails with the incompatibility error
  -- exactly when some part is restricted and no request environment of the schema is consistent
  -- with the restrictions.
  pub to_request_envs-incompatible :
      (entities : List Entity)
      → c.action_entities schema ≡ inr entities
      → (to_request_envs c self schema ≡ err (incompatible c self schema)) ↔ (
          (restricted c self schema ≡ true)
          × ((e : RequestEnv) → ¬ IsConsistent (map c.uid entities) e))
  unfolding to_request_envs
  to_request_envs-incompatible entities q =
      let found = envs_for_actions_iff (map c.uid entities) in
      let fails =
        if_err (is_empty (envs_for_actions c self schema (map c.uid entities)))
          (restricted c self schema) (incompatible c self schema) _ in
      let none' = is_empty_iff (envs_for_actions c self schema (map c.uid entities)) in
      (
        λ h.
            let (r, n) = fails.0 (rw (q, to_request_envs) at h) in
            (r, λ e k. none'.0 n e ((found e).1 k)),
        λ (r, n). rw (q, to_request_envs) (fails.1 (r, none'.1 (λ e i. n e ((found e).0 i)))),
      )

  -- Without a restriction, and where the schema yields its actions, `to_request_envs` returns a
  -- list, which is that of the nested loops, sorted, and is not refused where it is empty.
  pub to_request_envs-is_any :
      (entities : List Entity)
      → c.action_entities schema ≡ inr entities
      → is_any c self ≡ true
      → (es : List RequestEnv) × (to_request_envs c self schema ≡ ok es)
        × (es ≡ c.sort_request_envs (envs_for_actions c self schema (map c.uid entities)))
  unfolding to_request_envs is_any
  to_request_envs-is_any entities q a = (
    c.sort_request_envs (envs_for_actions c self schema (map c.uid entities)),
    ground (arith, q, a),
    refl,
  )
