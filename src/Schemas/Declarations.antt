-- ===== src/Schemas/Declarations.antt =====
-- cedar-drt/fuzz/src/schemas.rs: the equivalence of declarations, namespaces and fragments.
pub mod Symmetric
pub mod Fragments
pub mod Reflexive
use Prim.Native.String.{String}
use mathlib.Core.Logic.{dite}
use mathlib.Core.Option.{none-ne-some, some-ne-none, some-injective}
use cedar_spec.Base.{
  Bool, true, false, not, ◌&&◌, ◌||◌, List, [], ◌∷◌, Option, none, some, Exec, ok, err, panic,
  ◌>>=◌, ◌>>◌, expect, ok_or, length, ◌==◌, if◌then◌else◌, test, ap, for_each,
}
use cedar_spec.Base.Assoc.{lookup}
use cedar_spec.Base.Texts.{string_discrete}
use cedar_spec.Schemas.{
  Names, Checked, require, set_of, same_set, set_equiv, map_equiv, Annotations, annotations_equiv,
}
use cedar_spec.Schemas.Types.{SchemaType, type_equiv}

unfoldable pub pair_discrete : {A B : Type 0} → Discrete A → Discrete B → Discrete (A × B)
pair_discrete d e (a, b) (x, y) =
    dite (d a x) (λ p. dite (e b y) (λ q. yes (cc)) (λ n. no (λ r. n (ap (λ t. t.1) r))))
      (λ n. no (λ r. n (ap (λ t. t.0) r)))

unfoldable pub option_discrete : {A : Type 0} → Discrete A → Discrete (Option A)
option_discrete d none none = yes (cc)
option_discrete d none (some b) = no (none-ne-some b)
option_discrete d (some a) none = no (some-ne-none a)
option_discrete d (some a) (some b) =
    dite (d a b) (λ p. yes (ap some p)) (λ n. no (λ p. n (some-injective a b p)))

module _ (n : Names) where
  pub record CommonType : Type 0 where
    pub annotations : Annotations
    pub ty : SchemaType n

  pub record StandardEntityType : Type 0 where
    pub member_of_types : List n.Name
    pub shape : SchemaType n
    pub tags : Option (SchemaType n)

  pub data EntityTypeKind : Type 0 where
    enumerated : n.Choices → EntityTypeKind
    standard : StandardEntityType → EntityTypeKind

  pub record EntityDecl : Type 0 where
    pub annotations : Annotations
    pub kind : EntityTypeKind

  pub record ActionEntityUid : Type 0 where
    pub id : String
    pub ty : Option n.Name

  pub record ApplySpec : Type 0 where
    pub principal_types : List n.Name
    pub resource_types : List n.Name
    pub context : SchemaType n

  pub record ActionType : Type 0 where
    pub annotations : Annotations
    pub attributes : Option (List (String × n.Value))
    pub member_of : Option (List ActionEntityUid)
    pub applies_to : Option ApplySpec

  pub record NamespaceDefinition : Type 0 where
    pub annotations : Annotations
    pub entity_types : List (String × EntityDecl)
    pub common_types : List (String × CommonType)
    pub actions : List (String × ActionType)

  abbrev pub Fragment : Type 0
  Fragment = List (Option n.InternalName × NamespaceDefinition)

  -- `impl Equiv for CommonType<N>`
  unfoldable pub common_type_equiv : CommonType → CommonType → Checked
  common_type_equiv l r = annotations_equiv l.annotations r.annotations >> type_equiv n l.ty r.ty

  unfoldable pub tags_equiv : Option (SchemaType n) → Option (SchemaType n) → Checked
  tags_equiv (some l) (some r) = type_equiv n l r
  tags_equiv none none = ok tt
  tags_equiv (some l) none = err "only one side has tags"
  tags_equiv none (some r) = err "only one side has tags"

  unfoldable pub kind_equiv : EntityTypeKind → EntityTypeKind → Checked
  kind_equiv (EntityTypeKind.enumerated c1) (EntityTypeKind.enumerated c2) =
      require (test (n.choices_discrete c1 c2)) "enumerated entity types have different eid choices"
  kind_equiv (EntityTypeKind.standard l) (EntityTypeKind.standard r) =
      set_equiv n.name_discrete (set_of n.name_discrete l.member_of_types)
        (set_of n.name_discrete r.member_of_types)
      >> type_equiv n l.shape r.shape
      >> tags_equiv l.tags r.tags
  kind_equiv _ _ = err "different entity type kind"

  -- `impl Equiv for EntityType<N>`
  unfoldable pub entity_decl_equiv : EntityDecl → EntityDecl → Checked
  entity_decl_equiv l r = annotations_equiv l.annotations r.annotations >> kind_equiv l.kind r.kind

  unfoldable pub either_empty : ApplySpec → Bool
  either_empty spec = (length spec.principal_types == 0) || (length spec.resource_types == 0)

  -- `impl Equiv for ApplySpec<N>`
  unfoldable pub apply_spec_equiv : ApplySpec → ApplySpec → Checked
  apply_spec_equiv l r =
      type_equiv n l.context r.context
      >> set_equiv n.name_discrete (set_of n.name_discrete l.principal_types)
          (set_of n.name_discrete r.principal_types)
      >> set_equiv n.name_discrete (set_of n.name_discrete l.resource_types)
          (set_of n.name_discrete r.resource_types)

  unfoldable pub applies_to_equiv : Option ApplySpec → Option ApplySpec → Checked
  applies_to_equiv none none = ok tt
  applies_to_equiv (some l) (some r) =
      let equiv = apply_spec_equiv l r in if either_empty l && either_empty r then ok tt else equiv
  applies_to_equiv (some l) none =
      require (either_empty l) "Mismatched appliesTo, lhs was `Some`, `rhs` was `None`"
  applies_to_equiv none (some r) =
      require (either_empty r) "Mismatched appliesTo, lhs was `None`, `rhs` was `Some`"

  unfoldable pub parent_type : Option n.Name → Exec String n.InternalName
  parent_type (some ty) = ok (n.qualify ty)
  parent_type none = expect (n.parse_internal "Action")

  unfoldable pub named_parent : ActionEntityUid → Exec String (String × n.InternalName)
  named_parent p = do ty ← parent_type p.ty; ok (p.id, ty)

  unfoldable pub normalized_parents :
      List ActionEntityUid → Exec String (List (String × n.InternalName))
  normalized_parents ps = do
    uids ← for_each (λ p. do ty ← parent_type p.ty; ok (p.id, ty)) ps
    ok (set_of (pair_discrete string_discrete n.internal_discrete) uids)

  unfoldable pub normalized_member_of :
      Option (List ActionEntityUid) → Exec String (List (String × n.InternalName))
  normalized_member_of none = ok []
  normalized_member_of (some ps) = normalized_parents ps

  -- `==` of two maps
  unfoldable pub same_entries : List (String × n.Value) → List (String × n.Value) → Bool
  same_entries [] r = true
  same_entries ((k, v) ∷ l) r =
      test (option_discrete n.value_discrete (lookup string_discrete k r) (some v))
      && same_entries l r

  unfoldable pub same_attributes :
      Option (List (String × n.Value)) → Option (List (String × n.Value)) → Bool
  same_attributes (some l) (some r) = (length l == length r) && same_entries l r
  same_attributes none none = true
  same_attributes (some l) none = false
  same_attributes none (some r) = false

  -- `is_none_or(HashMap::is_empty)`
  unfoldable pub no_attributes_in : Option (List (String × n.Value)) → Bool
  no_attributes_in none = true
  no_attributes_in (some m) = length m == 0

  -- `impl Equiv for ActionType<N>`
  unfoldable pub action_equiv : ActionType → ActionType → Checked
  action_equiv l r = do
    _ ← annotations_equiv l.annotations r.annotations
    _ ←
        require
          (same_attributes l.attributes r.attributes
            || (no_attributes_in l.attributes && no_attributes_in r.attributes))
          "Attributes don't match"
    lm ← normalized_member_of l.member_of
    rm ← normalized_member_of r.member_of
    _ ←
        require (same_set (pair_discrete string_discrete n.internal_discrete) lm rm)
          "Member-of doesn't match"
    applies_to_equiv l.applies_to r.applies_to

  -- `impl Equiv for NamespaceDefinition<N>`
  unfoldable pub namespace_equiv : NamespaceDefinition → NamespaceDefinition → Checked
  namespace_equiv l r =
      annotations_equiv l.annotations r.annotations
      >> map_equiv entity_decl_equiv l.entity_types r.entity_types
      >> map_equiv common_type_equiv l.common_types r.common_types
      >> map_equiv action_equiv l.actions r.actions

  unfoldable pub is_trivial_namespace : NamespaceDefinition → Bool
  is_trivial_namespace d =
      (length d.entity_types == 0) && (length d.actions == 0) && (length d.common_types == 0)

  -- `name.is_some()`
  abbrev pub is_named : Option n.InternalName → Bool
  is_named none = false
  is_named (some name) = true

  unfoldable pub nontrivial_namespaces : Fragment → Fragment
  nontrivial_namespaces [] = []
  nontrivial_namespaces ((name, d) ∷ frag) =
      let rest = nontrivial_namespaces frag in
      if is_named name || not (is_trivial_namespace d) then (name, d) ∷ rest else rest

  -- `Result::and`, of two results that have been computed.
  abbrev pub and_then : Checked → Checked → Checked
  and_then panic r = panic
  and_then (ok done) r = r
  and_then (err e) panic = panic
  and_then (err e) (ok done) = err e
  and_then (err e) (err f) = err e

  unfoldable pub namespaces_equiv : Fragment → Fragment → Checked → Checked
  namespaces_equiv [] rhs acc = acc
  namespaces_equiv ((name, d) ∷ frag) rhs acc = namespaces_equiv frag rhs (
      and_then acc (do
        other ←
            ok_or "namespace does not exist in RHS schema"
              (lookup (option_discrete n.internal_discrete) name rhs)
        namespace_equiv d other))

  -- `equivalence_check`
  unfoldable pub equivalence_check : Fragment → Fragment → Checked
  equivalence_check lhs rhs =
      let checked = namespaces_equiv (nontrivial_namespaces lhs) rhs (ok tt) in
      if length (nontrivial_namespaces lhs) == length (nontrivial_namespaces rhs)
      then checked
      else err "schemas differ in number of namespaces"
