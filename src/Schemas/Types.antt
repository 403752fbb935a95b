-- ===== src/Schemas/Types.antt =====
-- cedar-drt/fuzz/src/schemas.rs: the equivalence of types.
pub mod Symmetric
pub mod Reflexive
use Prim.Native.String.{String}
use cedar_spec.Base.{
  Bool, true, false, not, ◌&&◌, List, [], ◌∷◌, Option, none, some, ok, err, ◌>>=◌, expect,
  if◌then◌else◌, test,
}
use cedar_spec.Base.Texts.{string_discrete}
use cedar_spec.Base.Assoc.{lookup}
use cedar_spec.Schemas.{keys_of, Names, Checked, require, same_set, Annotations, annotations_equiv}

-- `==` of two flags.
abbrev pub same_flag : Bool → Bool → Bool
same_flag true b = b
same_flag false b = not b

-- `json_schema::Type`, `TypeVariant` and the attributes of a record, each a `TypeOfAttribute`.
mutual
  pub data SchemaType (n : Names) : Type 0 where
    variant : TypeVariant n → SchemaType n
    common_type_ref : n.Name → SchemaType n

  pub data TypeVariant (n : Names) : Type 0 where
    string long boolean : TypeVariant n
    set : SchemaType n → TypeVariant n
    record_of : Attributes n → Bool → TypeVariant n
    entity : n.Name → TypeVariant n
    entity_or_common : n.Name → TypeVariant n
    extension : String → TypeVariant n

  pub data Attributes (n : Names) : Type 0 where
    no_attributes : Attributes n
    attribute : String → TypeOfAttribute n → Attributes n → Attributes n

  pub data TypeOfAttribute (n : Names) : Type 0 where
    type_of_attribute : Annotations → Bool → SchemaType n → TypeOfAttribute n

module _ (n : Names) where
  abbrev pub attribute_entries : Attributes n → List (String × TypeOfAttribute n)
  attribute_entries Attributes.no_attributes = []
  attribute_entries (Attributes.attribute k a rest) = (k, a) ∷ attribute_entries rest

  -- `attributes.get(key)`
  abbrev pub get_attribute : String → Attributes n → Option (TypeOfAttribute n)
  get_attribute key m = lookup string_discrete key (attribute_entries m)

  -- `exactly_one().is_ok_and(|id| id.as_ref() == "__cedar")`
  abbrev pub only_cedar : List String → Bool
  only_cedar [] = false
  only_cedar (c ∷ []) = test (string_discrete c "__cedar")
  only_cedar (c ∷ d ∷ cs) = false

  unfoldable pub is_internal_type : n.Name → String → Bool
  is_internal_type type_name expected =
      let qualed = n.qualify type_name in
      test (string_discrete (n.basename qualed) expected)
      && only_cedar (n.namespace_components qualed)

  -- `type_name == name`
  abbrev pub same_name : n.Name → n.Name → Bool
  same_name a b = test (n.name_discrete a b)

  -- A type that is not a reference, against a common type of a name.
  unfoldable pub common_equiv : TypeVariant n → n.Name → Checked
  common_equiv (TypeVariant.entity_or_common m) type_name =
      require (same_name type_name m) "Common-type is not equivalent to non-common-type"
  common_equiv _ type_name = err "Common-type is not equivalent to non-common-type"

  -- The impls of `Equiv` for `Type`, `TypeVariant` and `TypeOfAttribute`.
  unfoldable mutual
    pub type_equiv : SchemaType n → SchemaType n → Checked
    type_equiv (SchemaType.variant l) (SchemaType.variant r) = variant_equiv l r
    type_equiv (SchemaType.common_type_ref a) (SchemaType.common_type_ref b) =
        require (same_name a b) "common type names do not match"
    type_equiv (SchemaType.variant l) (SchemaType.common_type_ref b) = common_equiv l b
    type_equiv (SchemaType.common_type_ref a) (SchemaType.variant r) = common_equiv r a

    pub variant_equiv : TypeVariant n → TypeVariant n → Checked
    variant_equiv (TypeVariant.record_of l al) (TypeVariant.record_of r ar) =
        let each = attributes_equiv l r in
        if same_set string_discrete (keys_of (attribute_entries l)) (keys_of (attribute_entries r))
        then (if same_flag al ar
            then each
            else err "records have different additional_attributes flags")
        else err "records have different keysets"
    variant_equiv (TypeVariant.set l) (TypeVariant.set r) = type_equiv l r
    variant_equiv TypeVariant.string (TypeVariant.entity_or_common b) =
        require (is_internal_type b "String") "entity-or-common is not equivalent to String"
    variant_equiv (TypeVariant.entity_or_common a) TypeVariant.string =
        require (is_internal_type a "String") "entity-or-common is not equivalent to String"
    variant_equiv TypeVariant.long (TypeVariant.entity_or_common b) =
        require (is_internal_type b "Long") "entity-or-common is not equivalent to Long"
    variant_equiv (TypeVariant.entity_or_common a) TypeVariant.long =
        require (is_internal_type a "Long") "entity-or-common is not equivalent to Long"
    variant_equiv TypeVariant.boolean (TypeVariant.entity_or_common b) =
        require (is_internal_type b "Bool") "entity-or-common is not equivalent to Boolean"
    variant_equiv (TypeVariant.entity_or_common a) TypeVariant.boolean =
        require (is_internal_type a "Bool") "entity-or-common is not equivalent to Boolean"
    variant_equiv (TypeVariant.extension x) (TypeVariant.entity_or_common b) =
        require (is_internal_type b x) "entity-or-common is not equivalent to Extension"
    variant_equiv (TypeVariant.entity_or_common a) (TypeVariant.extension y) =
        require (is_internal_type a y) "entity-or-common is not equivalent to Extension"
    variant_equiv (TypeVariant.entity x) (TypeVariant.entity_or_common b) =
        require (same_name b x) "entity is not equivalent to entity-or-common"
    variant_equiv (TypeVariant.entity_or_common a) (TypeVariant.entity y) =
        require (same_name a y) "entity is not equivalent to entity-or-common"
    -- `lhs == rhs`
    variant_equiv TypeVariant.string TypeVariant.string = ok tt
    variant_equiv TypeVariant.long TypeVariant.long = ok tt
    variant_equiv TypeVariant.boolean TypeVariant.boolean = ok tt
    variant_equiv (TypeVariant.entity x) (TypeVariant.entity y) =
        require (same_name x y) "types are not equivalent"
    variant_equiv (TypeVariant.entity_or_common a) (TypeVariant.entity_or_common b) =
        require (same_name a b) "types are not equivalent"
    variant_equiv (TypeVariant.extension x) (TypeVariant.extension y) =
        require (test (string_discrete x y)) "types are not equivalent"
    variant_equiv _ _ = err "types are not equivalent"

    -- `impl Equiv for TypeOfAttribute<N>`
    pub attribute_equiv : TypeOfAttribute n → TypeOfAttribute n → Checked
    attribute_equiv (TypeOfAttribute.type_of_attribute a required t)
          (TypeOfAttribute.type_of_attribute b other u) =
        do
          _ ← annotations_equiv a b
          _ ← require (same_flag required other) "attributes differ in required flag"
          type_equiv t u

    -- `try_for_each(|(key, lhs)| Equiv::equiv(lhs, rhs_attributes.get(key).unwrap()))`
    pub attributes_equiv : Attributes n → Attributes n → Checked
    attributes_equiv Attributes.no_attributes r = ok tt
    attributes_equiv (Attributes.attribute k a rest) r = do
      b ← expect (get_attribute k r)
      _ ← attribute_equiv a b
      attributes_equiv rest r
