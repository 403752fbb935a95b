-- ===== src/Tests/Fragments.antt =====
-- The theorems on the equivalence of schemas, at two fragments whose names are texts.
use Prim.Native.String.{String}
use cedar_spec.Base.{ℕ, ◌≡◌, refl, true, false, List, [], ◌∷◌, none, some, ok, ℕ_discrete, for_each}
use cedar_spec.Base.Assoc.{lookup, insert_elem, contains}
use cedar_spec.Base.Texts.{string_discrete}
use cedar_spec.Base.Pigeonhole.{IsRepeatFree}
use cedar_spec.Schemas.{
  Names, keys_of, Annotations, annotations_equiv, map_equiv, entries_equiv, entry_fails,
  annotation_equiv, set_equiv, same_set, set_of, all_in,
}
use cedar_spec.Schemas.Types.{
  SchemaType, TypeVariant, Attributes, TypeOfAttribute, type_equiv, common_equiv, is_internal_type,
}
use cedar_spec.Schemas.Types.Symmetric.{IsKeyed}
use cedar_spec.Schemas.Declarations.{
  EntityTypeKind, Fragment, equivalence_check, nontrivial_namespaces, namespaces_equiv,
  namespace_equiv, is_trivial_namespace, pair_discrete, option_discrete, action_equiv,
  entity_decl_equiv, common_type_equiv, kind_equiv, normalized_member_of, normalized_parents,
  named_parent, parent_type, same_attributes, same_entries, no_attributes_in, applies_to_equiv,
  apply_spec_equiv, either_empty, tags_equiv,
}
use cedar_spec.Schemas.Declarations.Fragments.{FragmentKeyed, equivalence_check_sym}
use cedar_spec.Schemas.Declarations.Reflexive.{equivalence_check_refl}

abbrev names : Names
names = record {
  Name = String;
  name_discrete = string_discrete;
  InternalName = String;
  internal_discrete = string_discrete;
  qualify = λ s. s;
  basename = λ s. s;
  namespace_components = λ s. "__cedar" ∷ [];
  parse_internal = λ s. some s;
  Choices = ℕ;
  choices_discrete = ℕ_discrete;
  Value = ℕ;
  value_discrete = ℕ_discrete;
}

-- The shape of an entity, whose one attribute is a number, under either of its names.
abbrev shape : TypeVariant names → SchemaType names
shape v = SchemaType.variant (
    TypeVariant.record_of
      (Attributes.attribute "age" (TypeOfAttribute.type_of_attribute [] true (SchemaType.variant v))
        Attributes.no_attributes)
      false)

abbrev fragment : Annotations → List String → TypeVariant names → Fragment names
fragment a parents v =
    (
      some "App",
      record {
        annotations = a;
        entity_types =
            (
              "User",
              record {
                annotations = [];
                kind =
                    EntityTypeKind.standard
                      (record { member_of_types = parents; shape = shape v; tags = none });
              },
            )
            ∷ [];
        common_types = [];
        actions =
            (
              "view",
              record {
                annotations = [];
                attributes = none;
                member_of = some (record { id = "all"; ty = none } ∷ []);
                applies_to = some (record {
                  principal_types = [];
                  resource_types = "User" ∷ [];
                  context = shape v;
                });
              },
            )
            ∷ [];
      },
    )
    ∷ []

abbrev first : Fragment names
first = fragment (("doc", none) ∷ []) ("Group" ∷ "Group" ∷ []) TypeVariant.long

abbrev second : Fragment names
second =
    fragment (("doc", some (record { val = "" })) ∷ []) ("Group" ∷ [])
      (TypeVariant.entity_or_common "Long")

fragment-FragmentKeyed :
    (a : Annotations) (parents : List String) (v : TypeVariant names)
    → IsRepeatFree (keys_of a)
    → IsKeyed names (SchemaType.variant v)
    → FragmentKeyed names (fragment a parents v)
unfolding IsKeyed
fragment-FragmentKeyed a parents v u k = (
  (λ i. i, tt),
  (
    record {
      annotations = u;
      entity_types = ((λ i. i, tt), ((tt, (((λ i. i, tt), ((tt, k), tt)), tt)), tt));
      common_types = (tt, tt);
      actions = ((λ i. i, tt), ((tt, tt, ((λ i. i, tt), ((tt, k), tt))), tt));
    },
    tt,
  ),
)

first-second : equivalence_check names first second ≡ ok tt
unfolding equivalence_check nontrivial_namespaces namespaces_equiv lookup option_discrete
    string_discrete namespace_equiv annotations_equiv map_equiv entries_equiv entry_fails
    annotation_equiv entity_decl_equiv kind_equiv set_equiv same_set set_of insert_elem contains
    for_each action_equiv applies_to_equiv apply_spec_equiv common_type_equiv either_empty
    is_trivial_namespace no_attributes_in normalized_member_of normalized_parents named_parent
    pair_discrete parent_type same_attributes same_entries tags_equiv common_equiv is_internal_type
    type_equiv all_in
first-second = refl

first-FragmentKeyed : FragmentKeyed names first
unfolding IsKeyed
first-FragmentKeyed = fragment-FragmentKeyed _ _ _ (λ i. i, tt) tt

second-FragmentKeyed : FragmentKeyed names second
unfolding IsKeyed
second-FragmentKeyed = fragment-FragmentKeyed _ _ _ (λ i. i, tt) tt

equivalence_check_sym_example : equivalence_check names second first ≡ ok tt
equivalence_check_sym_example =
    equivalence_check_sym names first second first-FragmentKeyed second-FragmentKeyed first-second

equivalence_check_refl_example : equivalence_check names first first ≡ ok tt
equivalence_check_refl_example =
    equivalence_check_refl names {action = "Action"} refl first first-FragmentKeyed
