-- ===== src/Schemas/Types/Reflexive.antt =====
-- Types are equivalent to themselves.
use Prim.Native.String.{String}
use cedar_spec.Base.{
  ◌≡◌, refl, Bool, true, false, List, Option, none, some, ok, All, test, test_iff,
}
use cedar_spec.Base.Pigeonhole.{IsRepeatFree}
use cedar_spec.Base.Texts.{string_discrete}
use cedar_spec.Schemas.{
  Names, require, same_set, keys_of, Annotation, Annotations, annotation_equiv, annotations_equiv,
}
use cedar_spec.Schemas.Maps.{same_set_iff, Matches-refl, map_equiv_refl_of_values, everywhere}
use cedar_spec.Schemas.Types.{
  SchemaType, TypeVariant, Attributes, TypeOfAttribute, attribute_entries, same_flag, type_equiv,
  variant_equiv,
}
use cedar_spec.Schemas.Types.Symmetric.{
  IsKeyed, VariantKeyed, AttributesKeyed, AttributeKeyed, Agrees, attributes_equiv_iff, records_iff,
}

pub test_refl : {A : Type 0} (dec : Discrete A) (a : A) → test (dec a a) ≡ true
test_refl dec a = (test_iff (dec a a)).1 refl

pub require-test_refl :
    {A : Type 0} (dec : Discrete A) (a : A) (message : String)
    → require (test (dec a a)) message ≡ ok tt
require-test_refl dec a m = rw (test_refl dec a) refl

pub same_set_refl : {A : Type 0} (dec : Discrete A) (xs : List A) → same_set dec xs xs ≡ true
same_set_refl dec xs = (same_set_iff dec xs xs).1 (refl, λ a i. i)

same_flag_refl : (b : Bool) → same_flag b b ≡ true
same_flag_refl true = refl
same_flag_refl false = refl

annotation_equiv_refl : (a : Option Annotation) → annotation_equiv a a ≡ ok tt
unfolding annotation_equiv
annotation_equiv_refl (some a) = require-test_refl string_discrete a.val _
annotation_equiv_refl none = refl

pub annotations_equiv_refl :
    (m : Annotations) → IsRepeatFree (keys_of m) → annotations_equiv m m ≡ ok tt
unfolding annotations_equiv
annotations_equiv_refl m u =
    map_equiv_refl_of_values annotation_equiv (λ v. Unit {0}) (λ v _. annotation_equiv_refl v) m
      (u, everywhere m)

module _ (n : Names) where
  mutual
    unfolding type_equiv IsKeyed

    pub type_equiv_refl : (t : SchemaType n) → IsKeyed n t → type_equiv n t t ≡ ok tt
    type_equiv_refl (SchemaType.variant v) k = variant_equiv_refl v k
    type_equiv_refl (SchemaType.common_type_ref a) k = require-test_refl n.name_discrete a _

    variant_equiv_refl : (v : TypeVariant n) → VariantKeyed n v → variant_equiv n v v ≡ ok tt
    variant_equiv_refl TypeVariant.string k = refl
    variant_equiv_refl TypeVariant.long k = refl
    variant_equiv_refl TypeVariant.boolean k = refl
    variant_equiv_refl (TypeVariant.set t) k = type_equiv_refl t k
    variant_equiv_refl (TypeVariant.record_of m additional) k =
        (records_iff n m m additional additional).1 (
          same_set_refl string_discrete (keys_of (attribute_entries n m)),
          same_flag_refl additional,
          (attributes_equiv_iff n m m).1
              (Matches-refl string_discrete (Agrees n) _ k.0 (attributes_equiv_refl m k.1)),
        )
    variant_equiv_refl (TypeVariant.entity a) k = require-test_refl n.name_discrete a _
    variant_equiv_refl (TypeVariant.entity_or_common a) k = require-test_refl n.name_discrete a _
    variant_equiv_refl (TypeVariant.extension x) k = require-test_refl string_discrete x _

    attribute_equiv_refl : (a : TypeOfAttribute n) → AttributeKeyed n a → Agrees n a a
    attribute_equiv_refl (TypeOfAttribute.type_of_attribute a required t) k =
        rw (annotations_equiv_refl a k.0, same_flag_refl required) (type_equiv_refl t k.1)

    attributes_equiv_refl :
        (m : Attributes n)
        → AttributesKeyed n m
        → All (λ p. Agrees n p.1 p.1) (attribute_entries n m)
    attributes_equiv_refl Attributes.no_attributes k = tt
    attributes_equiv_refl (Attributes.attribute key a rest) k =
        (attribute_equiv_refl a k.0, attributes_equiv_refl rest k.1)
