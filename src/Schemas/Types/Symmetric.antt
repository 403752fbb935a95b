-- ===== src/Schemas/Types/Symmetric.antt =====
-- Types are equivalent in both directions.
use Prim.Native.String.{String}
use cedar_spec.Base.{
  ◌≡◌, refl, sym, ◌∙◌, ◌↔◌, Bool, true, false, Option, none, some, ok, expect, All, after_step,
  length-map, arith, test, test_iff,
}
use cedar_spec.Base.Pigeonhole.{IsRepeatFree}
use cedar_spec.Base.Texts.{string_discrete}
use cedar_spec.Schemas.{
  Names, Checked, require, same_set, keys_of, Annotation, Annotations, annotation_equiv,
  annotations_equiv,
}
use cedar_spec.Schemas.Maps.{
  require-ok, same_set_iff, same_set_sym, Matches, Matches-sym, map_equiv_sym_of_values, everywhere,
}
use cedar_spec.Schemas.Types.{
  SchemaType, TypeVariant, Attributes, TypeOfAttribute, attribute_entries, get_attribute, same_flag,
  type_equiv, variant_equiv, attribute_equiv, attributes_equiv, common_equiv,
}

pub require-test_sym :
    {A : Type 0} (dec : Discrete A) (a b : A) (message : String)
    → require (test (dec a b)) message ≡ ok tt
    → require (test (dec b a)) message ≡ ok tt
require-test_sym dec a b m h =
    rw ((test_iff (dec b a)).1 (sym ((test_iff (dec a b)).0 (require-ok (test (dec a b)) m h))))
      refl

same_flag_sym : (a b : Bool) → same_flag a b ≡ same_flag b a
same_flag_sym true true = refl
same_flag_sym true false = refl
same_flag_sym false true = refl
same_flag_sym false false = refl

annotation_equiv_sym :
    (a b : Option Annotation) → annotation_equiv a b ≡ ok tt → annotation_equiv b a ≡ ok tt
unfolding annotation_equiv
annotation_equiv_sym (some a) (some b) h = require-test_sym string_discrete a.val b.val _ h
annotation_equiv_sym (some a) none h = h
annotation_equiv_sym none (some b) h = h
annotation_equiv_sym none none h = h

pub annotations_equiv_sym :
    (l r : Annotations)
    → IsRepeatFree (keys_of l)
    → IsRepeatFree (keys_of r)
    → annotations_equiv l r ≡ ok tt
    → annotations_equiv r l ≡ ok tt
unfolding annotations_equiv
annotations_equiv_sym l r ul ur h =
    map_equiv_sym_of_values annotation_equiv (λ v. Unit {0})
      (λ v w _ _ e. annotation_equiv_sym v w e) l r (ul, everywhere l) (ur, everywhere r) h

module _ (n : Names) where
  -- No key of a map in the type is repeated.
  unfoldable mutual
    pub IsKeyed : SchemaType n → Type 0
    IsKeyed (SchemaType.variant v) = VariantKeyed v
    IsKeyed (SchemaType.common_type_ref a) = Unit

    pub VariantKeyed : TypeVariant n → Type 0
    VariantKeyed (TypeVariant.set t) = IsKeyed t
    VariantKeyed (TypeVariant.record_of m additional) =
        IsRepeatFree (keys_of (attribute_entries n m)) × AttributesKeyed m
    VariantKeyed _ = Unit

    pub AttributesKeyed : Attributes n → Type 0
    AttributesKeyed Attributes.no_attributes = Unit
    AttributesKeyed (Attributes.attribute k a rest) = AttributeKeyed a × AttributesKeyed rest

    pub AttributeKeyed : TypeOfAttribute n → Type 0
    AttributeKeyed (TypeOfAttribute.type_of_attribute a required t) =
        IsRepeatFree (keys_of a) × IsKeyed t

  pub entries-AttributeKeyed :
      (m : Attributes n) → AttributesKeyed m → All (λ p. AttributeKeyed p.1) (attribute_entries n m)
  unfolding IsKeyed
  entries-AttributeKeyed Attributes.no_attributes u = tt
  entries-AttributeKeyed (Attributes.attribute k a rest) u = (u.0, entries-AttributeKeyed rest u.1)

  -- The check of one attribute against another.
  abbrev pub Agrees : TypeOfAttribute n → TypeOfAttribute n → Type 0
  Agrees v w = attribute_equiv n v w ≡ ok tt

  abbrev Returns : TypeOfAttribute n → Type 0
  Returns v = (w : TypeOfAttribute n) → AttributeKeyed w → Agrees v w → Agrees w v

  pub attributes_equiv_iff :
      (l r : Attributes n)
      → (attributes_equiv n l r ≡ ok tt)
        ↔ Matches string_discrete Agrees (attribute_entries n l) (attribute_entries n r)
  unfolding type_equiv
  attributes_equiv_iff Attributes.no_attributes r = (λ h. tt, λ m. refl)
  attributes_equiv_iff (Attributes.attribute k a rest) r =
      let more = attributes_equiv_iff rest r in
      (
        λ h.
            let x = after_step (expect (get_attribute n k r)) _ h in
            let y = after_step (attribute_equiv n a x.0) _ x.2 in
            ((x.0, expect-ok (get_attribute n k r) x.1, y.1), more.0 y.2),
        λ m. rw (m.0.1, m.0.2) (more.1 m.1),
      )
    where
      expect-ok : {A : Type 0} (o : Option A) {a : A} → expect {E = String} o ≡ ok a → o ≡ some a
      expect-ok none e = cc
      expect-ok (some b) e = cc

  abbrev pub Records : (l r : Attributes n) → Bool → Bool → Checked
  Records l r al ar = variant_equiv n (TypeVariant.record_of l al) (TypeVariant.record_of r ar)

  pub records_iff :
      (l r : Attributes n) (al ar : Bool)
      → (Records l r al ar ≡ ok tt) ↔ (
          (same_set string_discrete
              (keys_of (attribute_entries n l))
              (keys_of (attribute_entries n r))
            ≡ true)
          × (same_flag al ar ≡ true)
          × (attributes_equiv n l r ≡ ok tt))
  unfolding type_equiv
  records_iff l r al ar = (λ h. ground arith, λ h. ground arith)

  records_sym :
      (l r : Attributes n) (al ar : Bool)
      → VariantKeyed (TypeVariant.record_of l al)
      → VariantKeyed (TypeVariant.record_of r ar)
      → All (λ p. Returns p.1) (attribute_entries n l)
      → Records l r al ar ≡ ok tt
      → Records r l ar al ≡ ok tt
  unfolding IsKeyed
  records_sym l r al ar kl kr s h =
      let p = (records_iff l r al ar).0 h in
      let sizes =
        (same_set_iff string_discrete (keys_of (attribute_entries n l))
            (keys_of (attribute_entries n r))).0
          p.0 in
      let sized =
        sym (length-map _ (attribute_entries n l))
        ∙ sizes.0
        ∙ length-map _ (attribute_entries n r) in
      (records_iff r l ar al).1 (
        same_set_sym string_discrete _ _ kl.0 p.0,
        same_flag_sym ar al ∙ p.1,
        (attributes_equiv_iff r l).1 (
            Matches-sym string_discrete Agrees AttributeKeyed _ _ kl.0 kr.0 sized
              (entries-AttributeKeyed r kr.1) s ((attributes_equiv_iff l r).0 p.2)),
      )

  mutual
    unfolding type_equiv IsKeyed common_equiv

    pub type_equiv_sym :
        (a : SchemaType n)
        → IsKeyed a
        → (b : SchemaType n) → IsKeyed b
        → type_equiv n a b ≡ ok tt
        → type_equiv n b a ≡ ok tt
    type_equiv_sym (SchemaType.variant l) wl (SchemaType.variant r) wr h =
        variant_equiv_sym l wl r wr h
    type_equiv_sym (SchemaType.variant l) wl (SchemaType.common_type_ref b) wr h = h
    type_equiv_sym (SchemaType.common_type_ref a) wl (SchemaType.variant r) wr h = h
    type_equiv_sym (SchemaType.common_type_ref a) wl (SchemaType.common_type_ref b) wr h =
        require-test_sym n.name_discrete a b _ h

    variant_equiv_sym :
        (l : TypeVariant n)
        → VariantKeyed l
        → (r : TypeVariant n) → VariantKeyed r
        → variant_equiv n l r ≡ ok tt
        → variant_equiv n r l ≡ ok tt
    variant_equiv_sym (TypeVariant.record_of l al) wl (TypeVariant.record_of r ar) wr h =
        records_sym l r al ar wl wr (attributes_equiv_sym l wl.1) h
    variant_equiv_sym (TypeVariant.set l) wl (TypeVariant.set r) wr h = type_equiv_sym l wl r wr h
    variant_equiv_sym (TypeVariant.entity x) wl (TypeVariant.entity y) wr h =
        require-test_sym n.name_discrete x y _ h
    variant_equiv_sym (TypeVariant.entity_or_common x) wl (TypeVariant.entity_or_common y) wr h =
        require-test_sym n.name_discrete x y _ h
    variant_equiv_sym (TypeVariant.extension x) wl (TypeVariant.extension y) wr h =
        require-test_sym string_discrete x y _ h
    variant_equiv_sym TypeVariant.string wl (TypeVariant.entity_or_common y) wr h = h
    variant_equiv_sym TypeVariant.long wl (TypeVariant.entity_or_common y) wr h = h
    variant_equiv_sym TypeVariant.boolean wl (TypeVariant.entity_or_common y) wr h = h
    variant_equiv_sym (TypeVariant.extension x) wl (TypeVariant.entity_or_common y) wr h = h
    variant_equiv_sym (TypeVariant.entity x) wl (TypeVariant.entity_or_common y) wr h = h
    variant_equiv_sym (TypeVariant.entity_or_common y) wl TypeVariant.string wr h = h
    variant_equiv_sym (TypeVariant.entity_or_common y) wl TypeVariant.long wr h = h
    variant_equiv_sym (TypeVariant.entity_or_common y) wl TypeVariant.boolean wr h = h
    variant_equiv_sym (TypeVariant.entity_or_common y) wl (TypeVariant.extension x) wr h = h
    variant_equiv_sym (TypeVariant.entity_or_common y) wl (TypeVariant.entity x) wr h = h
    variant_equiv_sym TypeVariant.string wl TypeVariant.string wr h = h
    variant_equiv_sym TypeVariant.long wl TypeVariant.long wr h = h
    variant_equiv_sym TypeVariant.boolean wl TypeVariant.boolean wr h = h
    variant_equiv_sym _ wl _ wr h = cc

    attribute_equiv_sym : (v : TypeOfAttribute n) → AttributeKeyed v → Returns v
    attribute_equiv_sym (TypeOfAttribute.type_of_attribute a required t) kv
          (TypeOfAttribute.type_of_attribute b other u) kw h =
        let x = after_step (annotations_equiv a b) _ h in
        let y = after_step (require (same_flag required other) _) _ x.2 in
        rw
          (
            annotations_equiv_sym a b kv.0 kw.0 x.1,
            same_flag_sym other required ∙ require-ok (same_flag required other) _ y.1,
          )
          (type_equiv_sym t kv.1 u kw.1 y.2)

    attributes_equiv_sym :
        (l : Attributes n) → AttributesKeyed l → All (λ p. Returns p.1) (attribute_entries n l)
    attributes_equiv_sym Attributes.no_attributes u = tt
    attributes_equiv_sym (Attributes.attribute k a rest) u =
        (attribute_equiv_sym a u.0, attributes_equiv_sym rest u.1)
