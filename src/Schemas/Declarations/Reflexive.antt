-- ===== src/Schemas/Declarations/Reflexive.antt =====
-- Declarations, namespaces and fragments are equivalent to themselves.
use Prim.Native.String.{String}
use cedar_spec.Base.{
  ◌≡◌, refl, true, List, [], ◌∷◌, Option, none, some, ok, ◌>>=◌, arith, for_each, length, ==_iff,
  ◌>>◌,
}
use cedar_spec.Base.Texts.{string_discrete}
use cedar_spec.Schemas.{Names, Checked, set_of, set_equiv}
use cedar_spec.Schemas.Maps.{Matches-refl, map_equiv_refl_of_values, All-mono, everywhere}
use cedar_spec.Schemas.Types.Reflexive.{
  require-test_refl, same_set_refl, annotations_equiv_refl, type_equiv_refl,
}
use cedar_spec.Schemas.Types.{SchemaType}
use cedar_spec.Schemas.Declarations.{
  CommonType, EntityTypeKind, EntityDecl, ActionEntityUid, ActionType, ApplySpec,
  NamespaceDefinition, Fragment, common_type_equiv, tags_equiv, kind_equiv, entity_decl_equiv,
  apply_spec_equiv, applies_to_equiv, parent_type, named_parent, normalized_parents,
  normalized_member_of, same_attributes, action_equiv, namespace_equiv, pair_discrete,
  equivalence_check, nontrivial_namespaces,
}
use cedar_spec.Schemas.Declarations.Symmetric.{
  same_entries_iff, CommonKeyed, TagsKeyed, KindKeyed, EntityKeyed, AttributesKeyed, AppliesKeyed,
  ActionKeyed, NamespaceKeyed,
}
use cedar_spec.Schemas.Declarations.Fragments.{
  FragmentKeyed, name_dec, Equivalent, equivalence_check_iff, nontrivial-FragmentKeyed,
  lookup-nontrivial,
}

then_ok : (m k : Checked) → m ≡ ok tt → k ≡ ok tt → (m >> k) ≡ ok tt
then_ok m k e f = rw (e, f) refl

set_equiv_refl :
    {A : Type 0} (dec : Discrete A) (xs : List A)
    → set_equiv dec (set_of dec xs) (set_of dec xs) ≡ ok tt
unfolding set_equiv
set_equiv_refl dec xs = rw (same_set_refl dec (set_of dec xs)) refl

-- The text `Action` parses.
module _ (n : Names) {action : n.InternalName}
    (parses : n.parse_internal "Action" ≡ some action) where
  common_type_equiv_refl : (c : CommonType n) → CommonKeyed n c → common_type_equiv n c c ≡ ok tt
  unfolding common_type_equiv
  common_type_equiv_refl c k =
      then_ok _ _ (annotations_equiv_refl c.annotations k.0) (type_equiv_refl n c.ty k.1)

  tags_equiv_refl : (t : Option (SchemaType n)) → TagsKeyed n t → tags_equiv n t t ≡ ok tt
  unfolding tags_equiv
  tags_equiv_refl none k = refl
  tags_equiv_refl (some t) k = type_equiv_refl n t k

  kind_equiv_refl : (e : EntityTypeKind n) → KindKeyed n e → kind_equiv n e e ≡ ok tt
  unfolding kind_equiv
  kind_equiv_refl (EntityTypeKind.enumerated c) k = require-test_refl n.choices_discrete c _
  kind_equiv_refl (EntityTypeKind.standard e) k =
      then_ok _ _
        (then_ok _ _ (set_equiv_refl n.name_discrete e.member_of_types)
          (type_equiv_refl n e.shape k.0))
        (tags_equiv_refl e.tags k.1)

  entity_decl_equiv_refl : (e : EntityDecl n) → EntityKeyed n e → entity_decl_equiv n e e ≡ ok tt
  unfolding entity_decl_equiv
  entity_decl_equiv_refl e k =
      then_ok _ _ (annotations_equiv_refl e.annotations k.0) (kind_equiv_refl e.kind k.1)

  apply_spec_equiv_refl :
      (s : ApplySpec n) → AppliesKeyed n (some s) → apply_spec_equiv n s s ≡ ok tt
  unfolding apply_spec_equiv
  apply_spec_equiv_refl s k =
      then_ok _ _
        (then_ok _ _ (type_equiv_refl n s.context k)
          (set_equiv_refl n.name_discrete s.principal_types))
        (set_equiv_refl n.name_discrete s.resource_types)

  applies_to_equiv_refl :
      (s : Option (ApplySpec n)) → AppliesKeyed n s → applies_to_equiv n s s ≡ ok tt
  unfolding applies_to_equiv
  applies_to_equiv_refl none k = refl
  applies_to_equiv_refl (some s) k = ground (arith, apply_spec_equiv_refl s k)

  same_attributes_refl :
      (m : Option (List (String × n.Value))) → AttributesKeyed n m → same_attributes n m m ≡ true
  unfolding same_attributes
  same_attributes_refl none k = refl
  same_attributes_refl (some m) k =
      rw
        (
          (==_iff (length m) (length m)).1 refl,
          (same_entries_iff n m m).1
              (Matches-refl string_discrete ◌≡◌ m k (All-mono _ _ (λ p _. refl) m (everywhere m))),
        )
        refl

  parent_type_ok : (ty : Option n.Name) → (x : n.InternalName) × (parent_type n ty ≡ ok x)
  unfolding parent_type
  parent_type_ok none = (action, rw parses refl)
  parent_type_ok (some ty) = (n.qualify ty, refl)

  parents_ok :
      (ps : List (ActionEntityUid n))
      → (xs : List (String × n.InternalName)) × (for_each (named_parent n) ps ≡ ok xs)
  unfolding for_each named_parent
  parents_ok [] = ([], refl)
  parents_ok (p ∷ ps) =
      let one = parent_type_ok p.ty in
      let rest = parents_ok ps in ((p.id, one.0) ∷ rest.0, rw (one.1, rest.1) refl)

  normalized_member_of_ok :
      (ps : Option (List (ActionEntityUid n)))
      → (xs : List (String × n.InternalName)) × (normalized_member_of n ps ≡ ok xs)
  unfolding normalized_member_of normalized_parents for_each set_of parents_ok
  normalized_member_of_ok none = ([], refl)
  normalized_member_of_ok (some ps) =
      let x = parents_ok ps in
      (set_of (pair_discrete string_discrete n.internal_discrete) x.0, rw (x.1, ◌>>=◌) refl)

  action_equiv_refl : (a : ActionType n) → ActionKeyed n a → action_equiv n a a ≡ ok tt
  unfolding action_equiv
  action_equiv_refl a k =
      let m = normalized_member_of_ok a.member_of in
      rw
        (
          annotations_equiv_refl a.annotations k.0,
          same_attributes_refl a.attributes k.1,
          m.1,
          same_set_refl (pair_discrete string_discrete n.internal_discrete) m.0,
        )
        (applies_to_equiv_refl a.applies_to k.2)

  namespace_equiv_refl :
      (d : NamespaceDefinition n) → NamespaceKeyed n d → namespace_equiv n d d ≡ ok tt
  unfolding namespace_equiv
  namespace_equiv_refl d k =
      then_ok _ _
        (then_ok _ _
          (then_ok _ _ (annotations_equiv_refl d.annotations k.annotations) (
            map_equiv_refl_of_values (entity_decl_equiv n) (EntityKeyed n) entity_decl_equiv_refl
              d.entity_types k.entity_types))
          (map_equiv_refl_of_values (common_type_equiv n) (CommonKeyed n) common_type_equiv_refl
            d.common_types k.common_types))
        (map_equiv_refl_of_values (action_equiv n) (ActionKeyed n) action_equiv_refl d.actions
          k.actions)

  -- Where the text `Action` parses, a fragment in which no key is repeated is equivalent to itself.
  pub equivalence_check_refl :
      (f : Fragment n) → FragmentKeyed n f → equivalence_check n f f ≡ ok tt
  equivalence_check_refl f k =
      let kept = nontrivial-FragmentKeyed n f k in
      (equivalence_check_iff n f f).1 (
        refl,
        All-mono _ _ (λ q m. (m.0, ((lookup-nontrivial n q.0 f k.0 m.0).0 m.1).0, m.2))
            (nontrivial_namespaces n f)
            (Matches-refl (name_dec n) (Equivalent n) (nontrivial_namespaces n f) kept.0 (
              All-mono _ _ (λ p w. namespace_equiv_refl p.1 w) (nontrivial_namespaces n f) kept.1)),
      )
