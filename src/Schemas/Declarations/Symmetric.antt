-- ===== src/Schemas/Declarations/Symmetric.antt =====
-- Declarations and namespaces are equivalent in both directions.
use Prim.Native.String.{String}
use cedar_spec.Base.{
  ◌≡◌, refl, sym, subst, ◌∙◌, true, ◌&&◌, ◌||◌, List, [], ◌∷◌, Option, none, some, ok, ◌>>◌, All,
  after_step, test_iff, ap, for_each, ==_iff, ◌↔◌, arith, Bool-cases, inl, inr, length,
}
use cedar_spec.Base.Assoc.{lookup, contains, insert_elem}
use cedar_spec.Base.Pigeonhole.{IsRepeatFree, contains_iff}
use cedar_spec.Base.Texts.{string_discrete}
use cedar_spec.Schemas.{Names, Checked, require, annotations_equiv, set_of, set_equiv, keys_of}
use cedar_spec.Schemas.Maps.{
  require-ok, both_true, All-mono, everywhere, same_set_sym, map_equiv_sym_of_values, Matches,
  Matches-sym,
}
use cedar_spec.Schemas.Types.{SchemaType}
use cedar_spec.Schemas.Types.Symmetric.{
  IsKeyed, type_equiv_sym, annotations_equiv_sym, require-test_sym,
}
use cedar_spec.Schemas.Declarations.{
  CommonType, EntityTypeKind, EntityDecl, ActionEntityUid, ActionType, ApplySpec,
  NamespaceDefinition, common_type_equiv, tags_equiv, kind_equiv, entity_decl_equiv,
  apply_spec_equiv, applies_to_equiv, normalized_member_of, normalized_parents, named_parent,
  same_attributes, same_entries, no_attributes_in, action_equiv, namespace_equiv, pair_discrete,
  option_discrete,
}

-- Two checks in a row, turned round one by one.
then_sym :
    (m m' k k' : Checked)
    → (m ≡ ok tt → m' ≡ ok tt)
    → (k ≡ ok tt → k' ≡ ok tt)
    → (m >> k) ≡ ok tt
    → (m' >> k') ≡ ok tt
then_sym m m' k k' f g h = let x = after_step m (λ _. k) h in rw (f x.1) (g x.2)

module _ {A : Type 0} (dec : Discrete A) where
  insert_elem-IsRepeatFree :
      (a : A) (xs : List A) → IsRepeatFree xs → IsRepeatFree (insert_elem dec a xs)
  unfolding insert_elem
  insert_elem-IsRepeatFree a xs u = elim (Bool-cases (contains dec a xs)) [
    | inl e ↦ rw (e, IsRepeatFree) u
    | inr e ↦ rw (e, IsRepeatFree) (λ i. cc ((contains_iff dec a xs).1 i), u)
  ]

  set_of-IsRepeatFree : (xs : List A) → IsRepeatFree (set_of dec xs)
  unfolding set_of
  set_of-IsRepeatFree [] = tt
  set_of-IsRepeatFree (x ∷ xs) = insert_elem-IsRepeatFree x (set_of dec xs) (set_of-IsRepeatFree xs)

  set_equiv_sym :
      (xs ys : List A)
      → set_equiv dec (set_of dec xs) (set_of dec ys) ≡ ok tt
      → set_equiv dec (set_of dec ys) (set_of dec xs) ≡ ok tt
  unfolding set_equiv
  set_equiv_sym xs ys h =
      rw
        (same_set_sym dec (set_of dec xs) (set_of dec ys) (set_of-IsRepeatFree xs)
          (require-ok _ _ h))
        refl

module _ (n : Names) where
  abbrev pub CommonKeyed : CommonType n → Type 0
  CommonKeyed c = IsRepeatFree (keys_of c.annotations) × IsKeyed n c.ty

  abbrev pub TagsKeyed : Option (SchemaType n) → Type 0
  TagsKeyed none = Unit
  TagsKeyed (some t) = IsKeyed n t

  abbrev pub KindKeyed : EntityTypeKind n → Type 0
  KindKeyed (EntityTypeKind.enumerated c) = Unit
  KindKeyed (EntityTypeKind.standard e) = IsKeyed n e.shape × TagsKeyed e.tags

  abbrev pub EntityKeyed : EntityDecl n → Type 0
  EntityKeyed e = IsRepeatFree (keys_of e.annotations) × KindKeyed e.kind

  abbrev pub AttributesKeyed : Option (List (String × n.Value)) → Type 0
  AttributesKeyed none = Unit
  AttributesKeyed (some m) = IsRepeatFree (keys_of m)

  abbrev pub AppliesKeyed : Option (ApplySpec n) → Type 0
  AppliesKeyed none = Unit
  AppliesKeyed (some spec) = IsKeyed n spec.context

  abbrev pub ActionKeyed : ActionType n → Type 0
  ActionKeyed a =
      IsRepeatFree (keys_of a.annotations)
      × AttributesKeyed a.attributes
      × AppliesKeyed a.applies_to

  -- No key of a map in the namespace is repeated.
  pub record NamespaceKeyed (d : NamespaceDefinition n) : Type 0 where
    pub annotations : IsRepeatFree (keys_of d.annotations)
    pub entity_types :
        IsRepeatFree (keys_of d.entity_types) × All (λ p. EntityKeyed p.1) d.entity_types
    pub common_types :
        IsRepeatFree (keys_of d.common_types) × All (λ p. CommonKeyed p.1) d.common_types
    pub actions : IsRepeatFree (keys_of d.actions) × All (λ p. ActionKeyed p.1) d.actions

  common_type_equiv_sym :
      (l r : CommonType n)
      → CommonKeyed l
      → CommonKeyed r
      → common_type_equiv n l r ≡ ok tt
      → common_type_equiv n r l ≡ ok tt
  unfolding common_type_equiv
  common_type_equiv_sym l r kl kr =
      then_sym _ _ _ _ (annotations_equiv_sym l.annotations r.annotations kl.0 kr.0)
        (type_equiv_sym n l.ty kl.1 r.ty kr.1)

  tags_equiv_sym :
      (l r : Option (SchemaType n))
      → TagsKeyed l
      → TagsKeyed r
      → tags_equiv n l r ≡ ok tt
      → tags_equiv n r l ≡ ok tt
  unfolding tags_equiv
  tags_equiv_sym (some l) (some r) kl kr h = type_equiv_sym n l kl r kr h
  tags_equiv_sym none none kl kr h = h
  tags_equiv_sym (some l) none kl kr h = cc
  tags_equiv_sym none (some r) kl kr h = cc

  kind_equiv_sym :
      (l r : EntityTypeKind n)
      → KindKeyed l
      → KindKeyed r
      → kind_equiv n l r ≡ ok tt
      → kind_equiv n r l ≡ ok tt
  unfolding kind_equiv
  kind_equiv_sym (EntityTypeKind.enumerated c) (EntityTypeKind.enumerated d) kl kr h =
      require-test_sym n.choices_discrete c d _ h
  kind_equiv_sym (EntityTypeKind.standard l) (EntityTypeKind.standard r) kl kr h =
      then_sym _ _ _ _
        (then_sym _ _ _ _ (set_equiv_sym n.name_discrete l.member_of_types r.member_of_types)
          (type_equiv_sym n l.shape kl.0 r.shape kr.0))
        (tags_equiv_sym l.tags r.tags kl.1 kr.1) h
  kind_equiv_sym (EntityTypeKind.enumerated c) (EntityTypeKind.standard r) kl kr h = cc
  kind_equiv_sym (EntityTypeKind.standard l) (EntityTypeKind.enumerated d) kl kr h = cc

  entity_decl_equiv_sym :
      (l r : EntityDecl n)
      → EntityKeyed l
      → EntityKeyed r
      → entity_decl_equiv n l r ≡ ok tt
      → entity_decl_equiv n r l ≡ ok tt
  unfolding entity_decl_equiv
  entity_decl_equiv_sym l r kl kr =
      then_sym _ _ _ _ (annotations_equiv_sym l.annotations r.annotations kl.0 kr.0)
        (kind_equiv_sym l.kind r.kind kl.1 kr.1)

  apply_spec_equiv_sym :
      (l r : ApplySpec n)
      → IsKeyed n l.context
      → IsKeyed n r.context
      → apply_spec_equiv n l r ≡ ok tt
      → apply_spec_equiv n r l ≡ ok tt
  unfolding apply_spec_equiv
  apply_spec_equiv_sym l r kl kr =
      then_sym _ _ _ _
        (then_sym _ _ _ _ (type_equiv_sym n l.context kl r.context kr)
          (set_equiv_sym n.name_discrete l.principal_types r.principal_types))
        (set_equiv_sym n.name_discrete l.resource_types r.resource_types)

  applies_to_equiv_sym :
      (l r : Option (ApplySpec n))
      → AppliesKeyed l
      → AppliesKeyed r
      → applies_to_equiv n l r ≡ ok tt
      → applies_to_equiv n r l ≡ ok tt
  unfolding applies_to_equiv
  applies_to_equiv_sym none none kl kr h = h
  applies_to_equiv_sym (some l) (some r) kl kr h = ground (arith, apply_spec_equiv_sym l r kl kr)
  applies_to_equiv_sym (some l) none kl kr h = ground arith
  applies_to_equiv_sym none (some r) kl kr h = ground arith

  normalized_parents-IsRepeatFree :
      (ps : List (ActionEntityUid n)) {xs : List (String × n.InternalName)}
      → normalized_parents n ps ≡ ok xs
      → IsRepeatFree xs
  unfolding normalized_parents for_each named_parent
  normalized_parents-IsRepeatFree ps e =
      let p = after_step (for_each (named_parent n) ps) _ e in
      subst IsRepeatFree (cc (p.2))
        (set_of-IsRepeatFree (pair_discrete string_discrete n.internal_discrete) p.0)

  normalized_member_of-IsRepeatFree :
      (ps : Option (List (ActionEntityUid n))) {xs : List (String × n.InternalName)}
      → normalized_member_of n ps ≡ ok xs
      → IsRepeatFree xs
  unfolding normalized_member_of
  normalized_member_of-IsRepeatFree none {xs} e =
      let q : ◌≡◌ {A = List (String × n.InternalName)} [] xs = cc in subst IsRepeatFree q tt
  normalized_member_of-IsRepeatFree (some ps) e = normalized_parents-IsRepeatFree ps e

  pub same_entries_iff :
      (l r : List (String × n.Value))
      → (same_entries n l r ≡ true) ↔ Matches string_discrete ◌≡◌ l r
  unfolding same_entries
  same_entries_iff [] r = (λ h. tt, λ m. refl)
  same_entries_iff ((k, v) ∷ l) r =
      let found =
        test_iff (option_discrete n.value_discrete (lookup string_discrete k r) (some v)) in
      let more = same_entries_iff l r in
      (
        λ h. let b = both_true _ _ h in ((v, found.0 b.0, refl), more.0 b.1),
        λ m. rw (found.1 (m.0.1 ∙ ap some (sym m.0.2)), more.1 m.1) refl,
      )

  same_attributes_sym :
      (l r : Option (List (String × n.Value)))
      → AttributesKeyed l
      → AttributesKeyed r
      → same_attributes n l r ≡ true
      → same_attributes n r l ≡ true
  unfolding same_attributes
  same_attributes_sym (some l) (some r) kl kr h =
      let b = both_true _ _ h in
      let sized = (==_iff (length l) (length r)).0 b.0 in
      let back =
        Matches-sym string_discrete ◌≡◌ (λ _. Unit {0}) l r kl kr sized (everywhere r)
          (All-mono _ _ (λ p _ w _ e. sym e) l (everywhere l)) ((same_entries_iff l r).0 b.1) in
      rw ((==_iff (length r) (length l)).1 (sym sized), (same_entries_iff r l).1 back) refl
  same_attributes_sym none none kl kr h = h
  same_attributes_sym (some l) none kl kr h = cc
  same_attributes_sym none (some r) kl kr h = cc

  attributes_test_sym :
      (l r : Option (List (String × n.Value)))
      → AttributesKeyed l
      → AttributesKeyed r
      → (same_attributes n l r || (no_attributes_in n l && no_attributes_in n r)) ≡ true
      → (same_attributes n r l || (no_attributes_in n r && no_attributes_in n l)) ≡ true
  attributes_test_sym l r kl kr h = ground (arith, same_attributes_sym l r kl kr)

  action_equiv_sym :
      (l r : ActionType n)
      → ActionKeyed l
      → ActionKeyed r
      → action_equiv n l r ≡ ok tt
      → action_equiv n r l ≡ ok tt
  unfolding action_equiv
  action_equiv_sym l r kl kr h =
      let a = after_step (annotations_equiv l.annotations r.annotations) _ h in
      let b = after_step (require _ _) _ a.2 in
      let c = after_step (normalized_member_of n l.member_of) _ b.2 in
      let d = after_step (normalized_member_of n r.member_of) _ c.2 in
      let e = after_step (require _ _) _ d.2 in
      rw
        (
          annotations_equiv_sym l.annotations r.annotations kl.0 kr.0 a.1,
          attributes_test_sym l.attributes r.attributes kl.1 kr.1 (require-ok _ _ b.1),
          d.1,
          c.1,
          same_set_sym (pair_discrete string_discrete n.internal_discrete) c.0 d.0
              (normalized_member_of-IsRepeatFree l.member_of c.1) (require-ok _ _ e.1),
        )
        (applies_to_equiv_sym l.applies_to r.applies_to kl.2 kr.2 e.2)

  pub namespace_equiv_sym :
      (l r : NamespaceDefinition n)
      → NamespaceKeyed l
      → NamespaceKeyed r
      → namespace_equiv n l r ≡ ok tt
      → namespace_equiv n r l ≡ ok tt
  unfolding namespace_equiv
  namespace_equiv_sym l r kl kr =
      then_sym _ _ _ _
        (then_sym _ _ _ _
          (then_sym _ _ _ _
            (annotations_equiv_sym l.annotations r.annotations kl.annotations kr.annotations)
            (map_equiv_sym_of_values (entity_decl_equiv n) EntityKeyed entity_decl_equiv_sym
              l.entity_types r.entity_types kl.entity_types kr.entity_types))
          (map_equiv_sym_of_values (common_type_equiv n) CommonKeyed common_type_equiv_sym
            l.common_types r.common_types kl.common_types kr.common_types))
        (map_equiv_sym_of_values (action_equiv n) ActionKeyed action_equiv_sym l.actions r.actions
          kl.actions kr.actions)
