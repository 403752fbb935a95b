-- ===== src/Datatypes/Sharing/Meaning.antt =====
-- Reconstructing a shared term gives what converting the term that it expands to gives.
use Prim.Native.Nat.{Ordering}
use Prim.Native.String.{String}
use cedar_spec.Base.{
  ◌≡◌, refl, sym, ◌∙◌, ◌↔◌, List, [], ◌∷◌, none, ok, ◌>>=◌, ok_or, lift_error, value_of, Zip,
}
use mathlib.Core.Logic.{if_pos, if_neg}
use cedar_spec.Base.Assoc.{lookup, insert}
use cedar_spec.Base.Texts.{string_discrete}
use cedar_spec.Datatypes.Crate.{Crate}
use cedar_spec.Datatypes.Symcc.{SymccTerm, terms_of}
use cedar_spec.Datatypes.Ffi.{
  Term, Terms, Fields, TermDefBody, Bodies, BodyFields, CseTermError, unknown_id, conversion,
}
use cedar_spec.Datatypes.Types.{type_from}
use cedar_spec.Datatypes.Ops.{op_try_from}
use cedar_spec.Datatypes.Prims.{prim_try_from}
use cedar_spec.Datatypes.Terms.{
  term_try_from, terms_try_from, fields_try_from, set_from, record_from,
}
use cedar_spec.Datatypes.Sharing.{
  resolve, resolve_all, resolve_entries, expand, expand_all, expand_entries,
}
use cedar_spec.Datatypes.Sharing.Values.{same-map, same-both, same-flip, value_of-map}

module _ (c : Crate) (term_cmp : SymccTerm c → SymccTerm c → Ordering) where
  -- A resolved definition is what its expansion converts to.
  abbrev pub Converts : String × Term c → String × SymccTerm c → Type 0
  Converts p q = (p.0 ≡ q.0) × (term_try_from c term_cmp p.1 ≡ ok q.1)

  lookup-Converts :
      (id : String) (env : List (String × Term c)) (m : List (String × SymccTerm c))
      → Zip Converts env m
      → value_of (ok_or {E = CseTermError c} (unknown_id id) (lookup string_discrete id m))
        ≡ value_of (
            ok_or {E = CseTermError c} (unknown_id id) (lookup string_discrete id env) >>= λ t.
            lift_error conversion (term_try_from c term_cmp t))
  unfolding lookup
  lookup-Converts id [] [] z = refl
  lookup-Converts id [] (q ∷ m) z = absurd z
  lookup-Converts id (p ∷ env) [] z = absurd z
  lookup-Converts id ((i, t) ∷ env) ((j, s) ∷ m) z = elim (string_discrete i id) [
    | yes e ↦
        rw (if_pos (string_discrete j id) (sym z.0.0 ∙ e), if_pos (string_discrete i id) e, z.0.1)
          refl
    | no n ↦
        rw (if_neg (string_discrete j id) (λ h. n (z.0.0 ∙ h)), if_neg (string_discrete i id) n)
          (lookup-Converts id env m z.1)
  ]

  mutual
    unfolding resolve expand term_try_from

    pub resolve-expand :
        (env : List (String × Term c)) (m : List (String × SymccTerm c))
        → Zip Converts env m
        → (b : TermDefBody c)
        → value_of (resolve c term_cmp m b)
          ≡ value_of (expand c env b >>= λ t. lift_error conversion (term_try_from c term_cmp t))
    resolve-expand env m z (TermDefBody.ref id) = lookup-Converts id env m z
    resolve-expand env m z (TermDefBody.prim p) =
        value_of-map conversion (lift_error conversion (prim_try_from c p)) (prim_try_from c p)
          SymccTerm.prim refl
    resolve-expand env m z (TermDefBody.var v) = refl
    resolve-expand env m z (TermDefBody.none_of ty) = refl
    resolve-expand env m z (TermDefBody.some_of b) =
        same-map conversion _ (expand c env b) (term_try_from c term_cmp) SymccTerm.some_of
          Term.some_of (term_try_from c term_cmp) (λ t. refl) (resolve-expand env m z b)
    resolve-expand env m z (TermDefBody.set bs ty) =
        same-map conversion _ (expand_all c env bs) (terms_try_from c term_cmp)
          (λ ts. SymccTerm.set (set_from c term_cmp ts) (type_from c ty)) (λ ts. Term.set ts ty)
          (term_try_from c term_cmp) (λ ts. refl) (resolve_all-expand_all env m z bs)
    resolve-expand env m z (TermDefBody.record_of fs) =
        same-map conversion _ (expand_entries c env fs) (fields_try_from c term_cmp)
          (λ r. SymccTerm.record_of (record_from c term_cmp r)) Term.record_of
          (term_try_from c term_cmp) (λ ts. refl) (resolve_entries-expand_entries env m z fs)
    resolve-expand env m z (TermDefBody.app op bs ty) =
        same-flip conversion _ (expand_all c env bs) (terms_try_from c term_cmp) (op_try_from c op)
          (λ ts o. SymccTerm.app o (terms_of ts) (type_from c ty)) (λ ts. Term.app op ts ty)
          (term_try_from c term_cmp) (λ ts. refl) (resolve_all-expand_all env m z bs)

    resolve_all-expand_all :
        (env : List (String × Term c)) (m : List (String × SymccTerm c))
        → Zip Converts env m
        → (bs : Bodies c)
        → value_of (resolve_all c term_cmp m bs)
          ≡ value_of
              (expand_all c env bs >>= λ ts. lift_error conversion (terms_try_from c term_cmp ts))
    resolve_all-expand_all env m z Bodies.no_bodies = refl
    resolve_all-expand_all env m z (Bodies.body b bs) =
        same-both conversion _ _ (expand c env b) (expand_all c env bs) (term_try_from c term_cmp)
          (terms_try_from c term_cmp) (λ t ts. t ∷ ts) Terms.term (terms_try_from c term_cmp)
          (λ t ts. refl) (resolve-expand env m z b) (resolve_all-expand_all env m z bs)

    resolve_entries-expand_entries :
        (env : List (String × Term c)) (m : List (String × SymccTerm c))
        → Zip Converts env m
        → (fs : BodyFields c)
        → value_of (resolve_entries c term_cmp m fs)
          ≡ value_of (
              expand_entries c env fs >>= λ r. lift_error conversion (fields_try_from c term_cmp r))
    resolve_entries-expand_entries env m z BodyFields.no_fields = refl
    resolve_entries-expand_entries env m z (BodyFields.field a b fs) =
        same-both conversion _ _ (expand c env b) (expand_entries c env fs)
          (term_try_from c term_cmp) (fields_try_from c term_cmp) (λ t r. (a, t) ∷ r)
          (Fields.field a) (fields_try_from c term_cmp) (λ t r. refl) (resolve-expand env m z b)
          (resolve_entries-expand_entries env m z fs)

  -- What holds of the definitions so far holds after one more.
  pub define-Zip :
      (id : String) (t : Term c) (s : SymccTerm c) (env : List (String × Term c))
      (m : List (String × SymccTerm c))
      → Zip Converts env m
      → term_try_from c term_cmp t ≡ ok s
      → Zip Converts (insert string_discrete id t env) (insert string_discrete id s m)
  unfolding insert
  define-Zip id t s [] [] z e = ((refl, e), tt)
  define-Zip id t s [] (q ∷ m) z e = absurd z
  define-Zip id t s (p ∷ env) [] z e = absurd z
  define-Zip id t s ((i, u) ∷ env) ((j, v) ∷ m) z e = elim (string_discrete i id) [
    | yes h ↦
        rw (if_pos (string_discrete j id) (sym z.0.0 ∙ h), if_pos (string_discrete i id) h)
          ((refl, e), z.1)
    | no n ↦
        rw (if_neg (string_discrete j id) (λ h. n (z.0.0 ∙ h)), if_neg (string_discrete i id) n)
          (z.0, define-Zip id t s env m z.1 e)
  ]

  pub lookup-none :
      (id : String) (env : List (String × Term c)) (m : List (String × SymccTerm c))
      → Zip Converts env m
      → (lookup string_discrete id env ≡ none) ↔ (lookup string_discrete id m ≡ none)
  unfolding lookup
  lookup-none id [] [] z = (λ h. refl, λ h. refl)
  lookup-none id [] (q ∷ m) z = absurd z
  lookup-none id (p ∷ env) [] z = absurd z
  lookup-none id ((i, u) ∷ env) ((j, v) ∷ m) z = elim (string_discrete i id) [
    | yes h ↦
        rw (if_pos (string_discrete j id) (sym z.0.0 ∙ h), if_pos (string_discrete i id) h)
          (λ e. cc, λ e. cc)
    | no n ↦
        rw (if_neg (string_discrete j id) (λ h. n (z.0.0 ∙ h)), if_neg (string_discrete i id) n)
          (lookup-none id env m z.1)
  ]
