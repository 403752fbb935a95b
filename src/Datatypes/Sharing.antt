-- ===== src/Datatypes/Sharing.antt =====
-- cedar-lean-ffi/src/datatypes.rs: terms whose common subterms are factored out, and what they expand to.
-- A shared pointer is its content.
pub mod Values
pub mod Meaning
pub mod Correct
use Prim.Native.Nat.{Ordering}
use Prim.Native.String.{String}
use cedar_spec.Base.{Option, List, [], ◌∷◌, none, some, Exec, ok, err, ◌>>=◌, ok_or, lift_error}
use cedar_spec.Base.Assoc.{lookup, insert}
use cedar_spec.Base.Texts.{string_discrete}
use cedar_spec.Datatypes.Crate.{Crate}
use cedar_spec.Datatypes.Symcc.{SymccTerm, terms_of}
use cedar_spec.Datatypes.Ffi.{
  Term, Terms, Fields, TermDefBody, Bodies, BodyFields, TermDef, CseTerm, CseTermError, unknown_id,
  duplicate_id, conversion,
}
use cedar_spec.Datatypes.Types.{type_from, var_from}
use cedar_spec.Datatypes.Ops.{op_try_from}
use cedar_spec.Datatypes.Prims.{prim_try_from}
use cedar_spec.Datatypes.Terms.{set_from, record_from}

-- The map after an insertion, where the key was vacant.
abbrev pub vacant : {c : Crate} {A M : Type 0} → String → Option A → M → Exec (CseTermError c) M
vacant id none m = ok m
vacant id (some old) m = err (duplicate_id id)

-- `if resolved.insert(id, term).is_some() { return Err(DuplicateId(id)) }`
abbrev pub define :
    {c : Crate} {A : Type 0}
    → String
    → A
    → List (String × A)
    → Exec (CseTermError c) (List (String × A))
define id a m = vacant id (lookup string_discrete id m) (insert string_discrete id a m)

module _ (c : Crate) where
  module _ (term_cmp : SymccTerm c → SymccTerm c → Ordering) where
    -- `TermDefBody::resolve`
    unfoldable mutual
      pub resolve :
          List (String × SymccTerm c) → TermDefBody c → Exec (CseTermError c) (SymccTerm c)
      resolve resolved (TermDefBody.ref id) =
          ok_or (unknown_id id) (lookup string_discrete id resolved)
      resolve resolved (TermDefBody.prim p) = do
        v ← lift_error conversion (prim_try_from c p)
        ok (SymccTerm.prim v)
      resolve resolved (TermDefBody.var v) = ok (SymccTerm.var (var_from c v))
      resolve resolved (TermDefBody.none_of ty) = ok (SymccTerm.none_of (type_from c ty))
      resolve resolved (TermDefBody.some_of inner) = do
        t ← resolve resolved inner
        ok (SymccTerm.some_of t)
      resolve resolved (TermDefBody.set elts elts_ty) = do
        ts ← resolve_all resolved elts
        ok (SymccTerm.set (set_from c term_cmp ts) (type_from c elts_ty))
      resolve resolved (TermDefBody.record_of entries) = do
        m ← resolve_entries resolved entries
        ok (SymccTerm.record_of (record_from c term_cmp m))
      resolve resolved (TermDefBody.app op args ret_ty) = do
        ts ← resolve_all resolved args
        o ← lift_error conversion (op_try_from c op)
        ok (SymccTerm.app o (terms_of ts) (type_from c ret_ty))

      pub resolve_all :
          List (String × SymccTerm c) → Bodies c → Exec (CseTermError c) (List (SymccTerm c))
      resolve_all resolved Bodies.no_bodies = ok []
      resolve_all resolved (Bodies.body b bs) = do
        t ← resolve resolved b
        ts ← resolve_all resolved bs
        ok (t ∷ ts)

      pub resolve_entries :
          List (String × SymccTerm c)
          → BodyFields c
          → Exec (CseTermError c) (List (String × SymccTerm c))
      resolve_entries resolved BodyFields.no_fields = ok []
      resolve_entries resolved (BodyFields.field a b fs) = do
        t ← resolve resolved b
        m ← resolve_entries resolved fs
        ok ((a, t) ∷ m)

    -- The loop over the definitions.
    unfoldable pub resolve_defs :
        List (TermDef c)
        → List (String × SymccTerm c)
        → Exec (CseTermError c) (List (String × SymccTerm c))
    resolve_defs [] resolved = ok resolved
    resolve_defs (d ∷ defs) resolved = do
      t ← resolve resolved d.body
      m ← define d.id t resolved
      resolve_defs defs m

    -- `impl TryFrom<CseTerm> for SymccTerm`
    unfoldable pub cse_try_from : CseTerm c → Exec (CseTermError c) (SymccTerm c)
    cse_try_from value = do resolved ← resolve_defs value.defs []; resolve resolved value.root

  -- A body with every reference replaced by the term that its definition expands to.
  unfoldable mutual
    pub expand : List (String × Term c) → TermDefBody c → Exec (CseTermError c) (Term c)
    expand env (TermDefBody.ref id) = ok_or (unknown_id id) (lookup string_discrete id env)
    expand env (TermDefBody.prim p) = ok (Term.prim p)
    expand env (TermDefBody.var v) = ok (Term.var v)
    expand env (TermDefBody.none_of ty) = ok (Term.none_of ty)
    expand env (TermDefBody.some_of b) = do t ← expand env b; ok (Term.some_of t)
    expand env (TermDefBody.set bs ty) = do ts ← expand_all env bs; ok (Term.set ts ty)
    expand env (TermDefBody.record_of fs) = do m ← expand_entries env fs; ok (Term.record_of m)
    expand env (TermDefBody.app op bs ty) = do ts ← expand_all env bs; ok (Term.app op ts ty)

    pub expand_all : List (String × Term c) → Bodies c → Exec (CseTermError c) (Terms c)
    expand_all env Bodies.no_bodies = ok Terms.no_terms
    expand_all env (Bodies.body b bs) = do
      t ← expand env b
      ts ← expand_all env bs
      ok (Terms.term t ts)

    pub expand_entries : List (String × Term c) → BodyFields c → Exec (CseTermError c) (Fields c)
    expand_entries env BodyFields.no_fields = ok Fields.no_fields
    expand_entries env (BodyFields.field a b fs) = do
      t ← expand env b
      m ← expand_entries env fs
      ok (Fields.field a t m)

  -- The definitions in their order, each expanded by those before it.
  unfoldable pub expand_defs :
      List (TermDef c) → List (String × Term c) → Exec (CseTermError c) (List (String × Term c))
  expand_defs [] env = ok env
  expand_defs (d ∷ defs) env = do t ← expand env d.body; m ← define d.id t env; expand_defs defs m

  -- A term as a body without references.
  unfoldable mutual
    pub embed : Term c → TermDefBody c
    embed (Term.prim p) = TermDefBody.prim p
    embed (Term.var v) = TermDefBody.var v
    embed (Term.none_of ty) = TermDefBody.none_of ty
    embed (Term.some_of t) = TermDefBody.some_of (embed t)
    embed (Term.set ts ty) = TermDefBody.set (embed_all ts) ty
    embed (Term.record_of fs) = TermDefBody.record_of (embed_fields fs)
    embed (Term.app op ts ty) = TermDefBody.app op (embed_all ts) ty

    pub embed_all : Terms c → Bodies c
    embed_all Terms.no_terms = Bodies.no_bodies
    embed_all (Terms.term t ts) = Bodies.body (embed t) (embed_all ts)

    pub embed_fields : Fields c → BodyFields c
    embed_fields Fields.no_fields = BodyFields.no_fields
    embed_fields (Fields.field a t fs) = BodyFields.field a (embed t) (embed_fields fs)
