-- ===== src/Datatypes/Terms.antt =====
-- cedar-lean-ffi/src/datatypes.rs: the conversions of terms, in both directions. The order of the terms
-- in a set is the crate's.
pub mod RoundTrip
use Prim.Native.Nat.{Ordering}
use Prim.Native.String.{String}
use cedar_spec.Base.{List, [], ◌∷◌, Exec, ok, ◌>>=◌}
use cedar_spec.Base.Ordered.{collect_ordered, by_first, IsAscending}
use cedar_spec.Datatypes.Crate.{Crate}
use cedar_spec.Datatypes.Symcc.{
  SymccTerm, SymccTerms, SymccMap, terms_of, map_of, term_elts, term_entries,
}
use cedar_spec.Datatypes.Ffi.{Term, Terms, Fields, TermConversionError}
use cedar_spec.Datatypes.Types.{type_from, type_into, var_from, var_into, FitsByte, IsOrdered}
use cedar_spec.Datatypes.Ops.{op_try_from, op_into, OpFitsByte, OpIsOrdered}
use cedar_spec.Datatypes.Prims.{prim_try_from, prim_into, PrimFitsByte}

module _ (c : Crate) (term_cmp : SymccTerm c → SymccTerm c → Ordering) where
  -- The set and the record that the converted elements and entries are collected into.
  abbrev pub set_from : List (SymccTerm c) → SymccTerms c
  set_from ts = terms_of (collect_ordered term_cmp ts)

  abbrev pub record_from : List (String × SymccTerm c) → SymccMap c
  record_from m = map_of (collect_ordered (by_first c.key_cmp) m)

  -- `impl TryFrom<Term> for cedar_policy_symcc::term::Term`
  unfoldable mutual
    pub term_try_from : Term c → Exec (TermConversionError c) (SymccTerm c)
    term_try_from (Term.app op args ret_ty) = do
      o ← op_try_from c op
      ts ← terms_try_from args
      ok (SymccTerm.app o (terms_of ts) (type_from c ret_ty))
    term_try_from (Term.none_of ty) = ok (SymccTerm.none_of (type_from c ty))
    term_try_from (Term.prim p) = do v ← prim_try_from c p; ok (SymccTerm.prim v)
    term_try_from (Term.record_of r) = do
      m ← fields_try_from r
      ok (SymccTerm.record_of (record_from m))
    term_try_from (Term.set elts elts_ty) = do
      ts ← terms_try_from elts
      ok (SymccTerm.set (set_from ts) (type_from c elts_ty))
    term_try_from (Term.some_of t) = do u ← term_try_from t; ok (SymccTerm.some_of u)
    term_try_from (Term.var v) = ok (SymccTerm.var (var_from c v))

    pub terms_try_from : Terms c → Exec (TermConversionError c) (List (SymccTerm c))
    terms_try_from Terms.no_terms = ok []
    terms_try_from (Terms.term t ts) = do u ← term_try_from t; us ← terms_try_from ts; ok (u ∷ us)

    pub fields_try_from : Fields c → Exec (TermConversionError c) (List (String × SymccTerm c))
    fields_try_from Fields.no_fields = ok []
    fields_try_from (Fields.field a t fs) = do
      u ← term_try_from t
      m ← fields_try_from fs
      ok ((a, u) ∷ m)

  -- `impl From<cedar_policy_symcc::term::Term> for Term`
  unfoldable mutual
    pub term_into : SymccTerm c → Exec ⊥ (Term c)
    term_into (SymccTerm.app op args ret_ty) = do
      o ← op_into c op
      ts ← terms_into args
      ty ← type_into c ret_ty
      ok (Term.app o ts ty)
    term_into (SymccTerm.none_of ty) = do u ← type_into c ty; ok (Term.none_of u)
    term_into (SymccTerm.prim p) = do v ← prim_into c p; ok (Term.prim v)
    term_into (SymccTerm.record_of r) = do fs ← map_into r; ok (Term.record_of fs)
    term_into (SymccTerm.set elts elts_ty) = do
      ts ← terms_into elts
      ty ← type_into c elts_ty
      ok (Term.set ts ty)
    term_into (SymccTerm.some_of t) = do u ← term_into t; ok (Term.some_of u)
    term_into (SymccTerm.var v) = do w ← var_into c v; ok (Term.var w)

    pub terms_into : SymccTerms c → Exec ⊥ (Terms c)
    terms_into SymccTerms.no_elts = ok Terms.no_terms
    terms_into (SymccTerms.elt t ts) = do u ← term_into t; us ← terms_into ts; ok (Terms.term u us)

    pub map_into : SymccMap c → Exec ⊥ (Fields c)
    map_into SymccMap.no_attrs = ok Fields.no_fields
    map_into (SymccMap.attr a t m) = do u ← term_into t; fs ← map_into m; ok (Fields.field a u fs)

  -- Every number that becomes a byte fits one.
  unfoldable mutual
    pub TermFitsByte : SymccTerm c → Type 0
    TermFitsByte (SymccTerm.app op args ret_ty) =
        OpFitsByte c op × TermsFitByte args × FitsByte c ret_ty
    TermFitsByte (SymccTerm.none_of ty) = FitsByte c ty
    TermFitsByte (SymccTerm.prim p) = PrimFitsByte c p
    TermFitsByte (SymccTerm.record_of r) = MapFitsByte r
    TermFitsByte (SymccTerm.set elts elts_ty) = TermsFitByte elts × FitsByte c elts_ty
    TermFitsByte (SymccTerm.some_of t) = TermFitsByte t
    TermFitsByte (SymccTerm.var v) = FitsByte c v.ty

    pub TermsFitByte : SymccTerms c → Type 0
    TermsFitByte SymccTerms.no_elts = Unit
    TermsFitByte (SymccTerms.elt t ts) = TermFitsByte t × TermsFitByte ts

    pub MapFitsByte : SymccMap c → Type 0
    MapFitsByte SymccMap.no_attrs = Unit
    MapFitsByte (SymccMap.attr a t m) = TermFitsByte t × MapFitsByte m

  -- The elements of every set and the keys of every record ascend.
  unfoldable mutual
    pub TermIsOrdered : SymccTerm c → Type 0
    TermIsOrdered (SymccTerm.app op args ret_ty) =
        OpIsOrdered c op × TermsOrdered args × IsOrdered c ret_ty
    TermIsOrdered (SymccTerm.none_of ty) = IsOrdered c ty
    TermIsOrdered (SymccTerm.prim p) = Unit
    TermIsOrdered (SymccTerm.record_of r) =
        IsAscending (by_first c.key_cmp) (term_entries r) × MapOrdered r
    TermIsOrdered (SymccTerm.set elts elts_ty) =
        IsAscending term_cmp (term_elts elts) × TermsOrdered elts × IsOrdered c elts_ty
    TermIsOrdered (SymccTerm.some_of t) = TermIsOrdered t
    TermIsOrdered (SymccTerm.var v) = IsOrdered c v.ty

    pub TermsOrdered : SymccTerms c → Type 0
    TermsOrdered SymccTerms.no_elts = Unit
    TermsOrdered (SymccTerms.elt t ts) = TermIsOrdered t × TermsOrdered ts

    pub MapOrdered : SymccMap c → Type 0
    MapOrdered SymccMap.no_attrs = Unit
    MapOrdered (SymccMap.attr a t m) = TermIsOrdered t × MapOrdered m
