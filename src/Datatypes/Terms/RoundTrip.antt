-- ===== src/Datatypes/Terms/RoundTrip.antt =====
-- Terms converted to the Lean side and back.
use Prim.Native.Nat.{Ordering}
use cedar_spec.Base.{◌≡◌, refl, ok, Ensures, Ensures-bind}
use cedar_spec.Base.Ordered.{by_first, collect_ordered-IsAscending}
use cedar_spec.Datatypes.Crate.{Crate, RoundTrips}
use cedar_spec.Datatypes.Symcc.{
  SymccTerm, SymccTerms, SymccMap, term_elts, term_entries, terms_of-term_elts, map_of-term_entries,
}
use cedar_spec.Datatypes.Ffi.{Term}
use cedar_spec.Datatypes.Types.{type_into, var_into}
use cedar_spec.Datatypes.Types.RoundTrip.{type_into-Ensures, Ensures-returns}
use cedar_spec.Datatypes.Ops.{op_into}
use cedar_spec.Datatypes.Ops.RoundTrip.{op_into-Ensures, var_into-Ensures}
use cedar_spec.Datatypes.Prims.{prim_into}
use cedar_spec.Datatypes.Prims.RoundTrip.{prim_into-Ensures}
use cedar_spec.Datatypes.Terms.{
  term_try_from, terms_try_from, fields_try_from, term_into, terms_into, map_into, TermFitsByte,
  TermsFitByte, MapFitsByte, TermIsOrdered, TermsOrdered, MapOrdered,
}

module _ (c : Crate) (term_cmp : SymccTerm c → SymccTerm c → Ordering) (laws : RoundTrips c) where
  mutual
    unfolding term_try_from term_into TermFitsByte TermIsOrdered

    term_into-Ensures :
        (t : SymccTerm c)
        → TermIsOrdered c term_cmp t
        → TermFitsByte c term_cmp t
        → Ensures (λ u. term_try_from c term_cmp u ≡ ok t) (term_into c term_cmp t)
    term_into-Ensures (SymccTerm.app op args ret_ty) o f =
        Ensures-bind _ _ (op_into c op) _ (op_into-Ensures c laws op o.0 f.0) (λ x _ p.
          Ensures-bind _ _ (terms_into c term_cmp args) _ (terms_into-Ensures args o.1 f.1)
            (λ ts _ q.
              Ensures-bind _ _ (type_into c ret_ty) _ (type_into-Ensures c ret_ty o.2 f.2)
                (λ ty _ r. rw (p, q, terms_of-term_elts args, r) refl)))
    term_into-Ensures (SymccTerm.none_of ty) o f =
        Ensures-bind _ _ (type_into c ty) _ (type_into-Ensures c ty o f) (λ u _ e. rw e refl)
    term_into-Ensures (SymccTerm.prim p) o f =
        Ensures-bind _ _ (prim_into c p) _ (prim_into-Ensures c laws p f) (λ u _ e. rw e refl)
    term_into-Ensures (SymccTerm.record_of r) o f =
        Ensures-bind _ _ (map_into c term_cmp r) _ (map_into-Ensures r o.1 f) (λ fs _ e.
          rw
            (
              e,
              collect_ordered-IsAscending (by_first c.key_cmp) (term_entries r) o.0,
              map_of-term_entries r,
            )
            refl)
    term_into-Ensures (SymccTerm.set elts elts_ty) o f =
        Ensures-bind _ _ (terms_into c term_cmp elts) _ (terms_into-Ensures elts o.1 f.0) (λ ts _ q.
          Ensures-bind _ _ (type_into c elts_ty) _ (type_into-Ensures c elts_ty o.2 f.1) (λ ty _ r.
            rw
              (
                q,
                collect_ordered-IsAscending term_cmp (term_elts elts) o.0,
                terms_of-term_elts elts,
                r,
              )
              refl))
    term_into-Ensures (SymccTerm.some_of t) o f =
        Ensures-bind _ _ (term_into c term_cmp t) _ (term_into-Ensures t o f) (λ u _ e. rw e refl)
    term_into-Ensures (SymccTerm.var v) o f =
        Ensures-bind _ _ (var_into c v) _ (var_into-Ensures c v o f) (λ w _ e. rw e refl)

    terms_into-Ensures :
        (ts : SymccTerms c)
        → TermsOrdered c term_cmp ts
        → TermsFitByte c term_cmp ts
        → Ensures
            (λ us. terms_try_from c term_cmp us ≡ ok (term_elts ts))
            (terms_into c term_cmp ts)
    terms_into-Ensures SymccTerms.no_elts o f = refl
    terms_into-Ensures (SymccTerms.elt t ts) o f =
        Ensures-bind _ _ (term_into c term_cmp t) _ (term_into-Ensures t o.0 f.0) (λ u _ p.
          Ensures-bind _ _ (terms_into c term_cmp ts) _ (terms_into-Ensures ts o.1 f.1)
            (λ us _ q. rw (p, q) refl))

    map_into-Ensures :
        (m : SymccMap c)
        → MapOrdered c term_cmp m
        → MapFitsByte c term_cmp m
        → Ensures
            (λ fs. fields_try_from c term_cmp fs ≡ ok (term_entries m))
            (map_into c term_cmp m)
    map_into-Ensures SymccMap.no_attrs o f = refl
    map_into-Ensures (SymccMap.attr a t m) o f =
        Ensures-bind _ _ (term_into c term_cmp t) _ (term_into-Ensures t o.0 f.0) (λ u _ p.
          Ensures-bind _ _ (map_into c term_cmp m) _ (map_into-Ensures m o.1 f.1)
            (λ fs _ q. rw (p, q) refl))

  -- A term whose sets and records are ordered, whose patterns hold characters and whose widths fit
  -- a byte is converted to the Lean side without a panic, and converted back it is the same term,
  -- where the conversions of the other crates undo each other.
  pub term_try_from-term_into :
      (t : SymccTerm c)
      → TermIsOrdered c term_cmp t
      → TermFitsByte c term_cmp t
      → (u : Term c) × (term_into c term_cmp t ≡ ok u) × (term_try_from c term_cmp u ≡ ok t)
  term_try_from-term_into t o f =
      Ensures-returns _ (term_into c term_cmp t) (term_into-Ensures t o f)
