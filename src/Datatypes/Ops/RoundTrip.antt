-- ===== src/Datatypes/Ops/RoundTrip.antt =====
-- Operators converted to the Lean side and back.
use cedar_spec.Base.{◌≡◌, refl, List, [], ◌∷◌, map, ok, Ensures, Ensures-bind, for_each, All}
use cedar_spec.Datatypes.Crate.{Crate, PatternElem, RoundTrips}
use cedar_spec.Datatypes.Symcc.{SymccOp, SymccExtOp, SymccUuf, SymccVar}
use cedar_spec.Datatypes.Types.{
  uuf_from, uuf_into, FitsByte, IsOrdered, type_into, var_from, var_into,
}
use cedar_spec.Datatypes.Types.RoundTrip.{to_byte-fits, type_into-Ensures}
use cedar_spec.Datatypes.Ops.{
  ext_op_from, ext_op_into, pat_elem_into, pat_elem_try_from, op_try_from, op_into, IsElem,
  OpFitsByte, OpIsOrdered,
}

ext_op_from-ext_op_into : (x : SymccExtOp) → ext_op_from (ext_op_into x) ≡ x
unfolding ext_op_from ext_op_into
ext_op_from-ext_op_into SymccExtOp.decimal_val = refl
ext_op_from-ext_op_into _ = refl

module _ (c : Crate) where
  pub uuf_into-Ensures :
      (u : SymccUuf c)
      → IsOrdered c u.arg × IsOrdered c u.out
      → FitsByte c u.arg × FitsByte c u.out
      → Ensures (λ v. uuf_from c v ≡ u) (uuf_into c u)
  unfolding uuf_into uuf_from
  uuf_into-Ensures u o f =
      Ensures-bind _ _ (type_into c u.arg) _ (type_into-Ensures c u.arg o.0 f.0) (λ a _ p.
        Ensures-bind _ _ (type_into c u.out) _ (type_into-Ensures c u.out o.1 f.1)
          (λ b _ q. rw (p, q) refl))

  pub var_into-Ensures :
      (v : SymccVar c)
      → IsOrdered c v.ty
      → FitsByte c v.ty
      → Ensures (λ w. var_from c w ≡ v) (var_into c v)
  unfolding var_into var_from
  var_into-Ensures v o f =
      Ensures-bind _ _ (type_into c v.ty) _ (type_into-Ensures c v.ty o f) (λ t _ p. rw p refl)

  for_each-pat_elem_into :
      (ps : List PatternElem)
      → All IsElem ps
      → for_each (pat_elem_try_from c) (map pat_elem_into ps) ≡ ok ps
  unfolding for_each pat_elem_try_from pat_elem_into
  for_each-pat_elem_into [] a = refl
  for_each-pat_elem_into (PatternElem.char n ∷ ps) a = rw (a.0, for_each-pat_elem_into ps a.1) refl
  for_each-pat_elem_into (PatternElem.wildcard ∷ ps) a = rw (for_each-pat_elem_into ps a.1) refl

  pub op_into-Ensures :
      RoundTrips c
      → (op : SymccOp c) → OpIsOrdered c op
      → OpFitsByte c op
      → Ensures (λ o. op_try_from c o ≡ ok op) (op_into c op)
  unfolding op_into op_try_from
  op_into-Ensures laws (SymccOp.uuf u) o f =
      Ensures-bind _ _ (uuf_into c u) _ (uuf_into-Ensures u o f) (λ v _ e. rw e refl)
  op_into-Ensures laws (SymccOp.zero_extend u) o f = rw (to_byte-fits u f) refl
  op_into-Ensures laws (SymccOp.string_like pat) o f =
      rw (for_each-pat_elem_into (c.get_elems pat) o, laws.pattern pat) refl
  op_into-Ensures laws (SymccOp.ext op) o f = rw (ext_op_from-ext_op_into op) refl
  op_into-Ensures laws SymccOp.not o f = refl
  op_into-Ensures laws _ o f = refl
