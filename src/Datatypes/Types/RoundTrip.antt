-- ===== src/Datatypes/Types/RoundTrip.antt =====
-- Types converted to the Lean side and back, and the other way round.
use cedar_spec.Base.{ℕ, ◌<◌, ◌≤◌, ◌≡◌, refl, ap, Exec, ok, err, panic, Ensures, Ensures-bind, arith}
use cedar_spec.Base.Ordered.{by_first, collect_ordered-IsAscending}
use cedar_spec.Datatypes.Crate.{Crate}
use cedar_spec.Datatypes.Symcc.{
  SymccType, SymccTypeMap, SymccExtType, type_entries, type_map-type_entries,
}
use cedar_spec.Datatypes.Ffi.{TermType}
use cedar_spec.Datatypes.Types.{
  ext_type_from, ext_type_into, to_byte, prim_type_from, type_from, type_fields_from, type_into,
  type_fields_into, FitsByte, FieldsFitByte, IsOrdered, FieldsOrdered,
}

ext_type_from-ext_type_into : (x : SymccExtType) → ext_type_from (ext_type_into x) ≡ x
unfolding ext_type_from ext_type_into
ext_type_from-ext_type_into SymccExtType.ip_addr = refl
ext_type_from-ext_type_into _ = refl

pub to_byte-fits : (n : ℕ) → n < 256 → to_byte n ≡ ok n
unfolding to_byte
to_byte-fits n h = ground arith

pub to_byte-panics : (n : ℕ) → 256 ≤ n → to_byte n ≡ panic
unfolding to_byte
to_byte-panics n h = ground arith

-- A conversion that returns no error and does not panic returns a value.
pub Ensures-returns :
    {A : Type 0} (P : A → Type 0) (m : Exec ⊥ A) → Ensures P m → (a : A) × (m ≡ ok a) × P a
Ensures-returns P (ok a) p = (a, refl, p)
Ensures-returns P (err e) p = absurd e
Ensures-returns P panic p = absurd p

module _ (c : Crate) where
  mutual
    unfolding type_from type_into FitsByte IsOrdered prim_type_from

    pub type_into-Ensures :
        (ty : SymccType c)
        → IsOrdered c ty
        → FitsByte c ty
        → Ensures (λ u. type_from c u ≡ ty) (type_into c ty)
    type_into-Ensures (SymccType.option ty) o f =
        Ensures-bind _ _ (type_into c ty) _ (type_into-Ensures ty o f)
          (λ u _ e. ap SymccType.option e)
    type_into-Ensures (SymccType.set ty) o f =
        Ensures-bind _ _ (type_into c ty) _ (type_into-Ensures ty o f) (λ u _ e. ap SymccType.set e)
    type_into-Ensures (SymccType.bitvec n) o f = rw (to_byte-fits n f) refl
    type_into-Ensures (SymccType.record_of rty) o f =
        Ensures-bind _ _ (type_fields_into c rty) _ (type_fields_into-Ensures rty o.1 f) (λ m _ e.
          rw (e, collect_ordered-IsAscending (by_first c.key_cmp) (type_entries rty) o.0)
            (ap SymccType.record_of (type_map-type_entries rty)))
    type_into-Ensures SymccType.bool o f = refl
    type_into-Ensures SymccType.string o f = refl
    type_into-Ensures (SymccType.entity ety) o f = refl
    type_into-Ensures (SymccType.ext xty) o f = ap SymccType.ext (ext_type_from-ext_type_into xty)

    type_fields_into-Ensures :
        (m : SymccTypeMap c)
        → FieldsOrdered c m
        → FieldsFitByte c m
        → Ensures (λ fs. type_fields_from c fs ≡ type_entries m) (type_fields_into c m)
    type_fields_into-Ensures SymccTypeMap.no_attrs o f = refl
    type_fields_into-Ensures (SymccTypeMap.attr a ty rest) o f =
        Ensures-bind _ _ (type_into c ty) _ (type_into-Ensures ty o.0 f.0) (λ u _ e.
          Ensures-bind _ _ (type_fields_into c rest) _ (type_fields_into-Ensures rest o.1 f.1)
            (λ m _ d. cc))

  -- A type whose records are ordered and whose widths fit a byte is converted to the Lean side
  -- without a panic, and converted back it is the same type.
  pub type_from-type_into :
      (ty : SymccType c)
      → IsOrdered c ty
      → FitsByte c ty
      → (u : TermType c) × (type_into c ty ≡ ok u) × (type_from c u ≡ ty)
  type_from-type_into ty o f = Ensures-returns _ (type_into c ty) (type_into-Ensures ty o f)
