-- ===== src/Datatypes/Types.antt =====
-- cedar-lean-ffi/src/datatypes.rs: the conversions of types, in both directions.
pub mod RoundTrip
use Prim.Native.String.{String}
use cedar_spec.Base.{
  ℕ, zero, suc, ◌<◌, ◌≤◌, ◌≡◌, List, [], ◌∷◌, Exec, ok, panic, ◌>>=◌, ltb, if◌then◌else◌,
}
use cedar_spec.Base.Ordered.{collect_ordered, by_first, IsAscending}
use cedar_spec.Datatypes.Crate.{Crate}
use cedar_spec.Datatypes.Symcc.{
  SymccType, SymccTypeMap, SymccExtType, SymccVar, SymccUuf, SymccExtOp, type_entries, type_map,
}
use cedar_spec.Datatypes.Ffi.{TermType, TypeFields, TermPrimType, ExtType, TermVar, Uuf, ExtOp}

unfoldable pub ext_type_from : ExtType → SymccExtType
ext_type_from ExtType.ip_addr = SymccExtType.ip_addr
ext_type_from ExtType.decimal = SymccExtType.decimal
ext_type_from ExtType.datetime = SymccExtType.date_time
ext_type_from ExtType.duration = SymccExtType.duration

unfoldable pub ext_type_into : SymccExtType → ExtType
ext_type_into SymccExtType.ip_addr = ExtType.ip_addr
ext_type_into SymccExtType.decimal = ExtType.decimal
ext_type_into SymccExtType.date_time = ExtType.datetime
ext_type_into SymccExtType.duration = ExtType.duration

-- `n.try_into().unwrap()` to a byte
unfoldable pub to_byte : ℕ → Exec ⊥ ℕ
to_byte n = if ltb n 256 then ok n else panic

module _ (c : Crate) where
  unfoldable pub prim_type_from : TermPrimType c → SymccType c
  prim_type_from (TermPrimType.bitvec n) = SymccType.bitvec n
  prim_type_from TermPrimType.bool = SymccType.bool
  prim_type_from (TermPrimType.entity ety) = SymccType.entity ety
  prim_type_from (TermPrimType.ext xty) = SymccType.ext (ext_type_from xty)
  prim_type_from TermPrimType.string = SymccType.string

  -- `impl From<TermType> for cedar_policy_symcc::term_type::TermType`
  unfoldable mutual
    pub type_from : TermType c → SymccType c
    type_from (TermType.option ty) = SymccType.option (type_from ty)
    type_from (TermType.prim pty) = prim_type_from pty
    type_from (TermType.record_of rty) =
        SymccType.record_of (type_map (collect_ordered (by_first c.key_cmp) (type_fields_from rty)))
    type_from (TermType.set ty) = SymccType.set (type_from ty)

    pub type_fields_from : TypeFields c → List (String × SymccType c)
    type_fields_from TypeFields.no_fields = []
    type_fields_from (TypeFields.field a ty rest) = (a, type_from ty) ∷ type_fields_from rest

  -- `impl From<cedar_policy_symcc::term_type::TermType> for TermType`
  unfoldable mutual
    pub type_into : SymccType c → Exec ⊥ (TermType c)
    type_into (SymccType.option ty) = do u ← type_into ty; ok (TermType.option u)
    type_into (SymccType.bitvec n) = do w ← to_byte n; ok (TermType.prim (TermPrimType.bitvec w))
    type_into SymccType.bool = ok (TermType.prim TermPrimType.bool)
    type_into (SymccType.entity ety) = ok (TermType.prim (TermPrimType.entity ety))
    type_into (SymccType.ext xty) = ok (TermType.prim (TermPrimType.ext (ext_type_into xty)))
    type_into SymccType.string = ok (TermType.prim TermPrimType.string)
    type_into (SymccType.record_of rty) = do m ← type_fields_into rty; ok (TermType.record_of m)
    type_into (SymccType.set ty) = do u ← type_into ty; ok (TermType.set u)

    pub type_fields_into : SymccTypeMap c → Exec ⊥ (TypeFields c)
    type_fields_into SymccTypeMap.no_attrs = ok TypeFields.no_fields
    type_fields_into (SymccTypeMap.attr a ty rest) = do
      u ← type_into ty
      m ← type_fields_into rest
      ok (TypeFields.field a u m)

  unfoldable pub var_from : TermVar c → SymccVar c
  var_from value = record { id = value.id; ty = type_from value.ty }

  unfoldable pub var_into : SymccVar c → Exec ⊥ (TermVar c)
  var_into value = do ty ← type_into value.ty; ok (record { id = value.id; ty = ty })

  unfoldable pub uuf_from : Uuf c → SymccUuf c
  uuf_from value = record { id = value.id; arg = type_from value.arg; out = type_from value.out }

  unfoldable pub uuf_into : SymccUuf c → Exec ⊥ (Uuf c)
  uuf_into value = do
    arg ← type_into value.arg
    out ← type_into value.out
    ok (record { id = value.id; arg = arg; out = out })

  -- Every width in the type fits a byte.
  unfoldable mutual
    pub FitsByte : SymccType c → Type 0
    FitsByte (SymccType.option ty) = FitsByte ty
    FitsByte (SymccType.bitvec n) = n < 256
    FitsByte (SymccType.record_of rty) = FieldsFitByte rty
    FitsByte (SymccType.set ty) = FitsByte ty
    FitsByte SymccType.bool = Unit
    FitsByte SymccType.string = Unit
    FitsByte (SymccType.entity ety) = Unit
    FitsByte (SymccType.ext xty) = Unit

    pub FieldsFitByte : SymccTypeMap c → Type 0
    FieldsFitByte SymccTypeMap.no_attrs = Unit
    FieldsFitByte (SymccTypeMap.attr a ty rest) = FitsByte ty × FieldsFitByte rest

  -- The keys of every record in the type ascend, as those of a `BTreeMap` do.
  unfoldable mutual
    pub IsOrdered : SymccType c → Type 0
    IsOrdered (SymccType.option ty) = IsOrdered ty
    IsOrdered (SymccType.record_of rty) =
        IsAscending (by_first c.key_cmp) (type_entries rty) × FieldsOrdered rty
    IsOrdered (SymccType.set ty) = IsOrdered ty
    IsOrdered SymccType.bool = Unit
    IsOrdered (SymccType.bitvec n) = Unit
    IsOrdered SymccType.string = Unit
    IsOrdered (SymccType.entity ety) = Unit
    IsOrdered (SymccType.ext xty) = Unit

    pub FieldsOrdered : SymccTypeMap c → Type 0
    FieldsOrdered SymccTypeMap.no_attrs = Unit
    FieldsOrdered (SymccTypeMap.attr a ty rest) = IsOrdered ty × FieldsOrdered rest
