-- ===== src/Datatypes/Prims.antt =====
-- cedar-lean-ffi/src/datatypes.rs: the conversions of bit vectors, extension values and primitive
-- values, in both directions.
pub mod RoundTrip
use cedar_spec.Base.{ℕ, zero, suc, ◌<◌, Option, none, some, Exec, ok, err, ◌>>=◌, attempt, ok_or}
use cedar_spec.Datatypes.Crate.{Crate}
use cedar_spec.Datatypes.Symcc.{SymccPrim, SymccExt, IpNet}
use cedar_spec.Datatypes.Ffi.{
  Bitvec, Decimal, Cidr, IpAddr, Datetime, Duration, Ext, TermPrim, TermConversionError,
  parse_big_int, zero_width_bv, unexpected_width,
}
use cedar_spec.Datatypes.Types.{to_byte}

-- `NonZeroU32::new`
abbrev pub non_zero : ℕ → Option ℕ
non_zero zero = none
non_zero (suc n) = some (suc n)

-- `o.map(f).transpose()?`
abbrev pub transpose : {E A B : Type 0} → (A → Exec E B) → Option A → Exec E (Option B)
transpose f none = ok none
transpose f (some a) = do b ← f a; ok (some b)

module _ (c : Crate) where
  -- `impl TryFrom<Bitvec> for cedar_policy_symcc::bitvec::BitVec`
  unfoldable pub bitvec_try_from : Bitvec → Exec (TermConversionError c) c.BitVec
  bitvec_try_from value = do
    width ← ok_or zero_width_bv (non_zero value.width)
    n ← attempt parse_big_int (c.parse_natural value.val)
    ok (c.of_nat width n)

  -- `impl From<cedar_policy_symcc::bitvec::BitVec> for Bitvec`
  unfoldable pub bitvec_into : c.BitVec → Exec ⊥ Bitvec
  bitvec_into value = do
    width ← to_byte (c.width value)
    ok (record { width = width; val = c.natural_to_string (c.to_nat value) })

  unfoldable pub ip_try_from : IpAddr → Exec (TermConversionError c) (IpNet c)
  ip_try_from (IpAddr.v4 cidr) = do
    b ← bitvec_try_from cidr.addr
    addr ← ok_or unexpected_width (c.v4_addr_try_from_bitvec b)
    p ← transpose bitvec_try_from cidr.prefix
    prefix ← ok_or unexpected_width (c.v4_prefix_try_from_bitvec p)
    ok (IpNet.v4 addr prefix)
  ip_try_from (IpAddr.v6 cidr) = do
    b ← bitvec_try_from cidr.addr
    addr ← ok_or unexpected_width (c.v6_addr_try_from_bitvec b)
    p ← transpose bitvec_try_from cidr.prefix
    prefix ← ok_or unexpected_width (c.v6_prefix_try_from_bitvec p)
    ok (IpNet.v6 addr prefix)

  -- `impl TryFrom<Ext> for cedar_policy_symcc::ext::Ext`
  unfoldable pub ext_try_from : Ext → Exec (TermConversionError c) (SymccExt c)
  ext_try_from (Ext.datetime dt) = ok (SymccExt.datetime (c.datetime_from dt.val))
  ext_try_from (Ext.duration dur) = ok (SymccExt.duration (c.duration_from dur.val))
  ext_try_from (Ext.decimal d) = ok (SymccExt.decimal d.val)
  ext_try_from (Ext.ipaddr ip) = do net ← ip_try_from ip; ok (SymccExt.ipaddr net)

  unfoldable pub cidr_into : c.BitVec → Option c.BitVec → Exec ⊥ Cidr
  cidr_into addr prefix = do
    a ← bitvec_into addr
    p ← transpose bitvec_into prefix
    ok (record { addr = a; prefix = p })

  unfoldable pub ip_into : IpNet c → Exec ⊥ IpAddr
  ip_into (IpNet.v4 addr prefix) = do
    cidr ← cidr_into (c.v4_addr_into_bitvec addr) (c.v4_prefix_into_bitvec prefix)
    ok (IpAddr.v4 cidr)
  ip_into (IpNet.v6 addr prefix) = do
    cidr ← cidr_into (c.v6_addr_into_bitvec addr) (c.v6_prefix_into_bitvec prefix)
    ok (IpAddr.v6 cidr)

  unfoldable pub ext_into : SymccExt c → Exec ⊥ Ext
  ext_into (SymccExt.datetime dt) = ok (Ext.datetime (record { val = c.datetime_into dt }))
  ext_into (SymccExt.duration d) = ok (Ext.duration (record { val = c.duration_into d }))
  ext_into (SymccExt.decimal d) = ok (Ext.decimal (record { val = d }))
  ext_into (SymccExt.ipaddr ip) = do addr ← ip_into ip; ok (Ext.ipaddr addr)

  -- `impl TryFrom<TermPrim> for cedar_policy_symcc::term::TermPrim`
  unfoldable pub prim_try_from : TermPrim c → Exec (TermConversionError c) (SymccPrim c)
  prim_try_from (TermPrim.bitvec bv) = do b ← bitvec_try_from bv; ok (SymccPrim.bitvec b)
  prim_try_from (TermPrim.bool b) = ok (SymccPrim.bool b)
  prim_try_from (TermPrim.entity uid) = ok (SymccPrim.entity (c.euid_into_core uid))
  prim_try_from (TermPrim.ext e) = do x ← ext_try_from e; ok (SymccPrim.ext x)
  prim_try_from (TermPrim.string s) = ok (SymccPrim.string s)

  -- `impl From<cedar_policy_symcc::term::TermPrim> for TermPrim`
  unfoldable pub prim_into : SymccPrim c → Exec ⊥ (TermPrim c)
  prim_into (SymccPrim.bitvec bv) = do b ← bitvec_into bv; ok (TermPrim.bitvec b)
  prim_into (SymccPrim.bool b) = ok (TermPrim.bool b)
  prim_into (SymccPrim.entity uid) = ok (TermPrim.entity (c.euid_from_core uid))
  prim_into (SymccPrim.ext e) = do x ← ext_into e; ok (TermPrim.ext x)
  prim_into (SymccPrim.string s) = ok (TermPrim.string s)

  -- The width of a bit vector fits a byte.
  abbrev pub PrimFitsByte : SymccPrim c → Type 0
  PrimFitsByte (SymccPrim.bitvec bv) = c.width bv < 256
  PrimFitsByte _ = Unit
