-- ===== src/Datatypes/Crate.antt =====
-- The types that cedar-lean-ffi/src/datatypes.rs takes from other crates, and their conversions.
use Prim.Native.String.{String}
use Prim.Native.Nat.{Ordering}
use cedar_spec.Base.{ℕ, List, Option, ◌⊎◌, ◌≡◌, ◌≤◌, ◌<◌, inr, some}

-- A signed integer of the machine.
pub data ℤ : Type 0 where
  pos : ℕ → ℤ
  negsuc : ℕ → ℤ

-- `ast::PatternElem`; a character is its code point.
pub data PatternElem : Type 0 where
  char : ℕ → PatternElem
  wildcard : PatternElem

pub record Crate : Type 1 where
  pub EntityTypeName : Type 0
  pub EntityUid : Type 0
  pub CoreEntityUid : Type 0
  pub euid_into_core : EntityUid → CoreEntityUid
  pub euid_from_core : CoreEntityUid → EntityUid
  -- The order of the keys of a record.
  pub key_cmp : String → String → Ordering
  -- Numerals of arbitrary size.
  pub Natural : Type 0
  pub ParseBigIntError : Type 0
  pub BitVecError : Type 0
  pub parse_natural : String → ParseBigIntError ⊎ Natural
  pub natural_to_string : Natural → String
  pub BitVec : Type 0
  pub of_nat : ℕ → Natural → BitVec
  pub width : BitVec → ℕ
  pub to_nat : BitVec → Natural
  pub Pattern : Type 0
  pub pattern_from_iter : List PatternElem → Pattern
  pub get_elems : Pattern → List PatternElem
  pub SymccDatetime : Type 0
  pub datetime_from : ℤ → SymccDatetime
  pub datetime_into : SymccDatetime → ℤ
  pub SymccDuration : Type 0
  pub duration_from : ℤ → SymccDuration
  pub duration_into : SymccDuration → ℤ
  pub Ipv4Addr : Type 0
  pub v4_addr_try_from_bitvec : BitVec → Option Ipv4Addr
  pub v4_addr_into_bitvec : Ipv4Addr → BitVec
  pub Ipv4Prefix : Type 0
  pub v4_prefix_try_from_bitvec : Option BitVec → Option Ipv4Prefix
  pub v4_prefix_into_bitvec : Ipv4Prefix → Option BitVec
  pub Ipv6Addr : Type 0
  pub v6_addr_try_from_bitvec : BitVec → Option Ipv6Addr
  pub v6_addr_into_bitvec : Ipv6Addr → BitVec
  pub Ipv6Prefix : Type 0
  pub v6_prefix_try_from_bitvec : Option BitVec → Option Ipv6Prefix
  pub v6_prefix_into_bitvec : Ipv6Prefix → Option BitVec

-- What the conversions of those crates promise: each is undone by its counterpart.
pub record RoundTrips (c : Crate) : Type 0 where
  pub euid : (e : c.CoreEntityUid) → c.euid_into_core (c.euid_from_core e) ≡ e
  pub numeral : (n : c.Natural) → c.parse_natural (c.natural_to_string n) ≡ inr n
  pub bitvec : (b : c.BitVec) → c.of_nat (c.width b) (c.to_nat b) ≡ b
  pub width_pos : (b : c.BitVec) → 1 ≤ c.width b
  pub pattern : (p : c.Pattern) → c.pattern_from_iter (c.get_elems p) ≡ p
  pub datetime : (d : c.SymccDatetime) → c.datetime_from (c.datetime_into d) ≡ d
  pub duration : (d : c.SymccDuration) → c.duration_from (c.duration_into d) ≡ d
  pub v4_addr : (a : c.Ipv4Addr) → c.v4_addr_try_from_bitvec (c.v4_addr_into_bitvec a) ≡ some a
  pub v4_prefix :
      (p : c.Ipv4Prefix) → c.v4_prefix_try_from_bitvec (c.v4_prefix_into_bitvec p) ≡ some p
  pub v6_addr : (a : c.Ipv6Addr) → c.v6_addr_try_from_bitvec (c.v6_addr_into_bitvec a) ≡ some a
  pub v6_prefix :
      (p : c.Ipv6Prefix) → c.v6_prefix_try_from_bitvec (c.v6_prefix_into_bitvec p) ≡ some p
  -- An address and a prefix have a width of one byte.
  pub v4_addr_fits : (a : c.Ipv4Addr) → c.width (c.v4_addr_into_bitvec a) < 256
  pub v4_prefix_fits :
      (p : c.Ipv4Prefix) (b : c.BitVec) → c.v4_prefix_into_bitvec p ≡ some b → c.width b < 256
  pub v6_addr_fits : (a : c.Ipv6Addr) → c.width (c.v6_addr_into_bitvec a) < 256
  pub v6_prefix_fits :
      (p : c.Ipv6Prefix) (b : c.BitVec) → c.v6_prefix_into_bitvec p ≡ some b → c.width b < 256
