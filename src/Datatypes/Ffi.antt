-- ===== src/Datatypes/Ffi.antt =====
-- cedar-lean-ffi/src/datatypes.rs: the terms that the Lean runtime sends and is sent. A numeric field of
-- one byte is a number; `FitsByte` bounds it where that matters.
use Prim.Native.String.{String}
use cedar_spec.Base.{ℕ, Bool, List, Option}
use cedar_spec.Datatypes.Crate.{Crate, ℤ}

pub data ExtOp : Type 0 where
  decimal_val ipaddr_is_v4 ipaddr_addr_v4 ipaddr_prefix_v4 ipaddr_addr_v6 ipaddr_prefix_v6 : ExtOp
  datetime_val datetime_of_bitvec duration_val duration_of_bitvec : ExtOp

pub data PatElem : Type 0 where
  star : PatElem
  char : ℕ → PatElem

pub record Bitvec : Type 0 where
  pub width : ℕ
  pub val : String

pub record Decimal : Type 0 where
  pub val : ℤ

pub record Cidr : Type 0 where
  pub addr : Bitvec
  pub prefix : Option Bitvec

pub data IpAddr : Type 0 where
  v4 : Cidr → IpAddr
  v6 : Cidr → IpAddr

pub record Datetime : Type 0 where
  pub val : ℤ

pub record Duration : Type 0 where
  pub val : ℤ

pub data ExtType : Type 0 where
  ip_addr decimal datetime duration : ExtType

pub data TermPrimType (c : Crate) : Type 0 where
  bool : TermPrimType c
  bitvec : ℕ → TermPrimType c
  string : TermPrimType c
  entity : c.EntityTypeName → TermPrimType c
  ext : ExtType → TermPrimType c

mutual
  pub data TermType (c : Crate) : Type 0 where
    prim : TermPrimType c → TermType c
    option : TermType c → TermType c
    set : TermType c → TermType c
    record_of : TypeFields c → TermType c

  pub data TypeFields (c : Crate) : Type 0 where
    no_fields : TypeFields c
    field : String → TermType c → TypeFields c → TypeFields c

pub data Ext : Type 0 where
  decimal : Decimal → Ext
  ipaddr : IpAddr → Ext
  datetime : Datetime → Ext
  duration : Duration → Ext

module _ (c : Crate) where
  pub record TermVar : Type 0 where
    pub id : String
    pub ty : TermType c

  pub record Uuf : Type 0 where
    pub id : String
    pub arg : TermType c
    pub out : TermType c

  pub data Op : Type 0 where
    not and or eq ite : Op
    uuf : Uuf → Op
    bvneg bvadd bvsub bvmul bvsdiv bvudiv bvsrem bvsmod bvurem bvshl bvlshr : Op
    bvslt bvsle bvult bvule bvnego bvsaddo bvssubo bvsmulo : Op
    zero_extend : ℕ → Op
    set_member set_subset set_inter option_get : Op
    record_get : String → Op
    string_like : List PatElem → Op
    ext : ExtOp → Op

  pub data TermPrim : Type 0 where
    bool : Bool → TermPrim
    bitvec : Bitvec → TermPrim
    string : String → TermPrim
    entity : c.EntityUid → TermPrim
    ext : Ext → TermPrim

mutual
  pub data Term (c : Crate) : Type 0 where
    prim : TermPrim c → Term c
    var : TermVar c → Term c
    none_of : TermType c → Term c
    some_of : Term c → Term c
    set : Terms c → TermType c → Term c
    record_of : Fields c → Term c
    app : Op c → Terms c → TermType c → Term c

  pub data Terms (c : Crate) : Type 0 where
    no_terms : Terms c
    term : Term c → Terms c → Terms c

  pub data Fields (c : Crate) : Type 0 where
    no_fields : Fields c
    field : String → Term c → Fields c → Fields c

-- The body of a definition: a term, or a reference to a definition.
mutual
  pub data TermDefBody (c : Crate) : Type 0 where
    ref : String → TermDefBody c
    prim : TermPrim c → TermDefBody c
    var : TermVar c → TermDefBody c
    none_of : TermType c → TermDefBody c
    some_of : TermDefBody c → TermDefBody c
    set : Bodies c → TermType c → TermDefBody c
    record_of : BodyFields c → TermDefBody c
    app : Op c → Bodies c → TermType c → TermDefBody c

  pub data Bodies (c : Crate) : Type 0 where
    no_bodies : Bodies c
    body : TermDefBody c → Bodies c → Bodies c

  pub data BodyFields (c : Crate) : Type 0 where
    no_fields : BodyFields c
    field : String → TermDefBody c → BodyFields c → BodyFields c

module _ (c : Crate) where
  pub record TermDef : Type 0 where
    pub id : String
    pub body : TermDefBody c

  pub record CseTerm : Type 0 where
    pub defs : List TermDef
    pub root : TermDefBody c

pub data TermConversionError (c : Crate) : Type 0 where
  char_conversion : TermConversionError c
  parse_big_int : c.ParseBigIntError → TermConversionError c
  construct_bv : c.BitVecError → TermConversionError c
  zero_width_bv : TermConversionError c
  unexpected_width : TermConversionError c

pub data CseTermError (c : Crate) : Type 0 where
  unknown_id : String → CseTermError c
  duplicate_id : String → CseTermError c
  conversion : TermConversionError c → CseTermError c
