-- ===== src/Messages/Terms.antt =====
-- cedar-lean-ffi/src/messages.rs: the messages for terms, of the format in
-- cedar-lean-ffi/protobuf_schema/Messages.proto. A value of an enumeration is its number, a `oneof` that is
-- not set a constructor of its own. The messages of names and entity uids are the crate's.
pub mod Reading
use Prim.Native.String.{String}
use cedar_spec.Base.{ℕ, Bool, true, false, List, [], ◌∷◌, map, Option, none, some}
use cedar_spec.Datatypes.Crate.{Crate, ℤ}
use cedar_spec.Datatypes.Ffi.{
  ExtOp, PatElem, Bitvec, Decimal, Cidr, IpAddr, Datetime, Duration, ExtType, TermPrimType,
  TermType, TypeFields, Ext, TermVar, Uuf, Op, TermPrim, Term, Terms, Fields,
}

-- `cedar_policy::proto::models`: the messages of names and entity uids, and the readers of them.
pub record Models (c : Crate) : Type 1 where
  pub Name : Type 0
  pub name_from : c.EntityTypeName → Name
  pub name_read : Name → Option c.EntityTypeName
  pub EntityUid : Type 0
  pub euid_from : c.EntityUid → EntityUid
  pub euid_read : EntityUid → Option c.EntityUid

pub data ElemMessage : Type 0 where
  not_set : ElemMessage
  star : Bool → ElemMessage
  char : ℕ → ElemMessage

pub record BitvecMessage : Type 0 where
  pub width : ℕ
  pub val : String

pub record CidrMessage : Type 0 where
  pub addr : Option BitvecMessage
  pub pre : Option BitvecMessage

pub data IpAddrMessage : Type 0 where
  not_set : IpAddrMessage
  v4 v6 : CidrMessage → IpAddrMessage

pub data ExtMessage : Type 0 where
  not_set : ExtMessage
  decimal : ℤ → ExtMessage
  ipaddr : IpAddrMessage → ExtMessage
  datetime duration : ℤ → ExtMessage

-- `ExtOp::new(…).into()` and `ExtType::new(…).into()`
unfoldable pub ext_op_number : ExtOp → ℕ
ext_op_number ExtOp.decimal_val = 0
ext_op_number ExtOp.ipaddr_is_v4 = 1
ext_op_number ExtOp.ipaddr_addr_v4 = 2
ext_op_number ExtOp.ipaddr_prefix_v4 = 3
ext_op_number ExtOp.ipaddr_addr_v6 = 4
ext_op_number ExtOp.ipaddr_prefix_v6 = 5
ext_op_number ExtOp.datetime_val = 6
ext_op_number ExtOp.datetime_of_bitvec = 7
ext_op_number ExtOp.duration_val = 8
ext_op_number ExtOp.duration_of_bitvec = 9

unfoldable pub ext_type_number : ExtType → ℕ
ext_type_number ExtType.ip_addr = 0
ext_type_number ExtType.decimal = 1
ext_type_number ExtType.datetime = 2
ext_type_number ExtType.duration = 3

-- `PatElem::new`
unfoldable pub elem_message : PatElem → ElemMessage
elem_message PatElem.star = ElemMessage.star true
elem_message (PatElem.char c) = ElemMessage.char c

unfoldable pub bitvec_message : Bitvec → BitvecMessage
bitvec_message bv = record { width = bv.width; val = bv.val }

-- `cidr.prefix.as_ref().map(proto::Bitvec::new)`
unfoldable pub prefix_message : Option Bitvec → Option BitvecMessage
prefix_message none = none
prefix_message (some bv) = some (bitvec_message bv)

unfoldable pub cidr_message : Cidr → CidrMessage
cidr_message cidr = record {
  addr = some (bitvec_message cidr.addr);
  pre = prefix_message cidr.prefix;
}

unfoldable pub ip_message : IpAddr → IpAddrMessage
ip_message (IpAddr.v4 cidr) = IpAddrMessage.v4 (cidr_message cidr)
ip_message (IpAddr.v6 cidr) = IpAddrMessage.v6 (cidr_message cidr)

unfoldable pub ext_message : Ext → ExtMessage
ext_message (Ext.decimal d) = ExtMessage.decimal d.val
ext_message (Ext.ipaddr ip) = ExtMessage.ipaddr (ip_message ip)
ext_message (Ext.datetime dt) = ExtMessage.datetime dt.val
ext_message (Ext.duration dur) = ExtMessage.duration dur.val

module _ {c : Crate} (m : Models c) where
  pub data PrimTypeMessage : Type 0 where
    not_set : PrimTypeMessage
    prim bitvec : ℕ → PrimTypeMessage
    entity : m.Name → PrimTypeMessage
    ext : ℕ → PrimTypeMessage

mutual
  pub data TypeMessage {c : Crate} (m : Models c) : Type 0 where
    not_set : TypeMessage m
    prim : PrimTypeMessage m → TypeMessage m
    option set : TypeMessage m → TypeMessage m
    record_of : TypeFieldMessages m → TypeMessage m

  pub data TypeFieldMessages {c : Crate} (m : Models c) : Type 0 where
    no_fields : TypeFieldMessages m
    field : String → OptionalType m → TypeFieldMessages m → TypeFieldMessages m

  pub data OptionalType {c : Crate} (m : Models c) : Type 0 where
    no_type : OptionalType m
    some_type : TypeMessage m → OptionalType m

module _ {c : Crate} (m : Models c) where
  pub record VarMessage : Type 0 where
    pub id : String
    pub ty : Option (TypeMessage m)

  pub record UufMessage : Type 0 where
    pub id : String
    pub arg : Option (TypeMessage m)
    pub out : Option (TypeMessage m)

  pub data OpMessage : Type 0 where
    not_set : OpMessage
    base_op : ℕ → OpMessage
    uuf : UufMessage → OpMessage
    zero_extend : ℕ → OpMessage
    record_get : String → OpMessage
    string_like : List ElemMessage → OpMessage
    ext_op : ℕ → OpMessage

  pub data PrimMessage : Type 0 where
    not_set : PrimMessage
    bool : Bool → PrimMessage
    bitvec : BitvecMessage → PrimMessage
    string : String → PrimMessage
    entity : m.EntityUid → PrimMessage
    ext : ExtMessage → PrimMessage

mutual
  pub data TermMessage {c : Crate} (m : Models c) : Type 0 where
    not_set : TermMessage m
    prim : PrimMessage m → TermMessage m
    var : VarMessage m → TermMessage m
    none_of : TypeMessage m → TermMessage m
    some_of : TermMessage m → TermMessage m
    set : TermMessages m → Option (TypeMessage m) → TermMessage m
    record_of : FieldMessages m → TermMessage m
    app : Option (OpMessage m) → TermMessages m → Option (TypeMessage m) → TermMessage m

  pub data TermMessages {c : Crate} (m : Models c) : Type 0 where
    no_terms : TermMessages m
    term : TermMessage m → TermMessages m → TermMessages m

  pub data FieldMessages {c : Crate} (m : Models c) : Type 0 where
    no_fields : FieldMessages m
    field : String → OptionalTerm m → FieldMessages m → FieldMessages m

  pub data OptionalTerm {c : Crate} (m : Models c) : Type 0 where
    no_term : OptionalTerm m
    some_term : TermMessage m → OptionalTerm m

module _ {c : Crate} (m : Models c) where
  -- `TermPrimType::new`
  unfoldable pub prim_type_message : TermPrimType c → PrimTypeMessage m
  prim_type_message (TermPrimType.bitvec n) = PrimTypeMessage.bitvec n
  prim_type_message (TermPrimType.entity ety) = PrimTypeMessage.entity (m.name_from ety)
  prim_type_message (TermPrimType.ext xty) = PrimTypeMessage.ext (ext_type_number xty)
  prim_type_message TermPrimType.bool = PrimTypeMessage.prim 0
  prim_type_message TermPrimType.string = PrimTypeMessage.prim 1

  -- `TermType::new`
  unfoldable mutual
    pub type_message : TermType c → TypeMessage m
    type_message (TermType.prim pty) = TypeMessage.prim (prim_type_message pty)
    type_message (TermType.option ty) = TypeMessage.option (type_message ty)
    type_message (TermType.set ty) = TypeMessage.set (type_message ty)
    type_message (TermType.record_of rty) = TypeMessage.record_of (type_field_messages rty)

    pub type_field_messages : TypeFields c → TypeFieldMessages m
    type_field_messages TypeFields.no_fields = TypeFieldMessages.no_fields
    type_field_messages (TypeFields.field attr ty rest) =
        TypeFieldMessages.field attr (OptionalType.some_type (type_message ty))
          (type_field_messages rest)

  unfoldable pub uuf_message : Uuf c → UufMessage m
  uuf_message u = record {
    id = u.id;
    arg = some (type_message u.arg);
    out = some (type_message u.out);
  }

  unfoldable pub var_message : TermVar c → VarMessage m
  var_message v = record { id = v.id; ty = some (type_message v.ty) }

  -- `Op::new`, and `BaseOp::new(…).into()`
  unfoldable pub op_message : Op c → OpMessage m
  op_message (Op.uuf u) = OpMessage.uuf (uuf_message u)
  op_message (Op.zero_extend width) = OpMessage.zero_extend width
  op_message (Op.record_get attr) = OpMessage.record_get attr
  op_message (Op.string_like pattern) = OpMessage.string_like (map elem_message pattern)
  op_message (Op.ext o) = OpMessage.ext_op (ext_op_number o)
  op_message Op.not = OpMessage.base_op 0
  op_message Op.and = OpMessage.base_op 1
  op_message Op.or = OpMessage.base_op 2
  op_message Op.eq = OpMessage.base_op 3
  op_message Op.ite = OpMessage.base_op 4
  op_message Op.bvneg = OpMessage.base_op 5
  op_message Op.bvadd = OpMessage.base_op 6
  op_message Op.bvsub = OpMessage.base_op 7
  op_message Op.bvmul = OpMessage.base_op 8
  op_message Op.bvsdiv = OpMessage.base_op 9
  op_message Op.bvudiv = OpMessage.base_op 10
  op_message Op.bvsrem = OpMessage.base_op 11
  op_message Op.bvsmod = OpMessage.base_op 12
  op_message Op.bvurem = OpMessage.base_op 13
  op_message Op.bvshl = OpMessage.base_op 14
  op_message Op.bvlshr = OpMessage.base_op 15
  op_message Op.bvslt = OpMessage.base_op 16
  op_message Op.bvsle = OpMessage.base_op 17
  op_message Op.bvult = OpMessage.base_op 18
  op_message Op.bvule = OpMessage.base_op 19
  op_message Op.bvnego = OpMessage.base_op 20
  op_message Op.bvsaddo = OpMessage.base_op 21
  op_message Op.bvssubo = OpMessage.base_op 22
  op_message Op.bvsmulo = OpMessage.base_op 23
  op_message Op.set_member = OpMessage.base_op 24
  op_message Op.set_subset = OpMessage.base_op 25
  op_message Op.set_inter = OpMessage.base_op 26
  op_message Op.option_get = OpMessage.base_op 27

  -- `TermPrim::new`
  unfoldable pub prim_message : TermPrim c → PrimMessage m
  prim_message (TermPrim.bool b) = PrimMessage.bool b
  prim_message (TermPrim.bitvec bv) = PrimMessage.bitvec (bitvec_message bv)
  prim_message (TermPrim.string s) = PrimMessage.string s
  prim_message (TermPrim.entity euid) = PrimMessage.entity (m.euid_from euid)
  prim_message (TermPrim.ext x) = PrimMessage.ext (ext_message x)

  -- `Term::new`, with the messages of sets, records and applications.
  unfoldable mutual
    pub term_message : Term c → TermMessage m
    term_message (Term.prim p) = TermMessage.prim (prim_message p)
    term_message (Term.var v) = TermMessage.var (var_message v)
    term_message (Term.none_of ty) = TermMessage.none_of (type_message ty)
    term_message (Term.some_of t) = TermMessage.some_of (term_message t)
    term_message (Term.set elts elts_ty) =
        TermMessage.set (term_messages elts) (some (type_message elts_ty))
    term_message (Term.record_of fields) = TermMessage.record_of (field_messages fields)
    term_message (Term.app op args ret_ty) =
        TermMessage.app (some (op_message op)) (term_messages args) (some (type_message ret_ty))

    pub term_messages : Terms c → TermMessages m
    term_messages Terms.no_terms = TermMessages.no_terms
    term_messages (Terms.term t rest) = TermMessages.term (term_message t) (term_messages rest)

    pub field_messages : Fields c → FieldMessages m
    field_messages Fields.no_fields = FieldMessages.no_fields
    field_messages (Fields.field attr value rest) =
        FieldMessages.field attr (OptionalTerm.some_term (term_message value)) (field_messages rest)
