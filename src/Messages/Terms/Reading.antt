-- ===== src/Messages/Terms/Reading.antt =====
-- A reader of the messages for terms, after the format in cedar-lean-ffi/protobuf_schema/Messages.proto, and
-- what it reads back.
use Prim.Native.String.{String}
use cedar_spec.Base.{
  ◌≡◌, refl, List, [], ◌∷◌, map, Option, none, some, Exec, ok, err, ◌>>=◌, ok_or, get_elem?,
  for_each,
}
use cedar_spec.Datatypes.Crate.{Crate}
use cedar_spec.Datatypes.Ffi.{
  ExtOp, PatElem, Bitvec, Cidr, IpAddr, ExtType, TermPrimType, TermType, TypeFields, Ext, TermVar,
  Uuf, Op, TermPrim, Term, Terms, Fields,
}
use cedar_spec.Messages.Terms.{
  Models, ElemMessage, BitvecMessage, CidrMessage, IpAddrMessage, ExtMessage, PrimTypeMessage,
  TypeMessage, TypeFieldMessages, OptionalType, VarMessage, UufMessage, OpMessage, PrimMessage,
  TermMessage, TermMessages, FieldMessages, OptionalTerm, ext_op_number, ext_type_number,
  elem_message, bitvec_message, prefix_message, cidr_message, ip_message, ext_message,
  prim_type_message, type_message, type_field_messages, uuf_message, var_message, op_message,
  prim_message, term_message, term_messages, field_messages,
}

-- What is read, or a message on what is missing.
abbrev pub Read : Type 0 → Type 0
Read A = Exec String A

-- The enumerations of the format, each value at its number.
abbrev ext_ops : List ExtOp
ext_ops =
    ExtOp.decimal_val ∷ ExtOp.ipaddr_is_v4 ∷ ExtOp.ipaddr_addr_v4 ∷ ExtOp.ipaddr_prefix_v4
    ∷ ExtOp.ipaddr_addr_v6 ∷ ExtOp.ipaddr_prefix_v6 ∷ ExtOp.datetime_val ∷ ExtOp.datetime_of_bitvec
    ∷ ExtOp.duration_val ∷ ExtOp.duration_of_bitvec ∷ []

abbrev ext_types : List ExtType
ext_types = ExtType.ip_addr ∷ ExtType.decimal ∷ ExtType.datetime ∷ ExtType.duration ∷ []

abbrev read_elem : ElemMessage → Read PatElem
read_elem ElemMessage.not_set = err "elem"
read_elem (ElemMessage.star b) = ok PatElem.star
read_elem (ElemMessage.char n) = ok (PatElem.char n)

abbrev read_bitvec : BitvecMessage → Bitvec
read_bitvec b = record { width = b.width; val = b.val }

abbrev read_prefix : Option BitvecMessage → Option Bitvec
read_prefix none = none
read_prefix (some b) = some (read_bitvec b)

abbrev read_cidr : CidrMessage → Read Cidr
read_cidr r = do
  addr ← ok_or "addr" r.addr
  ok (record { addr = read_bitvec addr; prefix = read_prefix r.pre })

abbrev read_ip : IpAddrMessage → Read IpAddr
read_ip IpAddrMessage.not_set = err "version"
read_ip (IpAddrMessage.v4 r) = do cidr ← read_cidr r; ok (IpAddr.v4 cidr)
read_ip (IpAddrMessage.v6 r) = do cidr ← read_cidr r; ok (IpAddr.v6 cidr)

abbrev read_ext : ExtMessage → Read Ext
read_ext ExtMessage.not_set = err "ext"
read_ext (ExtMessage.decimal d) = ok (Ext.decimal (record { val = d }))
read_ext (ExtMessage.ipaddr r) = do ip ← read_ip r; ok (Ext.ipaddr ip)
read_ext (ExtMessage.datetime t) = ok (Ext.datetime (record { val = t }))
read_ext (ExtMessage.duration t) = ok (Ext.duration (record { val = t }))

module _ {c : Crate} (m : Models c) where
  abbrev prim_types : List (TermPrimType c)
  prim_types = TermPrimType.bool ∷ TermPrimType.string ∷ []

  abbrev base_ops : List (Op c)
  base_ops =
      Op.not ∷ Op.and ∷ Op.or ∷ Op.eq ∷ Op.ite ∷ Op.bvneg ∷ Op.bvadd ∷ Op.bvsub ∷ Op.bvmul
      ∷ Op.bvsdiv ∷ Op.bvudiv ∷ Op.bvsrem ∷ Op.bvsmod ∷ Op.bvurem ∷ Op.bvshl ∷ Op.bvlshr ∷ Op.bvslt
      ∷ Op.bvsle ∷ Op.bvult ∷ Op.bvule ∷ Op.bvnego ∷ Op.bvsaddo ∷ Op.bvssubo ∷ Op.bvsmulo
      ∷ Op.set_member ∷ Op.set_subset ∷ Op.set_inter ∷ Op.option_get ∷ []

  abbrev read_prim_type : PrimTypeMessage m → Read (TermPrimType c)
  read_prim_type PrimTypeMessage.not_set = err "prim_type"
  read_prim_type (PrimTypeMessage.prim k) = ok_or "prim" (get_elem? prim_types k)
  read_prim_type (PrimTypeMessage.bitvec n) = ok (TermPrimType.bitvec n)
  read_prim_type (PrimTypeMessage.entity r) = do
    ety ← ok_or "name" (m.name_read r)
    ok (TermPrimType.entity ety)
  read_prim_type (PrimTypeMessage.ext k) = do
    xty ← ok_or "ext" (get_elem? ext_types k)
    ok (TermPrimType.ext xty)

  mutual
    read_type : TypeMessage m → Read (TermType c)
    read_type TypeMessage.not_set = err "term_type"
    read_type (TypeMessage.prim r) = do pty ← read_prim_type r; ok (TermType.prim pty)
    read_type (TypeMessage.option r) = do ty ← read_type r; ok (TermType.option ty)
    read_type (TypeMessage.set r) = do ty ← read_type r; ok (TermType.set ty)
    read_type (TypeMessage.record_of r) = do rty ← read_type_fields r; ok (TermType.record_of rty)

    read_type_fields : TypeFieldMessages m → Read (TypeFields c)
    read_type_fields TypeFieldMessages.no_fields = ok TypeFields.no_fields
    read_type_fields (TypeFieldMessages.field attr r rest) = do
      ty ← read_optional_type r
      more ← read_type_fields rest
      ok (TypeFields.field attr ty more)

    read_optional_type : OptionalType m → Read (TermType c)
    read_optional_type OptionalType.no_type = err "ty"
    read_optional_type (OptionalType.some_type r) = read_type r

  abbrev read_some_type : Option (TypeMessage m) → Read (TermType c)
  read_some_type none = err "ty"
  read_some_type (some r) = read_type r

  read_uuf : UufMessage m → Read (Uuf c)
  read_uuf r = do
    arg ← read_some_type r.arg
    out ← read_some_type r.out
    ok (record { id = r.id; arg = arg; out = out })

  read_var : VarMessage m → Read (TermVar c)
  read_var r = do ty ← read_some_type r.ty; ok (record { id = r.id; ty = ty })

  read_op : OpMessage m → Read (Op c)
  read_op OpMessage.not_set = err "op"
  read_op (OpMessage.base_op k) = ok_or "base_op" (get_elem? base_ops k)
  read_op (OpMessage.uuf r) = do u ← read_uuf r; ok (Op.uuf u)
  read_op (OpMessage.zero_extend n) = ok (Op.zero_extend n)
  read_op (OpMessage.record_get attr) = ok (Op.record_get attr)
  read_op (OpMessage.string_like r) = do p ← for_each read_elem r; ok (Op.string_like p)
  read_op (OpMessage.ext_op k) = do o ← ok_or "ext_op" (get_elem? ext_ops k); ok (Op.ext o)

  abbrev read_some_op : Option (OpMessage m) → Read (Op c)
  read_some_op none = err "op"
  read_some_op (some r) = read_op r

  read_prim : PrimMessage m → Read (TermPrim c)
  read_prim PrimMessage.not_set = err "prim"
  read_prim (PrimMessage.bool b) = ok (TermPrim.bool b)
  read_prim (PrimMessage.bitvec r) = ok (TermPrim.bitvec (read_bitvec r))
  read_prim (PrimMessage.string s) = ok (TermPrim.string s)
  read_prim (PrimMessage.entity r) = do
    euid ← ok_or "euid" (m.euid_read r)
    ok (TermPrim.entity euid)
  read_prim (PrimMessage.ext r) = do x ← read_ext r; ok (TermPrim.ext x)

  mutual
    pub read_term : TermMessage m → Read (Term c)
    read_term TermMessage.not_set = err "term"
    read_term (TermMessage.prim r) = do p ← read_prim r; ok (Term.prim p)
    read_term (TermMessage.var r) = do v ← read_var r; ok (Term.var v)
    read_term (TermMessage.none_of r) = do ty ← read_type r; ok (Term.none_of ty)
    read_term (TermMessage.some_of r) = do t ← read_term r; ok (Term.some_of t)
    read_term (TermMessage.set r ty) = do
      elts ← read_terms r
      elts_ty ← read_some_type ty
      ok (Term.set elts elts_ty)
    read_term (TermMessage.record_of r) = do fields ← read_fields r; ok (Term.record_of fields)
    read_term (TermMessage.app op r ty) = do
      o ← read_some_op op
      args ← read_terms r
      ret_ty ← read_some_type ty
      ok (Term.app o args ret_ty)

    pub read_terms : TermMessages m → Read (Terms c)
    read_terms TermMessages.no_terms = ok Terms.no_terms
    read_terms (TermMessages.term r rest) = do
      t ← read_term r
      more ← read_terms rest
      ok (Terms.term t more)

    pub read_fields : FieldMessages m → Read (Fields c)
    read_fields FieldMessages.no_fields = ok Fields.no_fields
    read_fields (FieldMessages.field attr r rest) = do
      value ← read_optional_term r
      more ← read_fields rest
      ok (Fields.field attr value more)

    pub read_optional_term : OptionalTerm m → Read (Term c)
    read_optional_term OptionalTerm.no_term = err "term"
    read_optional_term (OptionalTerm.some_term r) = read_term r

-- The messages of names and entity uids are read back as they were.
pub record ModelsRead {c : Crate} (m : Models c) : Type 0 where
  pub name : (n : c.EntityTypeName) → m.name_read (m.name_from n) ≡ some n
  pub euid : (e : c.EntityUid) → m.euid_read (m.euid_from e) ≡ some e

read_elems : (p : List PatElem) → for_each read_elem (map elem_message p) ≡ ok p
unfolding for_each elem_message
read_elems [] = refl
read_elems (PatElem.star ∷ p) = rw (read_elems p) refl
read_elems (PatElem.char n ∷ p) = rw (read_elems p) refl

read_prefix-message : (o : Option Bitvec) → read_prefix (prefix_message o) ≡ o
unfolding prefix_message bitvec_message
read_prefix-message none = refl
read_prefix-message (some b) = refl

read_ip-message : (ip : IpAddr) → read_ip (ip_message ip) ≡ ok ip
unfolding ip_message cidr_message bitvec_message
read_ip-message (IpAddr.v4 cidr) = rw (read_prefix-message cidr.prefix) refl
read_ip-message (IpAddr.v6 cidr) = rw (read_prefix-message cidr.prefix) refl

read_ext-message : (x : Ext) → read_ext (ext_message x) ≡ ok x
unfolding ext_message
read_ext-message (Ext.decimal d) = refl
read_ext-message (Ext.ipaddr ip) = rw (read_ip-message ip) refl
read_ext-message (Ext.datetime t) = refl
read_ext-message (Ext.duration t) = refl

ext_ops-number : (o : ExtOp) → get_elem? ext_ops (ext_op_number o) ≡ some o
unfolding ext_op_number
ext_ops-number ExtOp.decimal_val = refl
ext_ops-number _ = refl

module _ {c : Crate} (m : Models c) (laws : ModelsRead m) where
  read_prim_type-message : (t : TermPrimType c) → read_prim_type m (prim_type_message m t) ≡ ok t
  unfolding prim_type_message ext_type_number
  read_prim_type-message TermPrimType.bool = refl
  read_prim_type-message (TermPrimType.bitvec n) = refl
  read_prim_type-message TermPrimType.string = refl
  read_prim_type-message (TermPrimType.entity e) = rw (laws.name e) refl
  read_prim_type-message (TermPrimType.ext ExtType.ip_addr) = refl
  read_prim_type-message (TermPrimType.ext ExtType.decimal) = refl
  read_prim_type-message (TermPrimType.ext ExtType.datetime) = refl
  read_prim_type-message (TermPrimType.ext ExtType.duration) = refl

  mutual
    unfolding read_type type_message

    read_type-message : (t : TermType c) → read_type m (type_message m t) ≡ ok t
    read_type-message (TermType.prim p) = rw (read_prim_type-message p) refl
    read_type-message (TermType.option t) = rw (read_type-message t) refl
    read_type-message (TermType.set t) = rw (read_type-message t) refl
    read_type-message (TermType.record_of r) = rw (read_type_fields-messages r) refl

    read_type_fields-messages :
        (r : TypeFields c) → read_type_fields m (type_field_messages m r) ≡ ok r
    read_type_fields-messages TypeFields.no_fields = refl
    read_type_fields-messages (TypeFields.field attr t rest) =
        rw (read_type-message t, read_type_fields-messages rest) refl

  read_uuf-message : (u : Uuf c) → read_uuf m (uuf_message m u) ≡ ok u
  unfolding read_uuf uuf_message
  read_uuf-message u = rw (read_type-message u.arg, read_type-message u.out) refl

  read_var-message : (v : TermVar c) → read_var m (var_message m v) ≡ ok v
  unfolding read_var var_message
  read_var-message v = rw (read_type-message v.ty) refl

  read_op-message : (o : Op c) → read_op m (op_message m o) ≡ ok o
  unfolding read_op op_message
  read_op-message (Op.uuf u) = rw (read_uuf-message u) refl
  read_op-message (Op.zero_extend n) = refl
  read_op-message (Op.record_get attr) = refl
  read_op-message (Op.string_like p) = rw (read_elems p) refl
  read_op-message (Op.ext o) = rw (ext_ops-number o) refl
  read_op-message _ = refl

  read_prim-message : (p : TermPrim c) → read_prim m (prim_message m p) ≡ ok p
  unfolding read_prim prim_message bitvec_message
  read_prim-message (TermPrim.bool b) = refl
  read_prim-message (TermPrim.bitvec b) = refl
  read_prim-message (TermPrim.string s) = refl
  read_prim-message (TermPrim.entity e) = rw (laws.euid e) refl
  read_prim-message (TermPrim.ext x) = rw (read_ext-message x) refl

  mutual
    unfolding read_term term_message

    -- Where the messages of names and entity uids are read back as they were, the message of a term is
    -- read back as the term.
    pub read_term-message : (t : Term c) → read_term m (term_message m t) ≡ ok t
    read_term-message (Term.prim p) = rw (read_prim-message p) refl
    read_term-message (Term.var v) = rw (read_var-message v) refl
    read_term-message (Term.none_of t) = rw (read_type-message t) refl
    read_term-message (Term.some_of t) = rw (read_term-message t) refl
    read_term-message (Term.set ts t) = rw (read_terms-messages ts, read_type-message t) refl
    read_term-message (Term.record_of r) = rw (read_fields-messages r) refl
    read_term-message (Term.app o ts t) =
        rw (read_op-message o, read_terms-messages ts, read_type-message t) refl

    pub read_terms-messages : (ts : Terms c) → read_terms m (term_messages m ts) ≡ ok ts
    read_terms-messages Terms.no_terms = refl
    read_terms-messages (Terms.term t rest) =
        rw (read_term-message t, read_terms-messages rest) refl

    read_fields-messages : (r : Fields c) → read_fields m (field_messages m r) ≡ ok r
    read_fields-messages Fields.no_fields = refl
    read_fields-messages (Fields.field attr t rest) =
        rw (read_term-message t, read_fields-messages rest) refl
