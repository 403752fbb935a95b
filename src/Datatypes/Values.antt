-- ===== src/Datatypes/Values.antt =====
-- cedar-lean-ffi/src/datatypes.rs: the values, requests, entities and counterexamples that Lean returns, and
-- their conversions to the types of `cedar_policy`. A text that is made is the list of its code points.
pub mod Texts
use Prim.Native.String.{String}
use Prim.Native.Nat.{◌%◌}
use cedar_spec.Base.{
  ℕ, suc, ◌/◌, Bool, List, [], ◌∷◌, map, Option, none, some, ◌⊎◌, Exec, ok, err, panic, ◌>>=◌,
  attempt, expect, for_each, leb, if◌then◌else◌, ◌++◌,
}
use cedar_spec.Datatypes.Crate.{Crate, ℤ}
use cedar_spec.Datatypes.Ffi.{Bitvec, Decimal, Cidr, IpAddr, Datetime, Duration, Ext}
use cedar_spec.Datatypes.Numerals.{codes, show, show_padded, parse_uint}

-- The types and constructors of `cedar_policy` and `cedar_policy_core` that the conversions call; a call that
-- can fail returns a `Diagnostic`.
pub record Expressions (c : Crate) : Type 1 where
  pub Diagnostic : Type 0
  pub RestrictedExpression : Type 0
  pub EntityUid : Type 0
  pub euid_from : c.EntityUid → EntityUid
  pub new_bool : Bool → RestrictedExpression
  pub new_long : ℤ → RestrictedExpression
  pub new_string : String → RestrictedExpression
  pub new_entity_uid : EntityUid → RestrictedExpression
  pub new_set : List RestrictedExpression → RestrictedExpression
  pub new_record : List (String × RestrictedExpression) → Diagnostic ⊎ RestrictedExpression
  pub new_decimal : List ℕ → RestrictedExpression
  pub new_ip : List ℕ → RestrictedExpression
  pub new_duration : List ℕ → RestrictedExpression
  -- `Display` of `std::net::Ipv6Addr`
  pub v6_display : ℕ → List ℕ
  -- `ast::RestrictedExpr`
  pub CoreExpr : Type 0
  pub Name : Type 0
  pub parse_unqualified_name : String → Diagnostic ⊎ Name
  pub core_string : List ℕ → CoreExpr
  pub call_extension_fn : Name → List CoreExpr → CoreExpr
  pub from_core : CoreExpr → RestrictedExpression
  pub Context : Type 0
  pub context_from_pairs : List (String × RestrictedExpression) → Diagnostic ⊎ Context
  pub Request : Type 0
  pub request_new : EntityUid → EntityUid → EntityUid → Context → Diagnostic ⊎ Request
  pub Entity : Type 0
  pub new_with_tags :
      EntityUid
      → List (String × RestrictedExpression)
      → List EntityUid
      → List (String × RestrictedExpression)
      → Diagnostic ⊎ Entity
  pub Entities : Type 0
  pub from_entities : List Entity → Diagnostic ⊎ Entities

-- `Prim`
pub data ValuePrim (c : Crate) : Type 0 where
  bool : Bool → ValuePrim c
  int : ℤ → ValuePrim c
  string : String → ValuePrim c
  entity_uid : c.EntityUid → ValuePrim c

mutual
  pub data Value (c : Crate) : Type 0 where
    prim : ValuePrim c → Value c
    set : Values c → Value c
    record_of : Attrs c → Value c
    ext : Ext → Value c

  -- `Vec<Value>`
  pub data Values (c : Crate) : Type 0 where
    no_values : Values c
    value : Value c → Values c → Values c

  -- `Vec<(String, Value)>`
  pub data Attrs (c : Crate) : Type 0 where
    no_attrs : Attrs c
    attr : String → Value c → Attrs c → Attrs c

-- The sign and the absolute value of a number.
abbrev pub signed : ℤ → List ℕ → List ℕ
signed (ℤ.pos n) rest = rest
signed (ℤ.negsuc n) rest = b'-' ∷ rest

abbrev pub abs : ℤ → ℕ
abs (ℤ.pos n) = n
abs (ℤ.negsuc n) = suc n

-- The text in `impl From<Decimal> for RestrictedExpression`
unfoldable pub decimal_text : Decimal → List ℕ
decimal_text decimal =
    let absval = abs decimal.val in
    signed decimal.val (show (absval / 10000) (b'.' ∷ show_padded (absval % 10000)))

-- `format!("{n}ms")`
unfoldable pub millis_text : ℤ → List ℕ
millis_text n = signed n (show (abs n) (codes "ms"))

-- `format!("{a0}.{a1}.{a2}.{a3}/{prefix}")`, with the four bytes of an address.
unfoldable pub v4_text : ℕ → ℕ → List ℕ
v4_text addr prefix =
    let a0 = (addr / 16777216) % 256 in
    let a1 = (addr / 65536) % 256 in
    let a2 = (addr / 256) % 256 in
    let a3 = addr % 256 in
    show a0 (b'.' ∷ show a1 (b'.' ∷ show a2 (b'.' ∷ show a3 (b'/' ∷ show prefix []))))

-- `Bitvec::as_u64` and `Bitvec::as_u128`
unfoldable pub as_u64 : {E : Type 0} → Bitvec → Exec E ℕ
as_u64 bv =
    let val = expect (parse_uint 18446744073709551616 (codes bv.val)) in
    if leb bv.width 64 then val else panic

unfoldable pub as_u128 : {E : Type 0} → Bitvec → Exec E ℕ
as_u128 bv =
    let val = expect (parse_uint 340282366920938463463374607431768211456 (codes bv.val)) in
    if leb bv.width 128 then val else panic

-- `cidr.prefix.map_or(n, |p| p.as_u64())`
abbrev pub prefix_or : {E : Type 0} → ℕ → Option Bitvec → Exec E ℕ
prefix_or n none = ok n
prefix_or n (some p) = as_u64 p

module _ {c : Crate} (x : Expressions c) where
  open x use {Diagnostic, RestrictedExpression}

  -- `impl From<Decimal> for RestrictedExpression`
  unfoldable pub decimal_into_expr : Decimal → RestrictedExpression
  decimal_into_expr decimal = x.new_decimal (decimal_text decimal)

  -- `impl From<IpAddr> for RestrictedExpression`
  unfoldable pub ip_into_expr : IpAddr → Exec Diagnostic RestrictedExpression
  ip_into_expr (IpAddr.v4 cidr) = do
    addr ← as_u64 cidr.addr
    prefix ← prefix_or 32 cidr.prefix
    ok (x.new_ip (v4_text addr prefix))
  ip_into_expr (IpAddr.v6 cidr) = do
    v6 ← as_u128 cidr.addr
    prefix ← prefix_or 128 cidr.prefix
    ok (x.new_ip (x.v6_display v6 ++ (b'/' ∷ show prefix [])))

  -- `impl TryFrom<Datetime> for RestrictedExpression`
  unfoldable pub datetime_try_into_expr : Datetime → Exec Diagnostic RestrictedExpression
  datetime_try_into_expr dt = do
    datetime ← attempt (λ e. e) (x.parse_unqualified_name "datetime")
    let epoch = x.call_extension_fn datetime (x.core_string (codes "1970-01-01") ∷ [])
    duration ← attempt (λ e. e) (x.parse_unqualified_name "duration")
    let millis_since_epoch = x.call_extension_fn duration (x.core_string (millis_text dt.val) ∷ [])
    offset ← attempt (λ e. e) (x.parse_unqualified_name "offset")
    ok (x.from_core (x.call_extension_fn offset (epoch ∷ millis_since_epoch ∷ [])))

  -- `impl From<Duration> for RestrictedExpression`
  unfoldable pub duration_into_expr : Duration → RestrictedExpression
  duration_into_expr dur = x.new_duration (millis_text dur.val)

  unfoldable pub prim_into_expr : ValuePrim c → RestrictedExpression
  prim_into_expr (ValuePrim.bool b) = x.new_bool b
  prim_into_expr (ValuePrim.int i) = x.new_long i
  prim_into_expr (ValuePrim.string s) = x.new_string s
  prim_into_expr (ValuePrim.entity_uid euid) = x.new_entity_uid (x.euid_from euid)

  unfoldable pub ext_try_into_expr : Ext → Exec Diagnostic RestrictedExpression
  ext_try_into_expr (Ext.decimal d) = ok (decimal_into_expr d)
  ext_try_into_expr (Ext.ipaddr ip) = ip_into_expr ip
  ext_try_into_expr (Ext.datetime dt) = datetime_try_into_expr dt
  ext_try_into_expr (Ext.duration dur) = ok (duration_into_expr dur)

  unfoldable mutual
    -- `impl TryFrom<Value> for RestrictedExpression`
    pub value_try_into : Value c → Exec Diagnostic RestrictedExpression
    value_try_into (Value.prim p) = ok (prim_into_expr p)
    value_try_into (Value.set s) = do elts ← values_try_into s; ok (x.new_set elts)
    value_try_into (Value.record_of m) = do
      pairs ← attrs_try_into m
      attempt (λ e. e) (x.new_record pairs)
    value_try_into (Value.ext e) = ext_try_into_expr e

    pub values_try_into : Values c → Exec Diagnostic (List RestrictedExpression)
    values_try_into Values.no_values = ok []
    values_try_into (Values.value v rest) = do
      e ← value_try_into v
      more ← values_try_into rest
      ok (e ∷ more)

    pub attrs_try_into : Attrs c → Exec Diagnostic (List (String × RestrictedExpression))
    attrs_try_into Attrs.no_attrs = ok []
    attrs_try_into (Attrs.attr k v rest) = do
      e ← value_try_into v
      more ← attrs_try_into rest
      ok ((k, e) ∷ more)
