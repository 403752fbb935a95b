-- ===== src/Datatypes/Symcc.antt =====
-- The terms of cedar_policy_symcc, with the variants that the exhaustive matches of
-- cedar-lean-ffi/src/datatypes.rs name. A shared pointer is its content; the entries of a record and
-- the elements of a set stand in the order of their iteration.
use Prim.Native.String.{[], ◌∷◌, String}
use cedar_spec.Base.{ℕ, Bool, List, [], ◌∷◌, ◌≡◌, refl, ap}
use cedar_spec.Datatypes.Crate.{Crate, ℤ}

pub data SymccExtType : Type 0 where
  ip_addr decimal date_time duration : SymccExtType

pub data SymccExtOp : Type 0 where
  decimal_val ipaddr_is_v4 ipaddr_addr_v4 ipaddr_prefix_v4 ipaddr_addr_v6 ipaddr_prefix_v6
        datetime_val datetime_of_bitvec duration_val duration_of_bitvec :
      SymccExtOp

mutual
  pub data SymccType (c : Crate) : Type 0 where
    bool : SymccType c
    bitvec : ℕ → SymccType c
    string : SymccType c
    entity : c.EntityTypeName → SymccType c
    ext : SymccExtType → SymccType c
    option : SymccType c → SymccType c
    set : SymccType c → SymccType c
    record_of : SymccTypeMap c → SymccType c

  pub data SymccTypeMap (c : Crate) : Type 0 where
    no_attrs : SymccTypeMap c
    attr : String → SymccType c → SymccTypeMap c → SymccTypeMap c

module _ (c : Crate) where
  open c use {
    BitVec, Pattern, CoreEntityUid, SymccDatetime, SymccDuration, Ipv4Addr, Ipv4Prefix, Ipv6Addr,
    Ipv6Prefix,
  }

  pub record SymccVar : Type 0 where
    pub id : String
    pub ty : SymccType c

  pub record SymccUuf : Type 0 where
    pub id : String
    pub arg : SymccType c
    pub out : SymccType c

  pub data SymccOp : Type 0 where
    not and or eq ite : SymccOp
    uuf : SymccUuf → SymccOp
    bvneg bvadd bvsub bvmul bvsdiv bvudiv bvsrem bvsmod bvurem bvshl bvlshr : SymccOp
    bvslt bvsle bvult bvule bvnego bvsaddo bvssubo bvsmulo : SymccOp
    zero_extend : ℕ → SymccOp
    set_member set_subset set_inter option_get : SymccOp
    record_get : String → SymccOp
    string_like : Pattern → SymccOp
    ext : SymccExtOp → SymccOp

  -- `IPNet`, `CIDRv4` and `CIDRv6`
  pub data IpNet : Type 0 where
    v4 : Ipv4Addr → Ipv4Prefix → IpNet
    v6 : Ipv6Addr → Ipv6Prefix → IpNet

  pub data SymccExt : Type 0 where
    decimal : ℤ → SymccExt
    ipaddr : IpNet → SymccExt
    datetime : SymccDatetime → SymccExt
    duration : SymccDuration → SymccExt

  pub data SymccPrim : Type 0 where
    bool : Bool → SymccPrim
    bitvec : BitVec → SymccPrim
    string : String → SymccPrim
    entity : CoreEntityUid → SymccPrim
    ext : SymccExt → SymccPrim

mutual
  pub data SymccTerm (c : Crate) : Type 0 where
    prim : SymccPrim c → SymccTerm c
    var : SymccVar c → SymccTerm c
    none_of : SymccType c → SymccTerm c
    some_of : SymccTerm c → SymccTerm c
    set : SymccTerms c → SymccType c → SymccTerm c
    record_of : SymccMap c → SymccTerm c
    app : SymccOp c → SymccTerms c → SymccType c → SymccTerm c

  pub data SymccTerms (c : Crate) : Type 0 where
    no_elts : SymccTerms c
    elt : SymccTerm c → SymccTerms c → SymccTerms c

  pub data SymccMap (c : Crate) : Type 0 where
    no_attrs : SymccMap c
    attr : String → SymccTerm c → SymccMap c → SymccMap c

-- The entries of a map and the elements of a set as lists, in their order.
abbrev pub type_entries : {c : Crate} → SymccTypeMap c → List (String × SymccType c)
type_entries no_attrs = []
type_entries (attr a ty m) = (a, ty) ∷ type_entries m

abbrev pub type_map : {c : Crate} → List (String × SymccType c) → SymccTypeMap c
type_map [] = no_attrs
type_map ((a, ty) ∷ m) = attr a ty (type_map m)

abbrev pub term_elts : {c : Crate} → SymccTerms c → List (SymccTerm c)
term_elts no_elts = []
term_elts (elt t ts) = t ∷ term_elts ts

abbrev pub terms_of : {c : Crate} → List (SymccTerm c) → SymccTerms c
terms_of [] = no_elts
terms_of (t ∷ ts) = elt t (terms_of ts)

abbrev pub term_entries : {c : Crate} → SymccMap c → List (String × SymccTerm c)
term_entries no_attrs = []
term_entries (attr a t m) = (a, t) ∷ term_entries m

abbrev pub map_of : {c : Crate} → List (String × SymccTerm c) → SymccMap c
map_of [] = no_attrs
map_of ((a, t) ∷ m) = attr a t (map_of m)

pub type_map-type_entries : {c : Crate} (m : SymccTypeMap c) → type_map (type_entries m) ≡ m
type_map-type_entries no_attrs = refl
type_map-type_entries (attr a ty m) = ap (attr a ty) (type_map-type_entries m)

pub terms_of-term_elts : {c : Crate} (ts : SymccTerms c) → terms_of (term_elts ts) ≡ ts
terms_of-term_elts no_elts = refl
terms_of-term_elts (elt t ts) = ap (elt t) (terms_of-term_elts ts)

pub map_of-term_entries : {c : Crate} (m : SymccMap c) → map_of (term_entries m) ≡ m
map_of-term_entries no_attrs = refl
map_of-term_entries (attr a t m) = ap (attr a t) (map_of-term_entries m)
