-- ===== src/Datatypes/Pst.antt =====
-- Expressions of the public syntax tree of cedar_policy_core, with the variants that
-- cedar-lean-ffi/src/datatypes/tpe.rs names; any other expression is one of the crate's.
use Prim.Native.String.{String}
use cedar_spec.Base.{ℕ, List, [], ◌∷◌, Option}
use cedar_spec.Datatypes.Crate.{Crate}
use cedar_spec.Datatypes.Values.{Expressions}
use cedar_spec.Datatypes.Residuals.{RequestVar}

-- What the conversion calls.
pub record Syntax {c : Crate} (x : Expressions c) : Type 1 where
  -- `pst::Id`, and `pst::Id::new`
  pub Ident : Type 0
  pub ident_new : String → Option Ident
  -- `basename` and `namespace_components` of a name
  pub basename : c.EntityTypeName → String
  pub namespace_components : c.EntityTypeName → List String
  -- `to_string` of a diagnostic
  pub display : x.Diagnostic → String
  -- The other expressions
  pub Other : Type 0

pub data PstUnaryOp : Type 0 where
  not neg is_empty decimal ip datetime duration is_ipv4 is_ipv6 is_loopback is_multicast :
      PstUnaryOp
  to_date to_time to_milliseconds to_seconds to_minutes to_hours to_days : PstUnaryOp

pub data PstBinaryOp : Type 0 where
  and or eq in_ has_tag get_tag less less_eq add sub mul contains contains_all contains_any :
      PstBinaryOp
  decimal_less_than decimal_less_eq decimal_greater decimal_greater_eq : PstBinaryOp
  is_in_range offset duration_since : PstBinaryOp

pub data PstPatternElem : Type 0 where
  wildcard : PstPatternElem
  char : ℕ → PstPatternElem

module _ {c : Crate} {x : Expressions c} where
  -- `pst::Name`
  pub record PstName (n : Syntax x) : Type 0 where
    pub id : n.Ident
    pub namespace : List n.Ident

mutual
  pub data Pst {c : Crate} {x : Expressions c} (n : Syntax x) : Type 0 where
    other : n.Other → Pst n
    var : RequestVar → Pst n
    residual_error : Pst n
    if_then_else : Pst n → Pst n → Pst n → Pst n
    unary_op : PstUnaryOp → Pst n → Pst n
    binary_op : PstBinaryOp → Pst n → Pst n → Pst n
    like : Pst n → List PstPatternElem → Pst n
    -- an expression, its type, and nothing it is in
    is_of : Pst n → PstName n → Pst n
    get_attr : Pst n → String → Pst n
    -- the first attribute, and those after it
    has_attr : Pst n → String → List String → Pst n
    set : PstList n → Pst n
    record_of : PstMap n → Pst n

  pub data PstList {c : Crate} {x : Expressions c} (n : Syntax x) : Type 0 where
    no_exprs : PstList n
    expr : Pst n → PstList n → PstList n

  -- A `BTreeMap`, by its entries in order.
  pub data PstMap {c : Crate} {x : Expressions c} (n : Syntax x) : Type 0 where
    no_entries : PstMap n
    entry : String → Pst n → PstMap n → PstMap n

module _ {c : Crate} {x : Expressions c} {n : Syntax x} where
  abbrev pub to_list : List (Pst n) → PstList n
  to_list [] = PstList.no_exprs
  to_list (e ∷ es) = PstList.expr e (to_list es)

  abbrev pub to_map : List (String × Pst n) → PstMap n
  to_map [] = PstMap.no_entries
  to_map ((k, e) ∷ es) = PstMap.entry k e (to_map es)
