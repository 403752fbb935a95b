-- ===== src/Datatypes/Residuals.antt =====
-- cedar-lean-ffi/src/datatypes/tpe.rs: the residuals of partial evaluation that Lean returns, and module
-- convert: their conversion to expressions of the crate's public syntax tree.
use Prim.Native.String.{String}
use cedar_spec.Base.{List}
use cedar_spec.Datatypes.Crate.{Crate}
use cedar_spec.Datatypes.Ffi.{ExtType, PatElem}
use cedar_spec.Datatypes.Values.{Value}

pub data BoolType : Type 0 where
  any_bool tt_bool ff_bool : BoolType

mutual
  pub data CedarType (c : Crate) : Type 0 where
    bool : BoolType → CedarType c
    int : CedarType c
    string : CedarType c
    entity : c.EntityTypeName → CedarType c
    set : CedarType c → CedarType c
    record_of : CedarTypes c → CedarType c
    ext : ExtType → CedarType c

  -- `Vec<(String, Qualified<CedarType>)>`, with the two variants of `Qualified`.
  pub data CedarTypes (c : Crate) : Type 0 where
    no_types : CedarTypes c
    optional_type required_type : String → CedarType c → CedarTypes c → CedarTypes c

-- `Var`
pub data RequestVar : Type 0 where
  principal action resource context : RequestVar

pub data UnaryOp (c : Crate) : Type 0 where
  not neg is_empty : UnaryOp c
  like : List PatElem → UnaryOp c
  is_in_type : c.EntityTypeName → UnaryOp c

pub data BinaryOp : Type 0 where
  eq mem has_tag get_tag less less_eq add sub mul contains contains_all contains_any : BinaryOp

pub data ExtFun : Type 0 where
  decimal less_than less_than_or_equal greater_than greater_than_or_equal : ExtFun
  ip is_ipv4 is_ipv6 is_loopback is_multicast is_in_range : ExtFun
  datetime duration offset duration_since to_date to_time : ExtFun
  to_milliseconds to_seconds to_minutes to_hours to_days : ExtFun

mutual
  pub data Residual (c : Crate) : Type 0 where
    val : Value c → CedarType c → Residual c
    var : RequestVar → CedarType c → Residual c
    ite : Residual c → Residual c → Residual c → CedarType c → Residual c
    and or : Residual c → Residual c → CedarType c → Residual c
    unary_app : UnaryOp c → Residual c → CedarType c → Residual c
    binary_app : BinaryOp → Residual c → Residual c → CedarType c → Residual c
    get_attr has_attr : Residual c → String → CedarType c → Residual c
    ext_has_attr : Residual c → String → List String → CedarType c → Residual c
    set : Residuals c → CedarType c → Residual c
    record_of : ResidualFields c → CedarType c → Residual c
    call : ExtFun → Residuals c → CedarType c → Residual c
    error : CedarType c → Residual c

  -- `Vec<Residual>`
  pub data Residuals (c : Crate) : Type 0 where
    no_residuals : Residuals c
    residual : Residual c → Residuals c → Residuals c

  -- `Vec<(String, Residual)>`
  pub data ResidualFields (c : Crate) : Type 0 where
    no_fields : ResidualFields c
    field : String → Residual c → ResidualFields c → ResidualFields c
