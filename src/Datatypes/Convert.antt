-- ===== src/Datatypes/Convert.antt =====
-- cedar-lean-ffi/src/datatypes/tpe.rs, module convert: residuals as expressions of the public syntax tree.
pub mod Converts
use Prim.Native.String.{String, compare}
use cedar_spec.Base.{
  ℕ, List, [], ◌∷◌, map, Option, none, some, ◌⊎◌, inl, inr, Exec, ok, err, panic, ◌>>=◌, attempt,
  expect, lift_error, for_each, length, if◌then◌else◌,
}
use cedar_spec.Base.Ordered.{collect_ordered, by_first}
use cedar_spec.Datatypes.Crate.{Crate}
use cedar_spec.Datatypes.Ffi.{PatElem}
use cedar_spec.Datatypes.Ops.{is_scalar}
use cedar_spec.Datatypes.Values.{Expressions, Value, value_try_into}
use cedar_spec.Datatypes.Residuals.{UnaryOp, BinaryOp, ExtFun, Residual, Residuals, ResidualFields}
use cedar_spec.Datatypes.Pst.{
  Syntax, PstUnaryOp, PstBinaryOp, PstPatternElem, PstName, Pst, to_list, to_map,
}

pub data ResidualConversionError : Type 0 where
  value_conversion : String → ResidualConversionError
  invalid_char : ℕ → ResidualConversionError
  unsupported_ext_arity : ℕ → ResidualConversionError

-- The operators of `convert_ext_fun` for one argument and for two.
unfoldable pub unary_ext : ExtFun → Option PstUnaryOp
unary_ext ExtFun.decimal = some PstUnaryOp.decimal
unary_ext ExtFun.ip = some PstUnaryOp.ip
unary_ext ExtFun.datetime = some PstUnaryOp.datetime
unary_ext ExtFun.duration = some PstUnaryOp.duration
unary_ext ExtFun.is_ipv4 = some PstUnaryOp.is_ipv4
unary_ext ExtFun.is_ipv6 = some PstUnaryOp.is_ipv6
unary_ext ExtFun.is_loopback = some PstUnaryOp.is_loopback
unary_ext ExtFun.is_multicast = some PstUnaryOp.is_multicast
unary_ext ExtFun.to_date = some PstUnaryOp.to_date
unary_ext ExtFun.to_time = some PstUnaryOp.to_time
unary_ext ExtFun.to_milliseconds = some PstUnaryOp.to_milliseconds
unary_ext ExtFun.to_seconds = some PstUnaryOp.to_seconds
unary_ext ExtFun.to_minutes = some PstUnaryOp.to_minutes
unary_ext ExtFun.to_hours = some PstUnaryOp.to_hours
unary_ext ExtFun.to_days = some PstUnaryOp.to_days
unary_ext _ = none

unfoldable pub binary_ext : ExtFun → Option PstBinaryOp
binary_ext ExtFun.less_than = some PstBinaryOp.decimal_less_than
binary_ext ExtFun.less_than_or_equal = some PstBinaryOp.decimal_less_eq
binary_ext ExtFun.greater_than = some PstBinaryOp.decimal_greater
binary_ext ExtFun.greater_than_or_equal = some PstBinaryOp.decimal_greater_eq
binary_ext ExtFun.is_in_range = some PstBinaryOp.is_in_range
binary_ext ExtFun.offset = some PstBinaryOp.offset
binary_ext ExtFun.duration_since = some PstBinaryOp.duration_since
binary_ext _ = none

unfoldable pub convert_binary_op : BinaryOp → PstBinaryOp
convert_binary_op BinaryOp.eq = PstBinaryOp.eq
convert_binary_op BinaryOp.mem = PstBinaryOp.in_
convert_binary_op BinaryOp.has_tag = PstBinaryOp.has_tag
convert_binary_op BinaryOp.get_tag = PstBinaryOp.get_tag
convert_binary_op BinaryOp.less = PstBinaryOp.less
convert_binary_op BinaryOp.less_eq = PstBinaryOp.less_eq
convert_binary_op BinaryOp.add = PstBinaryOp.add
convert_binary_op BinaryOp.sub = PstBinaryOp.sub
convert_binary_op BinaryOp.mul = PstBinaryOp.mul
convert_binary_op BinaryOp.contains = PstBinaryOp.contains
convert_binary_op BinaryOp.contains_all = PstBinaryOp.contains_all
convert_binary_op BinaryOp.contains_any = PstBinaryOp.contains_any

abbrev pub Conversion : Type 0 → Type 0
Conversion A = Exec ResidualConversionError A

abbrev pub convert_elem : PatElem → Conversion PstPatternElem
convert_elem PatElem.star = ok PstPatternElem.wildcard
convert_elem (PatElem.char c) =
    if is_scalar c then ok (PstPatternElem.char c) else err (invalid_char c)

unfoldable pub convert_pattern : List PatElem → Conversion (List PstPatternElem)
convert_pattern p = for_each convert_elem p

-- The last argument is `pst::Expr::try_from`.
module _ {c : Crate} {x : Expressions c} (n : Syntax x)
    (try_from : x.RestrictedExpression → String ⊎ Pst n) where
  unfoldable pub entity_type_name_to_pst_name : c.EntityTypeName → Conversion (PstName n)
  entity_type_name_to_pst_name etn = do
    id ← expect (n.ident_new (n.basename etn))
    namespace ← for_each (λ s. expect (n.ident_new s)) (n.namespace_components etn)
    ok (record { id = id; namespace = namespace })

  unfoldable pub convert_value : Value c → Conversion (Pst n)
  convert_value v = do
    rexpr ← lift_error (λ e. value_conversion (n.display e)) (value_try_into x v)
    attempt value_conversion (try_from rexpr)

  -- `match pst_args.len()`
  unfoldable pub convert_ext_fun : ExtFun → List (Pst n) → Conversion (Pst n)
  convert_ext_fun xfn (e ∷ []) = elim (unary_ext xfn) [
    | none ↦ err (unsupported_ext_arity 1)
    | some op ↦ ok (Pst.unary_op op e)
  ]
  convert_ext_fun xfn (left ∷ right ∷ []) = elim (binary_ext xfn) [
    | none ↦ err (unsupported_ext_arity 2)
    | some op ↦ ok (Pst.binary_op op left right)
  ]
  convert_ext_fun xfn args = err (unsupported_ext_arity (length args))

  -- What is made of the operand of an operator.
  unfoldable pub convert_unary : UnaryOp c → Pst n → Conversion (Pst n)
  convert_unary UnaryOp.not e = ok (Pst.unary_op PstUnaryOp.not e)
  convert_unary UnaryOp.neg e = ok (Pst.unary_op PstUnaryOp.neg e)
  convert_unary UnaryOp.is_empty e = ok (Pst.unary_op PstUnaryOp.is_empty e)
  convert_unary (UnaryOp.like p) e = do
    pattern_elems ← convert_pattern p
    ok (Pst.like e pattern_elems)
  convert_unary (UnaryOp.is_in_type ety) e = do
    name ← entity_type_name_to_pst_name ety
    ok (Pst.is_of e name)

  unfoldable mutual
    pub convert_residual : Residual c → Conversion (Pst n)
    convert_residual (Residual.val v ty) = convert_value v
    convert_residual (Residual.var v ty) = ok (Pst.var v)
    convert_residual (Residual.error ty) = ok Pst.residual_error
    convert_residual (Residual.ite cond then_expr else_expr ty) = do
      i ← convert_residual cond
      t ← convert_residual then_expr
      e ← convert_residual else_expr
      ok (Pst.if_then_else i t e)
    convert_residual (Residual.and a b ty) = do
      left ← convert_residual a
      right ← convert_residual b
      ok (Pst.binary_op PstBinaryOp.and left right)
    convert_residual (Residual.or a b ty) = do
      left ← convert_residual a
      right ← convert_residual b
      ok (Pst.binary_op PstBinaryOp.or left right)
    convert_residual (Residual.unary_app op r ty) = do e ← convert_residual r; convert_unary op e
    convert_residual (Residual.binary_app op a b ty) = do
      left ← convert_residual a
      right ← convert_residual b
      ok (Pst.binary_op (convert_binary_op op) left right)
    convert_residual (Residual.get_attr r attr ty) = do
      e ← convert_residual r
      ok (Pst.get_attr e attr)
    convert_residual (Residual.has_attr r attr ty) = do
      e ← convert_residual r
      ok (Pst.has_attr e attr [])
    convert_residual (Residual.ext_has_attr r attr attrs ty) = do
      e ← convert_residual r
      ok (Pst.has_attr e attr attrs)
    convert_residual (Residual.set ls ty) = do es ← convert_residuals ls; ok (Pst.set (to_list es))
    convert_residual (Residual.record_of m ty) = do
      entries ← convert_fields m
      ok (Pst.record_of (to_map (collect_ordered (by_first compare) entries)))
    convert_residual (Residual.call xfn args ty) = do
      pst_args ← convert_residuals args
      convert_ext_fun xfn pst_args

    pub convert_residuals : Residuals c → Conversion (List (Pst n))
    convert_residuals Residuals.no_residuals = ok []
    convert_residuals (Residuals.residual r rest) = do
      e ← convert_residual r
      more ← convert_residuals rest
      ok (e ∷ more)

    pub convert_fields : ResidualFields c → Conversion (List (String × Pst n))
    convert_fields ResidualFields.no_fields = ok []
    convert_fields (ResidualFields.field k r rest) = do
      e ← convert_residual r
      more ← convert_fields rest
      ok ((k, e) ∷ more)
