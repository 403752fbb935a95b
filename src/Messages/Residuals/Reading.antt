-- ===== src/Messages/Residuals/Reading.antt =====
-- A reader of the messages of residuals, which takes from a node the fields of its kind.
use Prim.Native.String.{String}
use cedar_spec.Base.{
  ◌≡◌, refl, Bool, true, false, List, [], ◌∷◌, map, Option, none, some, ◌⊎◌, inl, inr, Exec, ok,
  err, ◌>>=◌, ok_or,
}
use cedar_spec.Messages.Requests.{RequestModels}
use cedar_spec.Messages.Residuals.{
  ResidualModels, CoreUnaryOp, CoreBinaryOp, Kind, UnaryOpModel, BinaryOpModel, CoreResidual,
  CoreResiduals, CoreFields, NodeMessage, ResidualMessage, ResidualMessages, unary_op_model,
  binary_op_model, residual_from_inner, children_from, values_from, keys, ReauthorizationRequest,
}

-- The readers of the messages of the crate, each of which reads back what was sent.
pub record ResidualReaders (m : ResidualModels) : Type 0 where
  pub type_read : m.TypeModel → m.Ty
  pub value_read : m.ExprModel → m.Value
  pub var_read : m.VarModel → m.Var
  pub name_read : m.NameModel → m.Name
  pub pattern_read : m.PatternModel → m.PatternElem
  pub type : (t : m.Ty) → type_read (m.type_from t) ≡ t
  pub value : (v : m.Value) → value_read (m.value_from v) ≡ v
  pub var : (v : m.Var) → var_read (m.var_from v) ≡ v
  pub name : (n : m.Name) → name_read (m.name_from n) ≡ n
  pub pattern : (p : m.PatternElem) → pattern_read (m.pattern_from p) ≡ p

abbrev unary_op_read : UnaryOpModel → CoreUnaryOp
unary_op_read UnaryOpModel.not = CoreUnaryOp.not
unary_op_read UnaryOpModel.neg = CoreUnaryOp.neg
unary_op_read UnaryOpModel.is_empty = CoreUnaryOp.is_empty

abbrev binary_op_read : BinaryOpModel → CoreBinaryOp
binary_op_read BinaryOpModel.eq = CoreBinaryOp.eq
binary_op_read BinaryOpModel.less = CoreBinaryOp.less
binary_op_read BinaryOpModel.less_eq = CoreBinaryOp.less_eq
binary_op_read BinaryOpModel.add = CoreBinaryOp.add
binary_op_read BinaryOpModel.sub = CoreBinaryOp.sub
binary_op_read BinaryOpModel.mul = CoreBinaryOp.mul
binary_op_read BinaryOpModel.in_ = CoreBinaryOp.in_
binary_op_read BinaryOpModel.contains = CoreBinaryOp.contains
binary_op_read BinaryOpModel.contains_all = CoreBinaryOp.contains_all
binary_op_read BinaryOpModel.contains_any = CoreBinaryOp.contains_any
binary_op_read BinaryOpModel.get_tag = CoreBinaryOp.get_tag
binary_op_read BinaryOpModel.has_tag = CoreBinaryOp.has_tag

unary_op_read-model : (o : CoreUnaryOp) → unary_op_read (unary_op_model o) ≡ o
unfolding unary_op_model
unary_op_read-model CoreUnaryOp.not = refl
unary_op_read-model _ = refl

binary_op_read-model : (o : CoreBinaryOp) → binary_op_read (binary_op_model o) ≡ o
unfolding binary_op_model
binary_op_read-model CoreBinaryOp.eq = refl
binary_op_read-model _ = refl

module _ (m : ResidualModels) (q : ResidualReaders m) where
  -- A record from its names and its values.
  abbrev fields_of : List String → CoreResiduals m → Exec String (CoreFields m)
  fields_of [] CoreResiduals.no_residuals = ok CoreFields.no_fields
  fields_of (k ∷ ks) (CoreResiduals.residual r rest) = do
    fields ← fields_of ks rest
    ok (CoreFields.field k r fields)
  fields_of _ _ = err "names"

  -- A residual from a node, its type and its operands.
  abbrev no_operands : CoreResiduals m → CoreResidual m → Exec String (CoreResidual m)
  no_operands CoreResiduals.no_residuals r = ok r
  no_operands _ r = err "operands"

  abbrev one_operand :
      CoreResiduals m → (CoreResidual m → CoreResidual m) → Exec String (CoreResidual m)
  one_operand (CoreResiduals.residual a CoreResiduals.no_residuals) f = ok (f a)
  one_operand _ f = err "operands"

  abbrev two_operands :
      CoreResiduals m
      → (CoreResidual m → CoreResidual m → CoreResidual m)
      → Exec String (CoreResidual m)
  two_operands (CoreResiduals.residual a (CoreResiduals.residual b CoreResiduals.no_residuals)) f =
      ok (f a b)
  two_operands _ f = err "operands"

  abbrev three_operands : CoreResiduals m → m.Ty → Exec String (CoreResidual m)
  three_operands
        (CoreResiduals.residual a
          (CoreResiduals.residual b (CoreResiduals.residual c CoreResiduals.no_residuals)))
        ty =
      ok (CoreResidual.if_of a b c ty)
  three_operands _ ty = err "operands"

  abbrev of_kind : Kind → NodeMessage m → m.Ty → CoreResiduals m → Exec String (CoreResidual m)
  of_kind Kind.val n ty rs = do
    v ← ok_or "val" n.val
    no_operands rs (CoreResidual.concrete (q.value_read v) ty)
  of_kind Kind.var n ty rs = no_operands rs (CoreResidual.var (q.var_read n.var) ty)
  of_kind Kind.ite n ty rs = three_operands rs ty
  of_kind Kind.and n ty rs = two_operands rs (λ a b. CoreResidual.and a b ty)
  of_kind Kind.or n ty rs = two_operands rs (λ a b. CoreResidual.or a b ty)
  of_kind Kind.unary_app n ty rs =
      one_operand rs (λ a. CoreResidual.unary_app (unary_op_read n.unary_op) a ty)
  of_kind Kind.binary_app n ty rs =
      two_operands rs (λ a b. CoreResidual.binary_app (binary_op_read n.binary_op) a b ty)
  of_kind Kind.get_attr n ty rs = one_operand rs (λ a. CoreResidual.get_attr a n.attr ty)
  of_kind Kind.has_attr n ty rs = one_operand rs (λ a. CoreResidual.has_attr a n.attr ty)
  of_kind Kind.ext_has_attr n ty rs = one_operand rs (λ a. CoreResidual.ext_has_attr a n.attrs ty)
  of_kind Kind.set n ty rs = ok (CoreResidual.set rs ty)
  of_kind Kind.record_of n ty rs = do
    fields ← fields_of n.field_names rs
    ok (CoreResidual.record_of fields ty)
  of_kind Kind.call n ty rs = do
    name ← ok_or "fn_name" n.fn_name
    ok (CoreResidual.call (q.name_read name) rs ty)
  of_kind Kind.error n ty rs = no_operands rs (CoreResidual.error ty)
  of_kind Kind.like n ty rs =
      one_operand rs (λ a. CoreResidual.like a (map q.pattern_read n.pattern) ty)
  of_kind Kind.is_of n ty rs = do
    name ← ok_or "entity_type" n.entity_type
    one_operand rs (λ a. CoreResidual.is_of a (q.name_read name) ty)

  mutual
    pub read_residual : ResidualMessage m → Exec String (CoreResidual m)
    read_residual (ResidualMessage.node n children) = do
      rs ← read_children children
      ty ← ok_or "ty" n.ty
      of_kind n.kind n (q.type_read ty) rs

    pub read_children : ResidualMessages m → Exec String (CoreResiduals m)
    read_children ResidualMessages.no_children = ok CoreResiduals.no_residuals
    read_children (ResidualMessages.child r rest) = do
      a ← read_residual r
      more ← read_children rest
      ok (CoreResiduals.residual a more)

  -- The expected result of a request.
  abbrev read_expected : Option m.ExprModel → Bool → Exec String (Unit {0} ⊎ m.Value)
  read_expected (some v) false = ok (inr (q.value_read v))
  read_expected none true = ok (inl tt)
  read_expected _ _ = err "expected"

  read_pattern-from : (p : List m.PatternElem) → map q.pattern_read (map m.pattern_from p) ≡ p
  read_pattern-from [] = refl
  read_pattern-from (e ∷ p) = rw (q.pattern e, read_pattern-from p) refl

  -- The values of a record, without their names.
  abbrev values_of : CoreFields m → CoreResiduals m
  values_of CoreFields.no_fields = CoreResiduals.no_residuals
  values_of (CoreFields.field k r rest) = CoreResiduals.residual r (values_of rest)

  fields_of-keys : (fs : CoreFields m) → fields_of (keys m fs) (values_of fs) ≡ ok fs
  fields_of-keys CoreFields.no_fields = refl
  fields_of-keys (CoreFields.field k r rest) = rw (fields_of-keys rest) refl

  mutual
    unfolding read_residual residual_from_inner

    read_residual-from : (r : CoreResidual m) → read_residual (residual_from_inner m r) ≡ ok r
    read_residual-from (CoreResidual.concrete v ty) = rw (q.type ty, q.value v) refl
    read_residual-from (CoreResidual.error ty) = rw (q.type ty) refl
    read_residual-from (CoreResidual.var v ty) = rw (q.type ty, q.var v) refl
    read_residual-from (CoreResidual.if_of i t e ty) =
        rw (q.type ty, read_residual-from i, read_residual-from t, read_residual-from e) refl
    read_residual-from (CoreResidual.and a b ty) =
        rw (q.type ty, read_residual-from a, read_residual-from b) refl
    read_residual-from (CoreResidual.or a b ty) =
        rw (q.type ty, read_residual-from a, read_residual-from b) refl
    read_residual-from (CoreResidual.unary_app op a ty) =
        rw (q.type ty, read_residual-from a, unary_op_read-model op) refl
    read_residual-from (CoreResidual.binary_app op a b ty) =
        rw (q.type ty, read_residual-from a, read_residual-from b, binary_op_read-model op) refl
    read_residual-from (CoreResidual.get_attr a attr ty) = rw (q.type ty, read_residual-from a) refl
    read_residual-from (CoreResidual.has_attr a attr ty) = rw (q.type ty, read_residual-from a) refl
    read_residual-from (CoreResidual.ext_has_attr a attrs ty) =
        rw (q.type ty, read_residual-from a) refl
    read_residual-from (CoreResidual.like a p ty) =
        rw (q.type ty, read_residual-from a, read_pattern-from p) refl
    read_residual-from (CoreResidual.is_of a n ty) =
        rw (q.type ty, read_residual-from a, q.name n) refl
    read_residual-from (CoreResidual.set items ty) = rw (q.type ty, read_children-from items) refl
    read_residual-from (CoreResidual.record_of fs ty) =
        rw (q.type ty, read_values-from fs, fields_of-keys fs) refl
    read_residual-from (CoreResidual.call n args ty) =
        rw (q.type ty, read_children-from args, q.name n) refl

    read_children-from : (rs : CoreResiduals m) → read_children (children_from m rs) ≡ ok rs
    read_children-from CoreResiduals.no_residuals = refl
    read_children-from (CoreResiduals.residual r rest) =
        rw (read_residual-from r, read_children-from rest) refl

    read_values-from : (fs : CoreFields m) → read_children (values_from m fs) ≡ ok (values_of fs)
    read_values-from CoreFields.no_fields = refl
    read_values-from (CoreFields.field k r rest) =
        rw (read_residual-from r, read_values-from rest) refl

  module _ (r : RequestModels) where
    abbrev pub read_request :
        ReauthorizationRequest m r → Exec String (CoreResidual m × (Unit {0} ⊎ m.Value))
    read_request request = do
      message ← ok_or "residual" request.residual
      whole ← read_residual message
      expected ← read_expected request.expected_value request.expects_error
      ok (whole, expected)
