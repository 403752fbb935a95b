-- ===== src/Messages/Residuals.antt =====
-- cedar-lean-ffi/src/messages.rs, module tpe: the message of a residual of the crate, and the request to evaluate a
-- residual again. A message is one node for every kind of residual, with the operands as its children; a field
-- that a kind does not set has the default of the format.
pub mod Reading
use Prim.Native.String.{String}
use cedar_spec.Base.{Bool, true, false, List, [], ◌∷◌, map, Option, none, some, ◌⊎◌, inl, inr}
use cedar_spec.Messages.Requests.{RequestModels}

-- The types of `cedar_policy_core` in a residual, and their messages.
pub record ResidualModels : Type 1 where
  pub Ty : Type 0
  pub TypeModel : Type 0
  pub type_from : Ty → TypeModel
  pub Value : Type 0
  pub ExprModel : Type 0
  pub value_from : Value → ExprModel
  pub Var : Type 0
  pub VarModel : Type 0
  pub var_from : Var → VarModel
  pub Name : Type 0
  pub NameModel : Type 0
  pub name_from : Name → NameModel
  pub PatternElem : Type 0
  pub PatternModel : Type 0
  pub pattern_from : PatternElem → PatternModel
  -- the value 0 of each enumeration
  pub default_var : VarModel

-- `ast::UnaryOp` and `ast::BinaryOp`
pub data CoreUnaryOp : Type 0 where
  not neg is_empty : CoreUnaryOp

pub data CoreBinaryOp : Type 0 where
  eq less less_eq add sub mul in_ contains contains_all contains_any get_tag has_tag : CoreBinaryOp

-- The enumerations of the format. The first value of each is its default.
pub data Kind : Type 0 where
  val var ite and or unary_app binary_app get_attr has_attr ext_has_attr set record_of call error
        like is_of :
      Kind

pub data UnaryOpModel : Type 0 where
  not neg is_empty : UnaryOpModel

pub data BinaryOpModel : Type 0 where
  eq less less_eq add sub mul in_ contains contains_all contains_any get_tag has_tag : BinaryOpModel

mutual
  -- `residual::Residual`, with the variants of `ResidualKind` in place of `Partial`; each has its type.
  pub data CoreResidual (m : ResidualModels) : Type 0 where
    concrete : m.Value → m.Ty → CoreResidual m
    error : m.Ty → CoreResidual m
    var : m.Var → m.Ty → CoreResidual m
    if_of : CoreResidual m → CoreResidual m → CoreResidual m → m.Ty → CoreResidual m
    and or : CoreResidual m → CoreResidual m → m.Ty → CoreResidual m
    unary_app : CoreUnaryOp → CoreResidual m → m.Ty → CoreResidual m
    binary_app : CoreBinaryOp → CoreResidual m → CoreResidual m → m.Ty → CoreResidual m
    get_attr has_attr : CoreResidual m → String → m.Ty → CoreResidual m
    ext_has_attr : CoreResidual m → List String → m.Ty → CoreResidual m
    like : CoreResidual m → List m.PatternElem → m.Ty → CoreResidual m
    is_of : CoreResidual m → m.Name → m.Ty → CoreResidual m
    set : CoreResiduals m → m.Ty → CoreResidual m
    record_of : CoreFields m → m.Ty → CoreResidual m
    call : m.Name → CoreResiduals m → m.Ty → CoreResidual m

  pub data CoreResiduals (m : ResidualModels) : Type 0 where
    no_residuals : CoreResiduals m
    residual : CoreResidual m → CoreResiduals m → CoreResiduals m

  -- A map, by its entries in the order of iteration.
  pub data CoreFields (m : ResidualModels) : Type 0 where
    no_fields : CoreFields m
    field : String → CoreResidual m → CoreFields m → CoreFields m

-- The fields of a message, its children left out.
pub record NodeMessage (m : ResidualModels) : Type 0 where
  pub ty : Option m.TypeModel
  pub kind : Kind
  pub val : Option m.ExprModel
  pub var : m.VarModel
  pub attr : String
  pub attrs : List String
  pub field_names : List String
  pub unary_op : UnaryOpModel
  pub binary_op : BinaryOpModel
  pub fn_name : Option m.NameModel
  pub pattern : List m.PatternModel
  pub entity_type : Option m.NameModel

mutual
  pub data ResidualMessage (m : ResidualModels) : Type 0 where
    node : NodeMessage m → ResidualMessages m → ResidualMessage m

  pub data ResidualMessages (m : ResidualModels) : Type 0 where
    no_children : ResidualMessages m
    child : ResidualMessage m → ResidualMessages m → ResidualMessages m

unfoldable pub unary_op_model : CoreUnaryOp → UnaryOpModel
unary_op_model CoreUnaryOp.not = UnaryOpModel.not
unary_op_model CoreUnaryOp.neg = UnaryOpModel.neg
unary_op_model CoreUnaryOp.is_empty = UnaryOpModel.is_empty

unfoldable pub binary_op_model : CoreBinaryOp → BinaryOpModel
binary_op_model CoreBinaryOp.eq = BinaryOpModel.eq
binary_op_model CoreBinaryOp.less = BinaryOpModel.less
binary_op_model CoreBinaryOp.less_eq = BinaryOpModel.less_eq
binary_op_model CoreBinaryOp.add = BinaryOpModel.add
binary_op_model CoreBinaryOp.sub = BinaryOpModel.sub
binary_op_model CoreBinaryOp.mul = BinaryOpModel.mul
binary_op_model CoreBinaryOp.in_ = BinaryOpModel.in_
binary_op_model CoreBinaryOp.contains = BinaryOpModel.contains
binary_op_model CoreBinaryOp.contains_all = BinaryOpModel.contains_all
binary_op_model CoreBinaryOp.contains_any = BinaryOpModel.contains_any
binary_op_model CoreBinaryOp.get_tag = BinaryOpModel.get_tag
binary_op_model CoreBinaryOp.has_tag = BinaryOpModel.has_tag

module _ (m : ResidualModels) where
  -- `Self { ty, ..Default::default() }`, of a kind.
  abbrev pub fresh : Kind → m.Ty → NodeMessage m
  fresh kind ty = record {
    ty = some (m.type_from ty);
    kind = kind;
    val = none;
    var = m.default_var;
    attr = "";
    attrs = [];
    field_names = [];
    unary_op = UnaryOpModel.not;
    binary_op = BinaryOpModel.eq;
    fn_name = none;
    pattern = [];
    entity_type = none;
  }

  abbrev one : ResidualMessage m → ResidualMessages m
  one a = ResidualMessages.child a ResidualMessages.no_children

  abbrev two : ResidualMessage m → ResidualMessage m → ResidualMessages m
  two a b = ResidualMessages.child a (one b)

  -- `attrs.keys()`
  abbrev keys : CoreFields m → List String
  keys CoreFields.no_fields = []
  keys (CoreFields.field k r rest) = k ∷ keys rest

  -- `Residual::from_inner`
  unfoldable mutual
    pub residual_from_inner : CoreResidual m → ResidualMessage m
    residual_from_inner (CoreResidual.concrete value ty) =
        ResidualMessage.node (record (fresh Kind.val ty) { val = some (m.value_from value) })
          ResidualMessages.no_children
    residual_from_inner (CoreResidual.error ty) =
        ResidualMessage.node (fresh Kind.error ty) ResidualMessages.no_children
    residual_from_inner (CoreResidual.var v ty) =
        ResidualMessage.node (record (fresh Kind.var ty) { var = m.var_from v })
          ResidualMessages.no_children
    residual_from_inner (CoreResidual.if_of i t e ty) = ResidualMessage.node (fresh Kind.ite ty) (
        ResidualMessages.child (residual_from_inner i)
          (two (residual_from_inner t) (residual_from_inner e)))
    residual_from_inner (CoreResidual.and a b ty) =
        ResidualMessage.node (fresh Kind.and ty)
          (two (residual_from_inner a) (residual_from_inner b))
    residual_from_inner (CoreResidual.or a b ty) =
        ResidualMessage.node (fresh Kind.or ty)
          (two (residual_from_inner a) (residual_from_inner b))
    residual_from_inner (CoreResidual.unary_app op a ty) =
        ResidualMessage.node (record (fresh Kind.unary_app ty) { unary_op = unary_op_model op })
          (one (residual_from_inner a))
    residual_from_inner (CoreResidual.binary_app op a b ty) =
        ResidualMessage.node (record (fresh Kind.binary_app ty) { binary_op = binary_op_model op })
          (two (residual_from_inner a) (residual_from_inner b))
    residual_from_inner (CoreResidual.get_attr a attr ty) =
        ResidualMessage.node (record (fresh Kind.get_attr ty) { attr = attr })
          (one (residual_from_inner a))
    residual_from_inner (CoreResidual.has_attr a attr ty) =
        ResidualMessage.node (record (fresh Kind.has_attr ty) { attr = attr })
          (one (residual_from_inner a))
    residual_from_inner (CoreResidual.ext_has_attr a attrs ty) =
        ResidualMessage.node (record (fresh Kind.ext_has_attr ty) { attrs = attrs })
          (one (residual_from_inner a))
    residual_from_inner (CoreResidual.like a p ty) =
        ResidualMessage.node (record (fresh Kind.like ty) { pattern = map m.pattern_from p })
          (one (residual_from_inner a))
    residual_from_inner (CoreResidual.is_of a name ty) =
        ResidualMessage.node
          (record (fresh Kind.is_of ty) { entity_type = some (m.name_from name) })
          (one (residual_from_inner a))
    residual_from_inner (CoreResidual.set items ty) =
        ResidualMessage.node (fresh Kind.set ty) (children_from items)
    residual_from_inner (CoreResidual.record_of attrs ty) =
        ResidualMessage.node (record (fresh Kind.record_of ty) { field_names = keys attrs })
          (values_from attrs)
    residual_from_inner (CoreResidual.call name args ty) =
        ResidualMessage.node (record (fresh Kind.call ty) { fn_name = some (m.name_from name) })
          (children_from args)

    pub children_from : CoreResiduals m → ResidualMessages m
    children_from CoreResiduals.no_residuals = ResidualMessages.no_children
    children_from (CoreResiduals.residual r rest) =
        ResidualMessages.child (residual_from_inner r) (children_from rest)

    -- `attrs.values().map(child)`
    pub values_from : CoreFields m → ResidualMessages m
    values_from CoreFields.no_fields = ResidualMessages.no_children
    values_from (CoreFields.field k r rest) =
        ResidualMessages.child (residual_from_inner r) (values_from rest)

  -- `ResidualReauthorizationRequest`
  module _ (r : RequestModels) where
    pub record ReauthorizationRequest : Type 0 where
      pub residual : Option (ResidualMessage m)
      pub request : Option r.RequestModel
      pub entities : Option r.EntitiesModel
      pub expected_value : Option m.ExprModel
      pub expects_error : Bool

    -- The expected result is a value, or an error of which nothing is known.
    unfoldable pub reauthorization_request :
        CoreResidual m → r.Request → r.Entities → Unit {0} ⊎ m.Value → ReauthorizationRequest
    reauthorization_request whole request entities (inr v) = record {
      residual = some (residual_from_inner whole);
      request = some (r.request_from request);
      entities = some (r.entities_from entities);
      expected_value = some (m.value_from v);
      expects_error = false;
    }
    reauthorization_request whole request entities (inl e) = record {
      residual = some (residual_from_inner whole);
      request = some (r.request_from request);
      entities = some (r.entities_from entities);
      expected_value = none;
      expects_error = true;
    }
