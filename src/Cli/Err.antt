-- ===== src/Cli/Err.antt =====
-- cedar-lean-cli/src/err.rs: the errors of the command line tool. A path and an input are texts,
-- a boxed error and an error of the Lean bindings are types of the caller's.
use Prim.Native.String.{String}

pub data ContentType : Type 0 where
  context entities expression policy policy_set request schema schema_json : ContentType

pub data EntityType : Type 0 where
  principal_type_name action_name resource_type_name : EntityType

pub data RequestElement : Type 0 where
  principal action resource context : RequestElement

pub data ExecError (BoxedError FfiError : Type 0) : Type 0 where
  file_read_error : ContentType → String → BoxedError → ExecError BoxedError FfiError
  parse_error : ContentType → String → BoxedError → ExecError BoxedError FfiError
  rename_id_error : ContentType → String → BoxedError → ExecError BoxedError FfiError
  parse_json_error : ContentType → String → ExecError BoxedError FfiError
  entity_type_error : EntityType → String → BoxedError → ExecError BoxedError FfiError
  request_error : RequestElement → String → BoxedError → ExecError BoxedError FfiError
  policy_into_policy_set_error : BoxedError → ExecError BoxedError FfiError
  internal_analysis_error : BoxedError → ExecError BoxedError FfiError
  request_validation_error : BoxedError → ExecError BoxedError FfiError
  actions_from_schema_error : BoxedError → ExecError BoxedError FfiError
  request_env_args_incompatible : String → String → String → ExecError BoxedError FfiError
  lean_ffi_error : FfiError → ExecError BoxedError FfiError
