-- ===== src/Analysis/Returned/Run.antt =====
-- cedar-lean-cli/src/analysis.rs: the computing of the findings ends, with findings or with an error of a
-- call.
use cedar_spec.Cedar.{Cedar}
