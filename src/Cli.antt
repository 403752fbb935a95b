-- ===== src/Cli.antt =====
-- cedar-lean-cli: errors, the request environments that an analysis ranges over, inputs, and the commands that
-- ask the solver.
pub mod Err
pub mod RequestEnvs
pub mod Inputs
pub mod Checks
