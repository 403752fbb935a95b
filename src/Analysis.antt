-- ===== src/Analysis.antt =====
-- cedar-lean-cli/src/analysis.rs: analyses of policy sets on top of the solver.
pub mod Vacuity
pub mod Shadowing
pub mod Update
pub mod Marks
pub mod Pairs
pub mod Compared
pub mod Report
pub mod NoPanic
pub mod Classes
pub mod Verdicts
pub mod Meaning
pub mod Compare
pub mod Overridden
pub mod Documented
pub mod Combinations
pub mod Loop
pub mod Signatures
pub mod Reports
pub mod Returned
