-- ===== src/Tests.antt =====
-- The theorems at concrete inputs: small instances of the crates' types, of the solver and of the
-- random source, and each theorem applied to them.
mod Samples
mod Policies
mod Pools
mod Loads
mod Runs
mod Objects
mod Shared
mod Fragments
mod Calls
mod Answers
mod PolicySets
mod Checks
mod Analyses
