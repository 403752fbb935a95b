-- ===== src/Lib.antt =====
-- A verification library for the Rust code around the Lean formalization of Cedar: the command line
-- tool that analyses policies with the symbolic compiler, the bindings of the Lean code (the messages that are
-- sent, the calls, the data that comes back, and the references to objects of the Lean runtime), the generator
-- of entity hierarchies and the checks of schemas and policy sets for differential testing, and the statistics
-- of the benchmarks.
--
-- Parts and files. Paths are from the root of the repository.
-- - Base: lists and tests on native numbers, association lists (Base/Assoc) for hash maps and sets, and
--   the outcome type `Exec` of fallible code: a value, a returned error, or a panic. A hash map is a list
--   of entries in insertion order, so an iteration has one fixed order; a hash set is a list of keys.
-- - Cedar: what the code takes from the crate `cedar_policy` (`Cedar`), and the solver's calls, which
--   reach the Lean code (`LeanFfi`). Both are parameters of the model; what is documented of them is
--   in the records `EnvLaws`, `CombinationLaws`, `SolverLaws` and `CexLaws`.
-- - Cli: cedar-lean-cli/src/err.rs (Cli/Err) and the request environments of
--   cedar-lean-cli/src/util.rs (Cli/RequestEnvs): `OpenRequestEnv`, with `new` as `open_request_env`
--   and the nested loops of `to_request_envs` as one function for each.
-- - Cli/Inputs: the parsers of files and arguments of cedar-lean-cli/src/util.rs, with `ContextArg` and
--   `RequestArgsEnum` of cedar-lean-cli/src/cli_enums.rs; `ContextArg::parse` is `parse_context` and
--   `RequestArgsEnum::parse` is `parse_request`. The proofs are in Cli/Inputs/Loading.
-- - Cli/Checks: the commands of cedar-lean-cli/src/symcc.rs that ask the solver about each request environment,
--   whose shared body is `run_checks`, and what they report (Cli/Checks/Reports).
-- - Analysis: cedar-lean-cli/src/analysis.rs. `Analyzer::policy_vacuous` and `policyset_vacuous`
--   (Analysis/Vacuity), the three `compute_…_result` (Analysis/Shadowing), `update_findings`
--   (Analysis/Update), the loop over the pairs of policies (Analysis/Pairs), `PerSigFindings::new` and
--   `AnalyzePolicyFindings::new` (Analysis/Report), `analyze_policyset` up to the printing of its findings, as
--   `policyset_findings`, there too, and `compare_policysets` (Analysis/Compare). The other modules hold the proofs: Verdicts and Meaning on the
--   solver's answers, Marks, Compared, Overridden and Documented on one pair of policies, Loop on all pairs (with its
--   children, one for each map of findings), Signatures and Classes on the reading of the maps, Reports and
--   NoPanic on a whole run, Returned on the calls that fail. `Analyzer` holds the solver and the schema,
--   which are arguments here.
-- - Hierarchy: cedar-policy-generators/src/hierarchy.rs: `Hierarchy` with its index by type
--   (Hierarchy/Index), `from_uids_by_type` (Hierarchy/Shuffle) and the choice of parents in
--   `HierarchyGenerator::generate` (Hierarchy/Acyclic). The random source of the crate `arbitrary` is
--   threaded as a state.
-- - LeanObject: cedar-lean-ffi/src/lean_object.rs: the views of an object (LeanObject/Views) and the
--   ownership of references (LeanObject/Counts), where the three `call_lean_ffi_…function` are one
--   operation on a list of arguments.
-- - Datatypes: cedar-lean-ffi/src/datatypes.rs, the terms that are exchanged with Lean. The types of the
--   file are in Datatypes/Ffi, those of cedar_policy_symcc, with the variants that its exhaustive matches
--   name, in Datatypes/Symcc, and what else other crates provide in the record `Crate`, whose laws are in
--   `RoundTrips`. A conversion of the file towards the crate is `…_from` or `…_try_from`, one
--   towards Lean `…_into` (Types, Ops, Prims, Terms, each with its RoundTrip). Sharing holds
--   `TermDefBody::resolve` and the conversion of `CseTerm`, and the terms that these stand for. An `Arc` is
--   its content, a `BTreeMap` or a `BTreeSet` its entries in order (Base/Ordered).
-- - Datatypes/Values and Datatypes/Counterexamples: the values, requests and entities of Lean in
--   cedar-lean-ffi/src/datatypes.rs, and their conversions to expressions of the crate,
--   whose names end in `into_expr` or `try_into`. Numerals are written
--   and parsed in Datatypes/Numerals, as the standard library does. Datatypes/Residuals holds the residuals of
--   cedar-lean-ffi/src/datatypes/tpe.rs, Datatypes/Pst the syntax tree of the crate, as far as the code names it,
--   and Datatypes/Convert module `convert`, with its proofs in Datatypes/Convert/Converts.
-- - Messages: cedar-lean-ffi/src/messages.rs: the messages for terms (Messages/Terms), for requests
--   (Messages/Requests), for partial requests and entities (Messages/Partial, Messages/PartialRequests) and for
--   residuals (Messages/Residuals), over the messages that the crate makes. `proto::T::new` is `…_message` or
--   `…_request`. The readers of Messages/Terms/Reading, Messages/Partial/Reading,
--   Messages/Residuals/Reading and Messages/Asserts follow the format in
--   cedar-lean-ffi/protobuf_schema/Messages.proto and are not code of the repository.
-- - Client: the calls of the Lean functions in cedar-lean-ffi/src/lean_ffi.rs and
--   cedar-lean-ffi/src/lean_ffi/tpe.rs (Client/Calls and its children: Solver, one pair of
--   functions for each macro, Engine and Partial), the responses of
--   cedar-lean-ffi/src/datatypes.rs and cedar-lean-ffi/src/datatypes/tpe.rs and the errors of
--   cedar-lean-ffi/src/err.rs (Client/Responses). The reader of a response, which serde derives, is a
--   parameter and gives the text of its failure. Client/Outcomes holds the proofs.
-- - Benchmark: `TimingInfo::from_runs` of cedar-benchmarking/src/output.rs (Benchmark/Timing) and
--   cedar-benchmarking/src/compare.rs (Benchmark/Compare, with its proofs in
--   Benchmark/Compare/Matching and Benchmark/Compare/Regressions).
--   A difference of type `i128` is its two's complement pattern.
-- - Schemas: cedar-drt/fuzz/src/schemas.rs, the check that two schema fragments are equivalent: the checks of
--   sets, maps and annotations (Schemas), of types (Schemas/Types), and of declarations, namespaces and
--   fragments (Schemas/Declarations). Each `impl Equiv for T` is one function; Symmetric, Fragments and
--   Reflexive hold the proofs.
-- - PstEquiv: cedar-drt/fuzz/src/pst_equiv.rs, the checks that policy sets are equivalent after a round trip
--   through another format; PstEquiv/Passes says when they pass. `CheckingParams` is its one field.
-- - Tests: small instances of the parameters and the theorems applied to them.
--
-- Bounds and fuel. The loop of `PerSigFindings::new` runs on fuel, the number of entries of the map;
-- each round removes an entry at least, so it is enough. The digits of a number n are written on fuel n + 1,
-- which exceeds their number. Every other loop is over a list.
-- Sums of run times are of type `u128` and wrap at 2 ^ 128. `usize` counters of findings and of places
-- are unbounded, since they count elements in memory.
--
-- Not modelled: what is printed, also the printing of the findings as JSON, whose serializers unwrap the text
-- of each policy, the encoding of messages, the start of the Lean
-- runtime, the other commands of the command line tool, the attributes and tags of generated entities (a step of the
-- caller's), the generators of random syntax, floating-point arithmetic, the `debug_assert` of
-- `replace_entities` (its condition is a hypothesis where it matters), the fuzz targets and the Lean sources.
pub mod Base
pub mod Cedar
pub mod Datatypes
pub mod Client
pub mod Messages
pub mod Schemas
pub mod PstEquiv
pub mod Cli
pub mod Analysis
pub mod Hierarchy
pub mod LeanObject
pub mod Benchmark
pub mod Tests
