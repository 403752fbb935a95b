-- ===== src/Benchmark.antt =====
-- cedar-benchmarking: the statistics of timed runs and the comparison of two runs.
pub mod Timing
pub mod Compare
