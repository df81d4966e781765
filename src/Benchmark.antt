-- ===== src/Benchmark.antt =====
-- tools/qualification-benchmark.py: the workloads, the thresholds and the run.
pub mod Workload
pub mod Violations
pub mod Main
pub mod Envoy
pub mod Markdown
pub mod Usage
mod Tests
