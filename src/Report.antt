-- ===== src/Report.antt =====
-- tools/crs-compatibility-report.py: the go-ftw results, and what the report says of them.
pub mod Results
pub mod Qualification
pub mod Rows
pub mod Failures
pub mod Timing
pub mod Run
pub mod Envoy
pub mod Corpus
pub mod Versions
pub mod Summary
pub mod Markdown
mod Tests
