-- ===== src/Lab.antt =====
-- tools/owasp-crs-lab.py: the web lab's request validation, its runtime and its HTTP API.
pub mod Errors
pub mod Request
pub mod Outgoing
pub mod Access
pub mod Execute
pub mod Api
pub mod Lifecycle
pub mod Envoy
pub mod Upstream
pub mod Concurrent
pub mod Page
pub mod Config
pub mod Bootstrap
mod Tests
