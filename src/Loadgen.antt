-- ===== src/Loadgen.antt =====
-- scripts/loadgen.py, which measures the gateway or the upstream behind it under some load.
pub mod Percentile
pub mod Requests
pub mod Levels
mod Examples
