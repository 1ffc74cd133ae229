-- ===== src/Tests.antt =====
-- Test data, and the theorems at concrete inputs.
mod Resources
mod Work
mod Scheduling
mod Evidence
mod Verdicts
