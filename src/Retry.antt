-- ===== src/Retry.antt =====
-- reapi/retry/retry.go: calls that are made again after an error that may pass.
pub mod Calls
pub mod Attempts
mod Samples
