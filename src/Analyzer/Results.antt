-- ===== src/Analyzer/Results.antt =====
-- internal/results: what the analyzer hands out as the result of an algorithm, for each of the classes
-- that `algo_wrapper` takes as `Result`, and var/internal_key_var.h.
pub mod Run
pub mod Signing
pub mod Onchain
pub mod Offchain
pub mod Forward
pub mod Classes
pub mod Opened
pub mod Handed
