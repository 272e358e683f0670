-- ===== src/Analyzer.antt =====
-- The analyzer enclave of include/ypc/core_t/analyzer: how it gets a private key, when it lets an
-- algorithm see the data, and what it makes of the result.
pub mod Ecc
pub mod Keymgr
pub mod Allowance
pub mod Algo
pub mod Results
pub mod Sources
pub mod Wrapper
pub mod Model
pub mod Tests
