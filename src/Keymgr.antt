-- ===== src/Keymgr.antt =====
-- The key manager's enclave, include/ypc/keymgr/default/ekeymgr.ipp, and the test of its peers,
-- ypc/core/src/core_t/ecommon/signer_verify.cpp.
pub mod Policy
pub mod Forward
pub mod Forwarded
pub mod Answers
pub mod Sessions
pub mod Tests
