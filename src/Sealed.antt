-- ===== src/Sealed.antt =====
-- Sealing a data set and reading it back: toolkit/datahub/main.cpp writes batches of items, encrypted,
-- into a block file, and include/ypc/core_t/analyzer/sealed_data_provider.h gives an analyzer the items
-- one by one. Both chain a hash over the items.
pub mod Library
pub mod Writer
pub mod Provider
pub mod RawProvider
pub mod Batches
pub mod Sealing
pub mod Steps
pub mod Draining
pub mod EndToEnd
mod Tests
