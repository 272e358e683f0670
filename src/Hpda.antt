-- ===== src/Hpda.antt =====
-- include/hpda and hpda/src: the engine that pulls rows through a graph of functors. Engine is the
-- graph that it builds, Upper what a processor sees of the streams above it, Sets the three processors
-- on ordered streams, Keys what they compute, seen on the keys alone, Group the processor that groups
-- rows, Stages the processors that pass rows on and Sources the extractors of given rows.
pub mod Sources
pub mod Stages
pub mod Upper
pub mod Engine
pub mod Group
pub mod Keys
pub mod Sets
