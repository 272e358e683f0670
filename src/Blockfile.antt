-- ===== src/Blockfile.antt =====
-- include/ypc/corecommon/blockfile: the file of length-prefixed items behind every sealed file.
-- Stream is std::fstream as the block files use it, Codec the bytes of the structs, Tail the class
-- `blockfile_impl_r` of blockfile_base_r.h, whose block table and header stand behind the items.
pub mod Stream
pub mod Codec
pub mod Result
pub mod Tail
