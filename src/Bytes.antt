-- ===== src/Bytes.antt =====
-- include/ypc/common/byte and ypc/common/byte: byte strings, their hexadecimal and base64 forms, and
-- include/ypc/common/endian.h: the order of their bytes.
pub mod Hex
pub mod Endian
