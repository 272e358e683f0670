-- ===== src/Blockfile/Codec.antt =====
-- The bytes of the structs that the block files write by `(char *)&x`: include/ypc/corecommon/
-- blockfile/blockfile_interface.h (`block_info`), blockfile_v1.h and blockfile_v2.h (the headers). A
-- uint64_t is eight bytes, the low one first; a file position is the pattern of a `long int`.
pub mod Laws
use yee_z_privacy_computing.Base.{
  ℕ, zero, suc, ◌+◌, ◌*◌, ◌/◌, ◌%◌, [], ◌∷◌, ◌++◌, Bytes, if◌then◌else◌, take, drop,
}

-- The low `n` bytes of a number.
unfoldable pub le_bytes : ℕ → ℕ → Bytes
le_bytes zero x = []
le_bytes (suc n) x = x % 256 ∷ le_bytes n (x / 256)

unfoldable pub of_le_bytes : Bytes → ℕ
of_le_bytes [] = 0
of_le_bytes (b ∷ bs) = b + 256 * of_le_bytes bs

abbrev pub u64_bytes : ℕ → Bytes
u64_bytes x = le_bytes 8 x

pub record BlockInfo : Type 0 where
  pub start_item_index : ℕ
  pub end_item_index : ℕ
  pub start_file_pos : ℕ
  pub end_file_pos : ℕ

-- `data_hash` has 32 bytes in version 2 and none in version 1.
pub record Header : Type 0 where
  pub magic_number : ℕ
  pub version_number : ℕ
  pub block_number : ℕ
  pub item_number : ℕ
  pub data_hash : Bytes

abbrev pub sizeof_block_info : ℕ
sizeof_block_info = 32

unfoldable pub block_info_bytes : BlockInfo → Bytes
block_info_bytes b =
    u64_bytes b.start_item_index
    ++ (u64_bytes b.end_item_index ++ (u64_bytes b.start_file_pos ++ u64_bytes b.end_file_pos))

unfoldable pub block_info_of : Bytes → BlockInfo
unfolding of_le_bytes
block_info_of s = record {
  start_item_index = of_le_bytes (take 8 s);
  end_item_index = of_le_bytes (take 8 (drop 8 s));
  start_file_pos = of_le_bytes (take 8 (drop 16 s));
  end_file_pos = of_le_bytes (take 8 (drop 24 s));
}

unfoldable pub header_bytes : Header → Bytes
header_bytes h =
    u64_bytes h.magic_number
    ++ (u64_bytes h.version_number
        ++ (u64_bytes h.block_number ++ (u64_bytes h.item_number ++ h.data_hash)))

unfoldable pub header_of : Bytes → Header
unfolding of_le_bytes
header_of s = record {
  magic_number = of_le_bytes (take 8 s);
  version_number = of_le_bytes (take 8 (drop 8 s));
  block_number = of_le_bytes (take 8 (drop 16 s));
  item_number = of_le_bytes (take 8 (drop 24 s));
  data_hash = drop 32 s;
}
