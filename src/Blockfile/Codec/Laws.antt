-- ===== src/Blockfile/Codec/Laws.antt =====
-- What is written is read back.
use yee_z_privacy_computing.Base.{
  ℕ, zero, suc, ◌+◌, ◌/◌, ◌^◌, ◌<◌, ◌≡◌, refl, ap, ◌++◌, arith, Bytes, length, take,
}
use native.Mathlib.Nat.{pow-suc}
use yee_z_privacy_computing.Blockfile.Codec.{
  le_bytes, of_le_bytes, u64_bytes, BlockInfo, Header, block_info_bytes, block_info_of,
  header_bytes, header_of,
}

pub length-le_bytes : (n x : ℕ) → length (le_bytes n x) ≡ n
unfolding le_bytes
length-le_bytes zero x = refl
length-le_bytes (suc n) x = ap suc (length-le_bytes n (x / 256))

pub of_le_bytes-le_bytes : (n x : ℕ) → x < 256 ^ n → of_le_bytes (le_bytes n x) ≡ x
unfolding le_bytes of_le_bytes
of_le_bytes-le_bytes zero x h = omega arith
of_le_bytes-le_bytes (suc n) x h =
    let fits : x / 256 < 256 ^ n = omega (arith, pow-suc 256 n) in
    omega (arith, of_le_bytes-le_bytes n (x / 256) fits)

of_u64 : (x : ℕ) → x < 2 ^ 64 → of_le_bytes (u64_bytes x) ≡ x
of_u64 x h = of_le_bytes-le_bytes 8 x (omega arith)

pub record BlockInfoFits (b : BlockInfo) : Type 0 where
  pub start_item_fits : b.start_item_index < 2 ^ 64
  pub end_item_fits : b.end_item_index < 2 ^ 64
  pub start_pos_fits : b.start_file_pos < 2 ^ 64
  pub end_pos_fits : b.end_file_pos < 2 ^ 64

pub record HeaderFits (h : Header) : Type 0 where
  pub magic_fits : h.magic_number < 2 ^ 64
  pub version_fits : h.version_number < 2 ^ 64
  pub block_number_fits : h.block_number < 2 ^ 64
  pub item_number_fits : h.item_number < 2 ^ 64

pub length-block_info_bytes : (b : BlockInfo) → length (block_info_bytes b) ≡ 32
unfolding block_info_bytes le_bytes
length-block_info_bytes b = refl

pub block_info_of-block_info_bytes :
    (b : BlockInfo) → BlockInfoFits b → block_info_of (block_info_bytes b) ≡ b
unfolding block_info_bytes block_info_of le_bytes
block_info_of-block_info_bytes b f = λ i. record {
  start_item_index = of_u64 b.start_item_index f.start_item_fits i;
  end_item_index = of_u64 b.end_item_index f.end_item_fits i;
  start_file_pos = of_u64 b.start_file_pos f.start_pos_fits i;
  end_file_pos = of_u64 b.end_file_pos f.end_pos_fits i;
}

pub length-header_bytes : (h : Header) → length (header_bytes h) ≡ 32 + length h.data_hash
unfolding header_bytes le_bytes
length-header_bytes h = omega arith

pub header_of-header_bytes : (h : Header) → HeaderFits h → header_of (header_bytes h) ≡ h
unfolding header_bytes header_of le_bytes
header_of-header_bytes h f = λ i. record {
  magic_number = of_u64 h.magic_number f.magic_fits i;
  version_number = of_u64 h.version_number f.version_fits i;
  block_number = of_u64 h.block_number f.block_number_fits i;
  item_number = of_u64 h.item_number f.item_number_fits i;
  data_hash = h.data_hash;
}

-- The first eight bytes of anything that begins with a number.
pub of_u64_prefix :
    (x : ℕ) (rest : Bytes) → x < 2 ^ 64 → of_le_bytes (take 8 (u64_bytes x ++ rest)) ≡ x
unfolding le_bytes
of_u64_prefix x rest h = of_u64 x h
