-- ===== src/Bytes/Endian.antt =====
-- include/ypc/common/endian.h: `endian_swap`, which turns a part of a buffer round in place.
pub mod Turned
mod Tests
use yee_z_privacy_computing.Base.{ℕ, zero, suc, ◌+◌, ◌-◌, ◌/◌, [], ◌∷◌, Bytes, length}

-- `data[i]` and `data[i] = b`. Out of range both are undefined, here 0 and nothing.
abbrev pub byte_at : Bytes → ℕ → ℕ
byte_at [] i = 0
byte_at (b ∷ data_bytes) zero = b
byte_at (b ∷ data_bytes) (suc i) = byte_at data_bytes i

abbrev pub set_byte : Bytes → ℕ → ℕ → Bytes
set_byte [] i x = []
set_byte (b ∷ data_bytes) zero x = x ∷ data_bytes
set_byte (b ∷ data_bytes) (suc i) x = b ∷ set_byte data_bytes i x

-- The loop body, for the positions `start + i` and `end - i`.
unfoldable pub swap_bytes : Bytes → ℕ → ℕ → Bytes
swap_bytes p_data low high =
    set_byte (set_byte p_data low (byte_at p_data high)) high (byte_at p_data low)

-- The loop, with `left` rounds to go.
unfoldable pub swap_loop : (left : ℕ) → ℕ → ℕ → ℕ → Bytes → Bytes
swap_loop zero i start end p_data = p_data
swap_loop (suc left) i start end p_data =
    swap_loop left (i + 1) start end (swap_bytes p_data (start + i) (end - i))

-- `endian_swap(pData, start_index, length)`, for an index and a length below 2 ^ 31.
unfoldable pub endian_swap : Bytes → ℕ → ℕ → Bytes
endian_swap p_data start_index len =
    swap_loop (len / 2) 0 start_index (start_index + len - 1) p_data

-- `endian_swap(Bytes &)`.
abbrev pub endian_swap_all : Bytes → Bytes
endian_swap_all data_bytes = endian_swap data_bytes 0 (length data_bytes)
