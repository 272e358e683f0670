-- ===== src/Bytes/Hex.antt =====
-- include/ypc/common/byte/bytes_common.h: hexadecimal digits, and the two loops that convert a
-- buffer; `as<hex_bytes>()` and `as<bytes>()` of include/ypc/common/byte/bytes.h.
pub mod RoundTrip
mod Tests
use Prim.Native.Nat.{bit_and}
use yee_z_privacy_computing.Base.{
  ℕ, ◌+◌, ◌-◌, ◌*◌, ◌/◌, ◌%◌, ◌^◌, ◌&&◌, Option, none, some, [], ◌∷◌, Bytes, ltb, leb,
  if◌then◌else◌, length,
}

-- An exception `std::invalid_argument` is `none`.
infixl 5 ◌>>=◌
abbrev ◌>>=◌ : {A B : Type 0} → Option A → (A → Option B) → Option B
none >>= f = none
some a >>= f = f a

dec2hex : ℕ → Option ℕ
dec2hex dec =
    if leb 16 dec
    then none
    else if leb 0 dec && leb dec 9
    then some (b'0' + dec)
    else some (b'a' + dec - 10)

-- The two digits of a byte, high one first.
to_hex : ℕ → Option (ℕ × ℕ)
unfolding dec2hex
to_hex num = do low ← dec2hex (bit_and num 0x0f); high ← dec2hex (num / 2 ^ 4); some (high, low)

hex2dec : ℕ → Option ℕ
hex2dec hex =
    if leb b'0' hex && leb hex b'9'
    then some (hex - b'0')
    else if leb b'A' hex && leb hex b'F'
    then some (hex - b'A' + 10)
    else if leb b'a' hex && leb hex b'f'
    then some (hex - b'a' + 10)
    else none

-- The `for` loop of `convert_bytes_to_hex` over the bytes that are left.
bytes_to_hex_loop : Bytes → Option Bytes
unfolding to_hex
bytes_to_hex_loop [] = some []
bytes_to_hex_loop (b ∷ s) = do
  (high, low) ← to_hex b
  rest ← bytes_to_hex_loop s
  some (high ∷ low ∷ rest)

-- `convert_bytes_to_hex` into a buffer of `len` bytes: `none` if that is too small. What the
-- buffer holds behind the digits stays as it was and is not shown.
pub convert_bytes_to_hex : Bytes → ℕ → Option Bytes
unfolding bytes_to_hex_loop
convert_bytes_to_hex s len = if ltb len (2 * length s) then none else bytes_to_hex_loop s

-- The `while` loop of `convert_hex_to_bytes`: a digit without a partner at the end is left out.
hex_to_bytes_loop : Bytes → Option Bytes
unfolding hex2dec
hex_to_bytes_loop [] = some []
hex_to_bytes_loop (a ∷ []) = some []
hex_to_bytes_loop (a ∷ b ∷ s) = do
  high ← hex2dec a
  low ← hex2dec b
  rest ← hex_to_bytes_loop s
  some (((high * 2 ^ 4 % 256 + low) % 256) ∷ rest)

pub convert_hex_to_bytes : Bytes → ℕ → Option Bytes
unfolding hex_to_bytes_loop
convert_hex_to_bytes s len = if ltb len (length s / 2) then none else hex_to_bytes_loop s

-- `as<hex_bytes>()` on raw bytes, and `as<bytes>()` on hexadecimal bytes.
pub as_hex_bytes : Bytes → Option Bytes
unfolding convert_bytes_to_hex
as_hex_bytes v = convert_bytes_to_hex v (length v * 2)

pub as_raw_bytes : Bytes → Option Bytes
unfolding convert_hex_to_bytes
as_raw_bytes v = convert_hex_to_bytes v (length v / 2)
