-- ===== src/Bytes/Hex/RoundTrip.antt =====
-- Hexadecimal there and back.
use Prim.Native.Nat.{bit_and}
use yee_z_privacy_computing.Base.{
  Bool-cases, inl, inr, ℕ, zero, suc, ◌+◌, ◌-◌, ◌*◌, ◌/◌, ◌%◌, ◌≤◌, ◌<◌, ◌≡◌, refl, ap, ◌⊎◌, Bool,
  true, false, some, [], ◌∷◌, arith, Bytes, IsByte, ltb, ◌==◌, if◌then◌else◌, ==_iff, length, All,
}
use yee_z_privacy_computing.Bytes.Hex.{
  to_hex, hex2dec, bytes_to_hex_loop, hex_to_bytes_loop, as_hex_bytes, as_raw_bytes,
}

-- The values from `n - 1` down to 0 all pass a test.
passes_down : (ℕ → Bool) → ℕ → Bool
passes_down test zero = true
passes_down test (suc k) = if test k then passes_down test k else false

passes_down_at : (test : ℕ → Bool) (n b : ℕ) → b < n → passes_down test n ≡ true → test b ≡ true
unfolding passes_down
passes_down_at test zero b lt e = absurd (omega arith)
passes_down_at test (suc k) b lt e = elim (Bool-cases (b == k)) [
  | inl last ↦ rw ((==_iff b k).0 last) (ground arith)
  | inr earlier ↦ passes_down_at test k b (ground arith) (ground arith)
]

low_digit : (b : ℕ) → b < 256 → bit_and b 0x0f ≡ b % 16
unfolding passes_down
low_digit b h = (==_iff _ _).0 (passes_down_at (λ d. bit_and d 0x0f == d % 16) 256 b h refl)

-- The digit of a value below 16, and its value.
abbrev pub digit : ℕ → ℕ
digit d = if ltb d 10 then b'0' + d else b'a' + d - 10

abbrev pub IsDigit : ℕ → Type 0
IsDigit c = ((b'0' ≤ c) × (c ≤ b'9')) ⊎ ((b'a' ≤ c) × (c ≤ b'f'))

hex2dec-digit : (d : ℕ) → d < 16 → hex2dec (digit d) ≡ some d
unfolding hex2dec
hex2dec-digit d h = ground arith

to_hex-digits : (b : ℕ) → b < 256 → to_hex b ≡ some (digit (b / 16), digit (b % 16))
unfolding to_hex
to_hex-digits b h = rw low_digit (ground arith)

-- The digits of a byte string, two for each byte.
hex_digits : Bytes → Bytes
hex_digits [] = []
hex_digits (b ∷ s) = digit (b / 16) ∷ digit (b % 16) ∷ hex_digits s

bytes_to_hex_loop-digits : (s : Bytes) → All IsByte s → bytes_to_hex_loop s ≡ some (hex_digits s)
unfolding bytes_to_hex_loop hex_digits
bytes_to_hex_loop-digits [] h = refl
bytes_to_hex_loop-digits (b ∷ s) (hb, hs) = rw (to_hex-digits b hb, bytes_to_hex_loop-digits s hs)

hex_digits_shape :
    (s : Bytes) → All IsByte s → (length (hex_digits s) ≡ 2 * length s) × All IsDigit (hex_digits s)
unfolding hex_digits
hex_digits_shape [] h = omega arith
hex_digits_shape (b ∷ s) (hb, hs) = ground (arith, hex_digits_shape s hs)

hex_to_bytes_loop-digits : (s : Bytes) → All IsByte s → hex_to_bytes_loop (hex_digits s) ≡ some s
unfolding hex_to_bytes_loop hex_digits
hex_to_bytes_loop-digits [] h = refl
hex_to_bytes_loop-digits (b ∷ s) (hb, hs) =
    rw
      (
        hex2dec-digit (b / 16) (omega arith),
        hex2dec-digit (b % 16) (omega arith),
        hex_to_bytes_loop-digits s hs,
      )
      (ap (λ (x : ℕ). some (x ∷ s)) (omega arith))

-- `as<hex_bytes>()` never fails on a byte string: it gives two lower-case digits for each byte, and
-- `as<bytes>()` reads the byte string back from them.
pub as_raw_bytes-as_hex_bytes :
    (s : Bytes)
    → All IsByte s
    → (t : Bytes) × (as_hex_bytes s ≡ some t)
      × (length t ≡ 2 * length s)
      × All IsDigit t
      × (as_raw_bytes t ≡ some s)
unfolding as_hex_bytes as_raw_bytes
as_raw_bytes-as_hex_bytes s h =
    let (len, shape) = hex_digits_shape s h in
    (
      hex_digits s,
      ground (arith, bytes_to_hex_loop-digits s h),
      len,
      shape,
      ground (arith, hex_to_bytes_loop-digits s h, len),
    )
