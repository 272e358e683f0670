-- ===== src/Bytes/Endian/Turned.antt =====
-- `endian_swap` on a whole buffer turns it round.
use yee_z_privacy_computing.Base.{
  ℕ, zero, suc, ◌+◌, ◌-◌, ◌*◌, ◌/◌, ◌≤◌, ◌<◌, ◌≡◌, refl, ap, ◌∙◌, Bool, true, false, ◌&&◌, ◌||◌, [],
  ◌∷◌, arith, Bytes, ltb, leb, ◌==◌, if◌then◌else◌, length,
}
use yee_z_privacy_computing.Bytes.Endian.{byte_at, set_byte, swap_bytes, swap_loop, endian_swap}

length-set_byte : (xs : Bytes) (i x : ℕ) → length (set_byte xs i x) ≡ length xs
length-set_byte [] i x = refl
length-set_byte (b ∷ xs) zero x = refl
length-set_byte (b ∷ xs) (suc i) x = omega (arith, length-set_byte xs i x)

byte_at-set_byte :
    (xs : Bytes) (i x k : ℕ)
    → i < length xs
    → byte_at (set_byte xs i x) k ≡ (if k == i then x else byte_at xs k)
byte_at-set_byte [] i x k lt = absurd (omega arith)
byte_at-set_byte (b ∷ xs) zero x zero lt = ground arith
byte_at-set_byte (b ∷ xs) zero x (suc k) lt = ground arith
byte_at-set_byte (b ∷ xs) (suc i) x zero lt = ground arith
byte_at-set_byte (b ∷ xs) (suc i) x (suc k) lt = ground (arith, byte_at-set_byte xs i x k)

length-swap_bytes : (xs : Bytes) (low high : ℕ) → length (swap_bytes xs low high) ≡ length xs
unfolding swap_bytes
length-swap_bytes xs low high =
    length-set_byte (set_byte xs low (byte_at xs high)) high (byte_at xs low)
    ∙ length-set_byte xs low (byte_at xs high)

byte_at-swap_bytes :
    (xs : Bytes) (low high k : ℕ)
    → low < length xs
    → high < length xs
    → byte_at (swap_bytes xs low high) k
      ≡ (if k == high then byte_at xs low else if k == low then byte_at xs high else byte_at xs k)
unfolding swap_bytes
byte_at-swap_bytes xs low high k lt lt' =
    byte_at-set_byte (set_byte xs low (byte_at xs high)) high (byte_at xs low) k
      (omega (arith, length-set_byte xs low (byte_at xs high)))
    ∙ ap (λ q. if k == high then byte_at xs low else q)
        (byte_at-set_byte xs low (byte_at xs high) k lt)

length-swap_loop :
    (left i start end : ℕ) (xs : Bytes) → length (swap_loop left i start end xs) ≡ length xs
unfolding swap_loop
length-swap_loop zero i start end xs = refl
length-swap_loop (suc left) i start end xs =
    length-swap_loop left (i + 1) start end (swap_bytes xs (start + i) (end - i))
    ∙ length-swap_bytes xs (start + i) (end - i)

-- The position whose byte the rounds still to go bring to `k`.
abbrev source_at : ℕ → ℕ → ℕ → ℕ → ℕ → ℕ
source_at start end left i k =
    if (leb (start + i) k && ltb k (start + i + left))
      || (leb k (end - i) && ltb end (k + i + left))
    then start + end - k
    else k

moved_on :
    (start end left i k : ℕ)
    → start + 2 * (i + suc left) ≤ suc end
    → (if source_at start end left (i + 1) k == end - i
        then start + i
        else if source_at start end left (i + 1) k == start + i
        then end - i
        else source_at start end left (i + 1) k)
      ≡ source_at start end (suc left) i k
moved_on start end left i k fits = ground arith

chosen_byte :
    (xs : Bytes) (a b : Bool) (p q r : ℕ)
    → (if a then byte_at xs p else if b then byte_at xs q else byte_at xs r)
      ≡ byte_at xs (if a then p else if b then q else r)
chosen_byte xs true b p q r = refl
chosen_byte xs false true p q r = refl
chosen_byte xs false false p q r = refl

byte_at-swap_loop :
    (left i start end k : ℕ) (xs : Bytes)
    → end < length xs
    → start + 2 * (i + left) ≤ suc end
    → byte_at (swap_loop left i start end xs) k ≡ byte_at xs (source_at start end left i k)
unfolding swap_loop
byte_at-swap_loop zero i start end k xs size fits = ap (byte_at xs) (ground arith)
byte_at-swap_loop (suc left) i start end k xs size fits =
    byte_at-swap_loop left (i + 1) start end k (swap_bytes xs (start + i) (end - i))
      (omega (arith, length-swap_bytes xs (start + i) (end - i))) (omega arith)
    ∙ (byte_at-swap_bytes xs (start + i) (end - i) (source_at start end left (i + 1) k)
          (omega arith) (omega arith)
        ∙ (chosen_byte xs _ _ (start + i) (end - i) (source_at start end left (i + 1) k)
            ∙ ap (byte_at xs) (moved_on start end left i k fits)))

turned_at :
    (start len k : ℕ)
    → 0 < len
    → source_at start (start + len - 1) (len / 2) 0 k
      ≡ (if leb start k && ltb k (start + len) then 2 * start + len - 1 - k else k)
turned_at start len k some_byte = ground arith

byte_if :
    (xs : Bytes) (a : Bool) (p q : ℕ)
    → byte_at xs (if a then p else q) ≡ (if a then byte_at xs p else byte_at xs q)
byte_if xs true p q = refl
byte_if xs false p q = refl

-- `endian_swap` on a range inside the buffer turns it round: the byte at each position of the range comes
-- from the position as far from its other end, all other bytes stay where they are, and the length too.
pub endian_swap_lem :
    (data_bytes : Bytes) (start_index len : ℕ)
    → 0 < len
    → start_index + len ≤ length data_bytes
    → (length (endian_swap data_bytes start_index len) ≡ length data_bytes)
      × ((k : ℕ)
          → byte_at (endian_swap data_bytes start_index len) k ≡ (
              if leb start_index k && ltb k (start_index + len)
              then byte_at data_bytes (2 * start_index + len - 1 - k)
              else byte_at data_bytes k))
unfolding endian_swap
endian_swap_lem data_bytes start_index len some_byte fits = (
  length-swap_loop (len / 2) 0 start_index (start_index + len - 1) data_bytes,
  λ k.
      byte_at-swap_loop (len / 2) 0 start_index (start_index + len - 1) k data_bytes (omega arith)
        (omega arith)
      ∙ (ap (byte_at data_bytes) (turned_at start_index len k some_byte)
          ∙ byte_if data_bytes _ (2 * start_index + len - 1 - k) k),
)
