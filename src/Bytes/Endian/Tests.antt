-- ===== src/Bytes/Endian/Tests.antt =====
-- Three bytes of five, turned round.
use yee_z_privacy_computing.Base.{
  ℕ, ◌+◌, ◌-◌, ◌*◌, ◌≡◌, ◌&&◌, [], ◌∷◌, arith, Bytes, ltb, leb, if◌then◌else◌, length,
}
use yee_z_privacy_computing.Bytes.Endian.{byte_at, endian_swap}
use yee_z_privacy_computing.Bytes.Endian.Turned.{endian_swap_lem}

abbrev five_bytes : Bytes
five_bytes = 10 ∷ 11 ∷ 12 ∷ 13 ∷ 14 ∷ []

endian_swap_lem_example :
    (length (endian_swap five_bytes 1 3) ≡ 5)
    × ((k : ℕ)
        → byte_at (endian_swap five_bytes 1 3) k ≡ (
            if leb 1 k && ltb k (1 + 3)
            then byte_at five_bytes (2 * 1 + 3 - 1 - k)
            else byte_at five_bytes k))
endian_swap_lem_example = endian_swap_lem five_bytes 1 3 (omega arith) (omega arith)
