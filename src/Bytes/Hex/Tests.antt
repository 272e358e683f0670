-- ===== src/Bytes/Hex/Tests.antt =====
-- Hexadecimal digits of three bytes.
use yee_z_privacy_computing.Base.{◌*◌, ◌≡◌, some, [], ◌∷◌, arith, Bytes, IsByte, length, All}
use yee_z_privacy_computing.Bytes.Hex.{as_hex_bytes, as_raw_bytes}
use yee_z_privacy_computing.Bytes.Hex.RoundTrip.{IsDigit, as_raw_bytes-as_hex_bytes}

abbrev three : Bytes
three = 0 ∷ 171 ∷ 255 ∷ []

three-IsByte : All IsByte three
three-IsByte = (omega arith, (omega arith, (omega arith, tt)))

as_raw_bytes-as_hex_bytes_example :
    (t : Bytes) × (as_hex_bytes three ≡ some t)
    × (length t ≡ 2 * length three)
    × All IsDigit t
    × (as_raw_bytes t ≡ some three)
as_raw_bytes-as_hex_bytes_example = as_raw_bytes-as_hex_bytes three three-IsByte
