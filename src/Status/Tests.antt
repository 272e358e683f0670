-- ===== src/Status/Tests.antt =====
-- The names of two codes.
use yee_z_privacy_computing.Base.{◌==◌, if◌then◌else◌, ◌≡◌, none}
use Prim.Native.Nat.{bit_and}
use yee_z_privacy_computing.Status.{data_source_not_found}
use yee_z_privacy_computing.Status.Names.{name_or, status_string, status_string_lem}

status_string_lem_example : status_string (λ n. none) data_source_not_found ≡ (
    if bit_and data_source_not_found 0x10000 == 0
    then "unknown stx status"
    else name_or none "unknown sgx status")
status_string_lem_example = status_string_lem (λ n. none) data_source_not_found
