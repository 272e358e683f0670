-- ===== src/Version/Tests.antt =====
-- Versions 2.3.4 and 1.9.0.
use yee_z_privacy_computing.Base.{◌≡◌, inl, true, false, arith}
use yee_z_privacy_computing.Version.{Version, lt, gt, ge, le}
use yee_z_privacy_computing.Version.Order.{lt_both_ways}

abbrev two : Version
two = record { major_version = 2; minor_version = 3; patch_version = 4 }

abbrev one : Version
one = record { major_version = 1; minor_version = 9; patch_version = 0 }

lt_both_ways_example :
    (lt one two ≡ true) × (gt one two ≡ true) × (le one two ≡ false) × (ge one two ≡ false)
lt_both_ways_example = lt_both_ways one two (omega arith) (inl (omega arith))
