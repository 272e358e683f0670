-- ===== src/Version/Order.antt =====
-- What the comparison operators of a version mean.
use yee_z_privacy_computing.Base.{ℕ, ◌≤◌, ◌<◌, ◌^◌, ◌≡◌, ◌↔◌, ◌⊎◌, true, false, arith}
use yee_z_privacy_computing.Version.{Version, IsVersion, of_data, data_of, lt, gt, ge, le, eq, ne}

-- Reading back the 64-bit word gives the three numbers, and writing them again the word.
pub of_data-data_of :
    (v : Version) (d : ℕ)
    → IsVersion v
    → d < 2 ^ 64
    → (of_data (data_of v) ≡ v) × (data_of (of_data d) ≡ d)
unfolding of_data data_of
of_data-data_of v d h f = ground arith

-- `<=` holds exactly if no component of the first version exceeds that of the second.
pub le_iff :
    (v w : Version)
    → (le v w ≡ true) ↔ (
        (v.major_version ≤ w.major_version)
        × (v.minor_version ≤ w.minor_version)
        × (v.patch_version ≤ w.patch_version))
unfolding le
le_iff v w = ground arith

-- `==` holds exactly for equal versions, and `!=` is its negation.
pub eq_iff : (v w : Version) → ((eq v w ≡ true) ↔ (v ≡ w)) × ((ne v w ≡ false) ↔ (v ≡ w))
unfolding ne
eq_iff v w = ground arith

-- Where a smaller major version comes with a larger minor or patch version, each version is both
-- `<` and `>` the other, and neither `<=` nor `>=` holds.
pub lt_both_ways :
    (v w : Version)
    → v.major_version < w.major_version
    → (w.minor_version < v.minor_version) ⊎ (w.patch_version < v.patch_version)
    → (lt v w ≡ true) × (gt v w ≡ true) × (le v w ≡ false) × (ge v w ≡ false)
unfolding le ge
lt_both_ways v w h k = ground arith
