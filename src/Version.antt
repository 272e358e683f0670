-- ===== src/Version.antt =====
-- include/ypc/common/version.h: a version as three numbers in one 64-bit word, and its comparisons.
pub mod Order
mod Tests
use yee_z_privacy_computing.Base.{
  ℕ, ◌+◌, ◌*◌, ◌/◌, ◌%◌, ◌^◌, ◌<◌, Bool, true, false, not, ◌&&◌, ltb, if◌then◌else◌,
}

-- `_version_detail`: a uint32_t and two uint16_t, low bytes first in the union with `m_data`.
pub record Version : Type 0 where
  pub major_version : ℕ
  pub minor_version : ℕ
  pub patch_version : ℕ

pub record IsVersion (v : Version) : Type 0 where
  pub major_fits : v.major_version < 2 ^ 32
  pub minor_fits : v.minor_version < 2 ^ 16
  pub patch_fits : v.patch_version < 2 ^ 16

-- `version(uint64_t data)` and `data()` go through the union.
pub of_data : ℕ → Version
of_data d = record {
  major_version = d % 2 ^ 32;
  minor_version = d / 2 ^ 32 % 2 ^ 16;
  patch_version = d / 2 ^ 48 % 2 ^ 16;
}

pub data_of : Version → ℕ
data_of v = v.major_version + v.minor_version * 2 ^ 32 + v.patch_version * 2 ^ 48

pub lt : Version → Version → Bool
lt v1 v2 =
    if ltb v1.major_version v2.major_version
    then true
    else if ltb v1.minor_version v2.minor_version
    then true
    else if ltb v1.patch_version v2.patch_version
    then true
    else false

pub gt : Version → Version → Bool
unfolding lt
gt v1 v2 = lt v2 v1

pub ge : Version → Version → Bool
unfolding lt
ge v1 v2 = not (lt v1 v2)

pub le : Version → Version → Bool
unfolding gt
le v1 v2 = not (gt v1 v2)

pub eq : Version → Version → Bool
unfolding ge
eq v1 v2 = ge v1 v2 && ge v2 v1

pub ne : Version → Version → Bool
unfolding eq
ne v1 v2 = not (eq v1 v2)
