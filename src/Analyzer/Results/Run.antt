-- ===== src/Analyzer/Results/Run.antt =====
-- How a member of a result class ends, and the calls of `Crypto` that it makes.
use yee_z_privacy_computing.Base.{ℕ, ◌≡◌, refl, arith, Bytes, ◌==◌, if◌then◌else◌}
use yee_z_privacy_computing.Status.{success}

-- With a value, with a status other than success, or by a `std::runtime_error` or a null pointer that
-- is followed. What a member has
-- assigned before the latter two is not followed up.
pub data Run {ℓ} (A : Type ℓ) : Type ℓ where
  done : A → Run A
  stopped : ℕ → Run A
  thrown : Run A

infixl 5 ◌>>=◌
abbrev pub ◌>>=◌ {ℓ κ} : {A : Type ℓ} {B : Type κ} → Run A → (A → Run B) → Run B
done a >>= f = f a
stopped n >>= f = stopped n
thrown >>= f = thrown

pub bind_done {ℓ κ} :
    {A : Type ℓ} {B : Type κ} (r : Run A) (f : A → Run B) (b : B)
    → (r >>= f) ≡ done b
    → (a : A) × (r ≡ done a) × (f a ≡ done b)
bind_done (done a) f b e = (a, refl, e)
bind_done (stopped n) f b e = absurd (ground arith)
bind_done thrown f b e = absurd (ground arith)

-- A status and an output, with `if (status != success) return status;` behind it.
abbrev pub or_stop : ℕ × Bytes → Run Bytes
or_stop (status, out) = if status == success then done out else stopped status

-- The same where the status is thrown.
abbrev pub or_throw : ℕ × Bytes → Run Bytes
or_throw (status, out) = if status == success then done out else thrown

pub or_stop_done : (r : ℕ × Bytes) (out : Bytes) → or_stop r ≡ done out → r ≡ (0, out)
or_stop_done (status, o) out e = λ i. (same_status i, same_out i)
  where
    same_status : status ≡ 0
    same_status = ground arith

    same_out : o ≡ out
    same_out = ground arith

pub or_throw_done : (r : ℕ × Bytes) (out : Bytes) → or_throw r ≡ done out → r ≡ (0, out)
or_throw_done (status, o) out e = λ i. (same_status i, same_out i)
  where
    same_status : status ≡ 0
    same_status = ground arith

    same_out : o ≡ out
    same_out = ground arith

-- crypto_prefix.h.
abbrev pub crypto_prefix_forward : ℕ
crypto_prefix_forward = 1

abbrev pub crypto_prefix_arbitrary : ℕ
crypto_prefix_arbitrary = 2
