-- ===== src/Analyzer/Ecc.antt =====
-- The template argument `Crypto` and the key manager at the other end of the session, as parameters,
-- and the `uint32_t` statuses that the analyzer returns.
use yee_z_privacy_computing.Base.{ℕ, Bytes, ◌==◌, if◌then◌else◌}

-- Each operation gives a status, 0 for success, and its output. `encrypt` also takes which call it is,
-- since the cipher is drawn at random; `decrypt` is called for messages of the prefix `arbitrary`.
pub record Ecc : Type 0 where
  pub hash_256 : Bytes → ℕ × Bytes
  pub generate_pkey_from_skey : Bytes → ℕ × Bytes
  pub verify_signature : Bytes → Bytes → Bytes → ℕ
  pub sign_message : Bytes → Bytes → ℕ × Bytes
  pub decrypt_message_with_prefix : Bytes → Bytes → ℕ × Bytes
  pub encrypt_message_with_prefix : ℕ → Bytes → Bytes → ℕ → ℕ × Bytes
  pub private_key_size : ℕ
  pub public_key_size : ℕ

-- `send_request_recv_response` for the package `request_skey_from_pkey_pkg_t` of a public key: the
-- status of the session and the bytes received.
abbrev pub Session : Type 0
Session = Bytes → ℕ × Bytes

-- A call that returned a status other than 0, or went on with a value.
pub data Checked {ℓ} (A : Type ℓ) : Type ℓ where
  passed : A → Checked A
  failed : ℕ → Checked A

infixl 5 ◌>>=◌
abbrev pub ◌>>=◌ {ℓ κ} : {A : Type ℓ} {B : Type κ} → Checked A → (A → Checked B) → Checked B
passed a >>= f = f a
failed n >>= f = failed n

-- `if (ret) return ret;` behind a call.
abbrev pub check : ℕ → Checked (Unit {0})
check ret = if ret == 0 then passed tt else failed ret

abbrev pub status_of {ℓ} : {A : Type ℓ} → Checked A → ℕ
status_of (passed a) = 0
status_of (failed n) = n
