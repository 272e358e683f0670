-- ===== src/Sealed/Library.antt =====
-- The cryptographic library and the package codec (ff::net) that both sides call, as a parameter.
use yee_z_privacy_computing.Base.{ℕ, ◌*◌, ◌<◌, ◌≡◌, Option, some, List, [], ◌∷◌, Bytes, length}
use yee_z_privacy_computing.Blockfile.Result.{Error}

-- `hash_256` is called for its output alone; `encrypt` also takes which call it is, since the cipher
-- is drawn at random, and gives a status and a cipher; `from_bytes` throws where it gives `none`.
pub record Library : Type 0 where
  pub hash_256 : Bytes → Bytes
  pub generate_pkey_from_skey : Bytes → Bytes
  pub encrypt_message_with_prefix : ℕ → Bytes → Bytes → ℕ × Bytes
  pub decrypt_message_with_prefix : Bytes → Bytes → ℕ × Bytes
  pub batch_to_bytes : List Bytes → Bytes
  pub batch_from_bytes : Bytes → Option (List Bytes)

-- The codec reads what it wrote.
pub record IsCodec (l : Library) : Type 0 where
  pub from-to_bytes : (xs : List Bytes) → l.batch_from_bytes (l.batch_to_bytes xs) ≡ some xs

-- A private key that the library accepts: what is encrypted to its public key decrypts, and a cipher
-- has at least one byte.
pub record IsPrivateKey (l : Library) (skey : Bytes) : Type 0 where
  pub encrypts :
      (k : ℕ) (m : Bytes)
      → (l.encrypt_message_with_prefix k (l.generate_pkey_from_skey skey) m).0 ≡ 0
  pub decrypts :
      (k : ℕ) (m : Bytes)
      → l.decrypt_message_with_prefix skey
          (l.encrypt_message_with_prefix k (l.generate_pkey_from_skey skey) m).1
        ≡ (0, m)
  pub cipher_some :
      (k : ℕ) (m : Bytes)
      → 0 < length (l.encrypt_message_with_prefix k (l.generate_pkey_from_skey skey) m).1

-- The start of every hash chain, the string "Fidelius".
abbrev pub fidelius : Bytes
fidelius = 70 ∷ 105 ∷ 100 ∷ 101 ∷ 108 ∷ 105 ∷ 117 ∷ 115 ∷ []

-- `utc::max_item_size`.
abbrev pub max_item_size : ℕ
max_item_size = 64 * 1024

-- How a run ends: it gives a value, leaves the process by `exit`, or ends in a block-file error.
pub data Outcome {ℓ} (A : Type ℓ) : Type ℓ where
  gives : A → Outcome A
  exits : ℕ → Outcome A
  fails : Error → Outcome A

infixl 5 ◌>>=◌
abbrev pub ◌>>=◌ {ℓ κ} : {A : Type ℓ} {B : Type κ} → Outcome A → (A → Outcome B) → Outcome B
gives a >>= f = f a
exits n >>= f = exits n
fails e >>= f = fails e
