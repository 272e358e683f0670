-- ===== src/Blockfile/Result.antt =====
-- How a block-file call ends, and the template arguments of the class.
use yee_z_privacy_computing.Base.{ℕ, ◌+◌, ◌-◌, ◌%◌, ◌^◌, ◌≡◌, refl, Bytes}

-- `already_open` is std::runtime_error("already open"), the next two are the exceptions of
-- include/ypc/corecommon/blockfile; `undefined` marks undefined behaviour in C++.
pub data Error : Type 0 where
  already_open file_open_failure invalid_blockfile undefined : Error

pub data Result {ℓ} (A : Type ℓ) : Type ℓ where
  ok : A → Result A
  err : Error → Result A

infixl 5 ◌>>=◌
abbrev pub ◌>>=◌ {ℓ κ} : {A : Type ℓ} {B : Type κ} → Result A → (A → Result B) → Result B
ok a >>= f = f a
err e >>= f = err e

pub >>=_assoc {ℓ κ μ} :
    {A : Type ℓ} {B : Type κ} {C : Type μ} (m : Result A) (f : A → Result B) (g : B → Result C)
    → ((m >>= f) >>= g) ≡ (m >>= λ a. f a >>= g)
>>=_assoc (ok a) f g = refl
>>=_assoc (err e) f g = refl

-- `MagicNumber_t`, `VersionNumber_t`, `BlockNumLimit_t`, `ItemNumPerBlockLimit_t`, and the size of
-- `data_hash` in `Header_t`.
pub record Params : Type 0 where
  pub magic_number : ℕ
  pub version_number : ℕ
  pub block_num_limit : ℕ
  pub item_num_per_block_limit : ℕ
  pub hash_size : ℕ

abbrev pub sizeof_header : Params → ℕ
sizeof_header c = 32 + c.hash_size

-- What `next_item` returns, with the bytes that it puts into the buffer and `out_size`.
pub data NextItem : Type 0 where
  succ : Bytes → ℕ → NextItem
  at_eof : NextItem
  invalid_buf : NextItem
  small_buf : ℕ → NextItem

-- uint64_t arithmetic.
abbrev pub u64 : ℕ → ℕ
u64 x = x % 2 ^ 64

abbrev pub sub64 : ℕ → ℕ → ℕ
sub64 a b = (a + 2 ^ 64 - b) % 2 ^ 64
