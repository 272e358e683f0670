-- ===== src/Keymgr/Forward.antt =====
-- include/ypc/keymgr/default/ekeymgr.ipp: `forward_private_key`, which takes the key of an owner into
-- `private_key_table`, and `handle_pkg`, which gives it to an enclave. The cryptography, the file of the
-- sealed keys and the sealing by the device are parameters.
use yee_z_privacy_computing.Base.{
  ℕ, Option, none, some, List, [], ◌∷◌, ◌++◌, Bytes, ◌==◌, if◌then◌else◌, length, take, bytes_eq,
}
use yee_z_privacy_computing.Status.{kmgr_pkey_skey_mismatch}
use yee_z_privacy_computing.Analyzer.Ecc.{Ecc, Checked, passed, failed, ◌>>=◌}

-- `ocall_load_key_pair` for a public key, `raw_device_sealer::unseal_data`, and
-- `decrypt_message_with_prefix` with the prefix `crypto_prefix_forward` of a key and a cipher, each
-- with a status.
pub record Device : Type 0 where
  pub load_key_pair : Bytes → ℕ × Bytes
  pub unseal_data : Bytes → ℕ × Bytes
  pub decrypt_forward : Bytes → Bytes → ℕ × Bytes

-- A call that gives a status and an output, with `if (ret) return ret;` behind it.
abbrev pub called : ℕ × Bytes → Checked Bytes
called (ret, out) = if ret == 0 then passed out else failed ret

-- `load_key_pair_if_not_exist` with a place for the key. Without one it only gives the key's size.
unfoldable pub load_key_pair_if_not_exist : Device → Bytes → Checked Bytes
load_key_pair_if_not_exist device pkey = do
  sealed_key ← called (device.load_key_pair pkey)
  called (device.unseal_data sealed_key)

-- Its status is 1 where the public key cannot be computed. `memcmp` compares as many bytes of the given
-- key as the computed one has.
unfoldable pub check_pair : Ecc → Bytes → Bytes → Checked Bytes
check_pair ecc pkey skey =
    let (ret, expect_pkey) = ecc.generate_pkey_from_skey skey in
    if ret == 0
    then if bytes_eq expect_pkey (take (length expect_pkey) pkey)
      then passed skey
      else failed kmgr_pkey_skey_mismatch
    else failed 1

unfoldable pub load_and_check_key_pair : Ecc → Device → Bytes → Checked Bytes
load_and_check_key_pair ecc device pkey =
    load_key_pair_if_not_exist device pkey >>= check_pair ecc pkey

-- `private_key_info_t`, and `private_key_table` with `find` and `insert` of a key that is not there.
pub record PrivateKeyInfo : Type 0 where
  pub shu_skey : Bytes
  pub dian_pkey : Bytes

abbrev pub KeyTable : Type 0
KeyTable = List (Bytes × PrivateKeyInfo)

abbrev pub find_key : Bytes → KeyTable → Option PrivateKeyInfo
find_key key [] = none
find_key key ((k, info) ∷ table) = if bytes_eq k key then some info else find_key key table

-- The end of `forward_private_key`: the key is entered unless there is one already.
unfoldable pub enter_key :
    Ecc → Bytes → Bytes → Bytes → Bytes → Bytes → KeyTable → Option PrivateKeyInfo → ℕ × KeyTable
enter_key ecc epublic_key ehash sig forward_skey forward_pub_key table (some there) = (0, table)
enter_key ecc epublic_key ehash sig forward_skey forward_pub_key table none =
    let se_ret = ecc.verify_signature (epublic_key ++ ehash) sig forward_pub_key in
    if se_ret == 0
    then (
      0,
      (forward_pub_key ++ ehash, record { shu_skey = forward_skey; dian_pkey = epublic_key })
          ∷ table,
    )
    else (se_ret, table)

-- Before it: the key of the enclave, the key that is forwarded and the public key of that.
unfoldable pub derive_key : Ecc → Bytes → Checked (Bytes × Bytes)
derive_key ecc forward_skey = do
  forward_pub_key ← called (ecc.generate_pkey_from_skey forward_skey)
  passed (forward_skey, forward_pub_key)

unfoldable pub open_cipher : Ecc → Device → Bytes → Bytes → Checked (Bytes × Bytes)
open_cipher ecc device encrypted_private_key skey =
    called (device.decrypt_forward skey encrypted_private_key) >>= derive_key ecc

unfoldable pub open_forward : Ecc → Device → Bytes → Bytes → Checked (Bytes × Bytes)
open_forward ecc device encrypted_private_key epublic_key =
    load_and_check_key_pair ecc device epublic_key >>= open_cipher ecc device encrypted_private_key

unfoldable pub forward_opened :
    Ecc → Bytes → Bytes → Bytes → KeyTable → Checked (Bytes × Bytes) → ℕ × KeyTable
forward_opened ecc epublic_key ehash sig table (failed ret) = (ret, table)
forward_opened ecc epublic_key ehash sig table (passed (forward_skey, forward_pub_key)) =
    enter_key ecc epublic_key ehash sig forward_skey forward_pub_key table
      (find_key (forward_pub_key ++ ehash) table)

unfoldable pub forward_private_key :
    Ecc → Device → Bytes → Bytes → Bytes → Bytes → KeyTable → ℕ × KeyTable
forward_private_key ecc device encrypted_private_key epublic_key ehash sig table =
    forward_opened ecc epublic_key ehash sig table
      (open_forward ecc device encrypted_private_key epublic_key)

-- `stbox::bytes("any enclave")`.
abbrev pub any_enclave : Bytes
any_enclave = 97 ∷ 110 ∷ 121 ∷ 32 ∷ 101 ∷ 110 ∷ 99 ∷ 108 ∷ 97 ∷ 118 ∷ 101 ∷ []

abbrev pub any_enclave_hash : Ecc → Bytes
any_enclave_hash ecc = (ecc.hash_256 any_enclave).1

abbrev pub both_keys : PrivateKeyInfo → Bytes
both_keys info = info.shu_skey ++ info.dian_pkey

-- The second search of `handle_pkg`, and the exception where it fails.
abbrev pub answer_any : Option PrivateKeyInfo → Option Bytes
answer_any none = none
answer_any (some info) = some (both_keys info)

abbrev pub answer : Option PrivateKeyInfo → Option PrivateKeyInfo → Option Bytes
answer none any_info = answer_any any_info
answer (some info) any_info = some (both_keys info)

-- `handle_pkg` for the package `request_skey_from_pkey_pkg_t` of a public key, from the enclave of the
-- session with the measurement `mr_enclave`.
unfoldable pub handle_pkg : Ecc → KeyTable → Bytes → Bytes → Option Bytes
handle_pkg ecc table mr_enclave pkey =
    answer (find_key (pkey ++ mr_enclave) table) (find_key (pkey ++ any_enclave_hash ecc) table)
