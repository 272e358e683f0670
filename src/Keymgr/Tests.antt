-- ===== src/Keymgr/Tests.antt =====
-- A scheme whose public key is the length of the private one, and the key that an owner forwards in
-- it.
use yee_z_privacy_computing.Base.{
  ℕ, ◌≡◌, refl, sym, ap, ◌⊎◌, inr, true, false, not, none, some, [], ◌∷◌, ◌++◌, arith, Bytes,
  if◌then◌else◌, length, bytes_eq,
}
use yee_z_privacy_computing.Analyzer.Ecc.{Ecc, passed}
use yee_z_privacy_computing.Keymgr.Policy.{
  Identity, AccessItem, access_policy_whitelist, access_policy_blacklist, is_certified_signer,
  some_names, same_signer, is_certified_signer-names,
}
use yee_z_privacy_computing.Keymgr.Forward.{
  Device, KeyTable, PrivateKeyInfo, find_key, both_keys, open_forward, open_cipher, derive_key,
  load_and_check_key_pair, load_key_pair_if_not_exist, check_pair, forward_private_key,
  forward_opened, enter_key, handle_pkg, any_enclave_hash,
}
use yee_z_privacy_computing.Keymgr.Forwarded.{
  none_yet, then_forward, IsAllowed, handle_pkg-IsAllowed,
}
use yee_z_privacy_computing.Keymgr.Answers.{Forwards-keeps, forward-handle_pkg}

abbrev pub length_ecc : Ecc
length_ecc = record {
  hash_256 = λ m. (0, 99 ∷ []);
  generate_pkey_from_skey = λ k. (0, length k ∷ []);
  verify_signature = λ msg sig pkey. if bytes_eq sig (pkey ++ msg) then 0 else 1;
  sign_message = λ k msg. (0, (length k ∷ []) ++ msg);
  decrypt_message_with_prefix = λ k c. (0, c);
  encrypt_message_with_prefix = λ k pkey m prefix. (0, m);
  private_key_size = 2;
  public_key_size = 1;
}

abbrev open_device : Device
open_device = record {
  load_key_pair = λ pkey. (0, pkey);
  unseal_data = λ sealed. (0, 5 ∷ 6 ∷ []);
  decrypt_forward = λ k c. (0, c);
}

abbrev pub manager_key : Bytes
manager_key = 2 ∷ []

abbrev pub owner_skey : Bytes
owner_skey = 7 ∷ 8 ∷ 9 ∷ []

abbrev pub owner_pkey : Bytes
owner_pkey = 3 ∷ []

abbrev enclave : Bytes
enclave = 40 ∷ []

abbrev owner_sig : Bytes
owner_sig = 3 ∷ 2 ∷ 40 ∷ []

opens : open_forward length_ecc open_device owner_skey manager_key ≡ passed (owner_skey, owner_pkey)
unfolding open_forward open_cipher derive_key load_and_check_key_pair load_key_pair_if_not_exist
    check_pair
opens = refl

forward-handle_pkg_example :
    ((forward_private_key length_ecc open_device owner_skey manager_key enclave owner_sig []).0 ≡ 0)
    × (handle_pkg length_ecc
          (forward_private_key length_ecc open_device owner_skey manager_key enclave owner_sig []).1
          enclave
          owner_pkey
        ≡ some (owner_skey ++ manager_key))
forward-handle_pkg_example =
    forward-handle_pkg length_ecc open_device owner_skey manager_key enclave owner_sig owner_skey
      owner_pkey [] opens refl refl

abbrev one_entry : KeyTable
one_entry = (3 ∷ 40 ∷ [], record { shu_skey = owner_skey; dian_pkey = manager_key }) ∷ []

abbrev pub owner_entry : PrivateKeyInfo
owner_entry = record { shu_skey = owner_skey; dian_pkey = manager_key }

abbrev after_other : KeyTable
after_other =
    (forward_private_key length_ecc open_device (1 ∷ 1 ∷ 1 ∷ []) manager_key enclave owner_sig
      one_entry).1

abbrev after_two : KeyTable
after_two =
    (forward_private_key length_ecc open_device (1 ∷ 1 ∷ []) manager_key (41 ∷ []) (2 ∷ 2 ∷ 41 ∷ [])
      after_other).1

added : length after_two ≡ 2
unfolding forward_private_key forward_opened enter_key open_forward open_cipher derive_key
    load_and_check_key_pair load_key_pair_if_not_exist check_pair
added = refl

Forwards-keeps_example :
    (find_key (owner_pkey ++ enclave) after_two ≡ some owner_entry)
    × (handle_pkg length_ecc after_two enclave owner_pkey ≡ some (both_keys owner_entry))
Forwards-keeps_example = Forwards-keeps length_ecc enclave owner_pkey owner_entry refl (
    then_forward open_device (1 ∷ 1 ∷ []) manager_key (41 ∷ []) (2 ∷ 2 ∷ 41 ∷ [])
      (then_forward open_device (1 ∷ 1 ∷ 1 ∷ []) manager_key enclave owner_sig none_yet))

abbrev forwarded_table : KeyTable
forwarded_table =
    (forward_private_key length_ecc open_device owner_skey manager_key enclave owner_sig []).1

handle_pkg-IsAllowed_example :
    IsAllowed length_ecc owner_pkey enclave (owner_skey ++ manager_key)
    ⊎ IsAllowed length_ecc owner_pkey (any_enclave_hash length_ecc) (owner_skey ++ manager_key)
handle_pkg-IsAllowed_example =
    handle_pkg-IsAllowed length_ecc forwarded_table enclave owner_pkey (owner_skey ++ manager_key)
      (then_forward open_device owner_skey manager_key enclave owner_sig none_yet)
      (λ skey made e. made_length made (length skey ∷ []) (ap (λ (r : ℕ × Bytes). r.1) (sym e)))
      forward-handle_pkg_example.1
  where
    made_length : (made key : Bytes) → made ≡ key → length made ≡ length key
    made_length made key e = ap length e

abbrev pub trusted_peer : Identity
trusted_peer = record { mr_enclave = 1 ∷ []; mr_signer = 2 ∷ []; initted = true; debug = true }

abbrev signer_item : AccessItem
signer_item = record { access_data_type = 3; access_data = 2 ∷ [] }

is_certified_signer-names_example :
    (is_certified_signer false [] trusted_peer (
        some
          (record { access_list_type = access_policy_whitelist; access_list = signer_item ∷ [] }))
      ≡ some_names trusted_peer (signer_item ∷ []))
    × (is_certified_signer false [] trusted_peer (
          some
            (record { access_list_type = access_policy_blacklist; access_list = signer_item ∷ [] }))
        ≡ not (some_names trusted_peer (signer_item ∷ [])))
    × (is_certified_signer false [] trusted_peer
          (some (record { access_list_type = 5; access_list = signer_item ∷ [] }))
        ≡ true)
    × (is_certified_signer false [] trusted_peer none ≡ same_signer [] trusted_peer)
is_certified_signer-names_example =
    is_certified_signer-names false [] trusted_peer (signer_item ∷ []) 5 refl refl (inr refl, tt)
      (λ e. omega arith) (λ e. omega arith)
