-- ===== src/Status.antt =====
-- The status codes that every call returns: include/ypc/stbox/stx_status.h and stx_status.def, and
-- their names in ypc/stbox/src/stx_status.cpp. A `uint32_t` status is a number.
pub mod Names
mod Tests
use Prim.Native.Nat.{bit_or}
use Prim.Native.String.{String}
use yee_z_privacy_computing.Base.{ℕ, List, [], ◌∷◌, ◌==◌, if◌then◌else◌}

-- `ATT_STATUS(a, b)` in the enumeration: 0 stays 0, another code has the bit 0x10000.
abbrev pub att_status : ℕ → ℕ
att_status b = if b == 0 then b else bit_or 0x10000 b

-- stx_status.def, as its rows.
abbrev pub stx_status_def : List (ℕ × String)
stx_status_def =
    (0x00, "success")
    ∷ (0xE1, "invalid_parameter")
    ∷ (0xE2, "valid_session")
    ∷ (0xE3, "invalid_session")
    ∷ (0xE4, "attestation_error")
    ∷ (0xE5, "attestation_se_error")
    ∷ (0xE6, "IPP_error")
    ∷ (0xE7, "no_available_session_error")
    ∷ (0xE8, "malloc_error")
    ∷ (0xE9, "error_tag_mismatch")
    ∷ (0xEA, "out_buffer_length_error")
    ∷ (0xEB, "invalid_request_type_error")
    ∷ (0xEC, "invalid_parameter_error")
    ∷ (0xED, "enclave_trust_error")
    ∷ (0xEE, "encrypt_decrypt_error")
    ∷ (0xEF, "duplicate_session")
    ∷ (0xF0, "error_out_of_memory")
    ∷ (0xF1, "error_unexpected")
    ∷ (0xF2, "ocall_error")
    ∷ (0xF3, "no_such_feature")
    ∷ (0xA0, "ecc_invalid_skey_size")
    ∷ (0xA1, "ecc_secp256k1_ecdh_error")
    ∷ (0xA2, "ecc_invalid_ctx_or_skey")
    ∷ (0xA3, "ecc_secp256k1_ec_pubkey_create_error")
    ∷ (0xA4, "ecc_secp256k1_ecdsa_sign_recoverable_error")
    ∷ (0xA5, "ecc_secp256k1_ecdsa_RSSC_error")
    ∷ (0xA6, "ecc_sgx_get_add_mac_txt_len_unexpected")
    ∷ (0xA7, "ecc_sgx_invalid_aad_mac_text")
    ∷ (0xA8, "ecc_secp256_ecdsa_verify_error")
    ∷ (0xA9, "ecc_invalid_unseal_size")
    ∷ (0xAA, "ecc_invalid_aes_key_size")
    ∷ (0xAB, "ecc_sign_invalid_data_size")
    ∷ (0xAC, "ecc_verify_invalid_data_size")
    ∷ (0xAD, "ecc_invalid_pkey_size")
    ∷ (0xB1, "kmgr_pkey_skey_mismatch")
    ∷ (0xB2, "kmgr_pkey_sgx_report_mismatch")
    ∷ (0xB3, "kmgr_session_inconsistency_pkey_skey")
    ∷ (0xC0, "data_source_not_found")
    ∷ (0xC1, "sealed_file_reach_end")
    ∷ (0xC2, "aes_invalid_data_size")
    ∷ (0xC3, "aes_invalid_cipher_size")
    ∷ (0xC4, "data_source_not_set")
    ∷ (0xC5, "data_hash_not_same_as_expect")
    ∷ (0xC6, "aes_rand_fail")
    ∷ (0xC7, "forward_target_not_set")
    ∷ (0xC8, "forward_allowance_invalid")
    ∷ (0xD0, "allowance_use_inconsistent_pkey")
    ∷ (0xD1, "model_allowance_miss")
    ∷ (0xD2, "data_allowance_miss")
    ∷ (0x50, "sm2_empty_key")
    ∷ (0x51, "sm2_point_generate_error")
    ∷ (0x52, "sm2_sign_error")
    ∷ (0x53, "sm2_verify_error")
    ∷ (0x54, "sm2_shared_key_error")
    ∷ (0x55, "sm2_point_convert_error")
    ∷ (0x56, "sm2_empty_public_error")
    ∷ (0x57, "sm2_get_false_sign")
    ∷ (0x60, "sm4_encrypt_error")
    ∷ (0x61, "sm4_decrypt_error")
    ∷ []

-- The enumerators that the modelled code names.
abbrev pub success : ℕ
success = att_status 0x00

abbrev pub invalid_parameter : ℕ
invalid_parameter = att_status 0xE1

abbrev pub invalid_session : ℕ
invalid_session = att_status 0xE3

abbrev pub malloc_error : ℕ
malloc_error = att_status 0xE8

abbrev pub out_buffer_length_error : ℕ
out_buffer_length_error = att_status 0xEA

abbrev pub invalid_parameter_error : ℕ
invalid_parameter_error = att_status 0xEC

abbrev pub enclave_trust_error : ℕ
enclave_trust_error = att_status 0xED

abbrev pub error_unexpected : ℕ
error_unexpected = att_status 0xF1

abbrev pub ecc_invalid_skey_size : ℕ
ecc_invalid_skey_size = att_status 0xA0

abbrev pub kmgr_pkey_skey_mismatch : ℕ
kmgr_pkey_skey_mismatch = att_status 0xB1

abbrev pub kmgr_session_inconsistency_pkey_skey : ℕ
kmgr_session_inconsistency_pkey_skey = att_status 0xB3

abbrev pub data_source_not_found : ℕ
data_source_not_found = att_status 0xC0

abbrev pub sealed_file_reach_end : ℕ
sealed_file_reach_end = att_status 0xC1

abbrev pub aes_invalid_data_size : ℕ
aes_invalid_data_size = att_status 0xC2

abbrev pub aes_invalid_cipher_size : ℕ
aes_invalid_cipher_size = att_status 0xC3

abbrev pub no_such_feature : ℕ
no_such_feature = att_status 0xF3

abbrev pub data_source_not_set : ℕ
data_source_not_set = att_status 0xC4

abbrev pub data_hash_not_same_as_expect : ℕ
data_hash_not_same_as_expect = att_status 0xC5

abbrev pub forward_target_not_set : ℕ
forward_target_not_set = att_status 0xC7

abbrev pub forward_allowance_invalid : ℕ
forward_allowance_invalid = att_status 0xC8

abbrev pub model_allowance_miss : ℕ
model_allowance_miss = att_status 0xD1

abbrev pub data_allowance_miss : ℕ
data_allowance_miss = att_status 0xD2
