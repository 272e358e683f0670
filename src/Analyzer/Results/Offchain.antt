-- ===== src/Analyzer/Results/Offchain.antt =====
-- internal/results/offchain_result.h and offchain_file_result.h: the result is encrypted to a key of
-- its own, and that key's private part to the one that the request names.
use yee_z_privacy_computing.Base.{Option, none, some, ◌++◌, Bytes}
use yee_z_privacy_computing.Analyzer.Ecc.{Ecc}
use yee_z_privacy_computing.Analyzer.Results.Run.{
  Run, done, thrown, ◌>>=◌, or_stop, crypto_prefix_arbitrary,
}
use yee_z_privacy_computing.Analyzer.Results.Signing.{
  Inputs, cost_gas_str, Signatures, sign_both, export_internal_key,
}

-- The members, and the package of them.
pub record OffchainResult : Type 0 where
  pub encrypted_tmp_skey : Bytes
  pub tmp_pkey : Bytes
  pub encrypted_result_str : Bytes
  pub encrypted_result_hash : Bytes
  pub signatures : Signatures

pub record OffchainPackage : Type 0 where
  pub encrypted_result : Bytes
  pub encrypted_result_hash : Bytes
  pub data_hash : Bytes
  pub result_signature : Bytes
  pub cost_signature : Bytes
  pub pkey : Bytes
  pub result_encrypt_key : Bytes

-- `msg`, which `m_result_signature_str` is of.
abbrev pub offchain_msg : Inputs → Bytes → Bytes → Bytes
offchain_msg s encrypted_tmp_skey encrypted_result_hash =
    encrypted_tmp_skey
    ++ (encrypted_result_hash
        ++ (s.analysis.encrypted_param
            ++ (s.data_hash ++ (cost_gas_str s.analysis.cost_gas ++ s.enclave_hash))))

-- `generate_result` of `offchain_result`. The statuses of `hash_256` and of
-- `generate_pkey_from_skey` are not looked at.
unfoldable pub generate_offchain : Ecc → Inputs → Run OffchainResult
generate_offchain ecc s = do
  encrypted_result_str ← or_stop (
      ecc.encrypt_message_with_prefix 0 s.internal_key.public_key s.analysis.result
        crypto_prefix_arbitrary)
  let encrypted_result_hash = (ecc.hash_256 encrypted_result_str).1
  let pkey_a = (ecc.generate_pkey_from_skey s.analysis.private_key).1
  encrypted_tmp_skey ← export_internal_key ecc 1 s.internal_key pkey_a
  signatures ← sign_both ecc s (offchain_msg s encrypted_tmp_skey encrypted_result_hash)
  done (record {
    encrypted_tmp_skey = encrypted_tmp_skey;
    tmp_pkey = s.internal_key.public_key;
    encrypted_result_str = encrypted_result_str;
    encrypted_result_hash = encrypted_result_hash;
    signatures = signatures;
  })

-- `generate_result` of `offchain_file_result`, for the package that the algorithm has given as its
-- result. The codec is a parameter, which throws where it gives `none`.
abbrev pub or_thrown : Option OffchainPackage → Run OffchainPackage
or_thrown none = thrown
or_thrown (some pkg) = done pkg

unfoldable pub generate_offchain_file :
    Ecc → (Bytes → Option OffchainPackage) → Inputs → Run OffchainResult
generate_offchain_file ecc from_bytes s = do
  pkg ← or_thrown (from_bytes s.analysis.result)
  encrypted_result_str ←
      or_stop
        (ecc.encrypt_message_with_prefix 0 pkg.pkey pkg.encrypted_result crypto_prefix_arbitrary)
  let pkey_a = (ecc.generate_pkey_from_skey s.analysis.private_key).1
  encrypted_tmp_skey ←
      or_stop
        (ecc.encrypt_message_with_prefix 1 pkey_a pkg.result_encrypt_key crypto_prefix_arbitrary)
  signatures ← sign_both ecc s (offchain_msg s encrypted_tmp_skey pkg.encrypted_result_hash)
  done (record {
    encrypted_tmp_skey = encrypted_tmp_skey;
    tmp_pkey = pkg.pkey;
    encrypted_result_str = encrypted_result_str;
    encrypted_result_hash = pkg.encrypted_result_hash;
    signatures = signatures;
  })

-- `get_result_pkg`.
abbrev pub offchain_pkg : Inputs → OffchainResult → OffchainPackage
offchain_pkg s r = record {
  encrypted_result = r.encrypted_result_str;
  encrypted_result_hash = r.encrypted_result_hash;
  data_hash = s.data_hash;
  result_signature = r.signatures.result_signature;
  cost_signature = r.signatures.cost_signature;
  pkey = r.tmp_pkey;
  result_encrypt_key = r.encrypted_tmp_skey;
}
