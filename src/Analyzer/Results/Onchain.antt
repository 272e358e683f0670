-- ===== src/Analyzer/Results/Onchain.antt =====
-- internal/results/onchain_result.h: the result is encrypted to the key that the request names.
use yee_z_privacy_computing.Base.{◌++◌, Bytes}
use yee_z_privacy_computing.Analyzer.Ecc.{Ecc}
use yee_z_privacy_computing.Analyzer.Results.Run.{
  Run, done, ◌>>=◌, or_stop, crypto_prefix_arbitrary,
}
use yee_z_privacy_computing.Analyzer.Results.Signing.{Inputs, cost_gas_str, Signatures, sign_both}

-- The members, and the package of them.
pub record OnchainResult : Type 0 where
  pub encrypted_result_str : Bytes
  pub signatures : Signatures

pub record OnchainPackage : Type 0 where
  pub encrypted_result : Bytes
  pub data_hash : Bytes
  pub result_signature : Bytes
  pub cost_signature : Bytes

-- `msg`, which `m_result_signature_str` is of.
abbrev pub onchain_msg : Inputs → Bytes → Bytes
onchain_msg s encrypted_result_str =
    s.analysis.encrypted_param
    ++ (s.data_hash
        ++ (s.enclave_hash ++ (cost_gas_str s.analysis.cost_gas ++ encrypted_result_str)))

-- `generate_result`.
unfoldable pub generate_onchain : Ecc → Inputs → Run OnchainResult
generate_onchain ecc s = do
  encrypted_result_str ← or_stop (
      ecc.encrypt_message_with_prefix 0 s.analysis.pkey4v s.analysis.result crypto_prefix_arbitrary)
  signatures ← sign_both ecc s (onchain_msg s encrypted_result_str)
  done (record { encrypted_result_str = encrypted_result_str; signatures = signatures })

abbrev pub onchain_pkg : Inputs → OnchainResult → OnchainPackage
onchain_pkg s r = record {
  encrypted_result = r.encrypted_result_str;
  data_hash = s.data_hash;
  result_signature = r.signatures.result_signature;
  cost_signature = r.signatures.cost_signature;
}
