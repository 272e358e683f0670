-- ===== src/Analyzer/Results/Forward.antt =====
-- internal/results/forward_result.h: the result becomes a data set for another enclave.
use yee_z_privacy_computing.Base.{List, [], ◌∷◌, ◌++◌, Bytes, if◌then◌else◌, is_empty}
use yee_z_privacy_computing.Status.{forward_target_not_set}
use yee_z_privacy_computing.Analyzer.Ecc.{Ecc}
use yee_z_privacy_computing.Analyzer.Results.Run.{
  Run, done, stopped, ◌>>=◌, or_stop, crypto_prefix_arbitrary,
}
use yee_z_privacy_computing.Analyzer.Results.Signing.{Inputs, forward_internal_key}
use yee_z_privacy_computing.Sealed.Library.{fidelius}

pub record ForwardPackage : Type 0 where
  pub shu_pkey : Bytes
  pub encrypted_shu_skey : Bytes
  pub shu_forward_signature : Bytes
  pub enclave_hash : Bytes
  pub data_hash : Bytes
  pub encrypted_result : Bytes

-- `generate_result`, with the codec of a batch. The status of the first `hash_256` is not looked at, and
-- that of the second is returned last.
unfoldable pub generate_forward : Ecc → (List Bytes → Bytes) → Inputs → Run ForwardPackage
generate_forward ecc batch_to_bytes s = do
  targeted ←
      if is_empty s.analysis.target_enclave_hash
      then stopped forward_target_not_set
      else done (tt {0})
  encrypted_result_str ← or_stop (
      ecc.encrypt_message_with_prefix 0 s.internal_key.public_key
        (batch_to_bytes (s.analysis.result ∷ [])) crypto_prefix_arbitrary)
  let (ret, data_hash) = ecc.hash_256 ((ecc.hash_256 fidelius).1 ++ s.analysis.result)
  shu ←
      forward_internal_key ecc 1 s.internal_key s.analysis.target_dian_pkey
        s.analysis.target_enclave_hash
  returned ← or_stop (ret, data_hash)
  done (record {
    shu_pkey = s.internal_key.public_key;
    encrypted_shu_skey = shu.0;
    shu_forward_signature = shu.1;
    enclave_hash = s.analysis.target_enclave_hash;
    data_hash = data_hash;
    encrypted_result = encrypted_result_str;
  })
