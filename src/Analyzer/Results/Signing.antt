-- ===== src/Analyzer/Results/Signing.antt =====
-- What the result classes sign, and what they sign it with.
use yee_z_privacy_computing.Base.{ℕ, ◌≡◌, ap, ◌∙◌, ◌++◌, Bytes}
use yee_z_privacy_computing.Blockfile.Codec.{u64_bytes}
use yee_z_privacy_computing.Bytes.Endian.{endian_swap_all}
use yee_z_privacy_computing.Analyzer.Ecc.{Ecc}
use yee_z_privacy_computing.Analyzer.Algo.{Analysis}
use yee_z_privacy_computing.Analyzer.Results.Run.{
  Run, done, ◌>>=◌, bind_done, or_stop, or_throw, or_stop_done, crypto_prefix_forward,
  crypto_prefix_arbitrary,
}

-- `internal_key_var`, whose pair is drawn when the enclave starts.
pub record InternalKey : Type 0 where
  pub private_key : Bytes
  pub public_key : Bytes

-- The bases that the members read: `m_enclave_hash`, `m_data_hash`, `request_key_var`,
-- `encrypted_param_var` and `result_var`, and the pair of the enclave.
pub record Inputs : Type 0 where
  pub enclave_hash : Bytes
  pub data_hash : Bytes
  pub analysis : Analysis
  pub internal_key : InternalKey

-- `cost_gas_str`.
unfoldable pub cost_gas_str : ℕ → Bytes
cost_gas_str cost_gas = endian_swap_all (u64_bytes cost_gas)

-- `cost_msg`.
abbrev pub cost_msg : Inputs → Bytes
cost_msg s =
    s.analysis.encrypted_param
    ++ (s.data_hash ++ (s.enclave_hash ++ cost_gas_str s.analysis.cost_gas))

-- The two signatures of a package.
pub record Signatures : Type 0 where
  pub cost_signature : Bytes
  pub result_signature : Bytes

unfoldable pub sign_both : Ecc → Inputs → Bytes → Run Signatures
sign_both ecc s msg = do
  cost ← or_stop (ecc.sign_message s.analysis.private_key (cost_msg s))
  sig ← or_stop (ecc.sign_message s.analysis.private_key msg)
  done (record { cost_signature = cost; result_signature = sig })

-- `forward_internal_key`: the members `encrypted_shu_skey` and `shu_forward_signature` of the package;
-- `k` is which encryption it is.
unfoldable pub forward_internal_key : Ecc → ℕ → InternalKey → Bytes → Bytes → Run (Bytes × Bytes)
forward_internal_key ecc k key dian_pkey target_enclave_hash = do
  encrypted_skey ←
      or_throw (ecc.encrypt_message_with_prefix k dian_pkey key.private_key crypto_prefix_forward)
  sig ← or_throw (ecc.sign_message key.private_key (dian_pkey ++ target_enclave_hash))
  done (encrypted_skey, sig)

-- `export_internal_key`.
unfoldable pub export_internal_key : Ecc → ℕ → InternalKey → Bytes → Run Bytes
export_internal_key ecc k key shu_pkey =
    or_throw (ecc.encrypt_message_with_prefix k shu_pkey key.private_key crypto_prefix_arbitrary)

-- What both signatures of a package are.
pub record AreSigned (ecc : Ecc) (s : Inputs) (msg : Bytes) (sigs : Signatures) : Type 0 where
  pub cost_signed : ecc.sign_message s.analysis.private_key (cost_msg s) ≡ (0, sigs.cost_signature)
  pub result_signed : ecc.sign_message s.analysis.private_key msg ≡ (0, sigs.result_signature)

pub sign_both-AreSigned :
    (ecc : Ecc) (s : Inputs) (msg : Bytes) (sigs : Signatures)
    → sign_both ecc s msg ≡ done sigs
    → AreSigned ecc s msg sigs
unfolding sign_both
sign_both-AreSigned ecc s msg sigs e =
    let (cost, e0, f0) =
      bind_done (or_stop (ecc.sign_message s.analysis.private_key (cost_msg s))) _ sigs e in
    let (sig, e1, f1) =
      bind_done (or_stop (ecc.sign_message s.analysis.private_key msg)) _ sigs f0 in
    record {
      cost_signed = or_stop_done _ _ (e0 ∙ ap (λ (q : Run Signatures). done (cost_of cost q)) f1);
      result_signed = or_stop_done _ _ (e1 ∙ ap (λ (q : Run Signatures). done (sig_of sig q)) f1);
    }
  where
    cost_of : Bytes → Run Signatures → Bytes
    cost_of d (done q) = q.cost_signature
    cost_of d q = d

    sig_of : Bytes → Run Signatures → Bytes
    sig_of d (done q) = q.result_signature
    sig_of d q = d
