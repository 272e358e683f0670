-- ===== src/Analyzer/Wrapper/Accountable.antt =====
-- What a run stands for that `end_parse_data_item` has completed.
use yee_z_privacy_computing.Base.{ℕ, ◌≡◌, refl, sym, ap, ◌∙◌, some, Bytes}
use mathlib.Core.Path.{subst}
use yee_z_privacy_computing.Analyzer.Keymgr.{
  request_private_key_for_public_key, request_private_key-success,
}
use yee_z_privacy_computing.Analyzer.Allowance.{Param}
use yee_z_privacy_computing.Analyzer.Allowance.Decision.{ModelGranted, DataGranted}
use yee_z_privacy_computing.Analyzer.Algo.Allowed.{parse_encrypted-allowed}
use yee_z_privacy_computing.Analyzer.Algo.Keys.{parse_encrypted-KeptKeys}
use yee_z_privacy_computing.Analyzer.Sources.{set_data_hash}
use yee_z_privacy_computing.Analyzer.Results.Run.{done}
use yee_z_privacy_computing.Analyzer.Results.Signing.{InternalKey}
use yee_z_privacy_computing.Analyzer.Results.Classes.{Generated}
use yee_z_privacy_computing.Analyzer.Results.Opened.{IsScheme}
use yee_z_privacy_computing.Analyzer.Wrapper.{
  Build, Wrapper, parse_data_item, data_policy, is_forward, parse_data_item_impl, inputs_of,
  end_parse_data_item,
}
use yee_z_privacy_computing.Analyzer.Wrapper.Completed.{
  AllExpected, parsed-Parsed, end_parse_data_item-Ended, Opens, IsDelivery, generate_result-Opens,
  impl_delivery,
}

-- The state `w` before the run, and `w'` behind it.
pub record Accountable (b : Build) (param : Param) (w w' : Wrapper) : Type 0 where
  pub dian_pkey : Bytes
  pub decrypted : Bytes
  pub made : Generated
  pub requested :
      request_private_key_for_public_key b.ecc b.session param.pkey
      ≡ (0, w'.analysis.private_key, dian_pkey)
  pub decrypts :
      b.ecc.decrypt_message_with_prefix w'.analysis.private_key param.param_data ≡ (0, decrypted)
  pub model_granted :
      ModelGranted b.ecc b.session
        (b.ecc.hash_256 decrypted).1
        w.enclave_hash
        param.allowances
        b.model_policy
  pub data_granted :
      DataGranted b.ecc b.session
        (b.ecc.hash_256 decrypted).1
        w.enclave_hash
        param.allowances
        (data_policy b.checks_data w.sources)
  pub sources_read : w'.sources ≡ b.reads w.sources
  pub expected : AllExpected w'.sources
  pub hash_set : set_data_hash b.ecc b.sort w'.sources w.data_hash ≡ some w'.data_hash
  pub param_kept : w'.analysis.encrypted_param ≡ param.param_data
  pub enclave_kept : w'.enclave_hash ≡ w.enclave_hash
  pub result_is : w'.analysis.result ≡ b.do_parse decrypted
  pub generated_is : w'.generated ≡ some made
  pub opens : Opens b.ecc (inputs_of w') param.pkey made

-- For an on-chain or an off-chain result, a scheme in which the two keys of a pair belong together, and
-- an enclave with such a pair of its own: where `parse_data_item` and then `end_parse_data_item`
-- succeed, the key manager has given the key of the request, the parameter decrypts under it, the
-- allowances grant the use of model and data for it, the check of the sources that the algorithm leaves
-- was passed, and the package that is made carries the algorithm's result on that parameter: the private
-- key of the request opens it, by way of the enclave's own key if off-chain, and its two signatures
-- verify under the public key, over the encrypted parameter, the hash that `set_data_hash` gives to the
-- sources read, the enclave's hash, the gas and the encrypted result, or its key and hash if off-chain.
pub end_parse_data_item-Accountable :
    (b : Build) (param : Param) (w w1 w' : Wrapper)
    → IsScheme b.ecc
    → b.ecc.generate_pkey_from_skey w.internal_key.private_key ≡ (0, w.internal_key.public_key)
    → IsDelivery b.result_type
    → parse_data_item b param w ≡ done w1
    → end_parse_data_item b w1 ≡ done w'
    → Accountable b param w w'
unfolding parse_data_item
end_parse_data_item-Accountable b param w w1 w' scheme pair delivery e1 e2 =
    let p = parsed-Parsed b w w1 (parse_data_item_impl b param w) e1 in
    let q = end_parse_data_item-Ended b w1 w' e2 in
    let encrypted = sym (impl_delivery b param w delivery) ∙ p.ran in
    let (sk, dk, decrypted, requested, decrypts, model, granted, forwarded, result) =
      parse_encrypted-allowed b.ecc b.session w.enclave_hash b.model_policy
        (data_policy b.checks_data w.sources) (is_forward b.result_type) b.do_parse param w.analysis
        w1.analysis encrypted in
    let (kept, cipher_kept) =
      parse_encrypted-KeptKeys b.ecc b.session w.enclave_hash b.model_policy
        (data_policy b.checks_data w.sources) (is_forward b.result_type) b.do_parse param w.analysis
        w1.analysis encrypted in
    let same_key = ap (λ (r : ℕ × Bytes × Bytes). r.1) (sym requested ∙ kept.requested) in
    let made_pair =
      ((request_private_key-success b.ecc b.session param.pkey w1.analysis.private_key
          kept.dian_pkey).0
        kept.requested).3 in
    subst (Accountable b param w) q.behind (record {
      dian_pkey = kept.dian_pkey;
      decrypted = decrypted;
      made = q.made;
      requested = kept.requested;
      decrypts =
          sym (ap (λ k. b.ecc.decrypt_message_with_prefix k param.param_data) same_key) ∙ decrypts;
      model_granted = model;
      data_granted = granted;
      sources_read = p.sources_read;
      expected = q.expected;
      hash_set = p.hash_set;
      param_kept = cipher_kept;
      enclave_kept = p.enclave_kept;
      result_is = result;
      generated_is = refl;
      opens =
          generate_result-Opens b (inputs_of w1) param.pkey b.result_type q.made scheme made_pair
            (sym kept.pkey_kept)
            (ap b.ecc.generate_pkey_from_skey (ap (λ (k : InternalKey). k.private_key) p.key_kept)
              ∙ (pair ∙ λ i. (0, (sym p.key_kept i).public_key)))
            delivery q.generates;
    })
