-- ===== src/Analyzer/Results/Opened.antt =====
-- What the holder of the key that a request names makes of the package of a result.
use yee_z_privacy_computing.Base.{ℕ, ◌≡◌, sym, ap, ◌∙◌, Option, none, some, arith, Bytes}
use mathlib.Core.Path.{subst}
use yee_z_privacy_computing.Analyzer.Ecc.{Ecc}
use yee_z_privacy_computing.Analyzer.Results.Run.{
  Run, done, bind_done, or_stop, or_stop_done, or_throw_done, crypto_prefix_arbitrary,
}
use yee_z_privacy_computing.Analyzer.Results.Signing.{
  Inputs, cost_msg, Signatures, sign_both, export_internal_key, sign_both-AreSigned,
}
use yee_z_privacy_computing.Analyzer.Results.Onchain.{OnchainResult, generate_onchain, onchain_msg}
use yee_z_privacy_computing.Analyzer.Results.Offchain.{
  OffchainResult, OffchainPackage, generate_offchain, generate_offchain_file, offchain_msg,
  or_thrown,
}

-- A scheme whose signatures verify, and whose ciphers open, under the other key of the pair.
pub record IsScheme (ecc : Ecc) : Type 0 where
  pub signs :
      (skey pkey msg sig : Bytes)
      → ecc.generate_pkey_from_skey skey ≡ (0, pkey)
      → ecc.sign_message skey msg ≡ (0, sig)
      → ecc.verify_signature msg sig pkey ≡ 0
  pub opens :
      (k : ℕ) (skey pkey msg cipher : Bytes)
      → ecc.generate_pkey_from_skey skey ≡ (0, pkey)
      → ecc.encrypt_message_with_prefix k pkey msg crypto_prefix_arbitrary ≡ (0, cipher)
      → ecc.decrypt_message_with_prefix skey cipher ≡ (0, msg)

value_or {ℓ} : {A : Type ℓ} → A → Run A → A
value_or a (done x) = x
value_or a r = a

pub done_injective {ℓ} : {A : Type ℓ} (a b : A) → done a ≡ done b → a ≡ b
unfolding value_or
done_injective a b e = ap (value_or a) e

or_thrown_done :
    (o : Option OffchainPackage) (pkg : OffchainPackage) → or_thrown o ≡ done pkg → o ≡ some pkg
or_thrown_done none pkg e = absurd (ground arith)
or_thrown_done (some p) pkg e = ap some (done_injective p pkg e)

-- Both signatures verify under the public key.
pub record Verifies (ecc : Ecc) (s : Inputs) (pkey msg : Bytes) (sigs : Signatures) : Type 0 where
  pub cost_verified : ecc.verify_signature (cost_msg s) sigs.cost_signature pkey ≡ 0
  pub result_verified : ecc.verify_signature msg sigs.result_signature pkey ≡ 0

-- The private key opens the result, and the signatures are over what the package is about.
pub record OpensOnchain (ecc : Ecc) (s : Inputs) (pkey : Bytes) (r : OnchainResult) : Type 0 where
  pub result_opened :
      ecc.decrypt_message_with_prefix s.analysis.private_key r.encrypted_result_str
      ≡ (0, s.analysis.result)
  pub verified : Verifies ecc s pkey (onchain_msg s r.encrypted_result_str) r.signatures

-- The private key opens the key `tmp_skey`.
pub record OpensOffchain (ecc : Ecc) (s : Inputs) (pkey tmp_skey : Bytes) (r : OffchainResult)
    : Type 0 where
  pub key_opened :
      ecc.decrypt_message_with_prefix s.analysis.private_key r.encrypted_tmp_skey ≡ (0, tmp_skey)
  pub verified :
      Verifies ecc s pkey (offchain_msg s r.encrypted_tmp_skey r.encrypted_result_hash) r.signatures

module _ (ecc : Ecc) (scheme : IsScheme ecc) (s : Inputs) (pkey : Bytes)
    (made : ecc.generate_pkey_from_skey s.analysis.private_key ≡ (0, pkey)) where
  sign_both-Verifies :
      (msg : Bytes) (sigs : Signatures)
      → sign_both ecc s msg ≡ done sigs
      → Verifies ecc s pkey msg sigs
  sign_both-Verifies msg sigs e =
      let a = sign_both-AreSigned ecc s msg sigs e in
      record {
        cost_verified = scheme.signs _ pkey _ _ made a.cost_signed;
        result_verified = scheme.signs _ pkey _ _ made a.result_signed;
      }

  -- The two steps that open a cipher.
  opened :
      (k : ℕ) (skey to msg cipher : Bytes)
      → ecc.generate_pkey_from_skey skey ≡ (0, to)
      → or_stop (ecc.encrypt_message_with_prefix k to msg crypto_prefix_arbitrary) ≡ done cipher
      → ecc.decrypt_message_with_prefix skey cipher ≡ (0, msg)
  opened k skey to msg cipher pair e =
      scheme.opens k skey to msg cipher pair (or_stop_done _ cipher e)

  exported :
      (k : ℕ) (cipher : Bytes)
      → export_internal_key ecc k s.internal_key
          (ecc.generate_pkey_from_skey s.analysis.private_key).1
        ≡ done cipher
      → ecc.decrypt_message_with_prefix s.analysis.private_key cipher
        ≡ (0, s.internal_key.private_key)
  unfolding export_internal_key
  exported k cipher e =
      scheme.opens k s.analysis.private_key pkey s.internal_key.private_key cipher made
        (sym (ap (λ (q : ℕ × Bytes). encrypted_to q.1) made) ∙ or_throw_done _ cipher e)
    where
      encrypted_to : Bytes → ℕ × Bytes
      encrypted_to to =
          ecc.encrypt_message_with_prefix k to s.internal_key.private_key crypto_prefix_arbitrary

  pub generate_onchain-Opens :
      (r : OnchainResult)
      → pkey ≡ s.analysis.pkey4v
      → generate_onchain ecc s ≡ done r
      → OpensOnchain ecc s pkey r
  unfolding generate_onchain
  generate_onchain-Opens r named e =
      let (c, e0, f0) =
        bind_done
          (or_stop (
            ecc.encrypt_message_with_prefix 0 s.analysis.pkey4v s.analysis.result
              crypto_prefix_arbitrary))
          _ r e in
      let (sigs, e1, f1) = bind_done (sign_both ecc s (onchain_msg s c)) _ r f0 in
      subst (OpensOnchain ecc s pkey) (done_injective _ r f1) (record {
        result_opened =
            opened 0 s.analysis.private_key s.analysis.pkey4v s.analysis.result c
              (made ∙ λ i. (0, named i)) e0;
        verified = sign_both-Verifies (onchain_msg s c) sigs e1;
      })

  pub generate_offchain-Opens :
      (r : OffchainResult)
      → ecc.generate_pkey_from_skey s.internal_key.private_key ≡ (0, s.internal_key.public_key)
      → generate_offchain ecc s ≡ done r
      → OpensOffchain ecc s pkey s.internal_key.private_key r
        × (ecc.decrypt_message_with_prefix s.internal_key.private_key r.encrypted_result_str
            ≡ (0, s.analysis.result))
  unfolding generate_offchain
  generate_offchain-Opens r pair e =
      let (c, e0, f0) =
        bind_done
          (or_stop (
            ecc.encrypt_message_with_prefix 0 s.internal_key.public_key s.analysis.result
              crypto_prefix_arbitrary))
          _ r e in
      let pkey_a = (ecc.generate_pkey_from_skey s.analysis.private_key).1 in
      let (k, e1, f1) = bind_done (export_internal_key ecc 1 s.internal_key pkey_a) _ r f0 in
      let msg = offchain_msg s k (ecc.hash_256 c).1 in
      let (sigs, e2, f2) = bind_done (sign_both ecc s msg) _ r f1 in
      subst
        (λ r'.
          OpensOffchain ecc s pkey s.internal_key.private_key r'
          × (ecc.decrypt_message_with_prefix s.internal_key.private_key r'.encrypted_result_str
              ≡ (0, s.analysis.result)))
        (done_injective _ r f2)
        (
          record { key_opened = exported 1 k e1; verified = sign_both-Verifies msg sigs e2 },
          opened 0 s.internal_key.private_key s.internal_key.public_key s.analysis.result c pair e0,
        )

  -- The package comes from the algorithm, and with it the key that its result is encrypted to.
  pub generate_offchain_file-Opens :
      (from_bytes : Bytes → Option OffchainPackage) (r : OffchainResult)
      → generate_offchain_file ecc from_bytes s ≡ done r
      → (pkg : OffchainPackage) × (from_bytes s.analysis.result ≡ some pkg)
        × OpensOffchain ecc s pkey pkg.result_encrypt_key r
        × ((skey : Bytes)
            → ecc.generate_pkey_from_skey skey ≡ (0, pkg.pkey)
            → ecc.decrypt_message_with_prefix skey r.encrypted_result_str
              ≡ (0, pkg.encrypted_result))
  unfolding generate_offchain_file
  generate_offchain_file-Opens from_bytes r e =
      let (pkg, e0, f0) = bind_done (or_thrown (from_bytes s.analysis.result)) _ r e in
      let (c, e1, f1) =
        bind_done
          (or_stop (
            ecc.encrypt_message_with_prefix 0 pkg.pkey pkg.encrypted_result
              crypto_prefix_arbitrary))
          _ r f0 in
      let pkey_a = (ecc.generate_pkey_from_skey s.analysis.private_key).1 in
      let (k, e2, f2) =
        bind_done
          (or_stop (
            ecc.encrypt_message_with_prefix 1 pkey_a pkg.result_encrypt_key
              crypto_prefix_arbitrary))
          _ r f1 in
      let msg = offchain_msg s k pkg.encrypted_result_hash in
      let (sigs, e3, f3) = bind_done (sign_both ecc s msg) _ r f2 in
      (
        pkg,
        or_thrown_done (from_bytes s.analysis.result) pkg e0,
        subst (OpensOffchain ecc s pkey pkg.result_encrypt_key) (done_injective _ r f3) (record {
          key_opened =
              opened 1 s.analysis.private_key pkey_a pkg.result_encrypt_key k
                (λ i. ((made i).0, (ecc.generate_pkey_from_skey s.analysis.private_key).1)) e2;
          verified = sign_both-Verifies msg sigs e3;
        }),
        λ skey pair.
            subst
              (λ r'.
                ecc.decrypt_message_with_prefix skey r'.encrypted_result_str
                ≡ (0, pkg.encrypted_result))
              (done_injective _ r f3) (opened 0 skey pkg.pkey pkg.encrypted_result c pair e1),
      )
