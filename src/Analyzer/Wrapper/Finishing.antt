-- ===== src/Analyzer/Wrapper/Finishing.antt =====
-- The result classes end with a package where the scheme takes every key.
use yee_z_privacy_computing.Base.{ℕ, ◌≡◌, refl, ap, ◌∙◌, arith, Bytes}
use yee_z_privacy_computing.Analyzer.Ecc.{Ecc}
use yee_z_privacy_computing.Analyzer.Results.Run.{
  Run, done, ◌>>=◌, or_stop, or_throw, crypto_prefix_arbitrary,
}
use yee_z_privacy_computing.Analyzer.Results.Signing.{Inputs, sign_both, export_internal_key}
use yee_z_privacy_computing.Analyzer.Results.Onchain.{generate_onchain, onchain_msg}
use yee_z_privacy_computing.Analyzer.Results.Offchain.{generate_offchain}
use yee_z_privacy_computing.Analyzer.Results.Classes.{
  ResultType, onchain, offchain, offchain_file, forward, local, generate_result,
}
use yee_z_privacy_computing.Analyzer.Wrapper.{Build}
use yee_z_privacy_computing.Analyzer.Wrapper.Completed.{IsDelivery}

-- A scheme that never refuses a key that is half of a pair.
pub record IsTotal (ecc : Ecc) : Type 0 where
  pub encrypts :
      (k : ℕ) (skey pkey msg : Bytes) (prefix : ℕ)
      → ecc.generate_pkey_from_skey skey ≡ (0, pkey)
      → (ecc.encrypt_message_with_prefix k pkey msg prefix).0 ≡ 0
  pub signs :
      (skey pkey msg : Bytes)
      → ecc.generate_pkey_from_skey skey ≡ (0, pkey)
      → (ecc.sign_message skey msg).0 ≡ 0

abbrev pub Finishes {ℓ} : {A : Type ℓ} → Run A → Type ℓ
Finishes {A = A} r = (a : A) × (r ≡ done a)

pub bind-Finishes {ℓ κ} :
    {A : Type ℓ} {B : Type κ} (r : Run A) (f : A → Run B)
    → Finishes r
    → ((a : A) → Finishes (f a))
    → Finishes (r >>= f)
bind-Finishes r f (a, e) next = ((next a).0, ap (◌>>= f) e ∙ (next a).1)

or_stop-Finishes : (r : ℕ × Bytes) → r.0 ≡ 0 → Finishes (or_stop r)
or_stop-Finishes r e = (r.1, rw e refl)

or_throw-Finishes : (r : ℕ × Bytes) → r.0 ≡ 0 → Finishes (or_throw r)
or_throw-Finishes r e = (r.1, rw e refl)

module _ (ecc : Ecc) (total : IsTotal ecc) (s : Inputs) (pkey : Bytes)
    (made : ecc.generate_pkey_from_skey s.analysis.private_key ≡ (0, pkey)) where
  sign_both-Finishes : (msg : Bytes) → Finishes (sign_both ecc s msg)
  unfolding sign_both
  sign_both-Finishes msg =
      bind-Finishes _ _ (or_stop-Finishes _ (total.signs s.analysis.private_key pkey _ made))
        (λ cost.
          bind-Finishes _ _ (or_stop-Finishes _ (total.signs s.analysis.private_key pkey msg made))
            (λ sig. (_, refl)))

  generate_onchain-Finishes : pkey ≡ s.analysis.pkey4v → Finishes (generate_onchain ecc s)
  unfolding generate_onchain
  generate_onchain-Finishes named =
      bind-Finishes _ _
        (or_stop-Finishes _ (
          total.encrypts 0 s.analysis.private_key s.analysis.pkey4v s.analysis.result
            crypto_prefix_arbitrary (made ∙ λ i. (0, named i))))
        (λ c. bind-Finishes _ _ (sign_both-Finishes (onchain_msg s c)) (λ sigs. (_, refl)))

  exports :
      (k : ℕ)
      → Finishes (
          export_internal_key ecc k s.internal_key
            (ecc.generate_pkey_from_skey s.analysis.private_key).1)
  unfolding export_internal_key
  exports k = or_throw-Finishes _ (
      total.encrypts k s.analysis.private_key _ s.internal_key.private_key crypto_prefix_arbitrary
        (λ i. ((made i).0, (ecc.generate_pkey_from_skey s.analysis.private_key).1)))

  generate_offchain-Finishes :
      ecc.generate_pkey_from_skey s.internal_key.private_key ≡ (0, s.internal_key.public_key)
      → Finishes (generate_offchain ecc s)
  unfolding generate_offchain
  generate_offchain-Finishes pair =
      bind-Finishes _ _
        (or_stop-Finishes _ (
          total.encrypts 0 s.internal_key.private_key s.internal_key.public_key s.analysis.result
            crypto_prefix_arbitrary pair))
        (λ c.
          bind-Finishes _ _ (exports 1)
            (λ key. bind-Finishes _ _ (sign_both-Finishes _) (λ sigs. (_, refl))))

pub generate_result-Finishes :
    (b : Build) (s : Inputs) (pkey : Bytes) (t : ResultType)
    → IsTotal b.ecc
    → b.ecc.generate_pkey_from_skey s.analysis.private_key ≡ (0, pkey)
    → pkey ≡ s.analysis.pkey4v
    → b.ecc.generate_pkey_from_skey s.internal_key.private_key ≡ (0, s.internal_key.public_key)
    → IsDelivery t
    → Finishes (generate_result b.ecc b.codec t s)
unfolding generate_result
generate_result-Finishes b s pkey onchain total made named pair d =
    bind-Finishes _ _ (generate_onchain-Finishes b.ecc total s pkey made named) (λ r. (_, refl))
generate_result-Finishes b s pkey offchain total made named pair d =
    bind-Finishes _ _ (generate_offchain-Finishes b.ecc total s pkey made pair) (λ r. (_, refl))
generate_result-Finishes b s pkey offchain_file total made named pair d = absurd (ground arith)
generate_result-Finishes b s pkey forward total made named pair d = absurd (ground arith)
generate_result-Finishes b s pkey local total made named pair d = absurd (ground arith)
