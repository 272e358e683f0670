-- ===== src/Analyzer/Model/Tests.antt =====
-- A model whose hash is the one that the allowance of Analyzer/Tests.antt is for, under keys of two bytes.
use yee_z_privacy_computing.Base.{
  ℕ, ◌≡◌, refl, sym, ap, ◌∙◌, Bool, true, false, [], ◌∷◌, ◌++◌, arith, Bytes, ◌==◌, if◌then◌else◌,
  ==_iff, length,
}
use yee_z_privacy_computing.Analyzer.Ecc.{Ecc, passed}
use yee_z_privacy_computing.Analyzer.Allowance.{ignore_data}
use yee_z_privacy_computing.Analyzer.Allowance.Granted.{AnyOf}
use yee_z_privacy_computing.Analyzer.Algo.{Analysis, parse_encrypted}
use yee_z_privacy_computing.Analyzer.Tests.{
  open_ecc, keeper, owner, one_allowance, request_param, no_analysis,
}
use yee_z_privacy_computing.Analyzer.Model.{
  Model, ModelVars, init_model, model_policy, IsOpened, SignedUse, init_model-parse_encrypted,
}

abbrev two_byte_ecc : Ecc
two_byte_ecc = record open_ecc {
  generate_pkey_from_skey = λ k. if length k == 2 then (0, k) else (1, []);
}

made_by :
    (b : Bool) (k made : Bytes)
    → ◌≡◌ {A = ℕ × Bytes} (if b then (0, k) else (1, [])) (0, made)
    → (b ≡ true) × (k ≡ made)
made_by true k made e = (refl, ap (λ r. r.1) e)
made_by false k made e = absurd (failing (ap (λ (r : ℕ × Bytes). r.0) e))
  where
    failing : ◌≡◌ {A = ℕ} 1 0 → ⊥
    failing h = omega arith

two_bytes :
    (skey made : Bytes) → two_byte_ecc.generate_pkey_from_skey skey ≡ (0, made) → length made ≡ 2
two_bytes skey made e =
    let (two, same) = made_by (length skey == 2) skey made e in
    ap length (sym same) ∙ (==_iff (length skey) 2).0 two

abbrev small_model : Model
small_model = record { model_data = 7 ∷ 3 ∷ []; pkey = owner }

abbrev opened_model : ModelVars
opened_model = record { model = 7 ∷ 3 ∷ []; model_pkey = owner; model_hash = 7 ∷ [] }

opens_small : init_model two_byte_ecc keeper small_model ≡ passed opened_model
unfolding init_model yee_z_privacy_computing.Analyzer.Algo.request
    yee_z_privacy_computing.Analyzer.Keymgr.request_private_key_for_public_key
    yee_z_privacy_computing.Analyzer.Keymgr.keys_from
    yee_z_privacy_computing.Analyzer.Keymgr.check_keys
opens_small = refl

abbrev modelled : Analysis
modelled = record no_analysis {
  pkey4v = owner;
  private_key = owner;
  encrypted_param = 4 ∷ 5 ∷ [];
  result = 7 ∷ 3 ∷ 4 ∷ 5 ∷ [];
  cost_gas = 0;
}

parses_modelled :
    parse_encrypted two_byte_ecc keeper
      (8 ∷ [])
      (model_policy opened_model)
      ignore_data
      false
      (λ decrypted. opened_model.model ++ decrypted)
      request_param
      no_analysis
    ≡ passed modelled
unfolding parse_encrypted yee_z_privacy_computing.Analyzer.Allowance.check_allowance
    yee_z_privacy_computing.Analyzer.Algo.request
    yee_z_privacy_computing.Analyzer.Algo.set_forward_target_info
    yee_z_privacy_computing.Analyzer.Allowance.check_policies
    yee_z_privacy_computing.Analyzer.Keymgr.request_private_key_for_public_key
    yee_z_privacy_computing.Analyzer.Keymgr.keys_from
    yee_z_privacy_computing.Analyzer.Keymgr.check_keys
    yee_z_privacy_computing.Analyzer.Allowance.check_all
    yee_z_privacy_computing.Analyzer.Allowance.check_each
    yee_z_privacy_computing.Analyzer.Allowance.check_one
    yee_z_privacy_computing.Analyzer.Allowance.check_signature
    yee_z_privacy_computing.Analyzer.Allowance.check_allowance_m
    yee_z_privacy_computing.Analyzer.Allowance.check_allowance_d
parses_modelled = refl

init_model-parse_encrypted_example :
    (o : IsOpened two_byte_ecc keeper small_model opened_model) × (private_key : Bytes)
    × (decrypted : Bytes) × (two_byte_ecc.generate_pkey_from_skey private_key ≡ (0, owner))
    × (two_byte_ecc.decrypt_message_with_prefix private_key (4 ∷ 5 ∷ []) ≡ (0, decrypted))
    × AnyOf
        (SignedUse two_byte_ecc
          (two_byte_ecc.hash_256 decrypted).1
          (8 ∷ [])
          o.dian_pkey
          owner
          (7 ∷ []))
        (one_allowance ∷ [])
    × (modelled.result ≡ (7 ∷ 3 ∷ []) ++ decrypted)
init_model-parse_encrypted_example =
    init_model-parse_encrypted two_byte_ecc keeper (8 ∷ []) small_model opened_model ignore_data
      false (λ m decrypted. m ++ decrypted) request_param no_analysis modelled two_bytes opens_small
      parses_modelled
