-- ===== src/Analyzer/Tests.antt =====
-- A scheme whose signature is the public key followed by the message, and one allowance.
use yee_z_privacy_computing.Base.{
  ℕ, ◌≡◌, refl, ◌↔◌, true, [], ◌∷◌, ◌++◌, Bytes, if◌then◌else◌, length, take, All, bytes_eq,
}
use yee_z_privacy_computing.Analyzer.Ecc.{Ecc, Session, passed}
use yee_z_privacy_computing.Analyzer.Keymgr.{
  request_private_key_for_public_key, request_private_key-success,
}
use yee_z_privacy_computing.Analyzer.Allowance.{
  Allowance, Forward, Param, ModelPolicy, check_model, ignore_model, DataPolicy, check_multi,
  check_allowance,
}
use yee_z_privacy_computing.Analyzer.Allowance.Granted.{Served}
use yee_z_privacy_computing.Analyzer.Allowance.Decision.{
  ModelGranted, DataGranted, check_allowance_iff,
}
use yee_z_privacy_computing.Analyzer.Algo.{Analysis, parse_encrypted}
use yee_z_privacy_computing.Analyzer.Algo.Allowed.{ForwardSigned, parse_encrypted-allowed}

abbrev pub open_ecc : Ecc
open_ecc = record {
  hash_256 = λ m. (0, take 1 m);
  generate_pkey_from_skey = λ k. (0, k);
  verify_signature = λ msg sig pkey. if bytes_eq sig (pkey ++ msg) then 0 else 1;
  sign_message = λ k msg. (0, k ++ msg);
  decrypt_message_with_prefix = λ k c. (0, c);
  encrypt_message_with_prefix = λ k pkey m prefix. (0, m);
  private_key_size = 2;
  public_key_size = 1;
}

abbrev pub keeper : Session
keeper = λ pkey. (0, pkey ++ 9 ∷ [])

abbrev pub owner : Bytes
owner = 1 ∷ 2 ∷ []

abbrev pub one_allowance : Allowance
one_allowance = record {
  pkey = owner;
  data_hash = 7 ∷ [];
  signature = owner ++ (4 ∷ 8 ∷ 9 ∷ 7 ∷ []);
}

abbrev pub request_param : Param
request_param = record {
  param_data = 4 ∷ 5 ∷ [];
  pkey = owner;
  allowances = one_allowance ∷ [];
  forward = record {
    enclave_hash = 3 ∷ [];
    pkey = 6 ∷ [];
    encrypted_sig = owner ++ (4 ∷ 5 ∷ 8 ∷ 9 ∷ 3 ∷ 6 ∷ []);
  };
}

abbrev data_policy : DataPolicy
data_policy = check_multi ((1 ∷ 2 ∷ 7 ∷ []) ∷ [])

abbrev pub no_analysis : Analysis
no_analysis = record {
  pkey4v = [];
  private_key = [];
  encrypted_param = [];
  result = [];
  cost_gas = 5;
  target_enclave_hash = [];
  target_dian_pkey = [];
}

abbrev analysed : Analysis
analysed = record {
  pkey4v = owner;
  private_key = owner;
  encrypted_param = 4 ∷ 5 ∷ [];
  result = 0 ∷ 4 ∷ 5 ∷ [];
  cost_gas = 0;
  target_enclave_hash = 3 ∷ [];
  target_dian_pkey = 6 ∷ [];
}

request_private_key-success_example :
    (request_private_key_for_public_key open_ecc keeper owner ≡ (0, owner, 9 ∷ [])) ↔ (
      (keeper owner ≡ (0, owner ++ 9 ∷ []))
      × (length owner ≡ 2)
      × (length {A = ℕ} (9 ∷ []) ≡ 1)
      × (open_ecc.generate_pkey_from_skey owner ≡ (0, owner)))
request_private_key-success_example =
    request_private_key-success open_ecc keeper owner owner (9 ∷ [])

check_allowance_iff_example :
    (check_allowance open_ecc keeper (8 ∷ []) ignore_model data_policy request_param ≡ passed tt)
    ↔ (((open_ecc.hash_256 (4 ∷ 5 ∷ [])).0 ≡ 0)
        × All (Served open_ecc keeper (4 ∷ []) (8 ∷ [])) (one_allowance ∷ [])
        × ModelGranted open_ecc keeper (4 ∷ []) (8 ∷ []) (one_allowance ∷ []) ignore_model
        × DataGranted open_ecc keeper (4 ∷ []) (8 ∷ []) (one_allowance ∷ []) data_policy)
check_allowance_iff_example =
    check_allowance_iff open_ecc keeper (8 ∷ []) ignore_model data_policy request_param

passes :
    parse_encrypted open_ecc keeper
      (8 ∷ [])
      ignore_model
      data_policy
      true
      (λ d. 0 ∷ d)
      request_param
      no_analysis
    ≡ passed analysed
unfolding parse_encrypted request_private_key_for_public_key
    yee_z_privacy_computing.Analyzer.Keymgr.keys_from
    yee_z_privacy_computing.Analyzer.Keymgr.check_keys yee_z_privacy_computing.Analyzer.Algo.request
    yee_z_privacy_computing.Analyzer.Algo.check_forward
    yee_z_privacy_computing.Analyzer.Algo.set_forward_target_info check_allowance
    yee_z_privacy_computing.Analyzer.Allowance.check_policies
    yee_z_privacy_computing.Analyzer.Allowance.check_all
    yee_z_privacy_computing.Analyzer.Allowance.check_each
    yee_z_privacy_computing.Analyzer.Allowance.check_one
    yee_z_privacy_computing.Analyzer.Allowance.check_signature
    yee_z_privacy_computing.Analyzer.Allowance.check_allowance_m
    yee_z_privacy_computing.Analyzer.Allowance.check_allowance_d
passes = refl

parse_encrypted-allowed_example :
    (private_key : Bytes) × (dian_pkey : Bytes) × (decrypted : Bytes)
    × (request_private_key_for_public_key open_ecc keeper owner ≡ (0, private_key, dian_pkey))
    × (open_ecc.decrypt_message_with_prefix private_key (4 ∷ 5 ∷ []) ≡ (0, decrypted))
    × ModelGranted open_ecc keeper
        (open_ecc.hash_256 decrypted).1
        (8 ∷ [])
        (one_allowance ∷ [])
        ignore_model
    × DataGranted open_ecc keeper
        (open_ecc.hash_256 decrypted).1
        (8 ∷ [])
        (one_allowance ∷ [])
        data_policy
    × ForwardSigned open_ecc
        (8 ∷ [])
        dian_pkey
        (record request_param { param_data = decrypted })
        analysed
        true
    × (analysed.result ≡ 0 ∷ decrypted)
parse_encrypted-allowed_example =
    parse_encrypted-allowed open_ecc keeper (8 ∷ []) ignore_model data_policy true (λ d. 0 ∷ d)
      request_param no_analysis analysed passes
