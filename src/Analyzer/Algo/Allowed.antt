-- ===== src/Analyzer/Algo/Allowed.antt =====
-- The algorithm runs on what has been allowed alone.
use yee_z_privacy_computing.Base.{◌≡◌, sym, ap, ◌∙◌, Bool, true, false, [], arith, Bytes}
use yee_z_privacy_computing.Analyzer.Ecc.{Ecc, Session, Checked, passed, failed, ◌>>=◌}
use yee_z_privacy_computing.Analyzer.Keymgr.{
  request_private_key_for_public_key, request_private_key-success,
}
use yee_z_privacy_computing.Analyzer.Allowance.{
  check_signature, Param, ModelPolicy, DataPolicy, check_allowance,
}
use yee_z_privacy_computing.Analyzer.Allowance.Granted.{verified_signature}
use yee_z_privacy_computing.Analyzer.Allowance.Decision.{
  bind_passed, ModelGranted, DataGranted, check_allowance_iff,
}
use yee_z_privacy_computing.Analyzer.Algo.{
  Analysis, request, to_forward, check_forward, set_forward_target_info, decrypt, parse_encrypted,
}

pub request_passed :
    (ecc : Ecc) (session : Session) (pkey private_key dian_pkey : Bytes)
    → request ecc session pkey ≡ passed (private_key, dian_pkey)
    → request_private_key_for_public_key ecc session pkey ≡ (0, private_key, dian_pkey)
unfolding request
request_passed ecc session pkey private_key dian_pkey e =
    let keys = request_private_key_for_public_key ecc session pkey in
    λ i. (given_status i, given_skey i, given_pkey i)
  where
    given_status : (request_private_key_for_public_key ecc session pkey).0 ≡ 0
    given_status = ground arith

    given_skey : (request_private_key_for_public_key ecc session pkey).1 ≡ private_key
    given_skey = ground arith

    given_pkey : (request_private_key_for_public_key ecc session pkey).2 ≡ dian_pkey
    given_pkey = ground arith

pub decrypt_passed :
    (ecc : Ecc) (private_key cipher msg : Bytes)
    → decrypt ecc private_key cipher ≡ passed msg
    → ecc.decrypt_message_with_prefix private_key cipher ≡ (0, msg)
decrypt_passed ecc private_key cipher msg e = λ i. (given_status i, given_msg i)
  where
    given_status : (ecc.decrypt_message_with_prefix private_key cipher).0 ≡ 0
    given_status = ground arith

    given_msg : (ecc.decrypt_message_with_prefix private_key cipher).1 ≡ msg
    given_msg = ground arith

-- What holds of a forward target: the owner of the parameter's key has signed it.
abbrev pub ForwardSigned : Ecc → Bytes → Bytes → Param → Analysis → Bool → Type 0
ForwardSigned ecc enclave_hash dian_pkey param s' false = Unit
ForwardSigned ecc enclave_hash dian_pkey param s' true =
    (ecc.verify_signature (to_forward enclave_hash dian_pkey param) param.forward.encrypted_sig
        param.pkey
      ≡ 0)
    × (s'.target_enclave_hash ≡ param.forward.enclave_hash)
    × (s'.target_dian_pkey ≡ param.forward.pkey)

check_forward_right :
    (ecc : Ecc) (enclave_hash : Bytes) (param : Param) (s s' : Analysis) (sk dk : Bytes)
    → ecc.generate_pkey_from_skey sk ≡ (0, param.pkey)
    → check_forward ecc enclave_hash param s (sk, dk) ≡ passed s'
    → ForwardSigned ecc enclave_hash dk param s' true
unfolding check_forward
check_forward_right ecc enclave_hash param s s' sk dk made e = (
  sym (
        verified_signature ecc (λ m. (0, [])) enclave_hash enclave_hash sk
          (to_forward enclave_hash dk param) param.forward.encrypted_sig param.pkey made)
      ∙ valid,
  hash_set,
  pkey_set,
)
  where
    valid :
        check_signature ecc sk (to_forward enclave_hash dk param) param.forward.encrypted_sig ≡ 0
    valid = ground arith

    hash_set : s'.target_enclave_hash ≡ param.forward.enclave_hash
    hash_set = ground arith

    pkey_set : s'.target_dian_pkey ≡ param.forward.pkey
    pkey_set = ground arith

forward_right :
    (ecc : Ecc) (session : Session) (enclave_hash : Bytes) (forwards : Bool) (param : Param)
    (s s' : Analysis) (sk dk : Bytes)
    → request ecc session param.pkey ≡ passed (sk, dk)
    → set_forward_target_info ecc session enclave_hash forwards param s ≡ passed s'
    → ForwardSigned ecc enclave_hash dk param s' forwards
unfolding set_forward_target_info
forward_right ecc session enclave_hash false param s s' sk dk r e = tt
forward_right ecc session enclave_hash true param s s' sk dk r e =
    check_forward_right ecc enclave_hash param s s' sk dk
      ((request_private_key-success ecc session param.pkey sk dk).0
        (request_passed ecc session param.pkey sk dk r)).3
      (sym (ap (λ (c : Checked (Bytes × Bytes)). c >>= check_forward ecc enclave_hash param s) r)
        ∙ e)

ForwardSigned-same :
    (ecc : Ecc) (enclave_hash dk : Bytes) (param : Param) (s s' : Analysis) (forwards : Bool)
    → s.target_enclave_hash ≡ s'.target_enclave_hash
    → s.target_dian_pkey ≡ s'.target_dian_pkey
    → ForwardSigned ecc enclave_hash dk param s forwards
    → ForwardSigned ecc enclave_hash dk param s' forwards
ForwardSigned-same ecc enclave_hash dk param s s' false p q f = tt
ForwardSigned-same ecc enclave_hash dk param s s' true p q (v, h, k) = (v, sym p ∙ h, sym q ∙ k)

abbrev passed_or : Analysis → Checked Analysis → Analysis
passed_or s (passed a) = a
passed_or s (failed n) = s

-- Where `parse_data_item_impl` succeeds on an encrypted parameter, the key manager has given the
-- private key of the parameter's public key, the parameter decrypts under it, the allowances grant the
-- use of model and data for the decrypted parameter, and the result is that of the algorithm on it.
-- For a forward result, the owner of the key has also signed the target that is set.
pub parse_encrypted-allowed :
    (ecc : Ecc) (session : Session) (enclave_hash : Bytes) (model_policy : ModelPolicy)
    (data_policy : DataPolicy) (forwards : Bool) (do_parse : Bytes → Bytes) (param : Param)
    (s s' : Analysis)
    → parse_encrypted ecc session enclave_hash model_policy data_policy forwards do_parse param s
      ≡ passed s'
    → (private_key : Bytes) × (dian_pkey : Bytes) × (decrypted : Bytes)
      × (request_private_key_for_public_key ecc session param.pkey ≡ (0, private_key, dian_pkey))
      × (ecc.decrypt_message_with_prefix private_key param.param_data ≡ (0, decrypted))
      × ModelGranted ecc session
          (ecc.hash_256 decrypted).1
          enclave_hash
          param.allowances
          model_policy
      × DataGranted ecc session (ecc.hash_256 decrypted).1 enclave_hash param.allowances data_policy
      × ForwardSigned ecc enclave_hash dian_pkey
          (record param { param_data = decrypted })
          s'
          forwards
      × (s'.result ≡ do_parse decrypted)
unfolding parse_encrypted
parse_encrypted-allowed ecc session enclave_hash mp dp forwards do_parse param s s' e =
    let ((sk, dk), requested, e1) = bind_passed (request ecc session param.pkey) _ s' e in
    let (decrypted, decrypts, e2) = bind_passed (decrypt ecc sk param.param_data) _ s' e1 in
    let param' = record param { param_data = decrypted } in
    let (u, allowed, e3) =
      bind_passed (check_allowance ecc session enclave_hash mp dp param') _ s' e2 in
    let (s1, forwarded, e4) =
      bind_passed
        (set_forward_target_info ecc session enclave_hash forwards param'
          (record s { pkey4v = param.pkey; private_key = sk }))
        _ s' e3 in
    let (hashed, served, model, data_allowed) =
      (check_allowance_iff ecc session enclave_hash mp dp param').0 allowed in
    (
      sk,
      dk,
      decrypted,
      request_passed ecc session param.pkey sk dk requested,
      decrypt_passed ecc sk param.param_data decrypted decrypts,
      model,
      data_allowed,
      ForwardSigned-same ecc enclave_hash dk param' s1 s' forwards
          (ap (λ (c : Checked Analysis). (passed_or s' c).target_enclave_hash) e4)
          (ap (λ (c : Checked Analysis). (passed_or s' c).target_dian_pkey) e4)
          (forward_right ecc session enclave_hash forwards param'
            (record s { pkey4v = param.pkey; private_key = sk }) s1 sk dk requested forwarded),
      sym (ap (λ (c : Checked Analysis). (passed_or s' c).result) e4),
    )
