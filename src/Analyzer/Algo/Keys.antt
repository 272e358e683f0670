-- ===== src/Analyzer/Algo/Keys.antt =====
-- The keys that `parse_data_item_impl` leaves behind for the result.
use yee_z_privacy_computing.Base.{◌≡◌, sym, ap, ◌∙◌, Bool, true, false, arith, Bytes}
use yee_z_privacy_computing.Analyzer.Ecc.{Ecc, Session, Checked, passed, failed}
use yee_z_privacy_computing.Analyzer.Keymgr.{request_private_key_for_public_key}
use yee_z_privacy_computing.Analyzer.Allowance.{Param, ModelPolicy, DataPolicy, check_allowance}
use yee_z_privacy_computing.Analyzer.Allowance.Decision.{bind_passed}
use yee_z_privacy_computing.Analyzer.Algo.{
  Analysis, request, check_forward, set_forward_target_info, decrypt, parse_encrypted,
}
use yee_z_privacy_computing.Analyzer.Algo.Allowed.{request_passed}

-- The pair of a request is there.
pub record KeptKeys (ecc : Ecc) (session : Session) (param : Param) (s : Analysis) : Type 0 where
  pub dian_pkey : Bytes
  pub requested :
      request_private_key_for_public_key ecc session param.pkey ≡ (0, s.private_key, dian_pkey)
  pub pkey_kept : s.pkey4v ≡ param.pkey

check_forward_keeps :
    (ecc : Ecc) (enclave_hash : Bytes) (param : Param) (s s' : Analysis) (keys : Bytes × Bytes)
    → check_forward ecc enclave_hash param s keys ≡ passed s'
    → (s.private_key ≡ s'.private_key) × (s.pkey4v ≡ s'.pkey4v)
unfolding check_forward
check_forward_keeps ecc enclave_hash param s s' keys e = (ground arith, ground arith)

set_forward_keeps :
    (ecc : Ecc) (session : Session) (enclave_hash : Bytes) (forwards : Bool) (param : Param)
    (s s' : Analysis)
    → set_forward_target_info ecc session enclave_hash forwards param s ≡ passed s'
    → (s.private_key ≡ s'.private_key) × (s.pkey4v ≡ s'.pkey4v)
unfolding set_forward_target_info
set_forward_keeps ecc session enclave_hash false param s s' e = (ground arith, ground arith)
set_forward_keeps ecc session enclave_hash true param s s' e =
    let (keys, e0, e1) =
      bind_passed (request ecc session param.pkey) (check_forward ecc enclave_hash param s) s' e in
    check_forward_keeps ecc enclave_hash param s s' keys e1

passed_or : Analysis → Checked Analysis → Analysis
passed_or s (passed a) = a
passed_or s (failed n) = s

pub parse_encrypted-KeptKeys :
    (ecc : Ecc) (session : Session) (enclave_hash : Bytes) (model_policy : ModelPolicy)
    (data_policy : DataPolicy) (forwards : Bool) (do_parse : Bytes → Bytes) (param : Param)
    (s s' : Analysis)
    → parse_encrypted ecc session enclave_hash model_policy data_policy forwards do_parse param s
      ≡ passed s'
    → KeptKeys ecc session param s' × (s'.encrypted_param ≡ param.param_data)
unfolding parse_encrypted passed_or
parse_encrypted-KeptKeys ecc session enclave_hash mp dp forwards do_parse param s s' e =
    let ((sk, dk), requested, e1) = bind_passed (request ecc session param.pkey) _ s' e in
    let (decrypted, decrypts, e2) = bind_passed (decrypt ecc sk param.param_data) _ s' e1 in
    let param' = record param { param_data = decrypted } in
    let (u, allowed, e3) =
      bind_passed (check_allowance ecc session enclave_hash mp dp param') _ s' e2 in
    let s0 = record s { pkey4v = param.pkey; private_key = sk } in
    let (s1, forwarded, e4) =
      bind_passed (set_forward_target_info ecc session enclave_hash forwards param' s0) _ s' e3 in
    let (same_key, same_pkey) =
      set_forward_keeps ecc session enclave_hash forwards param' s0 s1 forwarded in
    (
      record {
        dian_pkey = dk;
        requested = request_passed ecc session param.pkey sk dk requested ∙ λ i.
            (0, (same_key ∙ ap (λ (c : Checked Analysis). (passed_or s' c).private_key) e4) i, dk);
        pkey_kept = sym (same_pkey ∙ ap (λ (c : Checked Analysis). (passed_or s' c).pkey4v) e4);
      },
      sym (ap (λ (c : Checked Analysis). (passed_or s' c).encrypted_param) e4),
    )
