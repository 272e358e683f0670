-- ===== src/Analyzer/Algo.antt =====
-- interface/algo_interface.h and interface/forward_interface.h: `parse_data_item_impl`, which lets the
-- algorithm run. The algorithm itself, `do_parse`, is a parameter.
pub mod Allowed
pub mod Keys
use yee_z_privacy_computing.Base.{ℕ, Bool, ◌++◌, Bytes, ◌==◌, if◌then◌else◌}
use yee_z_privacy_computing.Status.{forward_allowance_invalid}
use yee_z_privacy_computing.Analyzer.Ecc.{Ecc, Session, Checked, passed, failed, ◌>>=◌}
use yee_z_privacy_computing.Analyzer.Keymgr.{request_private_key_for_public_key}
use yee_z_privacy_computing.Analyzer.Allowance.{
  check_signature, Param, ModelPolicy, DataPolicy, check_allowance,
}

-- `request_key_var`, `encrypted_param_var`, `result_var` and the targets of `forward_result`. A failing
-- call gives its status alone.
pub record Analysis : Type 0 where
  pub pkey4v : Bytes
  pub private_key : Bytes
  pub encrypted_param : Bytes
  pub result : Bytes
  pub cost_gas : ℕ
  pub target_enclave_hash : Bytes
  pub target_dian_pkey : Bytes

-- A call of the key manager, with `if (ret) return ret;` behind it.
unfoldable pub request : Ecc → Session → Bytes → Checked (Bytes × Bytes)
request ecc session pkey =
    let (ret, private_key, dian_pkey) = request_private_key_for_public_key ecc session pkey in
    if ret == 0 then passed (private_key, dian_pkey) else failed ret

-- What the owner signs for a forward target.
abbrev pub to_forward : Bytes → Bytes → Param → Bytes
to_forward enclave_hash dian_pkey param =
    param.param_data
    ++ (enclave_hash ++ (dian_pkey ++ (param.forward.enclave_hash ++ param.forward.pkey)))

-- The end of `set_forward_target_info` for `forward_result`.
unfoldable pub check_forward : Ecc → Bytes → Param → Analysis → Bytes × Bytes → Checked Analysis
check_forward ecc enclave_hash param s (private_key, dian_pkey) =
    if check_signature ecc private_key (to_forward enclave_hash dian_pkey param)
        param.forward.encrypted_sig
      == 0
    then passed (record s {
      target_enclave_hash = param.forward.enclave_hash;
      target_dian_pkey = param.forward.pkey;
    })
    else failed forward_allowance_invalid

-- `set_forward_target_info`, where `forwards` is whether the result type is `forward_result`.
unfoldable pub set_forward_target_info :
    Ecc → Session → Bytes → Bool → Param → Analysis → Checked Analysis
set_forward_target_info ecc session enclave_hash forwards param s =
    if forwards
    then request ecc session param.pkey >>= check_forward ecc enclave_hash param s
    else passed s

abbrev pub decrypt : Ecc → Bytes → Bytes → Checked Bytes
decrypt ecc private_key cipher =
    let (ret, msg) = ecc.decrypt_message_with_prefix private_key cipher in
    if ret == 0 then passed msg else failed ret

-- `parse_data_item_impl` where the parameter is encrypted.
unfoldable pub parse_encrypted :
    Ecc
    → Session
    → Bytes
    → ModelPolicy
    → DataPolicy
    → Bool
    → (Bytes → Bytes)
    → Param
    → Analysis
    → Checked Analysis
parse_encrypted ecc session enclave_hash model_policy data_policy forwards do_parse param s = do
  (private_key, dian_pkey) ← request ecc session param.pkey
  decrypted_param ← decrypt ecc private_key param.param_data
  let param' = record param { param_data = decrypted_param }
  allowed ← check_allowance ecc session enclave_hash model_policy data_policy param'
  s' ←
      set_forward_target_info ecc session enclave_hash forwards param'
        (record s { pkey4v = param.pkey; private_key = private_key })
  passed (record s' {
    encrypted_param = param.param_data;
    result = do_parse decrypted_param;
    cost_gas = 0;
  })

-- `parse_data_item_impl` where it is not.
unfoldable pub parse_plain :
    Ecc
    → Session
    → Bytes
    → ModelPolicy
    → DataPolicy
    → (Bytes → Bytes)
    → Param
    → Analysis
    → Checked Analysis
parse_plain ecc session enclave_hash model_policy data_policy do_parse param s = do
  allowed ← check_allowance ecc session enclave_hash model_policy data_policy param
  passed (record s { result = do_parse param.param_data })
