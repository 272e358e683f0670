-- ===== src/Analyzer/Allowance.antt =====
-- include/ypc/corecommon/allowance.h and interface/allowance_interface.h: an owner signs that an
-- algorithm with given parameters may use a data set or a model.
pub mod Granted
pub mod Decision
use yee_z_privacy_computing.Base.{
  ℕ, Bool, true, false, List, [], ◌∷◌, ◌++◌, Bytes, ◌==◌, if◌then◌else◌, is_empty, bytes_eq,
}
use yee_z_privacy_computing.Status.{success, model_allowance_miss, data_allowance_miss}
use yee_z_privacy_computing.Analyzer.Ecc.{Ecc, Session, Checked, passed, failed, ◌>>=◌, check}
use yee_z_privacy_computing.Analyzer.Keymgr.{request_private_key_for_public_key}

-- `allowance<Crypto>::check` and `generate`.
unfoldable pub check_signature : Ecc → Bytes → Bytes → Bytes → ℕ
check_signature ecc private_key msg allow =
    let (ret, pkey) = ecc.generate_pkey_from_skey private_key in
    if ret == 0 then ecc.verify_signature msg allow pkey else ret

abbrev pub generate : Ecc → Bytes → Bytes → ℕ × Bytes
generate ecc private_key msg = ecc.sign_message private_key msg

-- The fields of an allowance, of the forward target and of `param_t` that are read.
pub record Allowance : Type 0 where
  pub pkey : Bytes
  pub data_hash : Bytes
  pub signature : Bytes

pub record Forward : Type 0 where
  pub enclave_hash : Bytes
  pub pkey : Bytes
  pub encrypted_sig : Bytes

pub record Param : Type 0 where
  pub param_data : Bytes
  pub pkey : Bytes
  pub allowances : List Allowance
  pub forward : Forward

abbrev pub contains : Bytes → List Bytes → Bool
contains k [] = false
contains k (pk ∷ checked_pkey) = if bytes_eq pk k then true else contains k checked_pkey

-- `ModelAllowancePolicy`: `check_model_allowance` for a model with its public key and hash, and the
-- two that let everything pass, for `void` and `ignore_model_allowance`.
pub data ModelPolicy : Type 0 where
  check_model : Bytes → Bytes → ModelPolicy
  ignore_model : ModelPolicy

unfoldable pub check_allowance_m : ModelPolicy → List Bytes → ℕ
check_allowance_m (check_model model_pkey model_hash) checked_pkey =
    if contains (model_pkey ++ model_hash) checked_pkey then success else model_allowance_miss
check_allowance_m ignore_model checked_pkey = success

-- `DataAllowancePolicy`: `check_data_allowance` for one sealed source and for several, with
-- `m_ds_use_pkey`, and the one that lets everything pass.
pub data DataPolicy : Type 0 where
  check_sealed : Bytes → DataPolicy
  check_multi : List Bytes → DataPolicy
  ignore_data : DataPolicy

abbrev pub all_used : List Bytes → List Bytes → ℕ
all_used [] checked_pkey = success
all_used (dsp ∷ ds_use_pkey) checked_pkey =
    if contains dsp checked_pkey then all_used ds_use_pkey checked_pkey else data_allowance_miss

unfoldable pub check_allowance_d : DataPolicy → List Bytes → ℕ
check_allowance_d (check_sealed pkey) checked_pkey =
    if contains pkey checked_pkey then success else data_allowance_miss
check_allowance_d (check_multi ds_use_pkey) checked_pkey = all_used ds_use_pkey checked_pkey
check_allowance_d ignore_data checked_pkey = success

-- What an owner signs.
abbrev pub to_check_data : Bytes → Bytes → Bytes → Bytes → Bytes
to_check_data param_hash enclave_hash dian_pkey data_hash =
    param_hash ++ (enclave_hash ++ (dian_pkey ++ data_hash))

-- The end of the loop body, once the key is there: the keys that it pushes.
unfoldable pub check_one : Ecc → Bytes → Bytes → Allowance → Bytes → Bytes → List Bytes
check_one ecc param_hash enclave_hash a private_key dian_pkey =
    if is_empty a.signature
    then []
    else if check_signature ecc private_key
          (to_check_data param_hash enclave_hash dian_pkey a.data_hash) a.signature
        == 0
    then (a.pkey ++ a.data_hash) ∷ []
    else []

-- The loop body: an allowance without a public key is passed over.
unfoldable pub check_each : Ecc → Session → Bytes → Bytes → Allowance → Checked (List Bytes)
check_each ecc session param_hash enclave_hash a =
    let (ret, private_key, dian_pkey) = request_private_key_for_public_key ecc session a.pkey in
    if is_empty a.pkey
    then passed []
    else if ret == 0
    then passed (check_one ecc param_hash enclave_hash a private_key dian_pkey)
    else failed ret

-- The loop, which gives `checked_pkey`.
unfoldable pub check_all : Ecc → Session → Bytes → Bytes → List Allowance → Checked (List Bytes)
check_all ecc session param_hash enclave_hash [] = passed []
check_all ecc session param_hash enclave_hash (a ∷ allowances) = do
  pushed ← check_each ecc session param_hash enclave_hash a
  rest ← check_all ecc session param_hash enclave_hash allowances
  passed (pushed ++ rest)

-- What follows the loop.
unfoldable pub check_policies : ModelPolicy → DataPolicy → List Bytes → Checked (Unit {0})
check_policies model_policy data_policy checked_pkey = do
  model_checked ← check (check_allowance_m model_policy checked_pkey)
  check (check_allowance_d data_policy checked_pkey)

-- `check_allowance`: `passed` is the status success.
unfoldable pub check_allowance :
    Ecc → Session → Bytes → ModelPolicy → DataPolicy → Param → Checked (Unit {0})
check_allowance ecc session enclave_hash model_policy data_policy param = do
  hashed ← check (ecc.hash_256 param.param_data).0
  checked_pkey ←
      check_all ecc session (ecc.hash_256 param.param_data).1 enclave_hash param.allowances
  check_policies model_policy data_policy checked_pkey
