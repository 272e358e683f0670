-- ===== src/Analyzer/Wrapper.antt =====
-- algo_wrapper.h: the calls that the host makes of an analyzer enclave, behind the macros of macro.h.
pub mod Completed
pub mod Accountable
pub mod Replaced
pub mod Finishing
pub mod Progress
pub mod Tests
use yee_z_privacy_computing.Base.{
  ℕ, Bool, true, false, Option, none, some, List, Bytes, ◌==◌, if◌then◌else◌,
}
use yee_z_privacy_computing.Status.{success}
use yee_z_privacy_computing.Analyzer.Ecc.{Ecc, Session, Checked, passed, failed}
use yee_z_privacy_computing.Analyzer.Allowance.{
  Param, ModelPolicy, DataPolicy, check_sealed, check_multi, ignore_data,
}
use yee_z_privacy_computing.Analyzer.Algo.{Analysis, parse_encrypted, parse_plain}
use yee_z_privacy_computing.Analyzer.Sources.{
  DataVars, no_input, single, multi, check_actual_data_hash, set_data_hash, create_parser,
}
use yee_z_privacy_computing.Analyzer.Results.Run.{Run, done, stopped, thrown, ◌>>=◌}
use yee_z_privacy_computing.Analyzer.Results.Signing.{InternalKey, Inputs}
use yee_z_privacy_computing.Analyzer.Results.Classes.{
  Codec, ResultType, forward, local, Generated, generate_result,
}

-- What `algo_wrapper` is instantiated with, and what the enclave calls: `Crypto`, the session with the
-- key manager and the statuses of opening and closing it, the packages' codec, `std::sort`, the
-- template arguments, and the algorithm, as its result on a parameter and what its reads leave of the
-- sources. `checks_data` is whether `DataAllowancePolicy` is `check_data_allowance`.
pub record Build : Type 0 where
  pub ecc : Ecc
  pub session : Session
  pub created : ℕ
  pub closed : ℕ
  pub codec : Codec
  pub sort : List Bytes → List Bytes
  pub result_type : ResultType
  pub model_policy : ModelPolicy
  pub checks_data : Bool
  pub do_parse : Bytes → Bytes
  pub reads : DataVars → DataVars

-- `m_keymgr_session` is there or not, the sources, `m_enclave_hash`, `m_data_hash`, the members that
-- the run of the algorithm sets, the key pair of the enclave, and the members of the result class,
-- where they are set.
pub record Wrapper : Type 0 where
  pub keymgr_session : Bool
  pub sources : DataVars
  pub enclave_hash : Bytes
  pub data_hash : Bytes
  pub analysis : Analysis
  pub internal_key : InternalKey
  pub generated : Option Generated

-- `init_keymgr_session` of internal/keymgr_session.cpp. The object stays where `create_session` fails.
abbrev pub init_keymgr_session : Build → Wrapper → ℕ × Wrapper
init_keymgr_session b w =
    if w.keymgr_session then (success, w) else (b.created, record w { keymgr_session = true })

-- `begin_parse_data_item`, for the hash of the enclave that the macro sets first.
unfoldable pub begin_parse_data_item : Build → Bytes → Wrapper → ℕ × Wrapper
begin_parse_data_item b hash w =
    let (ret, w') = init_keymgr_session b (record w { enclave_hash = hash }) in
    if ret == 0 then (create_parser w'.sources, w') else (ret, w')

abbrev pub is_forward : ResultType → Bool
is_forward forward = true
is_forward other = false

-- `is_param_encrypted`.
abbrev pub is_param_encrypted : ResultType → Bool
is_param_encrypted local = false
is_param_encrypted other = true

-- The policy reads `m_ds_use_pkey`.
abbrev pub data_policy : Bool → DataVars → DataPolicy
data_policy false vars = ignore_data
data_policy true no_input = ignore_data
data_policy true (single ds use_pkey) = check_sealed use_pkey
data_policy true (multi sources use_pkeys) = check_multi use_pkeys

-- `parse_data_item_impl`, of the two classes `algo_interface`.
abbrev pub parse_data_item_impl : Build → Param → Wrapper → Checked Analysis
parse_data_item_impl b param w =
    if is_param_encrypted b.result_type
    then parse_encrypted b.ecc b.session w.enclave_hash b.model_policy
        (data_policy b.checks_data w.sources) (is_forward b.result_type) b.do_parse param w.analysis
    else parse_plain b.ecc b.session w.enclave_hash b.model_policy
        (data_policy b.checks_data w.sources) b.do_parse param w.analysis

-- What `parse_data_item` leaves behind where the algorithm has run. The hash is set from the sources as
-- they then are; a null source ends the enclave.
abbrev pub parsed_with : Wrapper → DataVars → Analysis → Option Bytes → Run Wrapper
parsed_with w sources a none = thrown
parsed_with w sources a (some hash) =
    done (record w { analysis = a; sources = sources; data_hash = hash })

abbrev pub parsed : Build → Wrapper → Checked Analysis → Run Wrapper
parsed b w (failed ret) = stopped ret
parsed b w (passed a) =
    parsed_with w (b.reads w.sources) a (set_data_hash b.ecc b.sort (b.reads w.sources) w.data_hash)

-- `parse_data_item`, for the package `param_t`.
unfoldable pub parse_data_item : Build → Param → Wrapper → Run Wrapper
parse_data_item b param w = parsed b w (parse_data_item_impl b param w)

abbrev pub inputs_of : Wrapper → Inputs
inputs_of w = record {
  enclave_hash = w.enclave_hash;
  data_hash = w.data_hash;
  analysis = w.analysis;
  internal_key = w.internal_key;
}

-- `if (ret) return ret;`, for a check that may follow a null pointer.
abbrev pub or_leave : Option ℕ → Run (Unit {0})
or_leave none = thrown
or_leave (some ret) = if ret == 0 then done tt else stopped ret

-- `end_parse_data_item`.
unfoldable pub end_parse_data_item : Build → Wrapper → Run Wrapper
end_parse_data_item b w = do
  checked ← or_leave (check_actual_data_hash w.sources)
  g ← generate_result b.ecc b.codec b.result_type (inputs_of w)
  left ← or_leave (some b.closed)
  done (record w { generated = some g })
