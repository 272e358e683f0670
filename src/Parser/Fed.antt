-- ===== src/Parser/Fed.antt =====
-- An `algo_wrapper` without a model behind the calls of the host: the macros of
-- include/ypc/core_t/analyzer/macro.h and the helpers of ecall_impl_helper.h.
use yee_z_privacy_computing.Base.{
  ℕ, ◌+◌, ◌*◌, Option, none, some, List, [], Bytes, ◌==◌, if◌then◌else◌,
}
use yee_z_privacy_computing.Status.{success, no_such_feature}
use yee_z_privacy_computing.Sealed.Library.{Library}
use yee_z_privacy_computing.Analyzer.Sources.{
  DataSource, DataVars, multi, SealedInfo, init_raw, init_sealed, init_multi,
}
use yee_z_privacy_computing.Analyzer.Results.Run.{Run, done, stopped, thrown, ◌>>=◌}
use yee_z_privacy_computing.Analyzer.Results.Signing.{Signatures}
use yee_z_privacy_computing.Analyzer.Results.Classes.{
  ResultType, onchain, offchain, offchain_file, forward, local, Generated, of_onchain, of_offchain,
  of_local,
}
use yee_z_privacy_computing.Analyzer.Results.Handed.{hand_over}
use yee_z_privacy_computing.Analyzer.Wrapper.{
  Build, Wrapper, init_keymgr_session, begin_parse_data_item, parse_data_item, inputs_of,
  end_parse_data_item,
}
use yee_z_privacy_computing.Parser.{
  onchain_result_parser, offchain_result_parser, local_result_parser, forward_result_parser,
  single_sealed_datasource_parser, multi_sealed_datasource_parser, noinput_datasource_parser,
  raw_datasource_parser, no_model_parser, DataInfo, single_info, multi_infos, raw_hash, Enclaves,
}

-- The template argument `DataSession`.
pub data DataSession : Type 0 where
  noinput_data_stream : DataSession
  sealed_data_stream : DataSession
  raw_data_stream : DataSession
  multi_data_stream : DataSession

-- `result_type_traits` and `datasource_type_traits`.
abbrev pub result_type_value : ResultType → ℕ
result_type_value onchain = onchain_result_parser
result_type_value offchain = offchain_result_parser
result_type_value offchain_file = offchain_result_parser
result_type_value forward = forward_result_parser
result_type_value local = local_result_parser

abbrev pub datasource_type_value : DataSession → ℕ
datasource_type_value noinput_data_stream = noinput_datasource_parser
datasource_type_value sealed_data_stream = single_sealed_datasource_parser
datasource_type_value raw_data_stream = raw_datasource_parser
datasource_type_value multi_data_stream = multi_sealed_datasource_parser

-- `get_parser_type`, where `ModelT` is void.
abbrev pub get_parser_type : Build → DataSession → ℕ
get_parser_type b stream =
    result_type_value b.result_type + 16 * datasource_type_value stream + 256 * no_model_parser

-- A status and the state, with what follows a status that is not success left out.
abbrev pub or_status {ℓ} : {A : Type ℓ} → ℕ × A → Run A
or_status (ret, a) = if ret == 0 then done a else stopped ret

abbrev pub with_sources : Wrapper → DataVars → Wrapper
with_sources w vars = record w { sources = vars }

module _ (b : Build) (l : Library) (unset : ℕ) where
  abbrev pub set_sources : Wrapper → ℕ × DataVars → Run Wrapper
  set_sources w (ret, vars) = if ret == 0 then done (with_sources w vars) else stopped ret

  abbrev pub set_several : Wrapper → ℕ × List DataSource × List Bytes → Run Wrapper
  set_several w (ret, sources, use_pkeys) =
      if ret == 0 then done (with_sources w (multi sources use_pkeys)) else stopped ret

  -- What `init_data_source` does with the sources there are. A package of another kind is not read.
  abbrev pub init_several : List SealedInfo → Wrapper → DataVars → Run Wrapper
  init_several infos w (multi sources use_pkeys) =
      set_several w (init_multi l unset b.ecc b.session infos sources use_pkeys)
  init_several infos w vars = thrown

  unfoldable pub init_data_source : DataSession → DataInfo → Wrapper → Run Wrapper
  init_data_source noinput_data_stream info w = stopped no_such_feature
  init_data_source sealed_data_stream (single_info info) w = do
    w' ← or_status (init_keymgr_session b w)
    set_sources w' (init_sealed l unset b.ecc b.session info w'.sources)
  init_data_source sealed_data_stream info w = thrown
  init_data_source raw_data_stream (raw_hash hash) w =
      set_sources w (init_raw l unset b.ecc b.session hash w.sources)
  init_data_source raw_data_stream info w = thrown
  init_data_source multi_data_stream (multi_infos infos) w = do
    w' ← or_status (init_keymgr_session b w)
    init_several infos w' w'.sources
  init_data_source multi_data_stream info w = thrown

-- The members of a result class that are not set yet.
abbrev pub no_signatures : Signatures
no_signatures = record { cost_signature = []; result_signature = [] }

abbrev pub unset_result : Build → Wrapper → ResultType → ℕ × Bytes
unset_result b w onchain =
    hand_over b.codec (inputs_of w)
      (of_onchain (record { encrypted_result_str = []; signatures = no_signatures }))
unset_result b w forward = (success, [])
unset_result b w local = hand_over b.codec (inputs_of w) of_local
unset_result b w other = hand_over b.codec (inputs_of w) (
    of_offchain (record {
      encrypted_tmp_skey = [];
      tmp_pkey = [];
      encrypted_result_str = [];
      encrypted_result_hash = [];
      signatures = no_signatures;
    }))

abbrev pub result_of : Build → Wrapper → Option Generated → ℕ × Bytes
result_of b w none = unset_result b w b.result_type
result_of b w (some g) = hand_over b.codec (inputs_of w) g

-- The key manager stays a parameter: its calls on its state.
pub record Manager (K : Type 0) : Type 0 where
  pub set_policy : K → K
  pub forward_key : Bytes → Bytes → Bytes → Bytes → K → Run K

abbrev pub enclaves :
    {K : Type 0} → Build → Library → ℕ → DataSession → Bytes → Manager K → Enclaves Wrapper K
enclaves b l unset stream enclave_hash m = record {
  get_parser_type = λ w. get_parser_type b stream;
  get_enclave_hash = λ w. (0, enclave_hash);
  init_data_source = init_data_source b l unset stream;
  init_model = λ w. stopped no_such_feature;
  begin_parse_data_item = λ w. or_status (begin_parse_data_item b enclave_hash w);
  parse_data_item = parse_data_item b;
  end_parse_data_item = end_parse_data_item b;
  get_analyze_result = λ w. result_of b w w.generated;
  set_access_control_policy = m.set_policy;
  forward_private_key = m.forward_key;
}
