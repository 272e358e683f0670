-- ===== src/Parser/Tests.antt =====
-- The analyzer of Analyzer/Wrapper/Tests.antt behind the host, with a key manager that counts the keys
-- that are forwarded to it.
use yee_z_privacy_computing.Base.{ℕ, suc, ◌≡◌, refl, inr, false, [], ◌∷◌}
use yee_z_privacy_computing.Analyzer.Tests.{owner, request_param}
use yee_z_privacy_computing.Analyzer.Sources.{multi}
use yee_z_privacy_computing.Analyzer.Sources.Tests.{start_only}
use yee_z_privacy_computing.Analyzer.Results.Run.{done}
use yee_z_privacy_computing.Analyzer.Wrapper.{Wrapper}
use yee_z_privacy_computing.Analyzer.Wrapper.Tests.{
  offchain_build, begun, has_ended, open_ecc-IsScheme,
}
use yee_z_privacy_computing.Parser.{InputParam, parse}
use yee_z_privacy_computing.Parser.Fed.{Manager, multi_data_stream, enclaves}
use yee_z_privacy_computing.Parser.Reported.{Reported, parse-Reported}

abbrev counting : Manager ℕ
counting = record { set_policy = λ k. k; forward_key = λ skey epkey ehash sig k. done (suc k) }

abbrev one_input : InputParam
one_input = record {
  shu_info = record {
    shu_pkey = owner;
    encrypted_shu_skey = 1 ∷ [];
    shu_forward_signature = [];
    enclave_hash = 8 ∷ [];
  };
  input_data =
      record {
        input_data_hash = 7 ∷ [];
        shu_info = record {
          shu_pkey = owner;
          encrypted_shu_skey = 1 ∷ [];
          shu_forward_signature = [];
          enclave_hash = 8 ∷ [];
        };
      }
      ∷ [];
  parser_enclave_hash = 8 ∷ [];
  dian_pkey = 9 ∷ [];
  param = request_param;
}

abbrev fresh : Wrapper
fresh = record begun { keymgr_session = false; sources = multi [] []; enclave_hash = [] }

reports :
    parse
      (enclaves offchain_build start_only 0 multi_data_stream (8 ∷ []) counting)
      one_input
      fresh
      0
    ≡ done (has_ended, 2, 0 ∷ 4 ∷ 5 ∷ [])
unfolding parse yee_z_privacy_computing.Parser.feed_datasource
    yee_z_privacy_computing.Parser.feed_items yee_z_privacy_computing.Parser.Fed.init_data_source
    yee_z_privacy_computing.Analyzer.Wrapper.begin_parse_data_item
    yee_z_privacy_computing.Analyzer.Wrapper.parse_data_item
    yee_z_privacy_computing.Analyzer.Wrapper.end_parse_data_item
    yee_z_privacy_computing.Analyzer.Sources.init_multi
    yee_z_privacy_computing.Analyzer.Sources.set_data_hash
    yee_z_privacy_computing.Analyzer.Sources.Order.gt
    yee_z_privacy_computing.Analyzer.Sources.check_actual_data_hash
    yee_z_privacy_computing.Analyzer.Results.Classes.generate_result
    yee_z_privacy_computing.Analyzer.Results.Classes.get_analyze_result
    yee_z_privacy_computing.Analyzer.Results.Classes.get_analyze_result_size
    yee_z_privacy_computing.Analyzer.Results.Offchain.generate_offchain
    yee_z_privacy_computing.Analyzer.Results.Signing.sign_both
    yee_z_privacy_computing.Analyzer.Results.Signing.export_internal_key
    yee_z_privacy_computing.Analyzer.Results.Signing.cost_gas_str
    yee_z_privacy_computing.Bytes.Endian.endian_swap yee_z_privacy_computing.Bytes.Endian.swap_loop
    yee_z_privacy_computing.Bytes.Endian.swap_bytes yee_z_privacy_computing.Blockfile.Codec.le_bytes
    yee_z_privacy_computing.Analyzer.Algo.parse_encrypted
    yee_z_privacy_computing.Analyzer.Keymgr.request_private_key_for_public_key
    yee_z_privacy_computing.Analyzer.Keymgr.keys_from
    yee_z_privacy_computing.Analyzer.Keymgr.check_keys yee_z_privacy_computing.Analyzer.Algo.request
    yee_z_privacy_computing.Analyzer.Algo.set_forward_target_info
    yee_z_privacy_computing.Analyzer.Allowance.check_allowance
    yee_z_privacy_computing.Analyzer.Allowance.check_policies
    yee_z_privacy_computing.Analyzer.Allowance.check_all
    yee_z_privacy_computing.Analyzer.Allowance.check_each
    yee_z_privacy_computing.Analyzer.Allowance.check_one
    yee_z_privacy_computing.Analyzer.Allowance.check_signature
    yee_z_privacy_computing.Analyzer.Allowance.check_allowance_m
    yee_z_privacy_computing.Analyzer.Allowance.check_allowance_d
reports = refl

parse-Reported_example :
    Reported offchain_build start_only 0 (8 ∷ []) counting one_input has_ended (0 ∷ 4 ∷ 5 ∷ [])
parse-Reported_example =
    parse-Reported offchain_build start_only 0 (8 ∷ []) counting one_input fresh has_ended 0 2
      (0 ∷ 4 ∷ 5 ∷ []) open_ecc-IsScheme refl (inr refl) refl reports
