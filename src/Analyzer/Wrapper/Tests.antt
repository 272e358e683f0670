-- ===== src/Analyzer/Wrapper/Tests.antt =====
-- An analyzer of two sources, one of them sealed, in the scheme of Analyzer/Tests.antt.
use yee_z_privacy_computing.Base.{
  ℕ, ◌^◌, ◌<◌, ◌≡◌, refl, sym, ap, ◌∙◌, ◌≢◌, ◌⊎◌, inr, true, none, some, [], ◌∷◌, ◌++◌, arith,
  Bytes, if◌then◌else◌, length, bytes_eq, bytes_eq_refl,
}
use yee_z_privacy_computing.Status.{success, out_buffer_length_error, data_hash_not_same_as_expect}
use yee_z_privacy_computing.Sealed.Provider.{sealed_data_provider}
use yee_z_privacy_computing.Analyzer.Allowance.{Param, ignore_model}
use yee_z_privacy_computing.Analyzer.Tests.{open_ecc, keeper, owner, request_param, no_analysis}
use yee_z_privacy_computing.Analyzer.Sources.{
  DataSource, sealed, raw, data_hash, DataVars, single, multi, SealedInfo, init_sealed, init_multi,
  set_data_hash,
}
use yee_z_privacy_computing.Analyzer.Sources.Order.{gt}
use yee_z_privacy_computing.Analyzer.Sources.Tests.{source_with, insertion_sort, start_only}
use yee_z_privacy_computing.Analyzer.Results.Run.{done, stopped}
use yee_z_privacy_computing.Analyzer.Results.Signing.{InternalKey, Inputs}
use yee_z_privacy_computing.Analyzer.Results.Classes.{
  Codec, offchain, Generated, of_offchain, generate_result, get_analyze_result,
}
use yee_z_privacy_computing.Analyzer.Results.Opened.{IsScheme}
use yee_z_privacy_computing.Analyzer.Results.Handed.{IsExact, hand_over, hand_over_lem}
use yee_z_privacy_computing.Analyzer.Wrapper.{
  Build, Wrapper, parse_data_item, end_parse_data_item, inputs_of,
}
use yee_z_privacy_computing.Analyzer.Wrapper.Accountable.{
  Accountable, end_parse_data_item-Accountable,
}
use yee_z_privacy_computing.Analyzer.Keymgr.{request_private_key_for_public_key}
use yee_z_privacy_computing.Analyzer.Ecc.{passed}
use yee_z_privacy_computing.Analyzer.Allowance.{check_multi, check_allowance}
use yee_z_privacy_computing.Analyzer.Wrapper.Finishing.{IsTotal}
use yee_z_privacy_computing.Analyzer.Wrapper.Progress.{parse_data_item-end_parse_data_item}
use yee_z_privacy_computing.Analyzer.Wrapper.Replaced.{init_sealed-end_parse_data_item}

pub open_ecc-IsScheme : IsScheme open_ecc
open_ecc-IsScheme = record {
  signs = λ skey pkey msg sig pair signed.
      let same = ap (λ (q : ℕ × Bytes). q.1) pair in
      let is_sig = ap (λ (q : ℕ × Bytes). q.1) signed in
      ap (λ b. if b then 0 else 1)
        (ap (λ s. bytes_eq s (pkey ++ msg)) (sym is_sig ∙ ap (◌++ msg) same)
          ∙ bytes_eq_refl (pkey ++ msg));
  opens = λ k skey pkey msg cipher pair enc. λ i. (0, (ap (λ (q : ℕ × Bytes). q.1) (sym enc)) i);
}

abbrev codec_of_results : Codec
codec_of_results = record {
  batch_to_bytes = λ xs. [];
  onchain_to_bytes = λ pkg. pkg.encrypted_result;
  onchain_length = λ pkg. length pkg.encrypted_result;
  offchain_to_bytes = λ pkg. pkg.encrypted_result;
  offchain_length = λ pkg. length pkg.encrypted_result;
  offchain_from_bytes = λ m. none;
  forward_to_bytes = λ pkg. pkg.encrypted_result;
}

abbrev before_reading : DataVars
before_reading = multi (sealed (source_with (7 ∷ []) (5 ∷ [])) ∷ []) ((1 ∷ 2 ∷ 7 ∷ []) ∷ [])

abbrev read_all : DataVars → DataVars
read_all vars = multi (sealed (source_with (7 ∷ []) (7 ∷ [])) ∷ []) ((1 ∷ 2 ∷ 7 ∷ []) ∷ [])

abbrev pub offchain_build : Build
offchain_build = record {
  ecc = open_ecc;
  session = keeper;
  created = 0;
  closed = 0;
  codec = codec_of_results;
  sort = insertion_sort;
  result_type = offchain;
  model_policy = ignore_model;
  checks_data = true;
  do_parse = λ d. 0 ∷ d;
  reads = read_all;
}

abbrev pub begun : Wrapper
begun = record {
  keymgr_session = true;
  sources = before_reading;
  enclave_hash = 8 ∷ [];
  data_hash = [];
  analysis = no_analysis;
  internal_key = record { private_key = 6 ∷ []; public_key = 6 ∷ [] };
  generated = none;
}

-- The gas, 0.
abbrev no_gas : Bytes
no_gas = 0 ∷ 0 ∷ 0 ∷ 0 ∷ 0 ∷ 0 ∷ 0 ∷ 0 ∷ []

abbrev has_parsed : Wrapper
has_parsed = record begun {
  sources = read_all before_reading;
  data_hash = 7 ∷ [];
  analysis = record no_analysis {
    pkey4v = owner;
    private_key = owner;
    encrypted_param = 4 ∷ 5 ∷ [];
    result = 0 ∷ 4 ∷ 5 ∷ [];
    cost_gas = 0;
  };
}

abbrev pub offchain_result : Generated
offchain_result = of_offchain (record {
  encrypted_tmp_skey = 6 ∷ [];
  tmp_pkey = 6 ∷ [];
  encrypted_result_str = 0 ∷ 4 ∷ 5 ∷ [];
  encrypted_result_hash = 0 ∷ [];
  signatures = record {
    cost_signature = 1 ∷ 2 ∷ 4 ∷ 5 ∷ 7 ∷ 8 ∷ no_gas;
    result_signature = 1 ∷ 2 ∷ 6 ∷ 0 ∷ 4 ∷ 5 ∷ 7 ∷ (no_gas ++ (8 ∷ []));
  };
})

abbrev pub has_ended : Wrapper
has_ended = record has_parsed { generated = some offchain_result }

parses : parse_data_item offchain_build request_param begun ≡ done has_parsed
unfolding parse_data_item set_data_hash gt yee_z_privacy_computing.Analyzer.Algo.parse_encrypted
    yee_z_privacy_computing.Analyzer.Keymgr.request_private_key_for_public_key
    yee_z_privacy_computing.Analyzer.Keymgr.keys_from
    yee_z_privacy_computing.Analyzer.Keymgr.check_keys yee_z_privacy_computing.Analyzer.Algo.request
    yee_z_privacy_computing.Analyzer.Algo.set_forward_target_info
    yee_z_privacy_computing.Analyzer.Allowance.check_allowance
    yee_z_privacy_computing.Analyzer.Allowance.check_policies
    yee_z_privacy_computing.Analyzer.Allowance.check_all
    yee_z_privacy_computing.Analyzer.Allowance.check_each
    yee_z_privacy_computing.Analyzer.Allowance.check_one
    yee_z_privacy_computing.Analyzer.Allowance.check_signature
    yee_z_privacy_computing.Analyzer.Allowance.check_allowance_m
    yee_z_privacy_computing.Analyzer.Allowance.check_allowance_d
parses = refl

ends : end_parse_data_item offchain_build has_parsed ≡ done has_ended
unfolding end_parse_data_item generate_result
    yee_z_privacy_computing.Analyzer.Sources.check_actual_data_hash
    yee_z_privacy_computing.Analyzer.Results.Offchain.generate_offchain
    yee_z_privacy_computing.Analyzer.Results.Signing.sign_both
    yee_z_privacy_computing.Analyzer.Results.Signing.export_internal_key
    yee_z_privacy_computing.Analyzer.Results.Signing.cost_gas_str
    yee_z_privacy_computing.Bytes.Endian.endian_swap yee_z_privacy_computing.Bytes.Endian.swap_loop
    yee_z_privacy_computing.Bytes.Endian.swap_bytes yee_z_privacy_computing.Blockfile.Codec.le_bytes
ends = refl

end_parse_data_item-Accountable_example : Accountable offchain_build request_param begun has_ended
end_parse_data_item-Accountable_example =
    end_parse_data_item-Accountable offchain_build request_param begun has_parsed has_ended
      open_ecc-IsScheme refl (inr refl) parses ends

abbrev wrong_data : Wrapper
wrong_data = record has_parsed {
  sources = single (some (sealed (source_with (7 ∷ []) (8 ∷ [])))) (1 ∷ 2 ∷ 7 ∷ []);
}

abbrev set_again : DataVars
set_again =
    single (some (sealed (sealed_data_provider start_only 0 (5 ∷ []) owner))) (1 ∷ 2 ∷ 5 ∷ [])

sets_again :
    init_sealed start_only 0 open_ecc keeper
      (record { data_hash = 5 ∷ []; pkey = owner })
      wrong_data.sources
    ≡ (success, set_again)
unfolding init_sealed yee_z_privacy_computing.Analyzer.Keymgr.request_private_key_for_public_key
    yee_z_privacy_computing.Analyzer.Keymgr.keys_from
    yee_z_privacy_computing.Analyzer.Keymgr.check_keys
sets_again = refl

generates :
    generate_result open_ecc codec_of_results offchain (inputs_of wrong_data) ≡ done offchain_result
unfolding generate_result yee_z_privacy_computing.Analyzer.Results.Offchain.generate_offchain
    yee_z_privacy_computing.Analyzer.Results.Signing.sign_both
    yee_z_privacy_computing.Analyzer.Results.Signing.export_internal_key
    yee_z_privacy_computing.Analyzer.Results.Signing.cost_gas_str
    yee_z_privacy_computing.Bytes.Endian.endian_swap yee_z_privacy_computing.Bytes.Endian.swap_loop
    yee_z_privacy_computing.Bytes.Endian.swap_bytes yee_z_privacy_computing.Blockfile.Codec.le_bytes
generates = refl

eight_not_seven : ◌≢◌ {A = Bytes} (8 ∷ []) (7 ∷ [])
eight_not_seven = ground arith

init_sealed-end_parse_data_item_example :
    (end_parse_data_item offchain_build wrong_data ≡ stopped data_hash_not_same_as_expect)
    × (end_parse_data_item offchain_build (record wrong_data { sources = set_again })
        ≡ done (record wrong_data { sources = set_again; generated = some offchain_result }))
init_sealed-end_parse_data_item_example =
    init_sealed-end_parse_data_item offchain_build start_only 0 wrong_data
      (sealed (source_with (7 ∷ []) (8 ∷ []))) (1 ∷ 2 ∷ 7 ∷ [])
      (record { data_hash = 5 ∷ []; pkey = owner }) set_again offchain_result refl eight_not_seven
      refl sets_again generates refl

codec-IsExact : IsExact codec_of_results
codec-IsExact = record { onchain_exact = λ pkg. refl; offchain_exact = λ pkg. refl }

hand_over_lem_example :
    (3 < 2 ^ 32
      → hand_over codec_of_results (inputs_of has_parsed) offchain_result
        ≡ (success, 0 ∷ 4 ∷ 5 ∷ []))
    × ((size : ℕ)
        → ((size ≡ 3)
            × (get_analyze_result codec_of_results (inputs_of has_parsed) offchain_result size
                ≡ (success, 0 ∷ 4 ∷ 5 ∷ [])))
          ⊎ ((size ≢ 3)
              × (get_analyze_result codec_of_results (inputs_of has_parsed) offchain_result size
                  ≡ (out_buffer_length_error, []))))
hand_over_lem_example =
    hand_over_lem codec_of_results (inputs_of has_parsed) offchain_result codec-IsExact

open_ecc-IsTotal : IsTotal open_ecc
open_ecc-IsTotal = record {
  encrypts = λ k skey pkey msg prefix pair. refl;
  signs = λ skey pkey msg pair. refl;
}

allows :
    check_allowance open_ecc keeper
      (8 ∷ [])
      ignore_model
      (check_multi ((1 ∷ 2 ∷ 7 ∷ []) ∷ []))
      request_param
    ≡ passed tt
unfolding check_allowance yee_z_privacy_computing.Analyzer.Allowance.check_policies
    yee_z_privacy_computing.Analyzer.Keymgr.request_private_key_for_public_key
    yee_z_privacy_computing.Analyzer.Keymgr.keys_from
    yee_z_privacy_computing.Analyzer.Keymgr.check_keys
    yee_z_privacy_computing.Analyzer.Allowance.check_all
    yee_z_privacy_computing.Analyzer.Allowance.check_each
    yee_z_privacy_computing.Analyzer.Allowance.check_one
    yee_z_privacy_computing.Analyzer.Allowance.check_signature
    yee_z_privacy_computing.Analyzer.Allowance.check_allowance_m
    yee_z_privacy_computing.Analyzer.Allowance.check_allowance_d
allows = refl

gives_key : request_private_key_for_public_key open_ecc keeper owner ≡ (0, owner, 9 ∷ [])
unfolding yee_z_privacy_computing.Analyzer.Keymgr.request_private_key_for_public_key
    yee_z_privacy_computing.Analyzer.Keymgr.keys_from
    yee_z_privacy_computing.Analyzer.Keymgr.check_keys
gives_key = refl

parse_data_item-end_parse_data_item_example :
    (w1 : Wrapper) × (g : Generated) × (parse_data_item offchain_build request_param begun
      ≡ done w1)
    × (end_parse_data_item offchain_build w1 ≡ done (record w1 { generated = some g }))
    × (w1.analysis.result ≡ 0 ∷ 4 ∷ 5 ∷ [])
parse_data_item-end_parse_data_item_example =
    parse_data_item-end_parse_data_item offchain_build request_param begun owner (9 ∷ [])
      (4 ∷ 5 ∷ []) open_ecc-IsTotal refl (inr refl) gives_key refl allows (refl, tt) refl
