-- ===== src/Parser.antt =====
-- toolkit/analyzer/parsers/parser.cpp: the host of an analyzer, which feeds the enclave, lets it run and
-- takes its result. The enclaves are parameters here; Parser/Fed.antt puts an `algo_wrapper` in place.
pub mod Fed
pub mod Steps
pub mod Reported
mod Tests
use yee_z_privacy_computing.Base.{
  ℕ, ◌+◌, ◌/◌, ◌%◌, ◌&&◌, ◌||◌, List, [], ◌∷◌, Bytes, ◌==◌, if◌then◌else◌, is_empty, bytes_eq,
}
use yee_z_privacy_computing.Analyzer.Allowance.{Param}
use yee_z_privacy_computing.Analyzer.Sources.{SealedInfo}
use yee_z_privacy_computing.Analyzer.Results.Run.{Run, done, stopped, thrown, ◌>>=◌, or_stop}

-- ypc/core/status.h: the host's own codes.
abbrev pub ypc_status : ℕ → ℕ
ypc_status b = 0x20000 + b

abbrev pub parser_return_wrong_data_hash : ℕ
parser_return_wrong_data_hash = ypc_status 0x103

abbrev pub parser_missing_input : ℕ
parser_missing_input = ypc_status 0x109

abbrev pub parser_unknown_result : ℕ
parser_unknown_result = ypc_status 0x10A

-- common/parser_type.h: the classes, and the word in which the enclave tells the host its own. The bit
-- fields stand as gcc lays them out, the first one lowest.
abbrev pub onchain_result_parser : ℕ
onchain_result_parser = 1

abbrev pub offchain_result_parser : ℕ
offchain_result_parser = 2

abbrev pub local_result_parser : ℕ
local_result_parser = 3

abbrev pub forward_result_parser : ℕ
forward_result_parser = 4

abbrev pub single_sealed_datasource_parser : ℕ
single_sealed_datasource_parser = 1

abbrev pub multi_sealed_datasource_parser : ℕ
multi_sealed_datasource_parser = 2

abbrev pub noinput_datasource_parser : ℕ
noinput_datasource_parser = 3

abbrev pub raw_datasource_parser : ℕ
raw_datasource_parser = 4

abbrev pub no_model_parser : ℕ
no_model_parser = 0

abbrev pub result_type : ℕ → ℕ
result_type value = value % 16

abbrev pub data_source_type : ℕ → ℕ
data_source_type value = value / 16 % 16

abbrev pub has_model : ℕ → ℕ
has_model value = value / 256 % 2

-- toolkit/analyzer/iodef.h. A url that opens as a sealed file is given as that file.
pub record ShuInfo : Type 0 where
  pub shu_pkey : Bytes
  pub encrypted_shu_skey : Bytes
  pub shu_forward_signature : Bytes
  pub enclave_hash : Bytes

pub record DataItem : Type 0 where
  pub input_data_hash : Bytes
  pub shu_info : ShuInfo

pub record InputParam : Type 0 where
  pub shu_info : ShuInfo
  pub input_data : List DataItem
  pub parser_enclave_hash : Bytes
  pub dian_pkey : Bytes
  pub param : Param

-- `data_info_bytes` before it is a package; it stays empty for an unknown type of data source.
pub data DataInfo : Type 0 where
  single_info : SealedInfo → DataInfo
  multi_infos : List SealedInfo → DataInfo
  raw_hash : Bytes → DataInfo
  no_info : DataInfo

-- The calls of parser_sgx_module and of keymgr_sgx_module on the states `E` and `K` of the two enclaves.
-- Those that return a status end in it where it is not success.
pub record Enclaves (E K : Type 0) : Type 0 where
  pub get_parser_type : E → ℕ
  pub get_enclave_hash : E → ℕ × Bytes
  pub init_data_source : DataInfo → E → Run E
  pub init_model : E → Run E
  pub begin_parse_data_item : E → Run E
  pub parse_data_item : Param → E → Run E
  pub end_parse_data_item : E → Run E
  pub get_analyze_result : E → ℕ × Bytes
  pub set_access_control_policy : K → K
  pub forward_private_key : Bytes → Bytes → Bytes → Bytes → K → Run K

abbrev pub to_info : DataItem → SealedInfo
to_info item = record { data_hash = item.input_data_hash; pkey = item.shu_info.shu_pkey }

-- The package, by the type of the data source. `all_data_info[0]` is undefined where there is none.
abbrev pub first_info : (SealedInfo → DataInfo) → List SealedInfo → Run DataInfo → Run DataInfo
first_info f [] otherwise = otherwise
first_info f (info ∷ infos) otherwise = done (f info)

abbrev pub data_info : ℕ → List SealedInfo → Run DataInfo
data_info ds infos =
    if ds == single_sealed_datasource_parser
    then first_info single_info infos (stopped parser_missing_input)
    else if ds == multi_sealed_datasource_parser
    then done (multi_infos infos)
    else if ds == raw_datasource_parser
    then first_info (λ info. raw_hash info.data_hash) infos thrown
    else done no_info

-- The tests for missing input, at the start.
abbrev pub input_given : ℕ → List DataItem → Run (Unit {0})
input_given ds items =
    if is_empty items
      && ((ds == single_sealed_datasource_parser) || (ds == multi_sealed_datasource_parser))
    then stopped parser_missing_input
    else done tt

-- `dump_result`, without the JSON that is made of the package.
abbrev pub dump_result : ℕ → Bytes → Run Bytes
dump_result type res =
    if (type == onchain_result_parser)
      || ((type == offchain_result_parser)
          || ((type == local_result_parser) || (type == forward_result_parser)))
    then done res
    else stopped parser_unknown_result

abbrev pub same_hash : Bytes → Bytes → Run (Unit {0})
same_hash actual_hash ehash =
    if bytes_eq actual_hash ehash then done tt else stopped parser_return_wrong_data_hash

module _ {E K : Type 0} (x : Enclaves E K) where
  -- The loop of `feed_datasource`: the key of each data set is forwarded, for the enclave that the item
  -- names. `m_data_sources`, which `next_data_batch` reads, is not followed up here.
  unfoldable pub feed_items : Bytes → List DataItem → K → Run (List SealedInfo × K)
  feed_items epkey [] k = done ([], k)
  feed_items epkey (item ∷ items) k = do
    k' ←
        x.forward_private_key item.shu_info.encrypted_shu_skey epkey item.shu_info.enclave_hash
          item.shu_info.shu_forward_signature k
    rest ← feed_items epkey items k'
    done (to_info item ∷ rest.0, rest.1)

  abbrev pub feed_inputs : ℕ → InputParam → E → K → Run (E × K)
  feed_inputs ds p e k = do
    given ← input_given ds p.input_data
    fed ← feed_items p.dian_pkey p.input_data k
    info ← data_info ds fed.0
    e' ← x.init_data_source info e
    done (e', fed.1)

  unfoldable pub feed_datasource : ℕ → InputParam → E → K → Run (E × K)
  feed_datasource ds p e k =
      if ds == noinput_datasource_parser then done (e, k) else feed_inputs ds p e k

  abbrev pub feed_model : ℕ → E → Run E
  feed_model model e = if model == no_model_parser then done e else x.init_model e

  -- The forwarding of the key for the parameter.
  abbrev pub forward_shu : InputParam → K → Run K
  forward_shu p k =
      if is_empty p.shu_info.encrypted_shu_skey
      then done k
      else x.forward_private_key p.shu_info.encrypted_shu_skey p.dian_pkey p.parser_enclave_hash
          p.shu_info.shu_forward_signature k

  -- `parse`: the two enclaves behind it, and `m_result_str`.
  unfoldable pub parse : InputParam → E → K → Run (E × K × Bytes)
  parse p e k = do
    k1 ← forward_shu p (x.set_access_control_policy k)
    let value = x.get_parser_type e
    actual_hash ← or_stop (x.get_enclave_hash e)
    same ← same_hash actual_hash p.parser_enclave_hash
    fed ← feed_datasource (data_source_type value) p e k1
    e2 ← feed_model (has_model value) fed.0
    e3 ← x.begin_parse_data_item e2
    e4 ← x.parse_data_item p.param e3
    e5 ← x.end_parse_data_item e4
    res ← or_stop (x.get_analyze_result e5)
    out ← dump_result (result_type value) res
    done (e5, fed.1, out)
