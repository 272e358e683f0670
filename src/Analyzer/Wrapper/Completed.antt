-- ===== src/Analyzer/Wrapper/Completed.antt =====
-- A run that the host makes in the order of toolkit/analyzer: `parse_data_item`, then
-- `end_parse_data_item`.
use yee_z_privacy_computing.Base.{
  ℕ, ◌≡◌, refl, ap, ◌⊎◌, inl, inr, Option, none, some, List, [], ◌∷◌, arith, Bytes, All,
  bytes_eq→eq,
}
use mathlib.Core.Path.{subst}
use yee_z_privacy_computing.Analyzer.Ecc.{Ecc, Checked, passed, failed}
use yee_z_privacy_computing.Analyzer.Allowance.{Param}
use yee_z_privacy_computing.Analyzer.Algo.{Analysis, parse_encrypted}
use yee_z_privacy_computing.Analyzer.Sources.{
  DataSource, DataVars, no_input, single, multi, data_hash, expect_data_hash, check_source,
  check_sources, check_actual_data_hash, set_data_hash,
}
use yee_z_privacy_computing.Analyzer.Results.Run.{Run, done, bind_done}
use yee_z_privacy_computing.Analyzer.Results.Signing.{Inputs}
use yee_z_privacy_computing.Analyzer.Results.Onchain.{generate_onchain}
use yee_z_privacy_computing.Analyzer.Results.Offchain.{generate_offchain}
use yee_z_privacy_computing.Analyzer.Results.Classes.{
  ResultType, onchain, offchain, offchain_file, forward, local, Generated, of_onchain, of_offchain,
  map_run, generate_result,
}
use yee_z_privacy_computing.Analyzer.Results.Opened.{
  IsScheme, done_injective, OpensOnchain, OpensOffchain, generate_onchain-Opens,
  generate_offchain-Opens,
}
use yee_z_privacy_computing.Analyzer.Wrapper.{
  Build, Wrapper, parsed, parsed_with, data_policy, is_forward, is_param_encrypted,
  parse_data_item_impl, inputs_of, or_leave, end_parse_data_item,
}

-- What was read from each source has the hash that was announced for it.
abbrev pub IsExpected : DataSource → Type 0
IsExpected ds = data_hash ds ≡ expect_data_hash ds

abbrev pub AllExpected : DataVars → Type 0
AllExpected no_input = Unit
AllExpected (single none use_pkey) = ⊥
AllExpected (single (some ds) use_pkey) = IsExpected ds
AllExpected (multi sources use_pkeys) = All IsExpected sources

check_source-IsExpected : (ds : DataSource) → check_source ds ≡ 0 → IsExpected ds
check_source-IsExpected ds e = bytes_eq→eq (data_hash ds) (expect_data_hash ds) (ground arith)

check_sources-IsExpected :
    (sources : List DataSource) → check_sources sources ≡ 0 → All IsExpected sources
check_sources-IsExpected [] e = tt
check_sources-IsExpected (ds ∷ sources) e =
    (check_source-IsExpected ds (ground arith), check_sources-IsExpected sources (ground arith))

or_leave_done : (o : Option ℕ) (u : Unit {0}) → or_leave o ≡ done u → o ≡ some 0
or_leave_done none u e = absurd (ground arith)
or_leave_done (some ret) u e = ap some (ground arith)

checked-AllExpected : (vars : DataVars) → check_actual_data_hash vars ≡ some 0 → AllExpected vars
unfolding check_actual_data_hash
checked-AllExpected no_input e = tt
checked-AllExpected (single none use_pkey) e = absurd (ground arith)
checked-AllExpected (single (some ds) use_pkey) e = check_source-IsExpected ds (ground arith)
checked-AllExpected (multi sources use_pkeys) e = check_sources-IsExpected sources (ground arith)

-- What `parse_data_item` leaves behind.
pub record Parsed (b : Build) (w w' : Wrapper) (run : Checked Analysis) : Type 0 where
  pub ran : run ≡ passed w'.analysis
  pub sources_read : w'.sources ≡ b.reads w.sources
  pub hash_set : set_data_hash b.ecc b.sort w'.sources w.data_hash ≡ some w'.data_hash
  pub enclave_kept : w'.enclave_hash ≡ w.enclave_hash
  pub key_kept : w'.internal_key ≡ w.internal_key

parsed_with-Parsed :
    (b : Build) (w w' : Wrapper) (a : Analysis) (hash : Option Bytes)
    → set_data_hash b.ecc b.sort (b.reads w.sources) w.data_hash ≡ hash
    → parsed_with w (b.reads w.sources) a hash ≡ done w'
    → Parsed b w w' (passed a)
parsed_with-Parsed b w w' a none set e = absurd (ground arith)
parsed_with-Parsed b w w' a (some hash) set e =
    subst (λ v. Parsed b w v (passed a)) (done_injective _ w' e)
      (record {
        ran = refl;
        sources_read = refl;
        hash_set = set;
        enclave_kept = refl;
        key_kept = refl;
      })

pub parsed-Parsed :
    (b : Build) (w w' : Wrapper) (run : Checked Analysis)
    → parsed b w run ≡ done w'
    → Parsed b w w' run
parsed-Parsed b w w' (failed ret) e = absurd (ground arith)
parsed-Parsed b w w' (passed a) e = parsed_with-Parsed b w w' a _ refl e

-- What `end_parse_data_item` adds.
pub record Ended (b : Build) (w w' : Wrapper) : Type 0 where
  pub made : Generated
  pub expected : AllExpected w.sources
  pub generates : generate_result b.ecc b.codec b.result_type (inputs_of w) ≡ done made
  pub behind : record w { generated = some made } ≡ w'

pub end_parse_data_item-Ended :
    (b : Build) (w w' : Wrapper) → end_parse_data_item b w ≡ done w' → Ended b w w'
unfolding end_parse_data_item
end_parse_data_item-Ended b w w' e =
    let (u, e0, f0) = bind_done (or_leave (check_actual_data_hash w.sources)) _ w' e in
    let (g, e1, f1) =
      bind_done (generate_result b.ecc b.codec b.result_type (inputs_of w)) _ w' f0 in
    let (v, e2, f2) = bind_done (or_leave (some b.closed)) _ w' f1 in
    record {
      made = g;
      expected = checked-AllExpected w.sources (or_leave_done _ u e0);
      generates = e1;
      behind = done_injective _ w' f2;
    }

-- The package opens under the private key of the request, and is signed under its public key.
abbrev pub Opens : Ecc → Inputs → Bytes → Generated → Type 0
Opens ecc s pkey (of_onchain r) = OpensOnchain ecc s pkey r
Opens ecc s pkey (of_offchain r) =
    OpensOffchain ecc s pkey s.internal_key.private_key r
    × (ecc.decrypt_message_with_prefix s.internal_key.private_key r.encrypted_result_str
        ≡ (0, s.analysis.result))
Opens ecc s pkey g = ⊥

-- The classes whose package carries the algorithm's result to the owner of the request.
abbrev pub IsDelivery : ResultType → Type 0
IsDelivery t = (t ≡ onchain) ⊎ (t ≡ offchain)

map_run_done :
    {A : Type 0} (f : A → Generated) (r : Run A) (g : Generated)
    → map_run f r ≡ done g
    → (a : A) × (r ≡ done a) × (f a ≡ g)
map_run_done f r g e =
    let (a, e0, f0) = bind_done r (λ a. done (f a)) g e in (a, e0, done_injective (f a) g f0)

pub generate_result-Opens :
    (b : Build) (s : Inputs) (pkey : Bytes) (t : ResultType) (g : Generated)
    → IsScheme b.ecc
    → b.ecc.generate_pkey_from_skey s.analysis.private_key ≡ (0, pkey)
    → pkey ≡ s.analysis.pkey4v
    → b.ecc.generate_pkey_from_skey s.internal_key.private_key ≡ (0, s.internal_key.public_key)
    → IsDelivery t
    → generate_result b.ecc b.codec t s ≡ done g
    → Opens b.ecc s pkey g
unfolding generate_result
generate_result-Opens b s pkey onchain g scheme made named pair d e =
    let (r, e0, same) = map_run_done of_onchain (generate_onchain b.ecc s) g e in
    subst (Opens b.ecc s pkey) same (generate_onchain-Opens b.ecc scheme s pkey made r named e0)
generate_result-Opens b s pkey offchain g scheme made named pair d e =
    let (r, e0, same) = map_run_done of_offchain (generate_offchain b.ecc s) g e in
    subst (Opens b.ecc s pkey) same (generate_offchain-Opens b.ecc scheme s pkey made r pair e0)
generate_result-Opens b s pkey offchain_file g scheme made named pair d e = absurd (ground arith)
generate_result-Opens b s pkey forward g scheme made named pair d e = absurd (ground arith)
generate_result-Opens b s pkey local g scheme made named pair d e = absurd (ground arith)

pub impl_delivery :
    (b : Build) (param : Param) (w : Wrapper)
    → IsDelivery b.result_type
    → parse_data_item_impl b param w
      ≡ parse_encrypted b.ecc b.session w.enclave_hash b.model_policy
          (data_policy b.checks_data w.sources)
          (is_forward b.result_type)
          b.do_parse
          param
          w.analysis
impl_delivery b param w (inl e) = ground (arith, ap is_param_encrypted e)
impl_delivery b param w (inr e) = ground (arith, ap is_param_encrypted e)
