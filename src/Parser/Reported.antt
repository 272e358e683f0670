-- ===== src/Parser/Reported.antt =====
-- What stands behind a result that the host reports: `parse` on an analyzer of several data sources.
use yee_z_privacy_computing.Base.{
  ℕ, ◌≡◌, refl, sym, ap, ◌∙◌, some, [], map, arith, Bytes, bytes_eq→eq,
}
use mathlib.Core.Path.{subst}
use yee_z_privacy_computing.Status.{success}
use yee_z_privacy_computing.Sealed.Library.{Library}
use yee_z_privacy_computing.Analyzer.Sources.{DataVars, multi}
use yee_z_privacy_computing.Analyzer.Results.Run.{done, bind_done, or_stop, or_stop_done}
use yee_z_privacy_computing.Analyzer.Results.Signing.{InternalKey}
use yee_z_privacy_computing.Analyzer.Results.Classes.{Generated}
use yee_z_privacy_computing.Analyzer.Results.Handed.{hand_over}
use yee_z_privacy_computing.Analyzer.Results.Opened.{IsScheme, done_injective}
use yee_z_privacy_computing.Analyzer.Wrapper.{
  Build, Wrapper, begin_parse_data_item, parse_data_item, inputs_of, end_parse_data_item,
}
use yee_z_privacy_computing.Analyzer.Wrapper.Completed.{IsDelivery}
use yee_z_privacy_computing.Analyzer.Wrapper.Accountable.{
  Accountable, end_parse_data_item-Accountable,
}
use yee_z_privacy_computing.Parser.{
  InputParam, to_info, Enclaves, multi_infos, feed_items, feed_inputs, feed_datasource, feed_model,
  input_given, dump_result, forward_shu, same_hash, parse, data_source_type, has_model, result_type,
}
use yee_z_privacy_computing.Parser.Fed.{
  multi_data_stream, get_parser_type, or_status, init_data_source, result_of, Manager, enclaves,
}
use yee_z_privacy_computing.Parser.Steps.{
  feed_items-map, data_source_type_multi, has_model_none, begin_parse_data_item_keeps, sources_of,
  init_data_source-sources,
}

module _ {K : Type 0} (b : Build) (l : Library) (unset : ℕ) (enclave_hash : Bytes) (m : Manager K)
    (p : InputParam) where
  abbrev x : Enclaves Wrapper K
  x = enclaves b l unset multi_data_stream enclave_hash m

  -- The sources that the items of the input stand for.
  abbrev pub announced : DataVars
  announced = sources_of b l unset (map to_info p.input_data)

  feed_inputs-sources :
      (w : Wrapper) (k : K) (fed : Wrapper × K)
      → w.sources ≡ multi [] []
      → feed_inputs x 2 p w k ≡ done fed
      → (fed.0.sources ≡ announced) × (fed.0.internal_key ≡ w.internal_key)
  feed_inputs-sources w k fed empty e =
      let (u, e0, f0) = bind_done (input_given 2 p.input_data) _ fed e in
      let (infos, e1, f1) = bind_done (feed_items x p.dian_pkey p.input_data k) _ fed f0 in
      let (w1, e2, f2) =
        bind_done (init_data_source b l unset multi_data_stream (multi_infos infos.0) w) _ fed f1 in
      let (set, kept) = init_data_source-sources b l unset infos.0 w w1 empty e2 in
      let same = ap (λ (q : Wrapper × K). q.0) (sym (done_injective _ fed f2)) in
      (
        ap (λ (q : Wrapper). q.sources) same
            ∙ (set
                ∙ ap (sources_of b l unset) (feed_items-map x p.dian_pkey p.input_data k infos e1)),
        ap (λ (q : Wrapper). q.internal_key) same ∙ kept,
      )

  feed_datasource-sources :
      (ds : ℕ) (w : Wrapper) (k : K) (fed : Wrapper × K)
      → ds ≡ 2
      → w.sources ≡ multi [] []
      → feed_datasource x ds p w k ≡ done fed
      → (fed.0.sources ≡ announced) × (fed.0.internal_key ≡ w.internal_key)
  unfolding feed_datasource
  feed_datasource-sources ds w k fed is_multi empty e =
      feed_inputs-sources w k fed empty (sym (ap (λ d. feed_datasource x d p w k) is_multi) ∙ e)

  -- What `parse` has reported in `out`, and the enclave `w'` behind it.
  pub record Reported (w' : Wrapper) (out : Bytes) : Type 0 where
    pub fed : Wrapper
    pub accountable : Accountable b p.param fed w'
    pub sources_are : fed.sources ≡ announced
    pub enclave_is : fed.enclave_hash ≡ p.parser_enclave_hash
    pub handed : hand_over b.codec (inputs_of w') accountable.made ≡ (success, out)

  same_hash_done : (h k : Bytes) (u : Unit {0}) → same_hash h k ≡ done u → h ≡ k
  same_hash_done h k u e = bytes_eq→eq h k (ground arith)

  feed_model_none :
      (model : ℕ) (w w' : Wrapper) → model ≡ 0 → feed_model x model w ≡ done w' → w ≡ w'
  feed_model_none model w w' none_yet e = done_injective w w' (sym (rw none_yet refl) ∙ e)

  dump_result_done : (type : ℕ) (res out : Bytes) → dump_result type res ≡ done out → res ≡ out
  dump_result_done type res out e = ground arith

  -- Up to `begin_parse_data_item`.
  prepared :
      (w : Wrapper) (k : K) (fed : Wrapper × K) (w2 w3 : Wrapper)
      → b.ecc.generate_pkey_from_skey w.internal_key.private_key ≡ (0, w.internal_key.public_key)
      → w.sources ≡ multi [] []
      → feed_datasource x (data_source_type (get_parser_type b multi_data_stream)) p w k ≡ done fed
      → feed_model x (has_model (get_parser_type b multi_data_stream)) fed.0 ≡ done w2
      → or_status (begin_parse_data_item b enclave_hash w2) ≡ done w3
      → (w3.sources ≡ announced)
        × (w3.enclave_hash ≡ enclave_hash)
        × (b.ecc.generate_pkey_from_skey w3.internal_key.private_key
            ≡ (0, w3.internal_key.public_key))
  prepared w k fed w2 w3 pair empty e2 e3 e4 =
      let (set, key_fed) =
        feed_datasource-sources (data_source_type (get_parser_type b multi_data_stream)) w k fed
          (data_source_type_multi b) empty e2 in
      let same = sym (feed_model_none _ fed.0 w2 (has_model_none b) e3) in
      let (begun, key_begun, hash_begun) = begin_parse_data_item_keeps b enclave_hash w2 w3 e4 in
      let key_kept = key_begun ∙ (ap (λ (q : Wrapper). q.internal_key) same ∙ key_fed) in
      (
        begun ∙ (ap (λ (q : Wrapper). q.sources) same ∙ set),
        hash_begun,
        ap (λ (q : InternalKey). b.ecc.generate_pkey_from_skey q.private_key) key_kept
            ∙ (pair ∙ λ i. (0, (sym key_kept i).public_key)),
      )

  handed_out :
      (w : Wrapper) (made : Generated) (res out : Bytes)
      → w.generated ≡ some made
      → or_stop (result_of b w w.generated) ≡ done res
      → res ≡ out
      → hand_over b.codec (inputs_of w) made ≡ (success, out)
  handed_out w made res out generated e same =
      sym (ap (result_of b w) generated)
      ∙ (or_stop_done (result_of b w w.generated) res e ∙ λ i. (0, same i))

  -- For a scheme in which the two keys of a pair belong together, and an on-chain or off-chain analyzer of
  -- several sources that is fresh and has such a pair of its own: where `parse` succeeds, what it reports
  -- is the package, whole, of a run that `Accountable` describes, in the enclave whose hash the user has
  -- named, on the user's parameter and on the sources that the user has announced, each sealed one with
  -- its public key and hash among those that the allowances must grant where the policy asks for them.
  pub parse-Reported :
      (w w' : Wrapper) (k k' : K) (out : Bytes)
      → IsScheme b.ecc
      → b.ecc.generate_pkey_from_skey w.internal_key.private_key ≡ (0, w.internal_key.public_key)
      → IsDelivery b.result_type
      → w.sources ≡ multi [] []
      → parse x p w k ≡ done (w', k', out)
      → Reported w' out
  unfolding parse
  parse-Reported w w' k k' out scheme pair delivery empty e =
      let r : Wrapper × K × Bytes = (w', k', out) in
      let value = get_parser_type b multi_data_stream in
      let (k1, e0, f0) = bind_done (forward_shu x p (m.set_policy k)) _ r e in
      let (u, e1, f1) = bind_done (same_hash enclave_hash p.parser_enclave_hash) _ r f0 in
      let (fed, e2, f2) = bind_done (feed_datasource x (data_source_type value) p w k1) _ r f1 in
      let (w2, e3, f3) = bind_done (feed_model x (has_model value) fed.0) _ r f2 in
      let (w3, e4, f4) = bind_done (or_status (begin_parse_data_item b enclave_hash w2)) _ r f3 in
      let (w4, e5, f5) = bind_done (parse_data_item b p.param w3) _ r f4 in
      let (w5, e6, f6) = bind_done (end_parse_data_item b w4) _ r f5 in
      let (res, e7, f7) = bind_done (or_stop (result_of b w5 w5.generated)) _ r f6 in
      let (out', e8, f8) = bind_done (dump_result (result_type value) res) _ r f7 in
      let (set, hash_set, pair_kept) = prepared w k1 fed w2 w3 pair empty e2 e3 e4 in
      let a = end_parse_data_item-Accountable b p.param w3 w4 w5 scheme pair_kept delivery e5 e6 in
      let last = done_injective _ r f8 in
      subst (λ q. Reported q out) (ap (λ (q : Wrapper × K × Bytes). q.0) last)
        (record {
          fed = w3;
          accountable = a;
          sources_are = set;
          enclave_is = hash_set ∙ same_hash_done enclave_hash p.parser_enclave_hash u e1;
          handed = handed_out w5 a.made res out a.generated_is e7 (
              dump_result_done (result_type value) res out' e8
              ∙ ap (λ (q : Wrapper × K × Bytes). q.2) last);
        })
