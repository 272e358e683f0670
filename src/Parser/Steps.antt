-- ===== src/Parser/Steps.antt =====
-- The steps of `parse` on an analyzer of several data sources.
use yee_z_privacy_computing.Base.{
  ℕ, ◌≤◌, ◌≡◌, refl, sym, ap, ◌∙◌, inl, inr, List, [], ◌∷◌, map, arith, Bytes, ◌==◌, Bool-cases,
}
use yee_z_privacy_computing.Sealed.Library.{Library}
use yee_z_privacy_computing.Analyzer.Sources.{DataSource, DataVars, multi, SealedInfo, init_multi}
use yee_z_privacy_computing.Analyzer.Sources.Multi.{
  source_of, used, init_multi_lem, init_multi-success,
}
use yee_z_privacy_computing.Analyzer.Results.Run.{done, bind_done}
use yee_z_privacy_computing.Analyzer.Results.Classes.{
  ResultType, onchain, offchain, offchain_file, forward, local,
}
use yee_z_privacy_computing.Analyzer.Results.Opened.{done_injective}
use yee_z_privacy_computing.Analyzer.Wrapper.{
  Build, Wrapper, init_keymgr_session, begin_parse_data_item,
}
use yee_z_privacy_computing.Parser.{
  DataItem, to_info, Enclaves, multi_infos, feed_items, data_source_type, has_model,
}
use yee_z_privacy_computing.Parser.Fed.{
  multi_data_stream, get_parser_type, or_status, with_sources, set_several, init_several,
  init_data_source, result_type_value,
}

pub or_status_done {ℓ} : {A : Type ℓ} (r : ℕ × A) (a : A) → or_status r ≡ done a → r.1 ≡ a
or_status_done (ret, b) a e = elim (Bool-cases (ret == 0)) [
  | inl passes ↦ done_injective b a (sym (rw passes refl) ∙ e)
  | inr fails ↦ absurd (ground arith)
]

-- The loop gives an entry for each item.
module _ {E K : Type 0} (x : Enclaves E K) where
  pub feed_items-map :
      (epkey : Bytes) (items : List DataItem) (k : K) (r : List SealedInfo × K)
      → feed_items x epkey items k ≡ done r
      → r.0 ≡ map to_info items
  unfolding feed_items
  feed_items-map epkey [] k r e = ap (λ (q : List SealedInfo × K). q.0) (sym (done_injective _ r e))
  feed_items-map epkey (item ∷ items) k r e =
      let (k', e0, f0) =
        bind_done
          (x.forward_private_key item.shu_info.encrypted_shu_skey epkey item.shu_info.enclave_hash
            item.shu_info.shu_forward_signature k)
          _ r e in
      let (rest, e1, f1) = bind_done (feed_items x epkey items k') _ r f0 in
      ap (λ (q : List SealedInfo × K). q.0) (sym (done_injective _ r f1))
      ∙ ap (to_info item ∷◌) (feed_items-map epkey items k' rest e1)

-- What the host reads out of the word of the enclave.
result_type_value_le : (t : ResultType) → result_type_value t ≤ 4
result_type_value_le onchain = omega arith
result_type_value_le offchain = omega arith
result_type_value_le offchain_file = omega arith
result_type_value_le forward = omega arith
result_type_value_le local = omega arith

pub data_source_type_multi :
    (b : Build) → data_source_type (get_parser_type b multi_data_stream) ≡ 2
data_source_type_multi b = omega (arith, result_type_value_le b.result_type)

pub has_model_none : (b : Build) → has_model (get_parser_type b multi_data_stream) ≡ 0
has_model_none b = omega (arith, result_type_value_le b.result_type)

init_keymgr_session_keeps :
    (b : Build) (w : Wrapper)
    → ((init_keymgr_session b w).1.sources ≡ w.sources)
      × ((init_keymgr_session b w).1.internal_key ≡ w.internal_key)
      × ((init_keymgr_session b w).1.enclave_hash ≡ w.enclave_hash)
init_keymgr_session_keeps b w = elim (Bool-cases w.keymgr_session) [
  | inl e ↦ (ground (arith, e), ground (arith, e), ground (arith, e))
  | inr e ↦ (ground (arith, e), ground (arith, e), ground (arith, e))
]

begin_state :
    (b : Build) (hash : Bytes) (w : Wrapper)
    → (init_keymgr_session b (record w { enclave_hash = hash })).1
      ≡ (begin_parse_data_item b hash w).1
unfolding begin_parse_data_item
begin_state b hash w =
    elim (Bool-cases ((init_keymgr_session b (record w { enclave_hash = hash })).0 == 0)) [
      | inl e ↦ rw e refl
      | inr e ↦ rw e refl
    ]

pub begin_parse_data_item_keeps :
    (b : Build) (hash : Bytes) (w w' : Wrapper)
    → or_status (begin_parse_data_item b hash w) ≡ done w'
    → (w'.sources ≡ w.sources) × (w'.internal_key ≡ w.internal_key) × (w'.enclave_hash ≡ hash)
begin_parse_data_item_keeps b hash w w' e =
    let same = sym (begin_state b hash w ∙ or_status_done (begin_parse_data_item b hash w) w' e) in
    let (kept, key_kept, hash_kept) =
      init_keymgr_session_keeps b (record w { enclave_hash = hash }) in
    (
      ap (λ (q : Wrapper). q.sources) same ∙ kept,
      ap (λ (q : Wrapper). q.internal_key) same ∙ key_kept,
      ap (λ (q : Wrapper). q.enclave_hash) same ∙ hash_kept,
    )

module _ (b : Build) (l : Library) (unset : ℕ) (infos : List SealedInfo) where
  abbrev pub sources_of : DataVars
  sources_of =
      multi (map (source_of l unset b.ecc b.session) infos) (used l unset b.ecc b.session infos)

  set_several-sources :
      (w w' : Wrapper) (r : ℕ × List DataSource × List Bytes)
      → set_several b l unset w r ≡ done w'
      → (r.0 ≡ 0) × (w' ≡ with_sources w (multi r.1 r.2))
  set_several-sources w w' (ret, sources, use_pkeys) e = elim (Bool-cases (ret == 0)) [
    | inl passes ↦ (ground arith, sym (done_injective _ w' (sym (rw passes refl) ∙ e)))
    | inr fails ↦ absurd (ground arith)
  ]

  init_several-sources :
      (w w' : Wrapper)
      → init_several b l unset infos w (multi [] []) ≡ done w'
      → w' ≡ with_sources w sources_of
  init_several-sources w w' e =
      let (passes, same) =
        set_several-sources w w' (init_multi l unset b.ecc b.session infos [] []) e in
      let read =
        (init_multi_lem l unset b.ecc b.session infos [] []
          (init_multi-success l unset b.ecc b.session infos [] [] passes)).0 in
      same ∙ ap (λ (q : ℕ × List DataSource × List Bytes). with_sources w (multi q.1 q.2)) read

  pub init_data_source-sources :
      (w w' : Wrapper)
      → w.sources ≡ multi [] []
      → init_data_source b l unset multi_data_stream (multi_infos infos) w ≡ done w'
      → (w'.sources ≡ sources_of) × (w'.internal_key ≡ w.internal_key)
  unfolding init_data_source
  init_data_source-sources w w' empty e =
      let (v, e0, f0) = bind_done (or_status (init_keymgr_session b w)) _ w' e in
      let same = or_status_done (init_keymgr_session b w) v e0 in
      let (kept, key_kept, hash_kept) = init_keymgr_session_keeps b w in
      let w_is = init_several-sources v w' (
        sym (
          ap (init_several b l unset infos v)
            (ap (λ (q : Wrapper). q.sources) (sym same) ∙ (kept ∙ empty)))
        ∙ f0) in
      (
        ap (λ (q : Wrapper). q.sources) w_is,
        ap (λ (q : Wrapper). q.internal_key) w_is
            ∙ (ap (λ (q : Wrapper). q.internal_key) (sym same) ∙ key_kept),
      )
