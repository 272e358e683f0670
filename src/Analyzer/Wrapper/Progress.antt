-- ===== src/Analyzer/Wrapper/Progress.antt =====
-- A run that nothing stands against comes to its end.
use yee_z_privacy_computing.Base.{
  ◌≡◌, refl, ap, ◌∙◌, inl, inr, false, none, some, List, [], ◌∷◌, Bytes, All, bytes_eq_refl,
}
use yee_z_privacy_computing.Analyzer.Ecc.{Ecc, passed}
use yee_z_privacy_computing.Analyzer.Keymgr.{
  request_private_key_for_public_key, request_private_key-success,
}
use yee_z_privacy_computing.Analyzer.Allowance.{Param, check_allowance}
use yee_z_privacy_computing.Analyzer.Algo.{
  Analysis, request, set_forward_target_info, parse_encrypted,
}
use yee_z_privacy_computing.Analyzer.Sources.{
  DataSource, DataVars, no_input, single, multi, data_hash, expect_data_hash, check_sources,
  check_actual_data_hash, set_data_hash,
}
use yee_z_privacy_computing.Analyzer.Results.Run.{done}
use yee_z_privacy_computing.Analyzer.Results.Classes.{ResultType, Generated, generate_result}
use yee_z_privacy_computing.Analyzer.Wrapper.{
  Build, Wrapper, parsed, parsed_with, parse_data_item, data_policy, is_forward,
  parse_data_item_impl, inputs_of, end_parse_data_item,
}
use yee_z_privacy_computing.Analyzer.Wrapper.Completed.{
  IsExpected, AllExpected, IsDelivery, impl_delivery,
}
use yee_z_privacy_computing.Analyzer.Wrapper.Finishing.{IsTotal, Finishes, generate_result-Finishes}

check_sources-zero :
    (sources : List DataSource) → All IsExpected sources → check_sources sources ≡ 0
check_sources-zero [] e = refl
check_sources-zero (ds ∷ sources) (one, more) =
    rw (one, bytes_eq_refl (expect_data_hash ds)) (check_sources-zero sources more)

check_actual_data_hash-AllExpected :
    (vars : DataVars) → AllExpected vars → check_actual_data_hash vars ≡ some 0
unfolding check_actual_data_hash
check_actual_data_hash-AllExpected no_input e = refl
check_actual_data_hash-AllExpected (single none use_pkey) e = absurd e
check_actual_data_hash-AllExpected (single (some ds) use_pkey) e =
    rw (e, bytes_eq_refl (expect_data_hash ds)) refl
check_actual_data_hash-AllExpected (multi sources use_pkeys) e =
    ap some (check_sources-zero sources e)

set_data_hash-some :
    (ecc : Ecc) (sort : List Bytes → List Bytes) (vars : DataVars) (before : Bytes)
    → AllExpected vars
    → (hash : Bytes) × (set_data_hash ecc sort vars before ≡ some hash)
unfolding set_data_hash
set_data_hash-some ecc sort no_input before e = (before, refl)
set_data_hash-some ecc sort (single none use_pkey) before e = absurd e
set_data_hash-some ecc sort (single (some ds) use_pkey) before e = (data_hash ds, refl)
set_data_hash-some ecc sort (multi sources use_pkeys) before e = (_, refl)

-- What the algorithm's run leaves of the members.
abbrev ran : (Bytes → Bytes) → Param → Bytes → Bytes → Analysis → Analysis
ran do_parse param private_key decrypted s = record s {
  pkey4v = param.pkey;
  private_key = private_key;
  encrypted_param = param.param_data;
  result = do_parse decrypted;
  cost_gas = 0;
}

is_forward_delivery : (t : ResultType) → IsDelivery t → is_forward t ≡ false
is_forward_delivery t (inl e) = ap is_forward e
is_forward_delivery t (inr e) = ap is_forward e

module _ (b : Build) (param : Param) (w : Wrapper) (private_key dian_pkey decrypted : Bytes)
    (delivery : IsDelivery b.result_type)
    (requested : request_private_key_for_public_key b.ecc b.session param.pkey
      ≡ (0, private_key, dian_pkey))
    (decrypts : b.ecc.decrypt_message_with_prefix private_key param.param_data ≡ (0, decrypted))
    (allowed : check_allowance b.ecc b.session w.enclave_hash b.model_policy
        (data_policy b.checks_data w.sources)
        (record param { param_data = decrypted })
      ≡ passed tt) where
  parse_encrypted_granted :
      parse_encrypted b.ecc b.session w.enclave_hash b.model_policy
        (data_policy b.checks_data w.sources)
        false
        b.do_parse
        param
        w.analysis
      ≡ passed (ran b.do_parse param private_key decrypted w.analysis)
  unfolding parse_encrypted request set_forward_target_info
  parse_encrypted_granted = rw (requested, decrypts, allowed) refl

  impl_granted :
      parse_data_item_impl b param w
      ≡ passed (ran b.do_parse param private_key decrypted w.analysis)
  impl_granted =
      impl_delivery b param w delivery
      ∙ (ap
            (λ f.
              parse_encrypted b.ecc b.session w.enclave_hash b.model_policy
                (data_policy b.checks_data w.sources) f b.do_parse param w.analysis)
            (is_forward_delivery b.result_type delivery)
          ∙ parse_encrypted_granted)

  parse_data_item_granted :
      (hash : Bytes)
      → set_data_hash b.ecc b.sort (b.reads w.sources) w.data_hash ≡ some hash
      → parse_data_item b param w
        ≡ done (record w {
          analysis = ran b.do_parse param private_key decrypted w.analysis;
          sources = b.reads w.sources;
          data_hash = hash;
        })
  unfolding parse_data_item
  parse_data_item_granted hash set =
      ap (parsed b w) impl_granted
      ∙ ap
          (parsed_with w (b.reads w.sources)
            (ran b.do_parse param private_key decrypted w.analysis))
          set

end_parse_data_item-Finishes :
    (b : Build) (w : Wrapper)
    → AllExpected w.sources
    → Finishes (generate_result b.ecc b.codec b.result_type (inputs_of w))
    → b.closed ≡ 0
    → (g : Generated) × (end_parse_data_item b w ≡ done (record w { generated = some g }))
unfolding end_parse_data_item
end_parse_data_item-Finishes b w expected (g, made) closes =
    (g, rw (check_actual_data_hash-AllExpected w.sources expected, made, closes) refl)

-- An on-chain or off-chain analyzer with a key pair of its own, in a scheme that refuses no key of a
-- pair, does not get stuck: where the key manager gives the key of the request, the parameter decrypts
-- under it, the check of the allowances for it succeeds, the algorithm reads from every source what was
-- announced, and the session closes, `parse_data_item` and `end_parse_data_item` both succeed and leave
-- the algorithm's result and a package of it.
pub parse_data_item-end_parse_data_item :
    (b : Build) (param : Param) (w : Wrapper) (private_key dian_pkey decrypted : Bytes)
    → IsTotal b.ecc
    → b.ecc.generate_pkey_from_skey w.internal_key.private_key ≡ (0, w.internal_key.public_key)
    → IsDelivery b.result_type
    → request_private_key_for_public_key b.ecc b.session param.pkey ≡ (0, private_key, dian_pkey)
    → b.ecc.decrypt_message_with_prefix private_key param.param_data ≡ (0, decrypted)
    → check_allowance b.ecc b.session w.enclave_hash b.model_policy
        (data_policy b.checks_data w.sources)
        (record param { param_data = decrypted })
      ≡ passed tt
    → AllExpected (b.reads w.sources)
    → b.closed ≡ 0
    → (w1 : Wrapper) × (g : Generated) × (parse_data_item b param w ≡ done w1)
      × (end_parse_data_item b w1 ≡ done (record w1 { generated = some g }))
      × (w1.analysis.result ≡ b.do_parse decrypted)
parse_data_item-end_parse_data_item b param w sk dk decrypted total pair delivery requested decrypts
      allowed expected closes =
    let (hash, set) = set_data_hash-some b.ecc b.sort (b.reads w.sources) w.data_hash expected in
    let w1 : Wrapper = record w {
      analysis = ran b.do_parse param sk decrypted w.analysis;
      sources = b.reads w.sources;
      data_hash = hash;
    } in
    let made = ((request_private_key-success b.ecc b.session param.pkey sk dk).0 requested).3 in
    let (g, ends) =
      end_parse_data_item-Finishes b w1 expected
        (generate_result-Finishes b (inputs_of w1) param.pkey b.result_type total made refl pair
          delivery)
        closes in
    (
      w1,
      g,
      parse_data_item_granted b param w sk dk decrypted delivery requested decrypts allowed hash
          set,
      ends,
      refl,
    )
