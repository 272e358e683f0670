-- ===== src/Analyzer/Sources/Multi.antt =====
-- `init_data_source` for several sources, and for one that is set a second time.
use yee_z_privacy_computing.Base.{
  ℕ, ◌≡◌, refl, sym, ap, ◌∙◌, ◌≢◌, ◌⊎◌, inl, inr, true, false, some, List, [], ◌∷◌, ◌++◌, map,
  arith, Bytes, ◌==◌, if◌then◌else◌, Bool-cases, is_empty, All, bytes_eq_refl,
}
use mathlib.Core.Path.{subst}
use mathlib.Core.List.{append_assoc, append-nil}
use yee_z_privacy_computing.Status.{success}
use yee_z_privacy_computing.Sealed.Library.{Library, fidelius}
use yee_z_privacy_computing.Sealed.Provider.{sealed_data_provider}
use yee_z_privacy_computing.Sealed.RawProvider.{raw_data_provider}
use yee_z_privacy_computing.Analyzer.Ecc.{Ecc, Session}
use yee_z_privacy_computing.Analyzer.Keymgr.{request_private_key_for_public_key}
use yee_z_privacy_computing.Analyzer.Sources.{
  DataSource, raw, DataVars, single, SealedInfo, sealed_source, set_sealed, init_sealed,
  push_source, init_multi, check_actual_data_hash,
}

module _ (l : Library) (unset : ℕ) (ecc : Ecc) (session : Session) where
  abbrev keys : SealedInfo → ℕ × Bytes × Bytes
  keys info = request_private_key_for_public_key ecc session info.pkey

  -- A source that is not encrypted, or whose key the key manager gives.
  abbrev pub IsServed : SealedInfo → Type 0
  IsServed info = (is_empty info.pkey ≡ true) ⊎ ((keys info).0 ≡ 0)

  -- An encrypted source whose key it refuses with `ret`.
  abbrev pub IsRefused : ℕ → SealedInfo → Type 0
  IsRefused ret info = (is_empty info.pkey ≡ false) × ((keys info).0 ≡ ret) × (ret ≢ 0)

  -- The source of an entry, and what the allowances are asked for.
  abbrev pub source_of : SealedInfo → DataSource
  source_of info =
      if is_empty info.pkey
      then raw (raw_data_provider l unset info.data_hash)
      else sealed_source l unset ecc session info.data_hash (keys info).1

  abbrev pub used : List SealedInfo → List Bytes
  used [] = []
  used (info ∷ infos) =
      if is_empty info.pkey then used infos else (info.pkey ++ info.data_hash) ∷ used infos

  push-IsServed :
      (info : SealedInfo) (sources : List DataSource) (use_pkeys : List Bytes)
      → IsServed info
      → push_source l unset ecc session info (keys info) sources use_pkeys
        ≡ (success, sources ++ source_of info ∷ [], use_pkeys ++ used (info ∷ []))
  push-IsServed info sources use_pkeys (inl e) = rw (e, append-nil use_pkeys) refl
  push-IsServed info sources use_pkeys (inr e) = ground (arith, append-nil use_pkeys)

  init_multi_step :
      (info : SealedInfo) (infos : List SealedInfo) (sources : List DataSource)
      (use_pkeys : List Bytes)
      → IsServed info
      → init_multi l unset ecc session (info ∷ infos) sources use_pkeys
        ≡ init_multi l unset ecc session infos
            (sources ++ source_of info ∷ [])
            (use_pkeys ++ used (info ∷ []))
  unfolding init_multi
  init_multi_step info infos sources use_pkeys s = rw (push-IsServed info sources use_pkeys s) refl

  used_cons :
      (info : SealedInfo) (infos : List SealedInfo)
      → used (info ∷ []) ++ used infos ≡ used (info ∷ infos)
  used_cons info infos = elim (Bool-cases (is_empty info.pkey)) [
    | inl e ↦ rw e refl
    | inr e ↦ rw e refl
  ]

  init_multi-IsServed :
      (infos more : List SealedInfo) (sources : List DataSource) (use_pkeys : List Bytes)
      → All IsServed infos
      → init_multi l unset ecc session (infos ++ more) sources use_pkeys
        ≡ init_multi l unset ecc session more
            (sources ++ map source_of infos)
            (use_pkeys ++ used infos)
  init_multi-IsServed [] more sources use_pkeys s = λ i.
      init_multi l unset ecc session more (sym (append-nil sources) i)
        (sym (append-nil use_pkeys) i)
  init_multi-IsServed (info ∷ infos) more sources use_pkeys (one, s) =
      init_multi_step info (infos ++ more) sources use_pkeys one
      ∙ (init_multi-IsServed infos more (sources ++ source_of info ∷ [])
            (use_pkeys ++ used (info ∷ [])) s
          ∙ λ i.
              init_multi l unset ecc session more
                (append_assoc sources (source_of info ∷ []) (map source_of infos) i)
                ((append_assoc use_pkeys (used (info ∷ [])) (used infos)
                    ∙ ap (use_pkeys ++◌) (used_cons info infos))
                  i))

  init_multi-IsRefused :
      (ret : ℕ) (info : SealedInfo) (infos : List SealedInfo) (sources : List DataSource)
      (use_pkeys : List Bytes)
      → IsRefused ret info
      → init_multi l unset ecc session (info ∷ infos) sources use_pkeys ≡ (ret, sources, use_pkeys)
  unfolding init_multi
  init_multi-IsRefused ret info infos sources use_pkeys (named, refused, not_zero) = ground arith

  init_multi_head-IsServed :
      (info : SealedInfo) (infos : List SealedInfo) (sources : List DataSource)
      (use_pkeys : List Bytes)
      → (init_multi l unset ecc session (info ∷ infos) sources use_pkeys).0 ≡ success
      → IsServed info
  unfolding init_multi
  init_multi_head-IsServed info infos sources use_pkeys e = elim (Bool-cases (is_empty info.pkey)) [
    | inl raw_one ↦ inl raw_one
    | inr sealed_one ↦ inr (ground arith)
  ]

  -- Success leaves no key refused.
  pub init_multi-success :
      (infos : List SealedInfo) (sources : List DataSource) (use_pkeys : List Bytes)
      → (init_multi l unset ecc session infos sources use_pkeys).0 ≡ success
      → All IsServed infos
  init_multi-success [] sources use_pkeys e = tt
  init_multi-success (info ∷ infos) sources use_pkeys e =
      let one = init_multi_head-IsServed info infos sources use_pkeys e in
      (
        one,
        init_multi-success infos (sources ++ source_of info ∷ []) (use_pkeys ++ used (info ∷ [])) (
            sym (
              ap (λ (q : ℕ × List DataSource × List Bytes). q.0)
                (init_multi_step info infos sources use_pkeys one))
            ∙ e),
      )

  -- `init_data_source` for several sources adds one for each entry that comes before the first whose
  -- key the key manager refuses, in their order: an entry with a public key is sealed, with the private
  -- key that it gave, and is noted for the allowances; one without is raw. It returns success where no
  -- key is refused, and otherwise the status of the refusal.
  pub init_multi_lem :
      (served : List SealedInfo) (sources : List DataSource) (use_pkeys : List Bytes)
      → All IsServed served
      → (init_multi l unset ecc session served sources use_pkeys
          ≡ (success, sources ++ map source_of served, use_pkeys ++ used served))
        × ((ret : ℕ) (refused : SealedInfo) (rest : List SealedInfo)
            → IsRefused ret refused
            → init_multi l unset ecc session (served ++ refused ∷ rest) sources use_pkeys
              ≡ (ret, sources ++ map source_of served, use_pkeys ++ used served))
  unfolding init_multi
  init_multi_lem served sources use_pkeys s = (
    ap (λ infos. init_multi l unset ecc session infos sources use_pkeys) (sym (append-nil served))
        ∙ init_multi-IsServed served [] sources use_pkeys s,
    λ ret refused rest r.
        init_multi-IsServed served (refused ∷ rest) sources use_pkeys s
        ∙ init_multi-IsRefused ret refused rest (sources ++ map source_of served)
            (use_pkeys ++ used served) r,
  )

  unread :
      (info : SealedInfo) (private_key use_pkey : Bytes)
      → info.data_hash ≡ l.hash_256 fidelius
      → check_actual_data_hash
          (single (some (sealed_source l unset ecc session info.data_hash private_key)) use_pkey)
        ≡ some success
  unfolding check_actual_data_hash sealed_data_provider
  unread info private_key use_pkey start = rw (start, bytes_eq_refl (l.hash_256 fidelius)) refl

  set_sealed-unread :
      (info : SealedInfo) (r : ℕ × Bytes × Bytes) (vars vars' : DataVars)
      → info.data_hash ≡ l.hash_256 fidelius
      → set_sealed l unset ecc session info r vars ≡ (success, vars')
      → check_actual_data_hash vars' ≡ some success
  set_sealed-unread info (ret, sk, dk) vars vars' start e = elim (Bool-cases (ret == 0)) [
    | inl passes ↦
        subst (λ v. check_actual_data_hash v ≡ some success)
          (ap (λ (q : ℕ × DataVars). q.1) (sym (taken passes) ∙ e))
          (unread info sk (info.pkey ++ info.data_hash) start)
    | inr fails ↦ absurd (ground arith)
  ]
    where
      taken :
          (ret == 0) ≡ true
          → set_sealed l unset ecc session info (ret, sk, dk) vars ≡ (
            success,
            single
                (some (sealed_source l unset ecc session info.data_hash sk))
                (info.pkey ++ info.data_hash),
          )
      taken passes = rw passes refl

  -- A sealed source that is announced with the hash that the chain starts from is as expected before
  -- anything is read of it.
  pub init_sealed-unread :
      (info : SealedInfo) (vars vars' : DataVars)
      → info.data_hash ≡ l.hash_256 fidelius
      → init_sealed l unset ecc session info vars ≡ (success, vars')
      → check_actual_data_hash vars' ≡ some success
  unfolding init_sealed
  init_sealed-unread info vars vars' start e = set_sealed-unread info (keys info) vars vars' start e
