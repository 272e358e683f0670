-- ===== src/Analyzer/Allowance/Decision.antt =====
-- When `check_allowance` returns success.
use yee_z_privacy_computing.Base.{
  ℕ, ◌≡◌, refl, sym, ap, ◌∙◌, ◌↔◌, inl, inr, true, List, [], ◌∷◌, ◌++◌, arith, Bytes, ◌==◌, ==_iff,
  Bool-cases, All,
}
use yee_z_privacy_computing.Analyzer.Ecc.{Ecc, Session, Checked, passed, failed, ◌>>=◌, check}
use yee_z_privacy_computing.Analyzer.Allowance.{
  Allowance, Param, contains, ModelPolicy, check_model, ignore_model, check_allowance_m, DataPolicy,
  check_sealed, check_multi, ignore_data, all_used, check_allowance_d, check_all, check_policies,
  check_allowance,
}
use yee_z_privacy_computing.Analyzer.Allowance.Granted.{
  Served, Granted, all_pushed, check_all-Served, Served-check_all, contains-Granted,
  Granted-contains,
}

check_zero : (ret : ℕ) → check ret ≡ passed tt → ret ≡ 0
check_zero ret e = ground arith

check_bind :
    {A : Type 0} (ret : ℕ) (m : Checked A) (a : A)
    → (check ret >>= λ u. m) ≡ passed a
    → (ret ≡ 0) × (m ≡ passed a)
check_bind ret m a e = elim (Bool-cases (ret == 0)) [
  | inl zero_ret ↦ ((==_iff ret 0).0 zero_ret, sym (rw zero_ret refl) ∙ e)
  | inr other ↦ absurd (ground arith)
]

pub bind_passed :
    {A B : Type 0} (m : Checked A) (f : A → Checked B) (b : B)
    → (m >>= f) ≡ passed b
    → (a : A) × (m ≡ passed a) × (f a ≡ passed b)
bind_passed (passed a) f b e = (a, refl, e)
bind_passed (failed n) f b e = absurd (ground arith)

module _ (ecc : Ecc) (session : Session) (param_hash enclave_hash : Bytes)
    (allowances : List Allowance) where
  -- Granted for a key.
  abbrev IsGranted : Bytes → Type 0
  IsGranted k = Granted ecc session param_hash enclave_hash allowances k

  abbrev pub ModelGranted : ModelPolicy → Type 0
  ModelGranted (check_model model_pkey model_hash) = IsGranted (model_pkey ++ model_hash)
  ModelGranted ignore_model = Unit

  abbrev pub DataGranted : DataPolicy → Type 0
  DataGranted (check_sealed pkey) = IsGranted pkey
  DataGranted (check_multi ds_use_pkey) = All IsGranted ds_use_pkey
  DataGranted ignore_data = Unit

  module _ (served : All (Served ecc session param_hash enclave_hash) allowances) where
    abbrev its_checked : List Bytes
    its_checked = all_pushed ecc session param_hash enclave_hash allowances

    found : (k : Bytes) → contains k its_checked ≡ true → IsGranted k
    found k e = Granted-contains ecc session param_hash enclave_hash allowances k served e

    there : (k : Bytes) → IsGranted k → contains k its_checked ≡ true
    there k g = contains-Granted ecc session param_hash enclave_hash allowances k g

    all_used-Granted : (ks : List Bytes) → (all_used ks its_checked ≡ 0) ↔ All IsGranted ks
    all_used-Granted [] = (λ e. tt, λ g. refl)
    all_used-Granted (k ∷ ks) = (
      λ e. elim (Bool-cases (contains k its_checked)) [
        | inl here ↦ (found k here, (all_used-Granted ks).0 (ground arith))
        | inr missing ↦ absurd (ground arith)
      ],
      λ (g, gs). rw (there k g) ((all_used-Granted ks).1 gs),
    )

    model_iff : (p : ModelPolicy) → (check_allowance_m p its_checked ≡ 0) ↔ ModelGranted p
    unfolding check_allowance_m
    model_iff (check_model pkey hash) =
        (λ e. found (pkey ++ hash) (ground arith), λ g. rw (there (pkey ++ hash) g) refl)
    model_iff ignore_model = (λ e. tt, λ g. refl)

    data_iff : (p : DataPolicy) → (check_allowance_d p its_checked ≡ 0) ↔ DataGranted p
    unfolding check_allowance_d
    data_iff (check_sealed k) = (λ e. found k (ground arith), λ g. rw (there k g) refl)
    data_iff (check_multi ks) = all_used-Granted ks
    data_iff ignore_data = (λ e. tt, λ g. refl)

  policies_iff :
      (served : All (Served ecc session param_hash enclave_hash) allowances) (mp : ModelPolicy)
      (dp : DataPolicy)
      → (check_policies mp dp (all_pushed ecc session param_hash enclave_hash allowances)
          ≡ passed tt)
        ↔ (ModelGranted mp × DataGranted dp)
  unfolding check_policies
  policies_iff served mp dp = (
    λ e.
        let checked = all_pushed ecc session param_hash enclave_hash allowances in
        let (m, d) =
          check_bind (check_allowance_m mp checked) (check (check_allowance_d dp checked)) tt e in
        (
          (model_iff served mp).0 m,
          (data_iff served dp).0 (check_zero (check_allowance_d dp checked) d),
        ),
    λ (m, d). rw ((model_iff served mp).1 m, (data_iff served dp).1 d) refl,
  )

-- `check_allowance` succeeds exactly if the parameter can be hashed, the key manager serves every
-- allowance that names an owner, and, where the policies ask for it, some allowance grants the model
-- and, for each data source, some allowance grants it: the owner's signature is valid for the hash of
-- this parameter, this enclave, the key of the key manager and the data.
pub check_allowance_iff :
    (ecc : Ecc) (session : Session) (enclave_hash : Bytes) (model_policy : ModelPolicy)
    (data_policy : DataPolicy) (param : Param)
    → (check_allowance ecc session enclave_hash model_policy data_policy param ≡ passed tt) ↔ (
        ((ecc.hash_256 param.param_data).0 ≡ 0)
        × All (Served ecc session (ecc.hash_256 param.param_data).1 enclave_hash) param.allowances
        × ModelGranted ecc session
            (ecc.hash_256 param.param_data).1
            enclave_hash
            param.allowances
            model_policy
        × DataGranted ecc session
            (ecc.hash_256 param.param_data).1
            enclave_hash
            param.allowances
            data_policy)
unfolding check_allowance
check_allowance_iff ecc session enclave_hash mp dp param = (
  λ e.
      let h = (ecc.hash_256 param.param_data).1 in
      let (hashed, rest) =
        check_bind (ecc.hash_256 param.param_data).0
          (check_all ecc session h enclave_hash param.allowances >>= check_policies mp dp) tt e in
      let (checked, loop, policies) =
        bind_passed (check_all ecc session h enclave_hash param.allowances) (check_policies mp dp)
          tt rest in
      let served = Served-check_all ecc session h enclave_hash param.allowances checked loop in
      let (m, d) = (policies_iff ecc session h enclave_hash param.allowances served mp dp).0 (
        sym (
          ap (λ (c : Checked (List Bytes)). c >>= check_policies mp dp)
            (check_all-Served ecc session h enclave_hash param.allowances served))
        ∙ rest) in
      (hashed, served, m, d),
  λ (hashed, served, m, d).
      let h = (ecc.hash_256 param.param_data).1 in
      rw hashed (
        ap (λ (c : Checked (List Bytes)). c >>= check_policies mp dp)
          (check_all-Served ecc session h enclave_hash param.allowances served)
        ∙ (policies_iff ecc session h enclave_hash param.allowances served mp dp).1 (m, d)),
)
