-- ===== src/Analyzer/Model.antt =====
-- interface/model_interface.h: the model that an algorithm is given, and the hash under which its owner
-- allows its use.
mod Tests
use yee_z_privacy_computing.Base.{
  [], ℕ, ◌≡◌, refl, sym, ap, ◌∙◌, inl, inr, Bool, List, ◌∷◌, ◌++◌, arith, Bytes, ◌==◌,
  if◌then◌else◌, length, prefix_same,
}
use yee_z_privacy_computing.Analyzer.Ecc.{◌>>=◌, Ecc, Session, Checked, passed, failed}
use yee_z_privacy_computing.Analyzer.Keymgr.{
  request_private_key_for_public_key, request_private_key-success,
}
use mathlib.Core.Path.{subst}
use yee_z_privacy_computing.Analyzer.Allowance.{
  ModelPolicy, check_model, DataPolicy, Param, Allowance, to_check_data,
}
use yee_z_privacy_computing.Analyzer.Allowance.Granted.{AnyOf, Grants, Granted}
use yee_z_privacy_computing.Analyzer.Algo.{Analysis, request, decrypt, parse_encrypted}
use yee_z_privacy_computing.Analyzer.Algo.Allowed.{
  request_passed, decrypt_passed, parse_encrypted-allowed,
}
use yee_z_privacy_computing.Analyzer.Allowance.Decision.{bind_passed}

-- The package `model_t`.
pub record Model : Type 0 where
  pub model_data : Bytes
  pub pkey : Bytes

-- `model_var`: the model itself is read from its decrypted bytes by the codec, and stays these bytes here.
pub record ModelVars : Type 0 where
  pub model : Bytes
  pub model_pkey : Bytes
  pub model_hash : Bytes

abbrev pub hashed : ℕ × Bytes → Checked Bytes
hashed (ret, hash) = if ret == 0 then passed hash else failed ret

-- `init_model`, behind `init_keymgr_session`. What a failing call leaves set is not followed up.
unfoldable pub init_model : Ecc → Session → Model → Checked ModelVars
init_model ecc session mod_pkg = do
  (private_key, dian_pkey) ← request ecc session mod_pkg.pkey
  decrypted_model ← decrypt ecc private_key mod_pkg.model_data
  hash ← hashed (ecc.hash_256 decrypted_model)
  passed (record { model = decrypted_model; model_pkey = mod_pkg.pkey; model_hash = hash })

-- `check_model_allowance` reads the members.
abbrev pub model_policy : ModelVars → ModelPolicy
model_policy vars = check_model vars.model_pkey vars.model_hash

hashed_passed : (r : ℕ × Bytes) (hash : Bytes) → hashed r ≡ passed hash → r ≡ (0, hash)
hashed_passed (ret, h) hash e = λ i. (same_ret i, same_hash i)
  where
    same_ret : ret ≡ 0
    same_ret = ground arith

    same_hash : h ≡ hash
    same_hash = ground arith

-- What `init_model` has set.
pub record IsOpened (ecc : Ecc) (session : Session) (mod_pkg : Model) (vars : ModelVars)
    : Type 0 where
  pub private_key : Bytes
  pub dian_pkey : Bytes
  pub requested :
      request_private_key_for_public_key ecc session mod_pkg.pkey ≡ (0, private_key, dian_pkey)
  pub decrypts : ecc.decrypt_message_with_prefix private_key mod_pkg.model_data ≡ (0, vars.model)
  pub hash_is : ecc.hash_256 vars.model ≡ (0, vars.model_hash)
  pub pkey_is : vars.model_pkey ≡ mod_pkg.pkey

passed_vars : ModelVars → Checked ModelVars → ModelVars
passed_vars v (passed a) = a
passed_vars v (failed n) = v

init_model-IsOpened :
    (ecc : Ecc) (session : Session) (mod_pkg : Model) (vars : ModelVars)
    → init_model ecc session mod_pkg ≡ passed vars
    → IsOpened ecc session mod_pkg vars
unfolding init_model passed_vars
init_model-IsOpened ecc session mod_pkg vars e =
    let ((sk, dk), e0, f0) = bind_passed (request ecc session mod_pkg.pkey) _ vars e in
    let (m, e1, f1) = bind_passed (decrypt ecc sk mod_pkg.model_data) _ vars f0 in
    let (hash, e2, f2) = bind_passed (hashed (ecc.hash_256 m)) _ vars f1 in
    subst (IsOpened ecc session mod_pkg) (ap (passed_vars vars) f2) (record {
      private_key = sk;
      dian_pkey = dk;
      requested = request_passed ecc session mod_pkg.pkey sk dk e0;
      decrypts = decrypt_passed ecc sk mod_pkg.model_data m e1;
      hash_is = hashed_passed (ecc.hash_256 m) hash e2;
      pkey_is = refl;
    })

AnyOf-imply :
    {A : Type 0} (P Q : A → Type 0) (xs : List A) → ((x : A) → P x → Q x) → AnyOf P xs → AnyOf Q xs
AnyOf-imply P Q [] f h = h
AnyOf-imply P Q (x ∷ xs) f (inl here) = inl (f x here)
AnyOf-imply P Q (x ∷ xs) f (inr more) = inr (AnyOf-imply P Q xs f more)

-- With the signature of the owner of `pkey`: the parameter, the enclave, the key manager and the data.
abbrev pub SignedUse : Ecc → Bytes → Bytes → Bytes → Bytes → Bytes → Allowance → Type 0
SignedUse ecc param_hash enclave_hash dian_pkey pkey data_hash a =
    (a.pkey ≡ pkey)
    × (a.data_hash ≡ data_hash)
    × (ecc.verify_signature (to_check_data param_hash enclave_hash dian_pkey data_hash) a.signature
          pkey
        ≡ 0)

Grants-SignedUse :
    (ecc : Ecc) (session : Session) (param_hash enclave_hash sk dk pkey data_hash : Bytes)
    (a : Allowance)
    → ((skey made : Bytes)
        → ecc.generate_pkey_from_skey skey ≡ (0, made)
        → length made ≡ length pkey)
    → request_private_key_for_public_key ecc session pkey ≡ (0, sk, dk)
    → (a.pkey ++ a.data_hash ≡ pkey ++ data_hash) × Grants ecc session param_hash enclave_hash a
    → SignedUse ecc param_hash enclave_hash dk pkey data_hash a
Grants-SignedUse ecc session param_hash enclave_hash sk dk pkey data_hash a size requested (e, g) =
    let made =
      ((request_private_key-success ecc session a.pkey g.private_key g.dian_pkey).0
        g.requested).3 in
    let (same, hash) =
      prefix_same a.pkey pkey a.data_hash data_hash (size g.private_key a.pkey made) e in
    let keys = request_private_key_for_public_key ecc session in
    let manager =
      ap (λ (r : ℕ × Bytes × Bytes). r.2) (sym g.requested)
      ∙ ap (λ (x : Bytes). (keys x).2) same
      ∙ ap (λ (r : ℕ × Bytes × Bytes). r.2) requested in
    (
      same,
      hash,
      (λ i.
            ecc.verify_signature
              (to_check_data param_hash enclave_hash (sym manager i) (sym hash i)) a.signature
              (sym same i))
          ∙ g.verified,
    )

-- Where all public keys have the length of the package's, `init_model` succeeds, and the data item is
-- then parsed under `check_model_allowance` with the algorithm on the opened model: the result is that of
-- the algorithm on the model that the package decrypts to, under the private key of the package's public
-- key, and on the decrypted parameter; and an allowance of the request is for the package's public key and
-- the hash of exactly this model, with that key's signature for this parameter, enclave and key manager.
pub init_model-parse_encrypted :
    (ecc : Ecc) (session : Session) (enclave_hash : Bytes) (mod_pkg : Model) (vars : ModelVars)
    (data_policy : DataPolicy) (forwards : Bool) (algorithm : Bytes → Bytes → Bytes) (param : Param)
    (s s' : Analysis)
    → ((skey made : Bytes)
        → ecc.generate_pkey_from_skey skey ≡ (0, made)
        → length made ≡ length mod_pkg.pkey)
    → init_model ecc session mod_pkg ≡ passed vars
    → parse_encrypted ecc session enclave_hash
        (model_policy vars)
        data_policy
        forwards
        (algorithm vars.model)
        param
        s
      ≡ passed s'
    → (o : IsOpened ecc session mod_pkg vars) × (private_key : Bytes) × (decrypted : Bytes)
      × (ecc.generate_pkey_from_skey private_key ≡ (0, param.pkey))
      × (ecc.decrypt_message_with_prefix private_key param.param_data ≡ (0, decrypted))
      × AnyOf
          (SignedUse ecc
            (ecc.hash_256 decrypted).1
            enclave_hash
            o.dian_pkey
            mod_pkg.pkey
            (ecc.hash_256 vars.model).1)
          param.allowances
      × (s'.result ≡ algorithm vars.model decrypted)
init_model-parse_encrypted ecc session enclave_hash mod_pkg vars data_policy forwards algorithm
      param s s' size e parsed =
    let o = init_model-IsOpened ecc session mod_pkg vars e in
    let (sk, dk, decrypted, requested, decrypts, granted, served, signed, result) =
      parse_encrypted-allowed ecc session enclave_hash (model_policy vars) data_policy forwards
        (algorithm vars.model) param s s' parsed in
    let param_hash = (ecc.hash_256 decrypted).1 in
    (
      o,
      sk,
      decrypted,
      ((request_private_key-success ecc session param.pkey sk dk).0 requested).3,
      decrypts,
      AnyOf-imply _ _ param.allowances
          (λ a.
            Grants-SignedUse ecc session param_hash enclave_hash o.private_key o.dian_pkey
              mod_pkg.pkey (ecc.hash_256 vars.model).1 a size o.requested)
          (subst (Granted ecc session param_hash enclave_hash param.allowances)
            (λ i. o.pkey_is i ++ (sym o.hash_is i).1) granted),
      result,
    )
