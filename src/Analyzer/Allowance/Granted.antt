-- ===== src/Analyzer/Allowance/Granted.antt =====
-- What it means that `check_allowance` succeeds.
use yee_z_privacy_computing.Base.{
  ℕ, ◌≡◌, refl, sym, ◌∙◌, ◌⊎◌, inl, inr, true, false, ◌||◌, List, [], ◌∷◌, ◌++◌, arith, Bytes,
  if◌then◌else◌, Bool-cases, is_empty, All, bytes_eq, bytes_eq_refl, bytes_eq→eq,
}
use yee_z_privacy_computing.Analyzer.Ecc.{Ecc, Session, Checked, passed, failed, ◌>>=◌}
use yee_z_privacy_computing.Analyzer.Keymgr.{
  request_private_key_for_public_key, request_private_key-success,
}
use yee_z_privacy_computing.Analyzer.Allowance.{
  check_signature, Allowance, contains, to_check_data, check_one, check_each, check_all,
}

abbrev pub AnyOf {ℓ} : {A : Type ℓ} → (A → Type 0) → List A → Type 0
AnyOf P [] = ⊥
AnyOf P (x ∷ xs) = P x ⊎ AnyOf P xs

module _ (ecc : Ecc) (session : Session) (param_hash enclave_hash : Bytes) where
  -- The owner of the public key has signed the use of the data.
  pub record Grants (a : Allowance) : Type 0 where
    pub private_key : Bytes
    pub dian_pkey : Bytes
    pub requested :
        request_private_key_for_public_key ecc session a.pkey ≡ (0, private_key, dian_pkey)
    pub owner_named : is_empty a.pkey ≡ false
    pub signature_given : is_empty a.signature ≡ false
    pub verified :
        ecc.verify_signature
          (to_check_data param_hash enclave_hash dian_pkey a.data_hash)
          a.signature
          a.pkey
        ≡ 0

  -- The key manager gives the private key, where the allowance names an owner.
  abbrev pub Served : Allowance → Type 0
  Served a =
      (is_empty a.pkey ≡ true) ⊎ ((request_private_key_for_public_key ecc session a.pkey).0 ≡ 0)

  pushed_by : Allowance → List Bytes
  pushed_by a =
      if is_empty a.pkey
      then []
      else check_one ecc param_hash enclave_hash a
          (request_private_key_for_public_key ecc session a.pkey).1
          (request_private_key_for_public_key ecc session a.pkey).2

  each_passed :
      (a : Allowance) (pushed : List Bytes)
      → check_each ecc session param_hash enclave_hash a ≡ passed pushed
      → Served a × (pushed ≡ pushed_by a)
  unfolding check_each pushed_by
  each_passed a pushed e = ground (arith)

  check_each-Served :
      (a : Allowance)
      → Served a
      → check_each ecc session param_hash enclave_hash a ≡ passed (pushed_by a)
  unfolding check_each pushed_by
  check_each-Served a s = ground arith

  pub all_pushed : List Allowance → List Bytes
  unfolding pushed_by
  all_pushed [] = []
  all_pushed (a ∷ allowances) = pushed_by a ++ all_pushed allowances

  pub check_all-Served :
      (allowances : List Allowance)
      → All Served allowances
      → check_all ecc session param_hash enclave_hash allowances ≡ passed (all_pushed allowances)
  unfolding check_all all_pushed
  check_all-Served [] s = refl
  check_all-Served (a ∷ allowances) (sa, s) =
      rw (check_each-Served a sa) (rw (check_all-Served allowances s) refl)

  Served-cons :
      (a : Allowance) (allowances : List Allowance) (checked : List Bytes)
      (one more : Checked (List Bytes))
      → check_each ecc session param_hash enclave_hash a ≡ one
      → ((rest : List Bytes) → more ≡ passed rest → All Served allowances)
      → (one >>= λ pushed. (more >>= λ rest. passed (pushed ++ rest))) ≡ passed checked
      → All Served (a ∷ allowances)
  Served-cons a allowances checked (failed n) more e1 served e = absurd (ground arith)
  Served-cons a allowances checked (passed pushed) (failed n) e1 served e = absurd (ground arith)
  Served-cons a allowances checked (passed pushed) (passed rest) e1 served e =
      ((each_passed a pushed e1).0, served rest refl)

  pub Served-check_all :
      (allowances : List Allowance) (checked : List Bytes)
      → check_all ecc session param_hash enclave_hash allowances ≡ passed checked
      → All Served allowances
  unfolding check_all
  Served-check_all [] checked e = tt
  Served-check_all (a ∷ allowances) checked e =
      Served-cons a allowances checked (check_each ecc session param_hash enclave_hash a)
        (check_all ecc session param_hash enclave_hash allowances) refl
        (λ rest same. Served-check_all allowances rest same) e

  -- What is pushed for one allowance.
  pushed_right :
      (a : Allowance) (k : Bytes)
      → contains k (pushed_by a) ≡ true
      → (is_empty a.pkey ≡ false)
        × (is_empty a.signature ≡ false)
        × (check_signature ecc
              (request_private_key_for_public_key ecc session a.pkey).1
              (to_check_data param_hash enclave_hash
                (request_private_key_for_public_key ecc session a.pkey).2
                a.data_hash)
              a.signature
            ≡ 0)
        × (bytes_eq (a.pkey ++ a.data_hash) k ≡ true)
  unfolding pushed_by check_one
  pushed_right a k e = ground arith

  pub verified_signature :
      (sk msg sig pkey : Bytes)
      → ecc.generate_pkey_from_skey sk ≡ (0, pkey)
      → check_signature ecc sk msg sig ≡ ecc.verify_signature msg sig pkey
  unfolding check_signature
  verified_signature sk msg sig pkey e = rw e refl

  abbrev keys : Allowance → ℕ × Bytes × Bytes
  keys a = request_private_key_for_public_key ecc session a.pkey

  keys-Served :
      (a : Allowance) → Served a → is_empty a.pkey ≡ false → keys a ≡ (0, (keys a).1, (keys a).2)
  keys-Served a (inl unnamed) owner = absurd (ground arith)
  keys-Served a (inr e) owner = λ i. (e i, (keys a).1, (keys a).2)

  made_pkey :
      (a : Allowance) (sk dk : Bytes)
      → keys a ≡ (0, sk, dk)
      → ecc.generate_pkey_from_skey sk ≡ (0, a.pkey)
  made_pkey a sk dk e = ((request_private_key-success ecc session a.pkey sk dk).0 e).3

  Grants-pushed :
      (a : Allowance) (k : Bytes)
      → Served a
      → contains k (pushed_by a) ≡ true
      → (a.pkey ++ a.data_hash ≡ k) × Grants a
  Grants-pushed a k served e =
      let (owner, sig, valid, same) = pushed_right a k e in
      (
        bytes_eq→eq (a.pkey ++ a.data_hash) k same,
        record {
          private_key = (keys a).1;
          dian_pkey = (keys a).2;
          requested = keys-Served a served owner;
          owner_named = owner;
          signature_given = sig;
          verified =
              sym (
                verified_signature (keys a).1
                  (to_check_data param_hash enclave_hash (keys a).2 a.data_hash) a.signature a.pkey
                  (made_pkey a (keys a).1 (keys a).2 (keys-Served a served owner)))
              ∙ valid;
        },
      )

  pushed_Grants : (a : Allowance) → Grants a → pushed_by a ≡ (a.pkey ++ a.data_hash) ∷ []
  unfolding pushed_by check_one
  pushed_Grants a g =
      rw (g.owner_named, g.signature_given, g.requested)
        (rw
          (
            verified_signature g.private_key
                (to_check_data param_hash enclave_hash g.dian_pkey a.data_hash) a.signature a.pkey
                (made_pkey a g.private_key g.dian_pkey g.requested),
            g.verified,
          )
          refl)

  contains-append :
      (k : Bytes) (xs ys : List Bytes) → contains k (xs ++ ys) ≡ (contains k xs || contains k ys)
  contains-append k [] ys = refl
  contains-append k (x ∷ xs) ys = ground (arith, contains-append k xs ys)

  -- Some allowance grants the use of the data of the key `k`, the owner's public key and a hash.
  abbrev pub Granted : List Allowance → Bytes → Type 0
  Granted allowances k = AnyOf (λ a. (a.pkey ++ a.data_hash ≡ k) × Grants a) allowances

  pub contains-Granted :
      (allowances : List Allowance) (k : Bytes)
      → Granted allowances k
      → contains k (all_pushed allowances) ≡ true
  unfolding all_pushed
  contains-Granted [] k g = absurd g
  contains-Granted (a ∷ allowances) k (inl (same, g)) =
      rw (pushed_Grants a g, same, bytes_eq_refl k) refl
  contains-Granted (a ∷ allowances) k (inr more) =
      contains-append k (pushed_by a) (all_pushed allowances)
      ∙ ground (arith, contains-Granted allowances k more)

  pub Granted-contains :
      (allowances : List Allowance) (k : Bytes)
      → All Served allowances
      → contains k (all_pushed allowances) ≡ true
      → Granted allowances k
  unfolding all_pushed
  Granted-contains [] k s e = absurd (ground arith)
  Granted-contains (a ∷ allowances) k (sa, s) e = elim (Bool-cases (contains k (pushed_by a))) [
    | inl here ↦ inl (Grants-pushed a k sa here)
    | inr there ↦ inr (
        Granted-contains allowances k s
          (ground (arith, contains-append k (pushed_by a) (all_pushed allowances))))
  ]
