-- ===== src/Keymgr/Forwarded.antt =====
-- What the key manager gives away: only keys whose owner signed for the enclave.
use yee_z_privacy_computing.Base.{
  ℕ, ◌≡◌, refl, sym, ap, ◌∙◌, ◌⊎◌, inl, inr, true, Option, none, some, [], ◌∷◌, ◌++◌, arith, Bytes,
  ◌==◌, ==_iff, Bool-cases, length, All, bytes_eq, bytes_eq→eq, prefix_same,
}
use mathlib.Core.Path.{subst}
use yee_z_privacy_computing.Analyzer.Ecc.{Ecc, Checked, passed, failed, ◌>>=◌}
use yee_z_privacy_computing.Keymgr.Forward.{
  Device, called, load_and_check_key_pair, derive_key, open_cipher, open_forward, forward_opened,
  forward_private_key, enter_key, PrivateKeyInfo, KeyTable, find_key, any_enclave_hash, both_keys,
  answer, handle_pkg,
}

-- The entry is for the key `info.shu_skey` and the enclave `ehash`, and was signed with that key.
pub record IsSigned (ecc : Ecc) (key : Bytes) (info : PrivateKeyInfo) : Type 0 where
  pub forward_pub_key : Bytes
  pub ehash : Bytes
  pub sig : Bytes
  pub split : key ≡ forward_pub_key ++ ehash
  pub derived : ecc.generate_pkey_from_skey info.shu_skey ≡ (0, forward_pub_key)
  pub signed : ecc.verify_signature (info.dian_pkey ++ ehash) sig forward_pub_key ≡ 0

abbrev pub AllSigned : Ecc → KeyTable → Type 0
AllSigned ecc table = All (λ (e : Bytes × PrivateKeyInfo). IsSigned ecc e.0 e.1) table

-- Calls of `forward_private_key`, with any arguments and files.
pub data Forwards (ecc : Ecc) : KeyTable → KeyTable → Type 0 where
  none_yet : {table : KeyTable} → Forwards ecc table table
  then_forward :
      {table table' : KeyTable} (device : Device) (encrypted epublic_key ehash sig : Bytes)
      → Forwards ecc table table'
      → Forwards ecc table (forward_private_key ecc device encrypted epublic_key ehash sig table').1

some-injective : {x y : PrivateKeyInfo} → some x ≡ some y → x ≡ y
some-injective e = cc

-- Where a call passes, so does what is behind it.
behind_call :
    (P : Type 0) (c : Checked Bytes) (f : Bytes → Checked (Bytes × Bytes)) (y : Bytes × Bytes)
    → ((x : Bytes) → f x ≡ passed y → P)
    → (c >>= f) ≡ passed y
    → P
behind_call P (passed x) f y h e = h x e
behind_call P (failed n) f y h e = absurd cc

derived_pair :
    (r : ℕ × Bytes) (s skey pkey : Bytes)
    → (◌>>=◌ {B = Bytes × Bytes} (called r) (λ (p : Bytes). passed (s, p))) ≡ passed (skey, pkey)
    → (s ≡ skey) × (r ≡ (0, pkey))
derived_pair (ret, x) s skey pkey e = elim (Bool-cases (ret == 0)) [
  | inl zero_ret ↦ (ground arith, λ i. ((==_iff ret 0).0 zero_ret i, same_key zero_ret i))
  | inr other_ret ↦ absurd (ground arith)
]
  where
    same_key : (ret == 0) ≡ true → x ≡ pkey
    same_key zero_ret = ground arith

enter_key-AllSigned :
    (ecc : Ecc) (epublic_key ehash sig skey pkey : Bytes) (table : KeyTable)
    (there : Option PrivateKeyInfo)
    → ecc.generate_pkey_from_skey skey ≡ (0, pkey)
    → AllSigned ecc table
    → AllSigned ecc (enter_key ecc epublic_key ehash sig skey pkey table there).1
unfolding enter_key
enter_key-AllSigned ecc epublic_key ehash sig skey pkey table (some info) d a = a
enter_key-AllSigned ecc epublic_key ehash sig skey pkey table none d a =
    elim (Bool-cases (ecc.verify_signature (epublic_key ++ ehash) sig pkey == 0)) [
      | inl e ↦ rw e (
        record {
          forward_pub_key = pkey;
          ehash = ehash;
          sig = sig;
          split = refl;
          derived = d;
          signed = (==_iff _ 0).0 e;
        },
        a,
      )
      | inr e ↦ rw e a
    ]

opened-derived :
    (ecc : Ecc) (device : Device) (encrypted epublic_key : Bytes) (skey pkey : Bytes)
    → open_forward ecc device encrypted epublic_key ≡ passed (skey, pkey)
    → ecc.generate_pkey_from_skey skey ≡ (0, pkey)
unfolding open_forward open_cipher derive_key
opened-derived ecc device encrypted epublic_key skey pkey e =
    behind_call _ (load_and_check_key_pair ecc device epublic_key)
      (open_cipher ecc device encrypted) (skey, pkey)
      (λ enclave_key.
        behind_call _ (called (device.decrypt_forward enclave_key encrypted)) (derive_key ecc)
          (skey, pkey)
          (λ forward_skey e'.
            let (same, made) =
              derived_pair (ecc.generate_pkey_from_skey forward_skey) forward_skey skey pkey e' in
            ap ecc.generate_pkey_from_skey (sym same) ∙ made))
      e

find_key-IsSigned :
    (ecc : Ecc) (key : Bytes) (table : KeyTable) (info : PrivateKeyInfo)
    → AllSigned ecc table
    → find_key key table ≡ some info
    → IsSigned ecc key info
find_key-IsSigned ecc key [] info a e = absurd cc
find_key-IsSigned ecc key ((k, i) ∷ table) info (h, a) e = elim (Bool-cases (bytes_eq k key)) [
  | inl here ↦
      subst (λ x. IsSigned ecc x info) (bytes_eq→eq k key here)
        (subst (IsSigned ecc k) (some-injective (sym (rw here refl) ∙ e)) h)
  | inr elsewhere ↦ find_key-IsSigned ecc key table info a (sym (rw elsewhere refl) ∙ e)
]

forward_failed :
    (ecc : Ecc) (epublic_key ehash sig : Bytes) (table : KeyTable) (ret : ℕ)
    → AllSigned ecc table
    → AllSigned ecc (forward_opened ecc epublic_key ehash sig table (failed ret)).1
unfolding forward_opened
forward_failed ecc epublic_key ehash sig table ret a = a

some_bytes : (x y : Bytes) → some x ≡ some y → x ≡ y
some_bytes x y e = cc

forward-AllSigned :
    (ecc : Ecc) (device : Device) (encrypted epublic_key ehash sig : Bytes) (table : KeyTable)
    → AllSigned ecc table
    → AllSigned ecc (forward_private_key ecc device encrypted epublic_key ehash sig table).1
unfolding forward_private_key forward_opened
forward-AllSigned ecc device encrypted epublic_key ehash sig table a =
    opened (open_forward ecc device encrypted epublic_key) refl
  where
    opened :
        (o : Checked (Bytes × Bytes))
        → open_forward ecc device encrypted epublic_key ≡ o
        → AllSigned ecc (forward_opened ecc epublic_key ehash sig table o).1
    opened (failed ret) e = forward_failed ecc epublic_key ehash sig table ret a
    opened (passed (skey, pkey)) e =
        enter_key-AllSigned ecc epublic_key ehash sig skey pkey table _
          (opened-derived ecc device encrypted epublic_key skey pkey e) a

Forwards-AllSigned :
    (ecc : Ecc) {table table' : KeyTable}
    → Forwards ecc table table'
    → AllSigned ecc table
    → AllSigned ecc table'
Forwards-AllSigned ecc none_yet a = a
Forwards-AllSigned ecc (then_forward device encrypted epublic_key ehash sig before) a =
    forward-AllSigned ecc device encrypted epublic_key ehash sig _ (Forwards-AllSigned ecc before a)

-- What the owner of the public key `pkey` allowed: with the private key of `pkey`, a signature of the
-- key manager's public key and the enclave's hash.
pub record IsAllowed (ecc : Ecc) (pkey ehash out : Bytes) : Type 0 where
  pub info : PrivateKeyInfo
  pub sig : Bytes
  pub gives : out ≡ both_keys info
  pub derived : ecc.generate_pkey_from_skey info.shu_skey ≡ (0, pkey)
  pub signed : ecc.verify_signature (info.dian_pkey ++ ehash) sig pkey ≡ 0

entry-IsAllowed :
    (ecc : Ecc) (pkey ehash : Bytes) (info : PrivateKeyInfo)
    → ((skey made : Bytes)
        → ecc.generate_pkey_from_skey skey ≡ (0, made)
        → length made ≡ length pkey)
    → IsSigned ecc (pkey ++ ehash) info
    → IsAllowed ecc pkey ehash (both_keys info)
entry-IsAllowed ecc pkey ehash info size s =
    let (same, rest) =
      prefix_same s.forward_pub_key pkey s.ehash ehash
        (size info.shu_skey s.forward_pub_key s.derived) (sym s.split) in
    record {
      info = info;
      sig = s.sig;
      gives = refl;
      derived = s.derived ∙ (λ i. (0, same i));
      signed =
          (λ i. ecc.verify_signature (info.dian_pkey ++ sym rest i) s.sig (sym same i)) ∙ s.signed;
    }

-- For a table that calls of `forward_private_key` made from the empty one, and public keys that all
-- have the length of `pkey`: what `handle_pkg` answers to the enclave `mr_enclave` that asks for
-- `pkey` is the private key of `pkey` and the public key of a key manager, and the owner of `pkey`
-- signed that key manager and either this enclave or the hash that stands for any.
pub handle_pkg-IsAllowed :
    (ecc : Ecc) (table : KeyTable) (mr_enclave pkey out : Bytes)
    → Forwards ecc [] table
    → ((skey made : Bytes)
        → ecc.generate_pkey_from_skey skey ≡ (0, made)
        → length made ≡ length pkey)
    → handle_pkg ecc table mr_enclave pkey ≡ some out
    → IsAllowed ecc pkey mr_enclave out ⊎ IsAllowed ecc pkey (any_enclave_hash ecc) out
unfolding handle_pkg
handle_pkg-IsAllowed ecc table mr_enclave pkey out reached size e =
    answered (find_key (pkey ++ mr_enclave) table) (find_key (pkey ++ any_enclave_hash ecc) table)
      refl refl e
  where
    signed : AllSigned ecc table
    signed = Forwards-AllSigned ecc reached tt

    answered :
        (first second : Option PrivateKeyInfo)
        → find_key (pkey ++ mr_enclave) table ≡ first
        → find_key (pkey ++ any_enclave_hash ecc) table ≡ second
        → answer first second ≡ some out
        → IsAllowed ecc pkey mr_enclave out ⊎ IsAllowed ecc pkey (any_enclave_hash ecc) out
    answered none none f s e = absurd cc
    answered none (some info) f s e = inr (
        subst (IsAllowed ecc pkey (any_enclave_hash ecc)) (some_bytes _ _ e)
          (entry-IsAllowed ecc pkey _ info size (find_key-IsSigned ecc _ table info signed s)))
    answered (some info) second f s e = inl (
        subst (IsAllowed ecc pkey mr_enclave) (some_bytes _ _ e)
          (entry-IsAllowed ecc pkey _ info size (find_key-IsSigned ecc _ table info signed f)))
