-- ===== src/Analyzer/Keymgr.antt =====
-- `keymgr_interface::request_private_key_for_public_key` of interface/keymgr_interface.h.
use yee_z_privacy_computing.Base.{
  ℕ, zero, suc, ◌+◌, ◌≡◌, refl, sym, ap, ◌∙◌, ◌↔◌, [], ◌∷◌, ◌++◌, arith, Bytes, ◌==◌, if◌then◌else◌,
  ==_iff, length, take, drop, length-append, length-take, length-drop, take-append, drop-append,
  take_all, bytes_eq, bytes_eq_refl, bytes_eq→eq,
}
use yee_z_privacy_computing.Status.{
  success, ecc_invalid_skey_size, kmgr_session_inconsistency_pkey_skey,
}
use yee_z_privacy_computing.Analyzer.Ecc.{Ecc, Session}

-- The behaviour behind the test of the size: the status of the session, then the key itself.
unfoldable pub check_keys : Ecc → Bytes → ℕ → Bytes → ℕ
check_keys ecc pubkey status private_key =
    let (ret, check_pkey) = ecc.generate_pkey_from_skey private_key in
    if status == success
    then if ret == 0
      then if bytes_eq pubkey check_pkey then ret else kmgr_session_inconsistency_pkey_skey
      else ret
    else status

-- From what the session gave.
unfoldable pub keys_from : Ecc → Bytes → ℕ × Bytes → ℕ × Bytes × Bytes
keys_from ecc pubkey (status, recv_bytes) =
    if length recv_bytes == ecc.private_key_size + ecc.public_key_size
    then (
      check_keys ecc pubkey status (take ecc.private_key_size recv_bytes),
      take ecc.private_key_size recv_bytes,
      take ecc.public_key_size (drop ecc.private_key_size recv_bytes),
    )
    else (ecc_invalid_skey_size, [], [])

-- The status, `private_key` and `dian_pkey`, which stay empty where nothing is assigned.
unfoldable pub request_private_key_for_public_key : Ecc → Session → Bytes → ℕ × Bytes × Bytes
unfolding keys_from
request_private_key_for_public_key ecc session pubkey = keys_from ecc pubkey (session pubkey)

check_keys_right :
    (ecc : Ecc) (pubkey : Bytes) (status : ℕ) (private_key : Bytes)
    → check_keys ecc pubkey status private_key ≡ 0
    → (status ≡ 0) × (ecc.generate_pkey_from_skey private_key ≡ (0, pubkey))
unfolding check_keys
check_keys_right ecc pubkey status private_key e = (succeeded, λ i. (made i, sym same i))
  where
    succeeded : status ≡ 0
    succeeded = ground arith

    made : (ecc.generate_pkey_from_skey private_key).0 ≡ 0
    made = ground arith

    same : pubkey ≡ (ecc.generate_pkey_from_skey private_key).1
    same = bytes_eq→eq pubkey (ecc.generate_pkey_from_skey private_key).1 (ground arith)

check_keys_zero :
    (ecc : Ecc) (pubkey private_key : Bytes)
    → ecc.generate_pkey_from_skey private_key ≡ (0, pubkey)
    → check_keys ecc pubkey 0 private_key ≡ 0
unfolding check_keys
check_keys_zero ecc pubkey private_key e = rw (e, bytes_eq_refl pubkey) refl

keys_from_right :
    (ecc : Ecc) (pubkey private_key dian_pkey : Bytes) (status : ℕ) (recv : Bytes)
    → keys_from ecc pubkey (status, recv) ≡ (0, private_key, dian_pkey)
    → (length recv ≡ ecc.private_key_size + ecc.public_key_size)
      × (check_keys ecc pubkey status (take ecc.private_key_size recv) ≡ 0)
      × (take ecc.private_key_size recv ≡ private_key)
      × (take ecc.public_key_size (drop ecc.private_key_size recv) ≡ dian_pkey)
unfolding keys_from
keys_from_right ecc pubkey private_key dian_pkey status recv e = ground arith

built_step :
    (ecc : Ecc) (pubkey private_key dian_pkey recv : Bytes)
    → length recv ≡ ecc.private_key_size + ecc.public_key_size
    → take ecc.private_key_size recv ≡ private_key
    → take ecc.public_key_size (drop ecc.private_key_size recv) ≡ dian_pkey
    → check_keys ecc pubkey 0 private_key ≡ 0
    → keys_from ecc pubkey (0, recv) ≡ (0, private_key, dian_pkey)
unfolding keys_from
built_step ecc pubkey private_key dian_pkey recv size sk dk e =
    rw ((==_iff _ _).1 size) (rw (sk, dk) (λ i. (e i, private_key, dian_pkey)))

take-drop_all : (xs : Bytes) (m n : ℕ) → length xs ≡ m + n → take m xs ++ take n (drop m xs) ≡ xs
take-drop_all xs zero n e = take_all xs n (omega arith)
take-drop_all [] (suc m) n e = absurd (omega arith)
take-drop_all (x ∷ xs) (suc m) n e = ap (x ∷◌) (take-drop_all xs m n (omega arith))

-- A private key is accepted, with status 0, exactly if the session succeeded and the bytes received are
-- a private key and a public key of their sizes, where the public key asked for is that of the private
-- key.
pub request_private_key-success :
    (ecc : Ecc) (session : Session) (pubkey private_key dian_pkey : Bytes)
    → (request_private_key_for_public_key ecc session pubkey ≡ (0, private_key, dian_pkey)) ↔ (
        (session pubkey ≡ (0, private_key ++ dian_pkey))
        × (length private_key ≡ ecc.private_key_size)
        × (length dian_pkey ≡ ecc.public_key_size)
        × (ecc.generate_pkey_from_skey private_key ≡ (0, pubkey)))
unfolding request_private_key_for_public_key
request_private_key-success ecc session pubkey private_key dian_pkey = (
  λ e. accepted (session pubkey).0 (session pubkey).1 e,
  λ (answer, skey_size, pkey_size, made).
      ap (keys_from ecc pubkey) answer ∙ built skey_size pkey_size made,
)
  where
    accepted :
        (status : ℕ) (recv : Bytes)
        → keys_from ecc pubkey (status, recv) ≡ (0, private_key, dian_pkey)
        → (◌≡◌ {A = ℕ × Bytes} (status, recv) (0, private_key ++ dian_pkey))
          × (length private_key ≡ ecc.private_key_size)
          × (length dian_pkey ≡ ecc.public_key_size)
          × (ecc.generate_pkey_from_skey private_key ≡ (0, pubkey))
    accepted status recv e =
        let (size, checks, sk, dk) =
          keys_from_right ecc pubkey private_key dian_pkey status recv e in
        let (succeeded, made) =
          check_keys_right ecc pubkey status (take ecc.private_key_size recv) checks in
        (
          λ i. (
            succeeded i,
            (sym (take-drop_all recv ecc.private_key_size ecc.public_key_size size) ∙ λ j.
                  sk j ++ dk j)
                i,
          ),
          omega (arith, ap length sk, length-take ecc.private_key_size recv),
          omega (
            arith,
            ap length dk,
            length-take ecc.public_key_size (drop ecc.private_key_size recv),
            length-drop ecc.private_key_size recv,
          ),
          sym (ap ecc.generate_pkey_from_skey sk) ∙ made,
        )

    built :
        length private_key ≡ ecc.private_key_size
        → length dian_pkey ≡ ecc.public_key_size
        → ecc.generate_pkey_from_skey private_key ≡ (0, pubkey)
        → keys_from ecc pubkey (0, private_key ++ dian_pkey) ≡ (0, private_key, dian_pkey)
    built skey_size pkey_size made =
        built_step ecc pubkey private_key dian_pkey (private_key ++ dian_pkey)
          (omega (arith, length-append private_key dian_pkey))
          (take-append private_key dian_pkey ecc.private_key_size (sym skey_size))
          (ap (take ecc.public_key_size)
              (drop-append private_key dian_pkey ecc.private_key_size (sym skey_size))
            ∙ take_all dian_pkey ecc.public_key_size (omega arith))
          (check_keys_zero ecc pubkey private_key made)
