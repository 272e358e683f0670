-- ===== src/Keymgr/Answers.antt =====
-- `forward_private_key` and then `handle_pkg`: the key comes back, and an entry stays what it is.
use yee_z_privacy_computing.Base.{
  ℕ, ◌≡◌, refl, sym, ap, ◌∙◌, ◌≢◌, inl, inr, Option, none, some, ◌∷◌, ◌++◌, Bytes, ◌==◌, ==_iff,
  Bool-cases, bytes_eq, bytes_eq_refl, bytes_eq→eq,
}
use yee_z_privacy_computing.Analyzer.Ecc.{Ecc, Checked, passed, failed}
use yee_z_privacy_computing.Keymgr.Forward.{
  Device, open_forward, forward_opened, forward_private_key, enter_key, PrivateKeyInfo, KeyTable,
  find_key, both_keys, handle_pkg,
}
use yee_z_privacy_computing.Keymgr.Forwarded.{Forwards, none_yet, then_forward}

find_key-cons :
    (key k : Bytes) (info there : PrivateKeyInfo) (table : KeyTable)
    → find_key k table ≡ none
    → find_key key table ≡ some there
    → find_key key ((k, info) ∷ table) ≡ some there
find_key-cons key k info there table absent e = elim (Bool-cases (bytes_eq k key)) [
  | inl same ↦ absurd (
      differ (find_key key table)
        (ap (λ (x : Bytes). find_key x table) (sym (bytes_eq→eq k key same)) ∙ absent) e)
  | inr other ↦ rw other e
]
  where
    differ : (o : Option PrivateKeyInfo) → o ≡ none → o ≢ some there
    differ o p q = cc

enter_key-keeps :
    (ecc : Ecc) (epublic_key ehash sig skey pkey key : Bytes) (there : PrivateKeyInfo)
    (table : KeyTable) (o : Option PrivateKeyInfo)
    → find_key (pkey ++ ehash) table ≡ o
    → find_key key table ≡ some there
    → find_key key (enter_key ecc epublic_key ehash sig skey pkey table o).1 ≡ some there
unfolding enter_key
enter_key-keeps ecc epublic_key ehash sig skey pkey key there table (some info) absent e = e
enter_key-keeps ecc epublic_key ehash sig skey pkey key there table none absent e =
    elim (Bool-cases (ecc.verify_signature (epublic_key ++ ehash) sig pkey == 0)) [
      | inl good ↦ rw good (find_key-cons key _ _ there table absent e)
      | inr bad ↦ rw bad e
    ]

forward_opened-keeps :
    (ecc : Ecc) (epublic_key ehash sig key : Bytes) (there : PrivateKeyInfo) (table : KeyTable)
    (o : Checked (Bytes × Bytes))
    → find_key key table ≡ some there
    → find_key key (forward_opened ecc epublic_key ehash sig table o).1 ≡ some there
unfolding forward_opened
forward_opened-keeps ecc epublic_key ehash sig key there table (failed ret) e = e
forward_opened-keeps ecc epublic_key ehash sig key there table (passed (skey, pkey)) e =
    enter_key-keeps ecc epublic_key ehash sig skey pkey key there table _ refl e

Forwards-find_key :
    (ecc : Ecc) (key : Bytes) (there : PrivateKeyInfo) {table table' : KeyTable}
    → find_key key table ≡ some there
    → Forwards ecc table table'
    → find_key key table' ≡ some there
unfolding forward_private_key
Forwards-find_key ecc key there e none_yet = e
Forwards-find_key ecc key there e (then_forward device encrypted epublic_key ehash sig before) =
    forward_opened-keeps ecc epublic_key ehash sig key there _
      (open_forward ecc device encrypted epublic_key) (Forwards-find_key ecc key there e before)

-- An entry of the table is never replaced or taken out: after any sequence of calls of
-- `forward_private_key`, with any arguments and files, the table finds the same entry for the key, and
-- `handle_pkg` answers the enclave with that entry's two keys.
pub Forwards-keeps :
    (ecc : Ecc) (mr_enclave pkey : Bytes) (there : PrivateKeyInfo) {table table' : KeyTable}
    → find_key (pkey ++ mr_enclave) table ≡ some there
    → Forwards ecc table table'
    → (find_key (pkey ++ mr_enclave) table' ≡ some there)
      × (handle_pkg ecc table' mr_enclave pkey ≡ some (both_keys there))
unfolding handle_pkg
Forwards-keeps ecc mr_enclave pkey there e forwards =
    let found = Forwards-find_key ecc (pkey ++ mr_enclave) there e forwards in
    (found, rw found refl)

entered :
    (ecc : Ecc) (epublic_key ehash sig skey pkey : Bytes) (table : KeyTable)
    → ecc.verify_signature (epublic_key ++ ehash) sig pkey ≡ 0
    → enter_key ecc epublic_key ehash sig skey pkey table none
      ≡ (0, (pkey ++ ehash, record { shu_skey = skey; dian_pkey = epublic_key }) ∷ table)
unfolding enter_key
entered ecc epublic_key ehash sig skey pkey table e = rw ((==_iff _ 0).1 e) refl

forwarded :
    (ecc : Ecc) (device : Device) (encrypted epublic_key ehash sig skey pkey : Bytes)
    (table : KeyTable)
    → open_forward ecc device encrypted epublic_key ≡ passed (skey, pkey)
    → find_key (pkey ++ ehash) table ≡ none
    → ecc.verify_signature (epublic_key ++ ehash) sig pkey ≡ 0
    → forward_private_key ecc device encrypted epublic_key ehash sig table
      ≡ (0, (pkey ++ ehash, record { shu_skey = skey; dian_pkey = epublic_key }) ∷ table)
unfolding forward_private_key forward_opened
forwarded ecc device encrypted epublic_key ehash sig skey pkey table e absent good =
    ap (forward_opened ecc epublic_key ehash sig table) e
    ∙ ap (enter_key ecc epublic_key ehash sig skey pkey table) absent
    ∙ entered ecc epublic_key ehash sig skey pkey table good

-- Where the cipher opens to the key `skey` of the public key `pkey`, no entry is there for `pkey` and
-- `ehash`, and the signature of the key manager's public key and `ehash` verifies under `pkey`:
-- `forward_private_key` returns 0, and `handle_pkg` then answers the enclave `ehash` with both keys.
pub forward-handle_pkg :
    (ecc : Ecc) (device : Device) (encrypted epublic_key ehash sig skey pkey : Bytes)
    (table : KeyTable)
    → open_forward ecc device encrypted epublic_key ≡ passed (skey, pkey)
    → find_key (pkey ++ ehash) table ≡ none
    → ecc.verify_signature (epublic_key ++ ehash) sig pkey ≡ 0
    → ((forward_private_key ecc device encrypted epublic_key ehash sig table).0 ≡ 0)
      × (handle_pkg ecc
            (forward_private_key ecc device encrypted epublic_key ehash sig table).1
            ehash
            pkey
          ≡ some (skey ++ epublic_key))
unfolding handle_pkg
forward-handle_pkg ecc device encrypted epublic_key ehash sig skey pkey table e absent good =
    let done = forwarded ecc device encrypted epublic_key ehash sig skey pkey table e absent good in
    (
      ap (λ (r : ℕ × KeyTable). r.0) done,
      ap (λ (r : ℕ × KeyTable). handle_pkg ecc r.1 ehash pkey) done
          ∙ answered ecc _ ehash pkey table,
    )
  where
    answered :
        (ecc : Ecc) (info : PrivateKeyInfo) (ehash pkey : Bytes) (table : KeyTable)
        → handle_pkg ecc ((pkey ++ ehash, info) ∷ table) ehash pkey ≡ some (both_keys info)
    answered ecc info ehash pkey table = rw (bytes_eq_refl (pkey ++ ehash)) refl
