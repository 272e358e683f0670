-- ===== src/Sealed/Tests.antt =====
-- Two items sealed and read, with a library that only marks what it encrypts.
use yee_z_privacy_computing.Base.{
  ℕ, zero, suc, ◌*◌, ◌≡◌, refl, ap, ◌∙◌, true, some, List, [], ◌∷◌, ◌++◌, map, arith, Bytes, take,
  drop,
}
use yee_z_privacy_computing.Blockfile.Codec.{le_bytes}
use yee_z_privacy_computing.Blockfile.Result.{ok, Params}
use yee_z_privacy_computing.Blockfile.Tail.Append.{Fits}
use yee_z_privacy_computing.Status.{success}
use yee_z_privacy_computing.Sealed.Library.{Library, IsCodec, IsPrivateKey, gives}
use yee_z_privacy_computing.Sealed.Writer.{seal_file}
use yee_z_privacy_computing.Sealed.Provider.{Host, Provider, check_actual_data_hash}
use yee_z_privacy_computing.Sealed.Sealing.{sealed_items}
use yee_z_privacy_computing.Sealed.EndToEnd.{analyze, analyze-seal_file}

-- A byte of an item is written plus one, and 0 ends an item.
abbrev write_items : List Bytes → Bytes
write_items [] = []
write_items (x ∷ xs) = map (λ b. suc b) x ++ 0 ∷ write_items xs

abbrev into_first : ℕ → List Bytes → List Bytes
into_first b [] = (b ∷ []) ∷ []
into_first b (x ∷ xs) = (b ∷ x) ∷ xs

abbrev read_items : Bytes → List Bytes
read_items [] = []
read_items (zero ∷ bs) = [] ∷ read_items bs
read_items (suc b ∷ bs) = into_first b (read_items bs)

abbrev marking : Library
marking = record {
  hash_256 = λ m. take 4 m;
  generate_pkey_from_skey = λ k. k;
  encrypt_message_with_prefix = λ k pkey m. (0, k ∷ m);
  decrypt_message_with_prefix = λ skey s. (0, drop 1 s);
  batch_to_bytes = write_items;
  batch_from_bytes = λ s. some (read_items s);
}

read_item : (x rest : Bytes) → read_items (map (λ b. suc b) x ++ 0 ∷ rest) ≡ x ∷ read_items rest
read_item [] rest = refl
read_item (b ∷ x) rest = ap (into_first b) (read_item x rest)

read-write_items : (xs : List Bytes) → read_items (write_items xs) ≡ xs
read-write_items [] = refl
read-write_items (x ∷ xs) = read_item x (write_items xs) ∙ ap (x ∷◌) (read-write_items xs)

marking-IsCodec : IsCodec marking
marking-IsCodec = record { from-to_bytes = λ xs. ap some (read-write_items xs) }

abbrev skey : Bytes
skey = 5 ∷ 6 ∷ []

skey-IsPrivateKey : IsPrivateKey marking skey
skey-IsPrivateKey = record {
  encrypts = λ k m. refl;
  decrypts = λ k m. refl;
  cipher_some = λ k m. omega arith;
}

abbrev two_items : List Bytes
two_items = (1 ∷ 2 ∷ []) ∷ (3 ∷ []) ∷ []

abbrev sealed_file : Params
sealed_file = record {
  magic_number = 0x4788d13e7fefe21f;
  version_number = 2;
  block_num_limit = 1024 * 1024;
  item_num_per_block_limit = 256;
  hash_size = 32;
}

fits : Fits sealed_file (sealed_items marking skey two_items)
unfolding le_bytes
fits = record {
  limit_pos = omega arith;
  limit_fits = omega arith;
  items_fit = omega arith;
  bytes_fit = omega arith;
}

analyze-seal_file_example :
    (hash : Bytes) × (content : Bytes) × (p : Provider) × (host : Host) × (seal_file marking
        sealed_file skey 2 two_items
      ≡ gives (0, hash, content))
    × (analyze marking sealed_file 9 128 3 skey hash content ≡ ok (map some two_items, p, host))
    × (p.data_reach_end ≡ true)
    × (check_actual_data_hash p ≡ success)
analyze-seal_file_example =
    analyze-seal_file marking sealed_file skey two_items 128 9 2 marking-IsCodec skey-IsPrivateKey
      (record { magic_fits = omega arith; version_fits = omega arith })
      (
        record { some_bytes = omega arith; not_too_large = omega arith },
        (record { some_bytes = omega arith; not_too_large = omega arith }, tt),
      )
      (omega arith) (omega arith) (omega arith) fits (omega arith) (omega arith, tt)
