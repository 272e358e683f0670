-- ===== src/Sealed/EndToEnd.antt =====
-- What `seal_file` writes, an analyzer with the private key reads: every item, in order, and the
-- hash that it computes is the one that `seal_file` printed.
use yee_z_privacy_computing.Base.{
  ℕ, suc, ◌^◌, ◌≤◌, ◌<◌, ◌≡◌, refl, ap, ◌∙◌, inl, true, Option, some, List, [], ◌∷◌, ◌++◌, map,
  arith, Bytes, length, All, length-append, bytes_eq_refl,
}
use mathlib.Core.Path.{subst}
use mathlib.Core.List.{reverse}
use yee_z_privacy_computing.Blockfile.Result.{Result, ok, ◌>>=◌, Params}
use yee_z_privacy_computing.Blockfile.Tail.{Blockfile, init, open_for_read, reset_read_item}
use yee_z_privacy_computing.Blockfile.Tail.Layout.{encode, offset}
use yee_z_privacy_computing.Blockfile.Tail.Append.{Holds, Fits}
use yee_z_privacy_computing.Blockfile.Tail.Items.{Within}
use yee_z_privacy_computing.Blockfile.Tail.Closing.{on_disk}
use yee_z_privacy_computing.Blockfile.Tail.Reading.{reset_read_item_again, opened_for_read}
use yee_z_privacy_computing.Blockfile.Tail.Table.{Blocks-first}
use yee_z_privacy_computing.Blockfile.Tail.Session.{on_disk_empty}
use yee_z_privacy_computing.Blockfile.Tail.RoundTrip.{ParamsFit, open_on_disk}
use yee_z_privacy_computing.Status.{success}
use yee_z_privacy_computing.Sealed.Library.{Library, IsCodec, IsPrivateKey, fidelius, gives}
use yee_z_privacy_computing.Sealed.Writer.{seal_file}
use yee_z_privacy_computing.Sealed.Provider.{
  Host, find_source, Provider, sealed_data_provider, check_actual_data_hash,
}
use yee_z_privacy_computing.Sealed.Batches.{
  batches, concat, concat-batches, batches-Filled, chain, Filled,
}
use yee_z_privacy_computing.Sealed.Sealing.{
  IsItem, sealed_items, seal_file-Holds, length-ciphers, batches_some,
}
use yee_z_privacy_computing.Sealed.Steps.{drain}
use yee_z_privacy_computing.Sealed.Draining.{Drained, IsBatch, drained}

-- `parser::feed_datasource` opens the file under the key `data_hash + spkey`.
abbrev pub host_with : ℕ → Bytes → Blockfile → Host
host_with size key file = record { data_sources = (key, file) ∷ []; mem_buf_size = size }

-- What an analyzer finds that reads the file `content` with the key `skey`.
abbrev pub analyze :
    Library
    → Params
    → ℕ
    → ℕ
    → ℕ
    → Bytes
    → Bytes
    → Bytes
    → Result (List (Option Bytes) × Provider × Host)
analyze l c unset size n skey data_hash content = do
  opened ← open_for_read c (some content) (init c)
  reset ← reset_read_item c opened
  file ← reset_read_item c reset
  drain l n (sealed_data_provider l unset data_hash skey)
      (host_with size (data_hash ++ l.generate_pkey_from_skey skey) file)

sizes_below :
    (bs : List (List Bytes)) → All Filled bs → length (concat bs) < 2 ^ 64 → All IsBatch bs
sizes_below [] filled small = tt
sizes_below (b ∷ bs) (pos, filled) small = (
  (pos, omega (arith, length-append b (concat bs))),
  sizes_below bs filled (omega (arith, length-append b (concat bs))),
)

found_alone :
    (size : ℕ) (key : Bytes) (file : Blockfile)
    → find_source key (host_with size key file).data_sources ≡ some file
found_alone size key file = rw (bytes_eq_refl key) refl

module _ (l : Library) (c : Params) (skey : Bytes) (items : List Bytes) (size unset : ℕ)
    (codec : IsCodec l) (key : IsPrivateKey l skey) (params : ParamsFit c)
    (some_item : 0 < length items) (small : length items < 2 ^ 32)
    (fits : Fits c (sealed_items l skey items)) (buffer : size < 2 ^ 32)
    (within : Within size (sealed_items l skey items)) where
  abbrev pkey : Bytes
  pkey = l.generate_pkey_from_skey skey

  some_cipher : 0 < length (sealed_items l skey items)
  some_cipher = omega (
    arith,
    length-ciphers l pkey 0 (batches [] 0 items),
    batches_some (batches [] 0 items) items (concat-batches [] 0 items) some_item,
  )

  Drained-sealed :
      (b : Blockfile) (hash : Bytes)
      → Holds c (sealed_items l skey items) b
      → Drained l
          (suc (length items))
          items
          (chain l (l.hash_256 fidelius) items)
          (sealed_data_provider l unset hash skey)
          (host_with size
            (hash ++ pkey)
            (opened_for_read (encode (sealed_items l skey items)) (reverse b.block_infos) b.header))
  unfolding sealed_data_provider
  Drained-sealed b hash h =
      let (t, ts, same, zero_start) =
        Blocks-first c (offset (sealed_items l skey items)) (length (sealed_items l skey items))
          b.block_infos some_cipher h.blocks in
      let (rest, shape) = on_disk_empty (sealed_items l skey items) b t ts same zero_start in
      subst
        (λ xs.
          Drained l (suc (length items)) xs (chain l (l.hash_256 fidelius) xs)
            (sealed_data_provider l unset hash skey)
            (host_with size (hash ++ pkey) (
              opened_for_read (encode (sealed_items l skey items)) (reverse b.block_infos)
                b.header)))
        (concat-batches [] 0 items)
        (drained l skey codec key rest (batches [] 0 items) [] (length items) 0
          (sealed_data_provider l unset hash skey) _ _ [] []
          (record {
            not_end = refl;
            skey_is = refl;
            items_are = refl;
            index_is = inl refl;
            items_fit = omega arith;
            found = found_alone size (hash ++ pkey) (
                opened_for_read (encode (sealed_items l skey items)) (reverse b.block_infos)
                  b.header);
            file_good = record { not_eof = refl; not_fail = refl };
            content_is = shape;
            pos_is = refl;
          })
          (omega (arith, ap length (concat-batches [] 0 items)))
          (sizes_below (batches [] 0 items) (batches-Filled [] 0 items)
            (omega (arith, ap length (concat-batches [] 0 items), small)))
          within buffer)

  analyze_step :
      (b : Blockfile) (p : Provider) (host : Host) (hash : Bytes) (n : ℕ)
      (outs : List (Option Bytes))
      → Holds c (sealed_items l skey items) b
      → drain l n (sealed_data_provider l unset hash skey) (
          host_with size
            (hash ++ pkey)
            (opened_for_read (encode (sealed_items l skey items)) (reverse b.block_infos) b.header))
        ≡ ok (outs, p, host)
      → analyze l c unset size n skey hash (on_disk (sealed_items l skey items) b)
        ≡ ok (outs, p, host)
  analyze_step b p host hash n outs h e =
      let f =
        opened_for_read (encode (sealed_items l skey items)) (reverse b.block_infos) b.header in
      let read_it : Blockfile → Result (List (Option Bytes) × Provider × Host) = λ file.
        drain l n (sealed_data_provider l unset hash skey) (host_with size (hash ++ pkey) file) in
      ap
        (λ (r : Result Blockfile). r >>= λ (o : Blockfile).
          (reset_read_item c o >>= λ (o' : Blockfile). (reset_read_item c o' >>= read_it)))
        (open_on_disk c (sealed_items l skey items) params fits some_cipher b h)
      ∙ (ap (λ (r : Result Blockfile). r >>= λ (o' : Blockfile). (reset_read_item c o' >>= read_it))
            (reset_read_item_again c (encode (sealed_items l skey items)) (reverse b.block_infos)
              b.header)
          ∙ (ap (λ (r : Result Blockfile). r >>= read_it)
                (reset_read_item_again c (encode (sealed_items l skey items))
                  (reverse b.block_infos) b.header)
              ∙ e))

-- `seal_file` on a reader that gives the items, at least one, each of 1 to 65536 bytes, no more than the
-- reader announces and fewer than 2^32, returns 0, where the file of their ciphers is smaller than 2^63
-- bytes. Where an analyzer has the private key for which it was sealed and a buffer, smaller than 2^32
-- bytes, for its largest cipher, the calls of `process` on that file give every item once, in order, and
-- then false; and the check of the hash that `seal_file` returned succeeds.
pub analyze-seal_file :
    (l : Library) (c : Params) (skey : Bytes) (items : List Bytes) (size unset number : ℕ)
    → IsCodec l
    → IsPrivateKey l skey
    → ParamsFit c
    → All IsItem items
    → 0 < length items
    → length items ≤ number
    → length items < 2 ^ 32
    → Fits c (sealed_items l skey items)
    → size < 2 ^ 32
    → Within size (sealed_items l skey items)
    → (hash : Bytes) × (content : Bytes) × (p : Provider) × (host : Host) × (seal_file l c
          (l.generate_pkey_from_skey skey)
          number
          items
        ≡ gives (0, hash, content))
      × (analyze l c unset size (suc (length items)) skey hash content
          ≡ ok (map some items, p, host))
      × (p.data_reach_end ≡ true)
      × (check_actual_data_hash p ≡ success)
unfolding sealed_data_provider
analyze-seal_file l c skey items size unset number codec key params ok_items some_item le small fits
      buffer within =
    let (b, h, seals) =
      seal_file-Holds l c skey number items key ok_items some_item le small fits in
    let hash = chain l (l.hash_256 fidelius) items in
    let d =
      Drained-sealed l c skey items size unset codec key params some_item small fits buffer within b
        hash h in
    (
      hash,
      on_disk (sealed_items l skey items) b,
      d.last,
      d.host_behind,
      seals,
      analyze_step l c skey items size unset codec key params some_item small fits buffer within b
          d.last d.host_behind hash (suc (length items)) (map some items) h d.drains,
      d.reached,
      rw (d.hash_is, d.expect_kept, bytes_eq_refl hash) refl,
    )
