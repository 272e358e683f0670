-- ===== src/Blockfile/Tail/Append.antt =====
-- `append_item` writes one more item behind the others and keeps header and block table in step.
use yee_z_privacy_computing.Base.{
  ℕ, ◌+◌, ◌*◌, ◌^◌, ◌≤◌, ◌<◌, ◌≡◌, refl, sym, ap, ◌∙◌, ◌⊎◌, inl, inr, true, false, List, [], ◌∷◌,
  ◌++◌, arith, Bytes, leb, if◌then◌else◌, Bool-cases, length, length-append,
}
use yee_z_privacy_computing.Blockfile.Stream.{
  File, write, clear, tellg, seekg_beg, seekg_end, seekp_beg,
}
use yee_z_privacy_computing.Blockfile.Stream.Laws.{
  IsGood, write_at_end, seekp_beg_good, Kept, seekg_beg-Kept, seekg_end-Kept, tellg-seekg_end,
}
use yee_z_privacy_computing.Blockfile.Codec.{u64_bytes, BlockInfo, Header}
use yee_z_privacy_computing.Blockfile.Codec.Laws.{length-le_bytes}
use yee_z_privacy_computing.Blockfile.Result.{
  Result, ok, ◌>>=◌, >>=_assoc, Params, sizeof_header, u64, sub64,
}
use yee_z_privacy_computing.Blockfile.Tail.{
  Blockfile, read_header, load_block_infos, read_block_infos, read_all_block_info, add_to_blocks,
  adds_block, append_item, back_end, zeros,
}
use yee_z_privacy_computing.Blockfile.Tail.Layout.{
  encode, encode-snoc, length-encode-snoc, offset, offset-snoc, offset_all, Blocks, Full-off,
  length-Blocks,
}

-- A block file under construction that holds `items`.
pub record Holds (c : Params) (items : List Bytes) (b : Blockfile) : Type 0 where
  pub is_good : IsGood b.file
  pub is_writable : b.file.writable ≡ true
  pub content_is : b.file.content ≡ encode items
  pub item_number_is : b.header.item_number ≡ length items
  pub block_number_is : b.header.block_number ≡ length b.block_infos
  pub stamped :
      (items ≡ [])
      ⊎ ((b.header.magic_number ≡ c.magic_number) × (b.header.version_number ≡ c.version_number))
  pub hash_kept : b.header.data_hash ≡ zeros c.hash_size
  pub blocks : Blocks c (offset items) (length items) b.block_infos
  pub loaded :
      ((b.is_header_valid ≡ true) × (b.is_block_info_valid ≡ true))
      ⊎ ((items ≡ []) × (b.is_header_valid ≡ false) × (b.is_block_info_valid ≡ false))

-- The limits that the class does not check: item numbers and file positions fit their fields.
pub record Fits (c : Params) (items : List Bytes) : Type 0 where
  pub limit_pos : 0 < c.item_num_per_block_limit
  pub limit_fits : c.item_num_per_block_limit < 2 ^ 64
  pub items_fit : length items < 2 ^ 63
  pub bytes_fit : length (encode items) + 32 * length items + 64 + c.hash_size < 2 ^ 63

-- The first two calls of `append_item`, up to the flags and position of the stream.
load : Params → Blockfile → Result Blockfile
load c b = do b1 ← read_header c b; read_all_block_info c b1

record Loaded (b b' : Blockfile) : Type 0 where
  same_content : b'.file.content ≡ b.file.content
  same_writable : b'.file.writable ≡ b.file.writable
  same_header : b'.header ≡ b.header
  same_blocks : b'.block_infos ≡ b.block_infos
  header_loaded : b'.is_header_valid ≡ true
  blocks_loaded : b'.is_block_info_valid ≡ true

load_again :
    (c : Params) (b : Blockfile)
    → b.is_header_valid ≡ true
    → b.is_block_info_valid ≡ true
    → load c b ≡ ok b
unfolding load read_header read_all_block_info
load_again c b h k = ground arith

no-Blocks : (c : Params) (off : ℕ → ℕ) (t : List BlockInfo) → Blocks c off 0 t → t ≡ []
no-Blocks c off [] h = refl
no-Blocks c off (b ∷ rest) h = absurd (omega (arith, h.1))

-- On an empty file the header and the table stay as they are.
read_header_empty :
    (c : Params) (b : Blockfile)
    → b.is_header_valid ≡ false
    → IsGood b.file
    → length b.file.content ≡ 0
    → read_header c b
      ≡ ok (record b {
        file = seekg_beg (tellg b.file) (seekg_end 0 b.file);
        is_header_valid = true;
      })
unfolding read_header
read_header_empty c b v g e = ground (arith, tellg-seekg_end b.file g)

load_no_blocks :
    (c : Params) (b : Blockfile)
    → b.header.block_number ≡ 0
    → (load_block_infos c b).block_infos ≡ b.block_infos
unfolding load_block_infos
load_no_blocks c b z = rw (z, read_block_infos)

load_no_blocks_file :
    (c : Params) (b : Blockfile)
    → b.header.block_number ≡ 0
    → Kept b.file (load_block_infos c b).file
unfolding load_block_infos
load_no_blocks_file c b z =
    let f1 = seekg_end (u64 (sizeof_header c + b.header.block_number * 32)) b.file in
    ground (
      arith,
      still,
      seekg_end-Kept (u64 (sizeof_header c + b.header.block_number * 32)) b.file,
      seekg_beg-Kept (tellg b.file) f1,
    )
  where
    still :
        (read_block_infos b.header.block_number
          (seekg_end (u64 (sizeof_header c + b.header.block_number * 32)) b.file)
          b.block_infos).1
        ≡ seekg_end (u64 (sizeof_header c + b.header.block_number * 32)) b.file
    still = rw (z, read_block_infos)

load_block_infos_rest :
    (c : Params) (b : Blockfile)
    → ((load_block_infos c b).header ≡ b.header)
      × ((load_block_infos c b).is_header_valid ≡ b.is_header_valid)
      × ((load_block_infos c b).is_block_info_valid ≡ true)
unfolding load_block_infos
load_block_infos_rest c b = (refl, refl, refl)

load_empty :
    (c : Params) (b : Blockfile)
    → b.is_header_valid ≡ false
    → b.is_block_info_valid ≡ false
    → IsGood b.file
    → length b.file.content ≡ 0
    → b.header.block_number ≡ 0
    → (b' : Blockfile) × (load c b ≡ ok b') × Loaded b b'
unfolding load
load_empty c b v k g e z = rw (read_header_empty c b v g e) (
  load_block_infos c b1,
  done,
  ground (
    arith,
    load_no_blocks c b1 z,
    load_block_infos_rest c b1,
    load_no_blocks_file c b1 z,
    seekg_end-Kept 0 b.file,
    seekg_beg-Kept (tellg b.file) (seekg_end 0 b.file),
  ),
)
  where
    b1 : Blockfile
    b1 = record b { file = seekg_beg (tellg b.file) (seekg_end 0 b.file); is_header_valid = true }

    done : read_all_block_info c b1 ≡ ok (load_block_infos c b1)
    done = unfold read_all_block_info read_header in ground arith

load_total :
    (c : Params) (items : List Bytes) (b : Blockfile)
    → Holds c items b
    → (b' : Blockfile) × (load c b ≡ ok b') × Loaded b b'
load_total c items b h = elim h.loaded [
  | inl (v, k) ↦ (
    b,
    load_again c b v k,
    record {
      same_content = refl;
      same_writable = refl;
      same_header = refl;
      same_blocks = refl;
      header_loaded = v;
      blocks_loaded = k;
    },
  )
  | inr (none_yet, v, k) ↦ load_empty c b v k h.is_good (empty none_yet) (unblocked none_yet)
]
  where
    empty : items ≡ [] → length b.file.content ≡ 0
    empty e = rw (h.content_is, e)

    unblocked : items ≡ [] → b.header.block_number ≡ 0
    unblocked e =
        let zero_items : length items ≡ 0 = ap length e in
        let at_zero : Blocks c (offset items) 0 b.block_infos = rw zero_items at h.blocks in
        h.block_number_is ∙ ap length (no-Blocks c (offset items) b.block_infos at_zero)

-- The block table after one more item of `len` bytes, which ends at `off' (n + 1)`.
module _ (c : Params) (off off' : ℕ → ℕ) (n len : ℕ) (same : (k : ℕ) → k ≤ n → off' k ≡ off k)
    (start : off 0 ≡ 0) (grows : off' (n + 1) ≡ off n + len + 8) (fits : off' (n + 1) < 2 ^ 63)
    (few : n + 1 < 2 ^ 63) (limit : 0 < c.item_num_per_block_limit) where
  add_new_block :
      (bi : BlockInfo) (rest : List BlockInfo)
      → Blocks c off n (bi ∷ rest)
      → leb c.item_num_per_block_limit (sub64 bi.end_item_index bi.start_item_index) ≡ true
      → Blocks c off' (n + 1) (add_to_blocks c len (bi ∷ rest))
  unfolding add_to_blocks
  add_new_block bi rest h full =
      let (e, lt, le, p, q, more) = h in
      let here = same n (omega arith) in
      let there = same bi.start_item_index (omega arith) in
      rw full (
        omega arith,
        omega arith,
        omega arith,
        cc (q, here, ap off' e),
        omega arith,
        (
          refl,
          ground (arith, full),
          p ∙ sym there,
          cc (q, here, ap off' e),
          Full-off c off off' bi.start_item_index rest (λ k u. same k (omega arith)) more,
        ),
      )

  add_to_last_block :
      (bi : BlockInfo) (rest : List BlockInfo)
      → Blocks c off n (bi ∷ rest)
      → leb c.item_num_per_block_limit (sub64 bi.end_item_index bi.start_item_index) ≡ false
      → Blocks c off' (n + 1) (add_to_blocks c len (bi ∷ rest))
  unfolding add_to_blocks
  add_to_last_block bi rest h free =
      let (e, lt, le, p, q, more) = h in
      let there = same bi.start_item_index (omega arith) in
      rw free (
        omega arith,
        omega arith,
        ground (arith, free),
        p ∙ sym there,
        omega arith,
        Full-off c off off' bi.start_item_index rest (λ k u. same k (omega arith)) more,
      )

  add_to_blocks-Blocks :
      (t : List BlockInfo) → Blocks c off n t → Blocks c off' (n + 1) (add_to_blocks c len t)
  unfolding add_to_blocks
  add_to_blocks-Blocks [] h =
      let none_yet : n ≡ 0 = h in
      let zero_off : off n ≡ 0 = rw none_yet start in
      let still : off' 0 ≡ off 0 = same 0 (omega arith) in
      (omega arith, omega arith, omega arith, omega arith, omega arith, refl)
  add_to_blocks-Blocks (bi ∷ rest) h =
      elim (Bool-cases
        (leb c.item_num_per_block_limit (sub64 bi.end_item_index bi.start_item_index))) [
          | inl full ↦ add_new_block bi rest h full
          | inr free ↦ add_to_last_block bi rest h free
        ]

  back_end-add_to_blocks :
      (t : List BlockInfo) → Blocks c off n t → back_end (add_to_blocks c len t) ≡ off n + len + 8
  unfolding add_to_blocks
  back_end-add_to_blocks [] h =
      let none_yet : n ≡ 0 = h in let zero_off : off n ≡ 0 = rw none_yet start in omega arith
  back_end-add_to_blocks (bi ∷ rest) h =
      let end : bi.end_file_pos ≡ off n = h.4 in ground (arith, end)

-- `block_number` counts the blocks.
length-add_to_blocks :
    (c : Params) (len : ℕ) (t : List BlockInfo)
    → length (add_to_blocks c len t) ≡ (if adds_block c t then length t + 1 else length t)
unfolding add_to_blocks adds_block
length-add_to_blocks c len [] = omega arith
length-add_to_blocks c len (bi ∷ rest) = ground arith

abbrev after_append : Params → Bytes → Blockfile → Blockfile
after_append c item b =
    let len = length item in
    let infos = add_to_blocks c len b.block_infos in
    record b {
      file =
          write item (
            write (u64_bytes len)
              (seekp_beg (sub64 (sub64 (back_end infos) 8) len) (clear b.file)));
      header = record b.header {
        item_number = u64 (b.header.item_number + 1);
        magic_number = c.magic_number;
        version_number = c.version_number;
        block_number =
            if adds_block c b.block_infos
            then u64 (b.header.block_number + 1)
            else b.header.block_number;
      };
      block_infos = infos;
    }

append_item-load :
    (c : Params) (x : Bytes) (b b' : Blockfile)
    → load c b ≡ ok b'
    → append_item c x b ≡ ok (after_append c x b')
unfolding append_item load
append_item-load c x b b' h =
    sym (
      >>=_assoc (read_header c b) (λ b1. read_all_block_info c b1) (λ b2. ok (after_append c x b2)))
    ∙ ap (λ (r : Result Blockfile). r >>= λ b2. ok (after_append c x b2)) h

-- The stream after `append_item`: the length and the item stand behind the items before.
abbrev at_end : List Bytes → File → File
at_end items f = record (clear f) { pos = length (encode items) }

abbrev behind_length : List Bytes → Bytes → File → File
behind_length items x f = record f {
  content = encode items ++ u64_bytes (length x);
  pos = length (encode items) + 8;
  eof = false;
  fail = false;
}

abbrev behind_item : List Bytes → Bytes → File → File
behind_item items x f = record (behind_length items x f) {
  content = (encode items ++ u64_bytes (length x)) ++ x;
  pos = length (encode items) + 8 + length x;
}

module _ (c : Params) (items : List Bytes) (x : Bytes) (f : File)
    (content : f.content ≡ encode items) (writable : f.writable ≡ true)
    (fits : Fits c (items ++ x ∷ [])) where
  seek_to_end : seekp_beg (length (encode items)) (clear f) ≡ at_end items f
  seek_to_end =
      seekp_beg_good _ _ (record { not_eof = refl; not_fail = refl })
        (omega (arith, length-encode-snoc items x))

  write-length : write (u64_bytes (length x)) (at_end items f) ≡ behind_length items x f
  write-length =
      write_at_end _ _ (record { not_eof = refl; not_fail = refl }) writable
        (ap length (sym content))
      ∙ ground (arith, content, length-le_bytes 8 (length x))

  write_item : write x (behind_length items x f) ≡ behind_item items x f
  write_item =
      write_at_end _ _ (record { not_eof = refl; not_fail = refl }) writable
        (omega (
          arith,
          length-append (encode items) (u64_bytes (length x)),
          length-le_bytes 8 (length x),
        ))

-- The table and the stream in the terms of `items`.
module _ (c : Params) (items : List Bytes) (x : Bytes) (fits : Fits c (items ++ x ∷ [])) where
  length_snoc : length (items ++ x ∷ []) ≡ length items + 1
  length_snoc = omega (arith, length-append items (x ∷ []))

  offset_grows :
      offset (items ++ x ∷ []) (length items + 1) ≡ offset items (length items) + length x + 8
  offset_grows = omega (
    arith,
    offset_all (items ++ x ∷ []) (length items + 1) (omega (arith, length_snoc)),
    offset_all items (length items) (omega arith),
    length-encode-snoc items x,
  )

  offset_fits : offset (items ++ x ∷ []) (length items + 1) < 2 ^ 63
  offset_fits =
      omega (arith, offset_all (items ++ x ∷ []) (length items + 1) (omega (arith, length_snoc)))

  new-Blocks :
      (t : List BlockInfo)
      → Blocks c (offset items) (length items) t
      → Blocks c
          (offset (items ++ x ∷ []))
          (length (items ++ x ∷ []))
          (add_to_blocks c (length x) t)
  new-Blocks t h = rw length_snoc (
      add_to_blocks-Blocks c (offset items) (offset (items ++ x ∷ [])) (length items) (length x)
        (λ k le. offset-snoc items x k le) refl offset_grows offset_fits
        (omega (arith, length_snoc)) fits.limit_pos t h)

  new_position :
      (t : List BlockInfo)
      → Blocks c (offset items) (length items) t
      → sub64 (sub64 (back_end (add_to_blocks c (length x) t)) 8) (length x) ≡ length (encode items)
  new_position t h = omega (
    arith,
    back_end-add_to_blocks c (offset items) (offset (items ++ x ∷ [])) (length items) (length x)
        (λ k le. offset-snoc items x k le) refl offset_grows offset_fits
        (omega (arith, length_snoc)) fits.limit_pos t h,
    offset_all items (length items) (omega arith),
    offset_grows,
    offset_fits,
  )

  new_file :
      (f : File) (t : List BlockInfo)
      → Blocks c (offset items) (length items) t
      → f.content ≡ encode items
      → f.writable ≡ true
      → write x (
          write (u64_bytes (length x)) (
            seekp_beg
              (sub64 (sub64 (back_end (add_to_blocks c (length x) t)) 8) (length x))
              (clear f)))
        ≡ behind_item items x f
  new_file f t h e w = rw (
    new_position t h,
    seek_to_end c items x f e w fits,
    write-length c items x f e w fits,
    write_item c items x f e w fits,
  )

after_append-Holds :
    (c : Params) (items : List Bytes) (x : Bytes) (b b' : Blockfile)
    → Holds c items b
    → Fits c (items ++ x ∷ [])
    → Loaded b b'
    → Holds c (items ++ x ∷ []) (after_append c x b')
after_append-Holds c items x b b' h fits s =
    let table : Blocks c (offset items) (length items) b'.block_infos = rw s.same_blocks h.blocks in
    let blocks_before : b'.header.block_number ≡ length b'.block_infos =
      ap (λ (u : Header). u.block_number) s.same_header
      ∙ (h.block_number_is ∙ sym (ap length s.same_blocks)) in
    let few_blocks =
      length-Blocks c (offset items) (length items) b'.block_infos fits.limit_pos table in
    let file =
      new_file c items x fits b'.file b'.block_infos table (s.same_content ∙ h.content_is)
        (s.same_writable ∙ h.is_writable) in
    record {
      is_good = rw file (record { not_eof = refl; not_fail = refl });
      is_writable = rw file (s.same_writable ∙ h.is_writable);
      content_is = rw file (sym (encode-snoc items x));
      item_number_is = omega (
        arith,
        ap (λ (u : Header). u.item_number) s.same_header,
        h.item_number_is,
        length_snoc c items x fits,
        fits.items_fit,
      );
      block_number_is = ground (
        arith,
        blocks_before,
        few_blocks,
        length-add_to_blocks c (length x) b'.block_infos,
        length_snoc c items x fits,
        fits.items_fit,
      );
      stamped = inr (refl, refl);
      hash_kept = ap (λ (u : Header). u.data_hash) s.same_header ∙ h.hash_kept;
      blocks = new-Blocks c items x fits b'.block_infos table;
      loaded = inl (s.header_loaded, s.blocks_loaded);
    }

-- `append_item` succeeds on an open file that holds `items`, with header and block table in step, as long
-- as the file stays below 2^63 bytes, and then it holds one more in the same way.
pub append_item-Holds :
    (c : Params) (items : List Bytes) (x : Bytes) (b : Blockfile)
    → Holds c items b
    → Fits c (items ++ x ∷ [])
    → (b' : Blockfile) × (append_item c x b ≡ ok b') × Holds c (items ++ x ∷ []) b'
append_item-Holds c items x b h fits =
    let (b', loaded, same) = load_total c items b h in
    (
      after_append c x b',
      append_item-load c x b b' loaded,
      after_append-Holds c items x b b' h fits same,
    )
