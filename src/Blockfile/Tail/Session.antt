-- ===== src/Blockfile/Tail/Session.antt =====
-- A session that writes a block file, and one that reads it.
use yee_z_privacy_computing.Base.{
  ℕ, ◌≡◌, refl, sym, ap, ◌∙◌, inl, inr, true, some, List, [], ◌∷◌, ◌++◌, arith, Bytes, length,
  length-append,
}
use mathlib.Core.Path.{subst}
use mathlib.Core.List.{reverse, append_assoc, append-nil}
use yee_z_privacy_computing.Blockfile.Codec.{u64_bytes, BlockInfo, block_info_bytes, header_bytes}
use yee_z_privacy_computing.Blockfile.Result.{Result, ok, ◌>>=◌, Params, NextItem}
use yee_z_privacy_computing.Blockfile.Tail.{
  Blockfile, init, opened, open_for_read, open_for_write, append_item, item_number, close,
  read_header,
}
use yee_z_privacy_computing.Blockfile.Tail.Layout.{encode, encode-append, encode-snoc}
use yee_z_privacy_computing.Blockfile.Tail.Append.{Holds, Fits, append_item-Holds}
use yee_z_privacy_computing.Blockfile.Tail.Closing.{on_disk}
use yee_z_privacy_computing.Blockfile.Tail.Reading.{table_bytes}
use yee_z_privacy_computing.Blockfile.Tail.Items.{read_items}

-- Appending one item after the other.
abbrev pub append_items : Params → List Bytes → Blockfile → Result Blockfile
append_items c [] b = ok b
append_items c (x ∷ xs) b = do b' ← append_item c x b; append_items c xs b'

pub Fits-prefix : (c : Params) (xs ys : List Bytes) → Fits c (xs ++ ys) → Fits c xs
Fits-prefix c xs ys f = record {
  limit_pos = f.limit_pos;
  limit_fits = f.limit_fits;
  items_fit = omega (arith, length-append xs ys, f.items_fit);
  bytes_fit = omega (
    arith,
    length-append xs ys,
    f.bytes_fit,
    ap length (encode-append xs ys),
    length-append (encode xs) (encode ys),
  );
}

pub append_items-Holds :
    (c : Params) (ys xs : List Bytes) (b : Blockfile)
    → Holds c ys b
    → Fits c (ys ++ xs)
    → (b' : Blockfile) × (append_items c xs b ≡ ok b') × Holds c (ys ++ xs) b'
append_items-Holds c ys [] b h fits = (b, refl, rw (append-nil ys) h)
append_items-Holds c ys (x ∷ xs) b h fits =
    let fits' : Fits c ((ys ++ x ∷ []) ++ xs) = rw (append_assoc ys (x ∷ []) xs) fits in
    let (b1, e1, h1) = append_item-Holds c ys x b h (Fits-prefix c (ys ++ x ∷ []) xs fits') in
    let (b2, e2, h2) = append_items-Holds c (ys ++ x ∷ []) xs b1 h1 fits' in
    (
      b2,
      ap (λ (r : Result Blockfile). r >>= λ (b' : Blockfile). append_items c xs b') e1 ∙ e2,
      subst (λ zs. Holds c zs b2) (append_assoc ys (x ∷ []) xs) h2,
    )

-- A file opened for writing and not yet written.
abbrev pub fresh : Params → Blockfile
fresh c = record (init c) { file = opened [] true }

pub open_for_write-fresh : (c : Params) → open_for_write true (init c) ≡ ok (fresh c)
unfolding open_for_write init
open_for_write-fresh c = refl

pub fresh-Holds : (c : Params) → Holds c [] (fresh c)
unfolding init
fresh-Holds c = record {
  is_good = record { not_eof = refl; not_fail = refl };
  is_writable = refl;
  content_is = refl;
  item_number_is = refl;
  block_number_is = refl;
  stamped = inl refl;
  hash_kept = refl;
  blocks = refl;
  loaded = inr (refl, refl, refl);
}

-- A whole session that writes `items`, and one that reads `n` of them.
abbrev pub write_session : Params → List Bytes → Result (Bytes × Blockfile)
write_session c items = do b ← open_for_write true (init c); b' ← append_items c items b; close b'

abbrev pub read_session : Params → ℕ → ℕ → Bytes → Result (ℕ × List NextItem)
read_session c n in_size content = do
  b ← open_for_read c (some content) (init c)
  (number, b') ← item_number c b
  (rs, b'') ← read_items n in_size b'
  ok (number, rs)

pub item_number_known :
    (c : Params) (b : Blockfile)
    → b.is_header_valid ≡ true
    → item_number c b ≡ ok (b.header.item_number, b)
unfolding item_number read_header
item_number_known c b v = ground arith

-- Behind the items stands the number of the first item, eight zero bytes.
pub on_disk_empty :
    (items : List Bytes) (b : Blockfile) (t : BlockInfo) (ts : List BlockInfo)
    → reverse b.block_infos ≡ t ∷ ts
    → t.start_item_index ≡ 0
    → (rest : Bytes) × (on_disk items b ≡ encode (items ++ [] ∷ []) ++ rest)
unfolding block_info_bytes
on_disk_empty items b t ts same zero_start =
    let tail =
      u64_bytes t.end_item_index ++ (u64_bytes t.start_file_pos ++ u64_bytes t.end_file_pos) in
    let rest = tail ++ (table_bytes ts ++ header_bytes b.header) in
    (
      rest,
      ap (λ ss. encode items ++ (table_bytes ss ++ header_bytes b.header)) same
          ∙ (ap
                (λ n.
                  encode items
                  ++ (((u64_bytes n ++ tail) ++ table_bytes ts) ++ header_bytes b.header))
                zero_start
              ∙ (ap (encode items ++◌) (
                    append_assoc (u64_bytes 0 ++ tail) (table_bytes ts) (header_bytes b.header)
                    ∙ append_assoc (u64_bytes 0) tail (table_bytes ts ++ header_bytes b.header))
                  ∙ (sym (append_assoc (encode items) (u64_bytes 0) rest)
                      ∙ ap (◌++ rest) (
                          sym (encode-snoc items [] ∙ append-nil (encode items ++ u64_bytes 0)))))),
    )
