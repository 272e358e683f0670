-- ===== src/Blockfile/Tail/Closing.antt =====
-- `close` puts the block table and the header behind the items.
use yee_z_privacy_computing.Base.{
  ℕ, ◌+◌, ◌<◌, ◌≡◌, refl, sym, ap, ◌∙◌, ◌⊎◌, inl, inr, true, false, List, [], ◌∷◌, ◌++◌, map, arith,
  Bytes, length, length-append,
}
use mathlib.Core.List.{reverse, append_assoc, append-nil}
use yee_z_privacy_computing.Blockfile.Stream.{File, write, seekp_beg}
use yee_z_privacy_computing.Blockfile.Stream.Laws.{IsGood, write_at_end, seekp_beg_good}
use yee_z_privacy_computing.Blockfile.Codec.{BlockInfo, block_info_bytes, header_bytes}
use yee_z_privacy_computing.Blockfile.Result.{ok, Params}
use yee_z_privacy_computing.Blockfile.Tail.{Blockfile, write_all, write_table, close}
use yee_z_privacy_computing.Blockfile.Tail.Layout.{encode, offset, offset_all, Blocks}
use yee_z_privacy_computing.Blockfile.Tail.Append.{Holds, Fits}
use yee_z_privacy_computing.Blockfile.Tail.Reading.{table_bytes}

write_all_table :
    (ts : List BlockInfo) (f : File)
    → IsGood f
    → f.writable ≡ true
    → f.pos ≡ length f.content
    → write_all (map block_info_bytes ts) f
      ≡ record f { content = f.content ++ table_bytes ts; pos = f.pos + length (table_bytes ts) }
write_all_table [] f g w p = ground (arith, append-nil f.content)
write_all_table (t ∷ ts) f g w p =
    ap (write_all (map block_info_bytes ts)) (write_at_end (block_info_bytes t) f g w p)
    ∙ (write_all_table ts
          (record f {
            content = f.content ++ block_info_bytes t;
            pos = f.pos + length (block_info_bytes t);
          })
          (record { not_eof = g.not_eof; not_fail = g.not_fail }) w
          (omega (arith, p, length-append f.content (block_info_bytes t)))
        ∙ λ i. record f {
          content = append_assoc f.content (block_info_bytes t) (table_bytes ts) i;
          pos = positions i;
        })
  where
    positions :
        f.pos + length (block_info_bytes t) + length (table_bytes ts)
        ≡ f.pos + length (block_info_bytes t ++ table_bytes ts)
    positions = omega (arith, length-append (block_info_bytes t) (table_bytes ts))

-- The object behind `close`, where the file has the content `s`.
abbrev pub closed_object : Blockfile → File → Blockfile
closed_object b f = record b {
  file = record f { is_open = false };
  is_header_valid = false;
  is_block_info_valid = false;
  block_infos = [];
}

close_step :
    (b : Blockfile) (back : BlockInfo) (rest : List BlockInfo) (f1 f2 f3 : File)
    → b.block_infos ≡ back ∷ rest
    → seekp_beg back.end_file_pos b.file ≡ f1
    → write_all (map block_info_bytes (reverse b.block_infos)) f1 ≡ f2
    → write (header_bytes b.header) f2 ≡ f3
    → close b ≡ ok (f3.content, closed_object b f3)
unfolding close write_table
close_step b back rest f1 f2 f3 e0 e1 e2 e3 =
    ap (write_table b) e0
    ∙ ap (λ (f : File). ok (f.content, closed_object b f))
        (ap
            (λ (f : File).
              write (header_bytes b.header)
                (write_all (map block_info_bytes (reverse (back ∷ rest))) f))
            e1
          ∙ (ap
                (λ (ts : List BlockInfo).
                  write (header_bytes b.header) (write_all (map block_info_bytes (reverse ts)) f1))
                (sym e0)
              ∙ (ap (write (header_bytes b.header)) e2 ∙ e3)))

-- What `close` leaves on disk.
abbrev pub on_disk : List Bytes → Blockfile → Bytes
on_disk items b = encode items ++ (table_bytes (reverse b.block_infos) ++ header_bytes b.header)

Blocks-cases :
    (c : Params) (off : ℕ → ℕ) (n : ℕ) (t : List BlockInfo)
    → Blocks c off n t
    → (n ≡ 0)
      ⊎ ((back : BlockInfo) × (rest : List BlockInfo) × (t ≡ back ∷ rest)
          × (back.end_file_pos ≡ off n))
Blocks-cases c off n [] h = inl h
Blocks-cases c off n (back ∷ rest) (e, s, l, p, q, more) = inr (back, rest, refl, q)

pub close-Holds :
    (c : Params) (items : List Bytes) (b : Blockfile)
    → Holds c items b
    → Fits c items
    → 0 < length items
    → (b' : Blockfile) × close b ≡ ok (on_disk items b, b')
close-Holds c items b h fits some_item =
    elim (Blocks-cases c (offset items) (length items) b.block_infos h.blocks) [
      | inl none_yet ↦ absurd (omega arith)
      | inr (back, rest, e, last) ↦ (
        _,
        close_step b back rest behind table whole e (to_end back last)
              (write_all_table (reverse b.block_infos) behind at_end h.is_writable
                (sym (ap length h.content_is)))
              (write_at_end (header_bytes b.header) table in_table h.is_writable table_end)
            ∙ λ i. ok (contents i, closed_object b whole),
      )
    ]
  where
    ts_bytes : Bytes
    ts_bytes = table_bytes (reverse b.block_infos)

    behind : File
    behind = record b.file { pos = length (encode items) }

    table : File
    table = record b.file {
      content = b.file.content ++ ts_bytes;
      pos = length (encode items) + length ts_bytes;
    }

    whole : File
    whole = record b.file {
      content = (b.file.content ++ ts_bytes) ++ header_bytes b.header;
      pos = length (encode items) + length ts_bytes + length (header_bytes b.header);
    }

    at_end : IsGood behind
    at_end = record { not_eof = h.is_good.not_eof; not_fail = h.is_good.not_fail }

    in_table : IsGood table
    in_table = record { not_eof = h.is_good.not_eof; not_fail = h.is_good.not_fail }

    table_end : table.pos ≡ length table.content
    table_end = omega (arith, ap length h.content_is, length-append b.file.content ts_bytes)

    to_end :
        (back : BlockInfo)
        → back.end_file_pos ≡ offset items (length items)
        → seekp_beg back.end_file_pos b.file ≡ behind
    to_end back last =
        ap (λ n. seekp_beg n b.file) (last ∙ offset_all items (length items) (omega arith))
        ∙ seekp_beg_good (length (encode items)) b.file h.is_good (omega (arith, fits.bytes_fit))

    contents : whole.content ≡ on_disk items b
    contents =
        ap (λ s. (s ++ ts_bytes) ++ header_bytes b.header) h.content_is
        ∙ append_assoc (encode items) ts_bytes (header_bytes b.header)
