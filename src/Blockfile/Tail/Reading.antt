-- ===== src/Blockfile/Tail/Reading.antt =====
-- Opening a closed block file reads its header and its block table.
use yee_z_privacy_computing.Base.{
  ℕ, zero, suc, ◌+◌, ◌-◌, ◌*◌, ◌^◌, ◌≤◌, ◌<◌, ◌≡◌, refl, sym, ap, ◌∙◌, true, false, Option, some,
  List, [], ◌∷◌, ◌++◌, arith, Bytes, length, All, length-append, drop_all,
}
use mathlib.Core.List.{reverse, reverse-cons, append_assoc, append-nil}
use yee_z_privacy_computing.Blockfile.Stream.{File, read, tellg, seekg_beg, seekg_end}
use yee_z_privacy_computing.Blockfile.Stream.Laws.{
  IsGood, read_within, seekg_beg_good, seekg_end_good, tellg_good, tellg-seekg_end,
}
use yee_z_privacy_computing.Blockfile.Codec.{
  BlockInfo, Header, block_info_bytes, block_info_of, header_bytes, header_of,
}
use yee_z_privacy_computing.Blockfile.Codec.Laws.{
  BlockInfoFits, HeaderFits, length-block_info_bytes, block_info_of-block_info_bytes,
  length-header_bytes, header_of-header_bytes,
}
use yee_z_privacy_computing.Blockfile.Result.{Result, ok, ◌>>=◌, Params, sizeof_header, u64}
use yee_z_privacy_computing.Blockfile.Tail.{
  Blockfile, no_block_info, init, opened, overlay, load_header, read_header, read_block_infos,
  load_block_infos, read_all_block_info, reset_read_item, open_for_read, zeros,
}

abbrev pub table_bytes : List BlockInfo → Bytes
table_bytes [] = []
table_bytes (t ∷ ts) = block_info_bytes t ++ table_bytes ts

pub length-table_bytes : (ts : List BlockInfo) → length (table_bytes ts) ≡ 32 * length ts
length-table_bytes [] = omega arith
length-table_bytes (t ∷ ts) = omega (
  arith,
  length-append (block_info_bytes t) (table_bytes ts),
  length-block_info_bytes t,
  length-table_bytes ts,
)

pub length-zeros : (n : ℕ) → length (zeros n) ≡ n
length-zeros zero = refl
length-zeros (suc n) = ap suc (length-zeros n)

-- A struct that is read whole is overwritten whole.
overlay_whole : (raw old : Bytes) → length old ≤ length raw → overlay raw old ≡ raw
overlay_whole raw old h = rw (drop_all old (length raw) h) (append-nil raw)

read_block_infos_step :
    (n : ℕ) (f f' : File) (t : BlockInfo) (infos : List BlockInfo)
    → read 32 f ≡ (block_info_bytes t, f')
    → BlockInfoFits t
    → read_block_infos (suc n) f infos ≡ read_block_infos n f' (t ∷ infos)
unfolding read_block_infos
read_block_infos_step n f f' t infos e fit =
    ap
      (λ (r : Bytes × File).
        read_block_infos n r.1
          (block_info_of (overlay r.0 (block_info_bytes no_block_info)) ∷ infos))
      e
    ∙ ap (λ (u : BlockInfo). read_block_infos n f' (u ∷ infos))
        (ap block_info_of (
            overlay_whole (block_info_bytes t) (block_info_bytes no_block_info)
              (omega (arith, length-block_info_bytes t, length-block_info_bytes no_block_info)))
          ∙ block_info_of-block_info_bytes t fit)

read_block_infos_lem :
    (ts : List BlockInfo) (f : File) (pre post : Bytes) (infos : List BlockInfo)
    → IsGood f
    → f.content ≡ pre ++ (table_bytes ts ++ post)
    → f.pos ≡ length pre
    → All BlockInfoFits ts
    → read_block_infos (length ts) f infos
      ≡ (reverse ts ++ infos, record f { pos = f.pos + 32 * length ts })
unfolding read_block_infos
read_block_infos_lem [] f pre post infos g c p fits = ground arith
read_block_infos_lem (t ∷ ts) f pre post infos g c p (fit, fits) =
    read_block_infos_step (length ts) f _ t infos
      (read_within 32 f pre (block_info_bytes t) (table_bytes ts ++ post) g
        (c ∙ ap (pre ++◌) (append_assoc (block_info_bytes t) (table_bytes ts) post)) p
        (sym (length-block_info_bytes t)))
      fit
    ∙ read_block_infos_lem ts (record f { pos = f.pos + 32 }) (pre ++ block_info_bytes t) post
        (t ∷ infos) (record { not_eof = g.not_eof; not_fail = g.not_fail })
        (c ∙ simp (append_assoc))
        (omega (arith, length-append pre (block_info_bytes t), length-block_info_bytes t)) fits
    ∙ ground (arith, reverse-cons t ts, append_assoc (reverse ts) (t ∷ []) infos)

load_header_step :
    (c : Params) (prev : Option ℕ) (b : Blockfile) (f1 f2 f3 : File) (raw : Bytes) (h : Header)
    → seekg_end (sizeof_header c) b.file ≡ f1
    → read (sizeof_header c) f1 ≡ (raw, f2)
    → header_of (overlay raw (header_bytes b.header)) ≡ h
    → h.magic_number ≡ c.magic_number
    → seekg_beg prev f2 ≡ f3
    → load_header c prev b ≡ ok (record b { file = f3; header = h; is_header_valid = true })
unfolding load_header
load_header_step c prev b f1 f2 f3 raw h e1 e2 e3 e4 e5 = ground arith

load_block_infos_step :
    (c : Params) (b : Blockfile) (f1 f2 : File) (prev : Option ℕ) (f3 : File)
    (infos : List BlockInfo)
    → tellg b.file ≡ prev
    → seekg_end (u64 (sizeof_header c + b.header.block_number * 32)) b.file ≡ f1
    → read_block_infos b.header.block_number f1 b.block_infos ≡ (infos, f2)
    → seekg_beg prev f2 ≡ f3
    → load_block_infos c b ≡ record b { file = f3; block_infos = infos; is_block_info_valid = true }
unfolding load_block_infos
load_block_infos_step c b f1 f2 prev f3 infos e1 e2 e3 e4 = ground arith

-- What `close` leaves: the items, the block table in the order of the file, and the header.
abbrev pub closed : Bytes → List BlockInfo → Header → Bytes
closed items ts h = items ++ (table_bytes ts ++ header_bytes h)

-- The object behind a successful `open_for_read`.
abbrev pub opened_for_read : Bytes → List BlockInfo → Header → Blockfile
opened_for_read items ts h = record {
  file = opened (closed items ts h) false;
  header = h;
  is_header_valid = true;
  is_block_info_valid = true;
  block_infos = reverse ts;
}

-- A closed file: `items`, the block table `ts` in the order of the file, and the header.
module _ (c : Params) (items : Bytes) (ts : List BlockInfo) (h : Header)
    (magic : h.magic_number ≡ c.magic_number) (counted : h.block_number ≡ length ts)
    (hash : length h.data_hash ≡ c.hash_size) (header_fits : HeaderFits h)
    (table_fits : All BlockInfoFits ts)
    (small : length items + 32 * length ts + 64 + c.hash_size < 2 ^ 63) where
  pub length-closed : length (closed items ts h) ≡ length items + 32 * length ts + 32 + c.hash_size
  length-closed = omega (
    arith,
    length-append items (table_bytes ts ++ header_bytes h),
    length-append (table_bytes ts) (header_bytes h),
    length-table_bytes ts,
    length-header_bytes h,
    hash,
  )

  module _ (b : Blockfile) (g : IsGood b.file) (on_disk : b.file.content ≡ (closed items ts h))
      (inside : b.file.pos < 2 ^ 63) (zeroed : length b.header.data_hash ≡ c.hash_size) where
    read_header_lem :
        b.is_header_valid ≡ false
        → read_header c b ≡ ok (record b { header = h; is_header_valid = true })
    unfolding read_header
    read_header_lem v = ground (
      arith,
      tellg_good b.file g,
      tellg-seekg_end b.file g,
      seekg_end_good 0 b.file g (omega arith) (omega arith),
      ap length on_disk,
      length-closed,
      step,
    )
      where
        e : File
        e = record b.file { pos = length b.file.content }

        e1 : File
        e1 = record e { pos = length b.file.content - sizeof_header c }

        still : IsGood e1
        still = record { not_eof = g.not_eof; not_fail = g.not_fail }

        step :
            load_header c (some b.file.pos) (record b { file = e })
            ≡ ok (record b { file = b.file; header = h; is_header_valid = true })
        step =
            load_header_step c (some b.file.pos) (record b { file = e }) e1 _ b.file
              (header_bytes h) h
              (seekg_end_good (sizeof_header c) e
                (record { not_eof = g.not_eof; not_fail = g.not_fail })
                (omega (arith, ap length on_disk, length-closed)) (omega (arith, small)))
              (read_within (sizeof_header c) e1 (items ++ table_bytes ts) (header_bytes h) [] still
                (on_disk ∙ simp (append_assoc, append-nil))
                (omega (
                  arith,
                  ap length on_disk,
                  length-closed,
                  length-append items (table_bytes ts),
                  length-table_bytes ts,
                ))
                (omega (arith, length-header_bytes h, hash)))
              (ap header_of (
                  overlay_whole (header_bytes h) (header_bytes b.header) (
                    omega
                      (arith, length-header_bytes h, length-header_bytes b.header, hash, zeroed)))
                ∙ header_of-header_bytes h header_fits)
              magic
              (seekg_beg_good b.file.pos _ (record { not_eof = g.not_eof; not_fail = g.not_fail })
                inside)

    load_block_infos_lem :
        b.header ≡ h
        → b.block_infos ≡ []
        → load_block_infos c b ≡ record b { block_infos = reverse ts; is_block_info_valid = true }
    unfolding load_block_infos
    load_block_infos_lem same none_yet =
        load_block_infos_step c b e _ (some b.file.pos) b.file (reverse ts) (tellg_good b.file g)
          (ap (λ (u : Header). seekg_end (u64 (sizeof_header c + u.block_number * 32)) b.file) same
            ∙ (ap (λ n. seekg_end n b.file) start
                ∙ seekg_end_good (32 + c.hash_size + 32 * length ts) b.file g
                    (omega (arith, ap length on_disk, length-closed)) (omega (arith, small))))
          (ap (λ (u : Header). read_block_infos u.block_number e b.block_infos) same
            ∙ (ap (λ n. read_block_infos n e b.block_infos) counted
                ∙ (read_block_infos_lem ts e items (header_bytes h) b.block_infos
                      (record { not_eof = g.not_eof; not_fail = g.not_fail }) on_disk
                      (omega (arith, ap length on_disk, length-closed)) table_fits
                    ∙ ap (λ z. (reverse ts ++ z, record e { pos = e.pos + 32 * length ts }))
                        none_yet
                    ∙ ap (λ z. (z, record e { pos = e.pos + 32 * length ts }))
                        (append-nil (reverse ts)))))
          (seekg_beg_good b.file.pos _ (record { not_eof = g.not_eof; not_fail = g.not_fail })
            inside)
      where
        e : File
        e = record b.file { pos = length b.file.content - (32 + c.hash_size + 32 * length ts) }

        start : u64 (sizeof_header c + h.block_number * 32) ≡ 32 + c.hash_size + 32 * length ts
        start = omega (arith, counted, small)

  read_all_lem :
      (b : Blockfile)
      → b.file ≡ opened (closed items ts h) false
      → b.header ≡ h
      → b.is_header_valid ≡ true
      → b.is_block_info_valid ≡ false
      → b.block_infos ≡ []
      → read_all_block_info c b ≡ ok (opened_for_read items ts h)
  unfolding read_all_block_info read_header
  read_all_lem b on_disk same valid not_yet none_yet = ground (arith, loaded)
    where
      loaded :
          load_block_infos c b ≡ record b { block_infos = reverse ts; is_block_info_valid = true }
      loaded =
          load_block_infos_lem b
            (record {
              not_eof = ap (λ (f : File). f.eof) on_disk;
              not_fail = ap (λ (f : File). f.fail) on_disk;
            })
            (ap (λ (f : File). f.content) on_disk) (omega (arith, ap (λ (f : File). f.pos) on_disk))
            (ap (λ (u : Header). length u.data_hash) same ∙ hash) same none_yet

  -- A closed file opens, and header and block table are read back.
  pub open_for_read-closed :
      open_for_read c (some (closed items ts h)) (init c) ≡ ok (opened_for_read items ts h)
  unfolding open_for_read reset_read_item init
  open_for_read-closed =
      ap
        (λ (r : Result Blockfile). r >>= λ (b1 : Blockfile).
          (read_all_block_info c b1 >>= λ (b2 : Blockfile).
          ok (record b2 { file = seekg_beg (some 0) b2.file })))
        (read_header_lem start good_start refl (omega arith) (length-zeros c.hash_size) refl)
      ∙ (ap
            (λ (r : Result Blockfile).
              r >>= λ (b2 : Blockfile). ok (record b2 { file = seekg_beg (some 0) b2.file }))
            (read_all_lem (record start { header = h; is_header_valid = true }) refl refl refl refl
              refl)
          ∙ ap (λ (f : File). ok (record (opened_for_read items ts h) { file = f }))
              (seekg_beg_good 0 (opened (closed items ts h) false) good_start (omega arith)))
    where
      start : Blockfile
      start = record (init c) { file = opened (closed items ts h) false }

      good_start : IsGood (opened (closed items ts h) false)
      good_start = record { not_eof = refl; not_fail = refl }

-- `reset_read_item` once more changes nothing.
pub reset_read_item_again :
    (c : Params) (items : Bytes) (ts : List BlockInfo) (h : Header)
    → reset_read_item c (opened_for_read items ts h) ≡ ok (opened_for_read items ts h)
unfolding reset_read_item read_all_block_info read_header
reset_read_item_again c items ts h =
    ap (λ (f : File). ok (record (opened_for_read items ts h) { file = f }))
      (seekg_beg_good 0 (opened (closed items ts h) false)
        (record { not_eof = refl; not_fail = refl }) (omega arith))
