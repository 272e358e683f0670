-- ===== src/Blockfile/Tail/RoundTrip.antt =====
-- What is appended to a block file is read back, in order.
use yee_z_privacy_computing.Base.{
  ℕ, ◌+◌, ◌^◌, ◌≤◌, ◌<◌, ◌≡◌, refl, sym, ap, ◌∙◌, ◌⊎◌, inl, inr, true, some, List, [], ◌∷◌, ◌++◌,
  arith, Bytes, length, length-append, All-append,
}
use mathlib.Core.Path.{subst}
use mathlib.Core.List.{reverse, append-nil}
use yee_z_privacy_computing.Blockfile.Codec.{header_bytes}
use yee_z_privacy_computing.Blockfile.Codec.Laws.{BlockInfoFits}
use yee_z_privacy_computing.Blockfile.Result.{Result, ok, ◌>>=◌, Params, NextItem}
use yee_z_privacy_computing.Blockfile.Tail.{
  Blockfile, init, open_for_read, open_for_write, item_number, close,
}
use yee_z_privacy_computing.Blockfile.Tail.Layout.{encode, offset, length-Blocks}
use yee_z_privacy_computing.Blockfile.Tail.Append.{Holds, Fits}
use yee_z_privacy_computing.Blockfile.Tail.Closing.{on_disk, close-Holds}
use yee_z_privacy_computing.Blockfile.Tail.Reading.{
  table_bytes, opened_for_read, open_for_read-closed, length-zeros,
}
use yee_z_privacy_computing.Blockfile.Tail.Items.{read_items, received, Within, read_items-encode}
use yee_z_privacy_computing.Blockfile.Tail.Table.{
  offset_le, Blocks-BlockInfoFits, All-reverse, length-reverse, Blocks-first,
}
use yee_z_privacy_computing.Blockfile.Tail.Session.{
  append_items-Holds, fresh, fresh-Holds, write_session, read_session, item_number_known,
  on_disk_empty,
}

-- The template arguments fit their fields.
pub record ParamsFit (c : Params) : Type 0 where
  pub magic_fits : c.magic_number < 2 ^ 64
  pub version_fits : c.version_number < 2 ^ 64

module _ (c : Params) (items : List Bytes) (params : ParamsFit c) (fits : Fits c items)
    (some_item : 0 < length items) where
  pub open_on_disk :
      (b : Blockfile)
      → Holds c items b
      → open_for_read c (some (on_disk items b)) (init c)
        ≡ ok (opened_for_read (encode items) (reverse b.block_infos) b.header)
  open_on_disk b h =
      open_for_read-closed c (encode items) (reverse b.block_infos) b.header (magic h.stamped)
        (h.block_number_is ∙ sym (length-reverse b.block_infos))
        (ap length h.hash_kept ∙ length-zeros c.hash_size)
        (record {
          magic_fits = omega (arith, magic h.stamped, params.magic_fits);
          version_fits = omega (arith, version h.stamped, params.version_fits);
          block_number_fits = omega (arith, h.block_number_is, few, fits.items_fit);
          item_number_fits = omega (arith, h.item_number_is, fits.items_fit);
        })
        (All-reverse BlockInfoFits b.block_infos (
          Blocks-BlockInfoFits c (offset items) (length items) b.block_infos
            (λ k. omega (arith, offset_le items k, fits.bytes_fit)) (omega (arith, fits.items_fit))
            h.blocks))
        (omega (arith, length-reverse b.block_infos, few, fits.bytes_fit))
    where
      few : length b.block_infos ≤ length items
      few = length-Blocks c (offset items) (length items) b.block_infos fits.limit_pos h.blocks

      magic :
          (items ≡ [])
            ⊎ ((b.header.magic_number ≡ c.magic_number)
                × (b.header.version_number ≡ c.version_number))
          → b.header.magic_number ≡ c.magic_number
      magic (inl e) = absurd (omega (arith, ap length e))
      magic (inr (m, v)) = m

      version :
          (items ≡ [])
            ⊎ ((b.header.magic_number ≡ c.magic_number)
                × (b.header.version_number ≡ c.version_number))
          → b.header.version_number ≡ c.version_number
      version (inl e) = absurd (omega (arith, ap length e))
      version (inr (m, v)) = v

  write_session-Holds :
      (b : Blockfile) × (b' : Blockfile) × Holds c items b
      × (write_session c items ≡ ok (on_disk items b, b'))
  unfolding open_for_write init
  write_session-Holds =
      let (b, e, h) = append_items-Holds c [] items (fresh c) (fresh-Holds c) fits in
      let (b', e') = close-Holds c items b h fits some_item in
      (b, b', h, ap (λ (r : Result Blockfile). r >>= λ (b : Blockfile). close b) e ∙ e')

  read_session_step :
      (b b' : Blockfile) (n in_size number : ℕ) (content : Bytes) (rs : List NextItem)
      → open_for_read c (some content) (init c) ≡ ok b
      → b.is_header_valid ≡ true
      → b.header.item_number ≡ number
      → read_items n in_size b ≡ ok (rs, b')
      → read_session c n in_size content ≡ ok (number, rs)
  read_session_step b b' n in_size number content rs e v k r =
      ap
        (λ (s : Result Blockfile). s >>= λ (b : Blockfile).
          (item_number c b >>= λ (p : ℕ × Blockfile).
          (read_items n in_size p.1 >>= λ (q : List NextItem × Blockfile). ok (p.0, q.0))))
        e
      ∙ (ap
            (λ (s : Result (ℕ × Blockfile)). s >>= λ (p : ℕ × Blockfile).
              (read_items n in_size p.1 >>= λ (q : List NextItem × Blockfile). ok (p.0, q.0)))
            (item_number_known c b v)
          ∙ (ap
                (λ (s : Result (List NextItem × Blockfile)).
                  s >>= λ (q : List NextItem × Blockfile). ok (b.header.item_number, q.0))
                r
              ∙ ap (λ m. ok (m, rs)) k))

  read_on_disk :
      (b : Blockfile) (more : List Bytes) (rest : Bytes) (in_size : ℕ)
      → Holds c items b
      → on_disk items b ≡ encode (items ++ more) ++ rest
      → in_size < 2 ^ 64
      → Within in_size (items ++ more)
      → read_session c (length (items ++ more)) in_size (on_disk items b)
        ≡ ok (length items, received (items ++ more))
  read_on_disk b more rest in_size h e fit w =
      read_session_step (opened_for_read (encode items) (reverse b.block_infos) b.header) _
        (length (items ++ more)) in_size (length items) (on_disk items b) (received (items ++ more))
        (open_on_disk b h) refl h.item_number_is
        (read_items-encode (items ++ more) [] rest in_size
          (opened_for_read (encode items) (reverse b.block_infos) b.header)
          (record { not_eof = refl; not_fail = refl }) e refl fit w)

-- A session that appends the items, at least one, to a file that stays below 2^63 bytes, and closes it
-- succeeds. A session on the
-- file that it leaves, with a buffer as large as the largest item, finds their number and gives
-- them in order, each with its length.
pub read_session-write_session :
    (c : Params) (items : List Bytes) (in_size : ℕ)
    → ParamsFit c
    → Fits c items
    → 0 < length items
    → in_size < 2 ^ 64
    → Within in_size items
    → (content : Bytes) × (b : Blockfile) × (write_session c items ≡ ok (content, b))
      × (read_session c (length items) in_size content ≡ ok (length items, received items))
read_session-write_session c items in_size params fits some_item fit w =
    let (b, b', h, e) = write_session-Holds c items params fits some_item in
    (
      on_disk items b,
      b',
      e,
      subst
          (λ zs.
            read_session c (length zs) in_size (on_disk items b) ≡ ok (length items, received zs))
          (append-nil items)
          (read_on_disk c items params fits some_item b []
            (table_bytes (reverse b.block_infos) ++ header_bytes b.header) in_size h
            (ap (λ zs. encode zs ++ (table_bytes (reverse b.block_infos) ++ header_bytes b.header))
              (sym (append-nil items)))
            fit (subst (Within in_size) (sym (append-nil items)) w)),
    )

-- One call more than there are items does not reach the end of the file: on what a session leaves
-- that appends at least one item to a file below 2^63 bytes, with a buffer for the largest item, it gives
-- an item of no bytes.
pub read_session_behind_last :
    (c : Params) (items : List Bytes) (in_size : ℕ)
    → ParamsFit c
    → Fits c items
    → 0 < length items
    → in_size < 2 ^ 64
    → Within in_size items
    → (content : Bytes) × (b : Blockfile) × (write_session c items ≡ ok (content, b))
      × (read_session c (length items + 1) in_size content
          ≡ ok (length items, received (items ++ [] ∷ [])))
read_session_behind_last c items in_size params fits some_item fit w =
    let (b, b', h, e) = write_session-Holds c items params fits some_item in
    let (t, ts, same, zero_start) =
      Blocks-first c (offset items) (length items) b.block_infos some_item h.blocks in
    let (rest, shape) = on_disk_empty items b t ts same zero_start in
    (
      on_disk items b,
      b',
      e,
      subst
          (λ n.
            read_session c n in_size (on_disk items b)
            ≡ ok (length items, received (items ++ [] ∷ [])))
          (length-append items ([] ∷ []))
          (read_on_disk c items params fits some_item b ([] ∷ []) rest in_size h shape fit
            (All-append (λ x. length x ≤ in_size) items ([] ∷ []) w (omega arith, tt))),
    )
