-- ===== src/Blockfile/Tail/Items.antt =====
-- `next_item` on the items that lie behind each other in the file.
use yee_z_privacy_computing.Base.{
  ℕ, zero, suc, ◌+◌, ◌^◌, ◌≤◌, ◌<◌, ◌≡◌, refl, sym, ap, ◌∙◌, some, List, [], ◌∷◌, ◌++◌, arith,
  Bytes, length, All, length-append, take_all,
}
use mathlib.Core.List.{append_assoc, append-nil}
use yee_z_privacy_computing.Blockfile.Stream.{File, read, seekp_back}
use yee_z_privacy_computing.Blockfile.Stream.Laws.{IsGood, read_within}
use yee_z_privacy_computing.Blockfile.Codec.{u64_bytes, of_le_bytes}
use yee_z_privacy_computing.Blockfile.Codec.Laws.{length-le_bytes, of_u64_prefix}
use yee_z_privacy_computing.Blockfile.Result.{Result, ok, ◌>>=◌, NextItem, succ, small_buf}
use yee_z_privacy_computing.Blockfile.Tail.{Blockfile, next_item}
use yee_z_privacy_computing.Blockfile.Tail.Layout.{encode}

pub of_u64_whole : (n : ℕ) → n < 2 ^ 64 → of_le_bytes (u64_bytes n) ≡ n
of_u64_whole n h =
    ap of_le_bytes (
      sym (append-nil (u64_bytes n))
      ∙ sym (
          take_all (u64_bytes n ++ []) 8
            (omega (arith, length-append (u64_bytes n) [], length-le_bytes 8 n))))
    ∙ of_u64_prefix n [] h

next_item_step :
    (b : Blockfile) (in_size n : ℕ) (raw got : Bytes) (f1 f2 : File)
    → read 8 b.file ≡ (raw, f1)
    → of_le_bytes raw ≡ n
    → read n f1 ≡ (got, f2)
    → IsGood b.file
    → IsGood f1
    → n ≤ in_size
    → next_item (some in_size) b ≡ ok (succ got n, record b { file = f2 })
unfolding next_item
next_item_step b in_size n raw got f1 f2 e1 e2 e3 g g1 le = ground arith

small_buf_step :
    (b : Blockfile) (in_size n : ℕ) (raw : Bytes)
    → read 8 b.file ≡ (raw, record b.file { pos = b.file.pos + 8 })
    → of_le_bytes raw ≡ n
    → IsGood b.file
    → in_size < n
    → next_item (some in_size) b ≡ ok (small_buf n, b)
unfolding next_item seekp_back
small_buf_step b in_size n raw e1 e2 g lt = ground arith

-- The item at the position of the stream.
pub record At (pre x rest : Bytes) (b : Blockfile) : Type 0 where
  pub good_file : IsGood b.file
  pub content_at : b.file.content ≡ pre ++ (u64_bytes (length x) ++ (x ++ rest))
  pub pos_at : b.file.pos ≡ length pre
  pub len_fits : length x < 2 ^ 64

read-length :
    (pre x rest : Bytes) (b : Blockfile)
    → At pre x rest b
    → read 8 b.file ≡ (u64_bytes (length x), record b.file { pos = b.file.pos + 8 })
read-length pre x rest b a =
    read_within 8 b.file pre (u64_bytes (length x)) (x ++ rest) a.good_file a.content_at a.pos_at
      (sym (length-le_bytes 8 (length x)))

pub next_item-At :
    (pre x rest : Bytes) (in_size : ℕ) (b : Blockfile)
    → At pre x rest b
    → length x ≤ in_size
    → next_item (some in_size) b
      ≡ ok
          (succ x (length x), record b { file = record b.file { pos = b.file.pos + 8 + length x } })
next_item-At pre x rest in_size b a le =
    next_item_step b in_size (length x) (u64_bytes (length x)) x
      (record b.file { pos = b.file.pos + 8 }) _ (read-length pre x rest b a)
      (of_u64_whole (length x) a.len_fits)
      (read_within (length x) (record b.file { pos = b.file.pos + 8 }) (pre ++ u64_bytes (length x))
        x rest still (a.content_at ∙ simp (append_assoc))
        (omega
          (arith, a.pos_at, length-append pre (u64_bytes (length x)), length-le_bytes 8 (length x)))
        refl)
      a.good_file still le
  where
    still : IsGood (record b.file { pos = b.file.pos + 8 })
    still = record { not_eof = a.good_file.not_eof; not_fail = a.good_file.not_fail }

-- A buffer that is too small is told the size, and the object is as before the call.
pub next_item-At_small :
    (pre x rest : Bytes) (in_size : ℕ) (b : Blockfile)
    → At pre x rest b
    → in_size < length x
    → next_item (some in_size) b ≡ ok (small_buf (length x), b)
next_item-At_small pre x rest in_size b a lt =
    small_buf_step b in_size (length x) (u64_bytes (length x)) (read-length pre x rest b a)
      (of_u64_whole (length x) a.len_fits) a.good_file lt

-- `n` calls of `next_item` with one buffer.
abbrev pub read_items : ℕ → ℕ → Blockfile → Result (List NextItem × Blockfile)
read_items zero in_size b = ok ([], b)
read_items (suc n) in_size b = do
  (r, b') ← next_item (some in_size) b
  (rs, b'') ← read_items n in_size b'
  ok (r ∷ rs, b'')

abbrev pub received : List Bytes → List NextItem
received [] = []
received (x ∷ xs) = succ x (length x) ∷ received xs

abbrev pub Within : ℕ → List Bytes → Type 0
Within in_size xs = All (λ x. length x ≤ in_size) xs

pub read_items-encode :
    (xs : List Bytes) (pre rest : Bytes) (in_size : ℕ) (b : Blockfile)
    → IsGood b.file
    → b.file.content ≡ pre ++ (encode xs ++ rest)
    → b.file.pos ≡ length pre
    → in_size < 2 ^ 64
    → Within in_size xs
    → read_items (length xs) in_size b
      ≡ ok
          (received xs, record b { file = record b.file { pos = b.file.pos + length (encode xs) } })
read_items-encode [] pre rest in_size b g e p fit w = ground arith
read_items-encode (x ∷ xs) pre rest in_size b g e p fit (le, w) =
    rw (next_item-At pre x (encode xs ++ rest) in_size b here le) (
      rw
        (read_items-encode xs (pre ++ (u64_bytes (length x) ++ x)) rest in_size
          (record b { file = record b.file { pos = b.file.pos + 8 + length x } })
          (record { not_eof = g.not_eof; not_fail = g.not_fail }) (e ∙ simp (append_assoc))
          (omega (arith, item_length, length-append pre (u64_bytes (length x) ++ x))) fit w)
        (ap (λ n. ok (received (x ∷ xs), record b { file = record b.file { pos = n } }))
          (omega (arith, item_length, more_length))))
  where
    here : At pre x (encode xs ++ rest) b
    here = record {
      good_file = g;
      content_at = e ∙ simp (append_assoc);
      pos_at = p;
      len_fits = omega arith;
    }

    item_length : length (u64_bytes (length x) ++ x) ≡ 8 + length x
    item_length =
        omega (arith, length-append (u64_bytes (length x)) x, length-le_bytes 8 (length x))

    more_length : length (encode (x ∷ xs)) ≡ 8 + length x + length (encode xs)
    more_length = omega (
      arith,
      length-append (u64_bytes (length x)) (x ++ encode xs),
      length-append x (encode xs),
      length-le_bytes 8 (length x),
    )

-- Where an item follows in the file, a buffer that is too small is told its size, and the object stays
-- as it was. So a second call with a buffer of that size gets the item.
pub next_item_retry :
    (pre x rest : Bytes) (in_size : ℕ) (b : Blockfile)
    → At pre x rest b
    → in_size < length x
    → (next_item (some in_size) b ≡ ok (small_buf (length x), b))
      × (next_item (some (length x)) b
          ≡ ok (
            succ x (length x),
            record b { file = record b.file { pos = b.file.pos + 8 + length x } },
          ))
next_item_retry pre x rest in_size b a lt = (
  next_item-At_small pre x rest in_size b a lt,
  next_item-At pre x rest (length x) b a (omega arith),
)
