-- ===== src/Blockfile/Tail/Layout.antt =====
-- What a block file looks like: its items one after the other, each behind its length, and a block
-- table that cuts them into runs.
use yee_z_privacy_computing.Base.{
  ℕ, zero, suc, ◌+◌, ◌≤◌, ◌<◌, ◌≡◌, refl, sym, ap, ◌∙◌, List, [], ◌∷◌, ◌++◌, arith, Bytes, length,
  take, length-append, take_all,
}
use mathlib.Core.List.{append-nil, append_assoc}
use yee_z_privacy_computing.Blockfile.Codec.{u64_bytes, BlockInfo}
use yee_z_privacy_computing.Blockfile.Codec.Laws.{length-le_bytes}
use yee_z_privacy_computing.Blockfile.Result.{Params}

abbrev pub encode : List Bytes → Bytes
encode [] = []
encode (x ∷ xs) = u64_bytes (length x) ++ (x ++ encode xs)

pub encode-append : (xs ys : List Bytes) → encode (xs ++ ys) ≡ encode xs ++ encode ys
encode-append [] ys = refl
encode-append (x ∷ xs) ys = simp (encode-append xs ys, append_assoc)

pub encode-snoc :
    (xs : List Bytes) (x : Bytes) → encode (xs ++ x ∷ []) ≡ (encode xs ++ u64_bytes (length x)) ++ x
encode-snoc xs x = simp (encode-append xs (x ∷ []), append_assoc, append-nil)

pub length-encode-snoc :
    (xs : List Bytes) (x : Bytes)
    → length (encode (xs ++ x ∷ [])) ≡ length (encode xs) + length x + 8
length-encode-snoc xs x = omega (
  arith,
  ap length (encode-snoc xs x),
  length-append (encode xs ++ u64_bytes (length x)) x,
  length-append (encode xs) (u64_bytes (length x)),
  length-le_bytes 8 (length x),
)

-- The file position behind the first `n` items.
abbrev pub offset : List Bytes → ℕ → ℕ
offset items n = length (encode (take n items))

take-snoc :
    (xs : List Bytes) (x : Bytes) (n : ℕ) → n ≤ length xs → take n (xs ++ x ∷ []) ≡ take n xs
take-snoc xs x zero h = refl
take-snoc [] x (suc n) h = absurd (omega arith)
take-snoc (y ∷ xs) x (suc n) h = ap (y ∷◌) (take-snoc xs x n (omega arith))

pub offset-snoc :
    (xs : List Bytes) (x : Bytes) (n : ℕ) → n ≤ length xs → offset (xs ++ x ∷ []) n ≡ offset xs n
offset-snoc xs x n h = rw (take-snoc xs x n h)

pub offset_all : (xs : List Bytes) (n : ℕ) → length xs ≤ n → offset xs n ≡ length (encode xs)
offset_all xs n h = rw (take_all xs n h)

-- A block table of full blocks that cover the first `n` items.
abbrev pub Full : Params → (ℕ → ℕ) → ℕ → List BlockInfo → Type 0
Full c off n [] = n ≡ 0
Full c off n (b ∷ rest) =
    (b.end_item_index ≡ n)
    × (b.start_item_index + c.item_num_per_block_limit ≡ n)
    × (b.start_file_pos ≡ off b.start_item_index)
    × (b.end_file_pos ≡ off n)
    × Full c off b.start_item_index rest

-- The whole table: the last block holds at least one item, and all blocks before it are full. Each
-- block has the file positions of its first item and behind its last.
abbrev pub Blocks : Params → (ℕ → ℕ) → ℕ → List BlockInfo → Type 0
Blocks c off n [] = n ≡ 0
Blocks c off n (b ∷ rest) =
    (b.end_item_index ≡ n)
    × (b.start_item_index < n)
    × (n ≤ b.start_item_index + c.item_num_per_block_limit)
    × (b.start_file_pos ≡ off b.start_item_index)
    × (b.end_file_pos ≡ off n)
    × Full c off b.start_item_index rest

pub Full-off :
    (c : Params) (off off' : ℕ → ℕ) (n : ℕ) (t : List BlockInfo)
    → ((k : ℕ) → k ≤ n → off' k ≡ off k)
    → Full c off n t
    → Full c off' n t
Full-off c off off' n [] same f = f
Full-off c off off' n (b ∷ rest) same f =
    let (e, s, p, q, more) = f in
    (
      e,
      s,
      p ∙ sym (same b.start_item_index (omega arith)),
      q ∙ sym (same n (omega arith)),
      Full-off c off off' b.start_item_index rest (λ k h. same k (omega arith)) more,
    )

-- There are no more blocks than items.
length-Full :
    (c : Params) (off : ℕ → ℕ) (n : ℕ) (t : List BlockInfo)
    → 0 < c.item_num_per_block_limit
    → Full c off n t
    → length t ≤ n
length-Full c off n [] pos f = omega arith
length-Full c off n (b ∷ rest) pos f =
    let (e, s, p, q, more) = f in omega (arith, length-Full c off b.start_item_index rest pos more)

pub length-Blocks :
    (c : Params) (off : ℕ → ℕ) (n : ℕ) (t : List BlockInfo)
    → 0 < c.item_num_per_block_limit
    → Blocks c off n t
    → length t ≤ n
length-Blocks c off n [] pos f = omega arith
length-Blocks c off n (b ∷ rest) pos f =
    let (e, s, l, p, q, more) = f in
    omega (arith, length-Full c off b.start_item_index rest pos more)
