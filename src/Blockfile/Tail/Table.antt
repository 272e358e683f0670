-- ===== src/Blockfile/Tail/Table.antt =====
-- The numbers of the block table fit their fields, and the first block starts with item 0.
use yee_z_privacy_computing.Base.{
  ℕ, zero, suc, ◌^◌, ◌≤◌, ◌<◌, ◌≡◌, refl, sym, ap, ◌∙◌, List, [], ◌∷◌, ◌++◌, arith, Bytes, length,
  take, All, length-append, All-append,
}
use mathlib.Core.Path.{subst}
use mathlib.Core.List.{reverse, reverse-cons}
use yee_z_privacy_computing.Blockfile.Codec.{u64_bytes, BlockInfo}
use yee_z_privacy_computing.Blockfile.Codec.Laws.{BlockInfoFits}
use yee_z_privacy_computing.Blockfile.Result.{Params}
use yee_z_privacy_computing.Blockfile.Tail.Layout.{encode, offset, Full, Blocks}

-- Every number of the block table fits its field.
pub offset_le : (xs : List Bytes) (n : ℕ) → offset xs n ≤ length (encode xs)
offset_le xs zero = omega arith
offset_le [] (suc n) = omega arith
offset_le (x ∷ xs) (suc n) = omega (
  arith,
  offset_le xs n,
  length-append (u64_bytes (length x)) (x ++ encode (take n xs)),
  length-append x (encode (take n xs)),
  length-append (u64_bytes (length x)) (x ++ encode xs),
  length-append x (encode xs),
)

Full-BlockInfoFits :
    (c : Params) (off : ℕ → ℕ) (n : ℕ) (t : List BlockInfo)
    → ((k : ℕ) → off k < 2 ^ 64)
    → n < 2 ^ 64
    → Full c off n t
    → All BlockInfoFits t
Full-BlockInfoFits c off n [] small fit f = tt
Full-BlockInfoFits c off n (b ∷ rest) small fit (e, s, p, q, more) = (
  record {
    start_item_fits = omega arith;
    end_item_fits = omega arith;
    start_pos_fits = omega (arith, small b.start_item_index);
    end_pos_fits = omega (arith, small n);
  },
  Full-BlockInfoFits c off b.start_item_index rest small (omega arith) more,
)

pub Blocks-BlockInfoFits :
    (c : Params) (off : ℕ → ℕ) (n : ℕ) (t : List BlockInfo)
    → ((k : ℕ) → off k < 2 ^ 64)
    → n < 2 ^ 64
    → Blocks c off n t
    → All BlockInfoFits t
Blocks-BlockInfoFits c off n [] small fit f = tt
Blocks-BlockInfoFits c off n (b ∷ rest) small fit (e, s, l, p, q, more) = (
  record {
    start_item_fits = omega arith;
    end_item_fits = omega arith;
    start_pos_fits = omega (arith, small b.start_item_index);
    end_pos_fits = omega (arith, small n);
  },
  Full-BlockInfoFits c off b.start_item_index rest small (omega arith) more,
)

pub All-reverse {ℓ κ} : {A : Type ℓ} (P : A → Type κ) (xs : List A) → All P xs → All P (reverse xs)
All-reverse P [] h = tt
All-reverse P (x ∷ xs) (p, h) =
    subst (All P) (sym (reverse-cons x xs))
      (All-append P (reverse xs) (x ∷ []) (All-reverse P xs h) (p, tt))

pub length-reverse {ℓ} : {A : Type ℓ} (xs : List A) → length (reverse xs) ≡ length xs
length-reverse [] = refl
length-reverse (x ∷ xs) =
    omega
      (arith, ap length (reverse-cons x xs), length-append (reverse xs) (x ∷ []), length-reverse xs)

first_start :
    (c : Params) (off : ℕ → ℕ) (b : BlockInfo) (rest : List BlockInfo)
    → Full c off b.start_item_index rest
    → (t : BlockInfo) × (ts : List BlockInfo) × (reverse (b ∷ rest) ≡ t ∷ ts)
      × (t.start_item_index ≡ 0)
first_start c off b [] f = (b, [], refl, f)
first_start c off b (b' ∷ rest) (e, s, p, q, more) =
    let (t, ts, same, zero_start) = first_start c off b' rest more in
    (t, ts ++ b ∷ [], reverse-cons b (b' ∷ rest) ∙ ap (◌++ b ∷ []) same, zero_start)

pub Blocks-first :
    (c : Params) (off : ℕ → ℕ) (n : ℕ) (infos : List BlockInfo)
    → 0 < n
    → Blocks c off n infos
    → (t : BlockInfo) × (ts : List BlockInfo) × (reverse infos ≡ t ∷ ts) × (t.start_item_index ≡ 0)
Blocks-first c off n [] pos h = absurd (omega (arith, h))
Blocks-first c off n (b ∷ rest) pos (e, s, l, p, q, more) = first_start c off b rest more
