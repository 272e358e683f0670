-- ===== src/Hpda/Sources.antt =====
-- include/hpda/extractor/raw_data.h, and include/hpda/processor/transform/split.h, which copies the rows
-- of a stream to such extractors.
pub mod Rows
use yee_z_privacy_computing.Base.{
  ℕ, zero, suc, Bool, true, false, Option, none, List, [], ◌∷◌, ◌++◌, ltb, if◌then◌else◌, length,
  get_elem?, is_empty,
}
use yee_z_privacy_computing.Hpda.Upper.{Upper, reset_done_value}

-- `next` is `m_index + 1`, an int32_t that starts at 0, for fewer than 2 ^ 31 calls.
pub record RawData {ℓ} (R : Type ℓ) : Type ℓ where
  pub rows : List R
  pub next : ℕ

module _ {ℓ} {R : Type ℓ} where
  abbrev pub new_raw_data : RawData R
  new_raw_data = record { rows = []; next = 0 }

  abbrev pub add_data : R → RawData R → RawData R
  add_data obj s = record s { rows = s.rows ++ (obj ∷ []) }

  -- `raw_data_impl::process`.
  unfoldable pub process_raw : RawData R → Bool × RawData R
  process_raw s =
      if is_empty s.rows
      then (false, s)
      else (ltb s.next (length s.rows), record s { next = suc s.next })

  -- `output_value()`, `none` where it throws: before the first call `m_index` is -1, which as an unsigned
  -- number is above every size.
  abbrev pub value_at : List R → ℕ → Option R
  value_at rows zero = none
  value_at rows (suc m_index) = get_elem? rows m_index

  abbrev pub output_value : RawData R → Option R
  output_value s = value_at s.rows s.next

  -- The loop of `split_impl::process` over `m_streams`.
  abbrev pub add_to_all : R → List (RawData R) → List (RawData R)
  add_to_all t [] = []
  add_to_all t (s ∷ streams) = add_data t s ∷ add_to_all t streams

-- `split_impl::process`: what it returns, the stream above and `m_streams`.
unfoldable pub process_split {ℓ} :
    {R O : Type ℓ} → Upper R O → List (RawData R) → Bool × Upper R O × List (RawData R)
process_split u streams =
    if u.m_has_value
    then (true, reset_done_value u, add_to_all u.value streams)
    else (false, u, streams)
