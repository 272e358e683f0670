-- ===== src/Hpda/Sources/Rows.antt =====
-- The rows that an extractor gives, and those that `split` hands to its streams.
use yee_z_privacy_computing.Base.{ℕ, zero, suc, Bool, true, Option, List, [], ◌∷◌, if◌then◌else◌}
use yee_z_privacy_computing.Hpda.Upper.{Upper}
use yee_z_privacy_computing.Hpda.Sources.{
  RawData, new_raw_data, process_raw, output_value, process_split,
}

module _ {ℓ} {R : Type ℓ} where
  -- The values behind the calls of `process` that return true, up to the first that does not.
  abbrev pub given : Bool → RawData R → List (Option R) → List (Option R)
  given b s rest = if b then output_value s ∷ rest else []

  unfoldable pub raw_run : ℕ → RawData R → List (Option R)
  raw_run zero s = []
  raw_run (suc n) s = let (b, s') = process_raw s in given b s' (raw_run n s')

  -- `process` of the split for each row of the stream above it, once the row is at hand.
  unfoldable pub split_rows :
      {O : Type ℓ} → Upper R O → List R → List (RawData R) → List (RawData R)
  split_rows u [] streams = streams
  split_rows u (t ∷ rows) streams =
      split_rows u rows (process_split (record u { m_has_value = true; value = t }) streams).2

  abbrev pub new_streams : ℕ → List (RawData R)
  new_streams zero = []
  new_streams (suc k) = new_raw_data ∷ new_streams k

  abbrev pub copies : ℕ → List (Option R) → List (List (Option R))
  copies zero out = []
  copies (suc k) out = out ∷ copies k out
