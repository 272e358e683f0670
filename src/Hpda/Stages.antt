-- ===== src/Hpda/Stages.antt =====
-- include/hpda/processor/query/filter.h, include/hpda/processor/transform/trim.h and concat.h: the
-- processors that pass rows on. `filter` and `trim` have one stream above them.
pub mod Passed
pub mod Tests
use yee_z_privacy_computing.Base.{
  ℕ, zero, suc, Bool, true, false, not, List, [], ◌∷◌, leb, if◌then◌else◌, length, drop,
}
use yee_z_privacy_computing.Hpda.Upper.{Upper, reset_done_value}
use yee_z_privacy_computing.Hpda.Sets.{Processor}

-- `filter_impl::process`, with `m_func`. A row of the output has the columns of one of the input.
unfoldable pub process_filter {ℓ} : {R : Type ℓ} → (R → Bool) → Processor R R
process_filter func [] d = (false, [], d)
process_filter func (u ∷ us) d =
    let b = func u.value in
    if not u.m_has_value
    then (false, u ∷ us, d)
    else (b, reset_done_value u ∷ us, if b then u.value else d)

module _ {ℓ} {R O : Type ℓ} where
  -- `trim_impl::process`; `make_copy` to the columns of the output is a parameter.
  unfoldable pub process_trim : (R → O) → Processor R O
  process_trim make_copy [] d = (false, [], d)
  process_trim make_copy (u ∷ us) d =
      if not u.m_has_value
      then (false, u ∷ us, d)
      else (true, reset_done_value u ∷ us, make_copy u.value)

  -- `concat_impl::process`: the loop on `m_index`, on what is left of `m_upper_streams` from there on. The
  -- state is `m_index` and `m_data`.
  abbrev pub step_index : ℕ → List (Upper R O) → ℕ
  step_index m_index [] = m_index
  step_index m_index (u ∷ us) = if u.m_has_value then m_index else step_index (suc m_index) us

  unfoldable pub give_at : ℕ → ℕ → List (Upper R O) → R → Bool × List (Upper R O) × R
  give_at i m_index [] d = (false, [], d)
  give_at zero m_index (u ∷ us) d =
      (u.m_has_value, reset_done_value u ∷ us, if u.m_has_value then u.value else d)
  give_at (suc i) m_index (u ∷ us) d = let (b, us', d') = give_at i m_index us d in (b, u ∷ us', d')

  unfoldable pub process_concat : List (Upper R O) → ℕ × R → Bool × List (Upper R O) × (ℕ × R)
  process_concat us (m_index, d) =
      let index = step_index m_index (drop m_index us) in
      let (b, us', d') = give_at index index us d in
      if leb (length us) index then (false, us, (index, d)) else (b, us', (index, d'))
