-- ===== src/Hpda/Upper.antt =====
-- include/hpda/engine/functor.h, include/hpda/common/processor_with_input.h and
-- include/hpda/processor/set/helper/upper_stream_helper.h: a stream above a processor, with the values
-- it still has to give.
use yee_z_privacy_computing.Base.{
  ℕ, Bool, true, false, not, ◌&&◌, ◌||◌, List, [], ◌∷◌, map, if◌then◌else◌,
}

abbrev pub any {ℓ} : {A : Type ℓ} → (A → Bool) → List A → Bool
any p [] = false
any p (x ∷ xs) = p x || any p xs

-- `m_has_value`, the `output_value()` at hand, what the functor gives at its next calls of `process`,
-- and whether the engine has set its `m_status` to `status_end`. `traits` and `filler` are the
-- elements of `m_traits` and `m_filler` of the stream: the column `KT` of a row, and the copy of its
-- columns into a row of the output.
pub record Upper {ℓ} (R O : Type ℓ) : Type ℓ where
  pub m_has_value : Bool
  pub value : R
  pub rest : List R
  pub ended : Bool
  pub traits : R → ℕ
  pub filler : R → O → O

module _ {ℓ} {R O : Type ℓ} where
  abbrev pub reset_done_value : Upper R O → Upper R O
  reset_done_value u = record u { m_has_value = false }

  -- `process` of the stream, called by the engine where it has no value and has not ended.
  abbrev pub pull : Upper R O → List R → Upper R O
  pull u [] = record u { ended = true }
  pull u (r ∷ rs) = record u { m_has_value = true; value = r; rest = rs }

  unfoldable pub fetch : Upper R O → Upper R O
  fetch u = if u.m_has_value || u.ended then u else pull u u.rest

  -- `!input->has_value() && input->m_status != status_end`.
  abbrev pub wanted : Upper R O → Bool
  wanted u = not u.m_has_value && not u.ended

  -- The key of the value at hand.
  abbrev pub key : Upper R O → ℕ
  key u = u.traits u.value

  -- The rows still to come, the one at hand first.
  unfoldable pub remaining : Upper R O → List R
  remaining u = if u.m_has_value then u.value ∷ u.rest else u.rest

  unfoldable pub keys : Upper R O → List ℕ
  unfolding remaining
  keys u = map u.traits (remaining u)

-- A stream of the given rows, none of them fetched yet. `unset` stands for the uninitialised value.
abbrev pub stream {ℓ} : {R O : Type ℓ} → (R → ℕ) → (R → O → O) → R → List R → Upper R O
stream traits filler unset rows = record {
  m_has_value = false;
  value = unset;
  rest = rows;
  ended = false;
  traits = traits;
  filler = filler;
}
