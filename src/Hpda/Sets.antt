-- ===== src/Hpda/Sets.antt =====
-- include/hpda/processor/set: the processors of ordered streams. A processor takes its streams and its
-- `m_data` to what `process()` returns and what it leaves of both. `m_upper_streams`, `m_traits` and
-- `m_filler`, which grow together, are one list.
pub mod Step
pub mod Choices
pub mod Run
pub mod Union
pub mod Intersection
pub mod Difference
pub mod Tests
use yee_z_privacy_computing.Base.{
  ℕ, zero, suc, Bool, true, false, not, ◌&&◌, Option, none, some, List, [], ◌∷◌, map, ltb, ◌==◌,
  if◌then◌else◌, length,
}
use yee_z_privacy_computing.Hpda.Upper.{Upper, reset_done_value, key, any, wanted, fetch}

abbrev pub Processor {ℓ} : Type ℓ → Type ℓ → Type ℓ
Processor R O = List (Upper R O) → O → Bool × List (Upper R O) × O

-- `ordered_union_impl`. The first loop of `has_union`: `val` and `index` once `flag` is set.
abbrev pub smaller : ℕ → ℕ → Option (ℕ × ℕ) → Option (ℕ × ℕ)
smaller tmp i none = some (tmp, i)
smaller tmp i (some (val, index)) = if ltb tmp val then some (tmp, i) else some (val, index)

module _ {ℓ} {R O : Type ℓ} where
  unfoldable pub least : ℕ → List (Upper R O) → Option (ℕ × ℕ) → Option (ℕ × ℕ)
  least i [] found = found
  least i (u ∷ us) found =
      least (suc i) us (if u.m_has_value then smaller (key u) i found else found)

  -- The second loop.
  unfoldable pub reset_same : ℕ → ℕ → ℕ → List (Upper R O) → List (Upper R O)
  reset_same val index i [] = []
  reset_same val index i (u ∷ us) =
      (if u.m_has_value && (not (i == index) && (key u == val)) then reset_done_value u else u)
      ∷ reset_same val index (suc i) us

  -- `m_filler[index](m_upper_streams[index], m_data)`.
  unfoldable pub fill_from : ℕ → List (Upper R O) → O → O
  fill_from i [] d = d
  fill_from zero (u ∷ us) d = u.filler u.value d
  fill_from (suc i) (u ∷ us) d = fill_from i us d

  unfoldable pub reset_at : ℕ → List (Upper R O) → List (Upper R O)
  reset_at i [] = []
  reset_at zero (u ∷ us) = reset_done_value u ∷ us
  reset_at (suc i) (u ∷ us) = u ∷ reset_at i us

  unfoldable pub give_least : Option (ℕ × ℕ) → Processor R O
  give_least none us d = (false, us, d)
  give_least (some (val, index)) us d =
      let us' = reset_same val index 0 us in (true, reset_at index us', fill_from index us' d)

  unfoldable pub has_union : Processor R O
  has_union us d = give_least (least 0 us none) us d

  unfoldable pub process_union : Processor R O
  process_union us d = if ltb (length us) 2 then (false, us, d) else has_union us d

  -- `ordered_intersection_impl`.
  abbrev pub all_same : ℕ → List (Upper R O) → Bool
  all_same val [] = true
  all_same val (u ∷ us) = val == key u && all_same val us

  unfoldable pub has_intersection : List (Upper R O) → Bool
  has_intersection [] = true
  has_intersection (u ∷ us) = all_same (key u) us

  -- The first loop of `next_value`, from the value before it.
  unfoldable pub lowest : ℕ → List (Upper R O) → ℕ
  lowest val [] = val
  lowest val (u ∷ us) = lowest (if ltb (key u) val then key u else val) us

  -- The second: every stream with that value.
  abbrev pub reset_equal : ℕ → Upper R O → Upper R O
  reset_equal val u = if val == key u then reset_done_value u else u

  unfoldable pub next_value : List (Upper R O) → List (Upper R O)
  unfolding lowest
  next_value [] = []
  next_value (u ∷ us) = map (reset_equal (lowest (key u) us)) (u ∷ us)

  unfoldable pub fill_output : List (Upper R O) → O → O
  fill_output [] d = d
  fill_output (u ∷ us) d = fill_output us (u.filler u.value d)

  abbrev pub all_have : List (Upper R O) → Bool
  all_have [] = true
  all_have (u ∷ us) = u.m_has_value && all_have us

  unfoldable pub process_intersection : Processor R O
  unfolding has_intersection next_value fill_output
  process_intersection us d =
      let ret = has_intersection us in
      if ltb (length us) 2
      then (false, us, d)
      else if all_have us
      then (ret, next_value us, if ret then fill_output us d else d)
      else (false, us, d)

  -- `ordered_difference_impl`. The first loop of `has_difference`, over the streams but the first.
  unfoldable pub lowest_there : ℕ → List (Upper R O) → ℕ
  lowest_there val [] = val
  lowest_there val (u ∷ us) =
      lowest_there (if u.m_has_value && ltb (key u) val then key u else val) us

  abbrev pub has_key : ℕ → Upper R O → Bool
  has_key val u = u.m_has_value && (key u == val)

  -- The second loop on one stream; `flag_min` is whether one of them had the value.
  abbrev pub reset_min : ℕ → Upper R O → Upper R O
  reset_min val u = if has_key val u then reset_done_value u else u

  unfoldable pub give_first : ℕ → Upper R O → List (Upper R O) → O → Bool × List (Upper R O) × O
  give_first val_min u us d =
      if any (has_key val_min) us
      then (
        false,
        (if key u == val_min then reset_done_value u else u) ∷ map (reset_min val_min) us,
        d,
      )
      else (true, reset_done_value u ∷ map (reset_min val_min) us, u.filler u.value d)

  unfoldable pub has_difference : Upper R O → List (Upper R O) → O → Bool × List (Upper R O) × O
  has_difference u us d = give_first (lowest_there (key u) us) u us d

  unfoldable pub process_difference : Processor R O
  unfolding has_difference
  process_difference [] d = (false, [], d)
  process_difference (u ∷ us) d =
      if ltb (length (u ∷ us)) 2
      then (false, u ∷ us, d)
      else if u.m_has_value
      then has_difference u us d
      else (false, u ∷ us, d)

  -- `engine::run` on one processor above which only streams stand: it fetches what is missing, keeps
  -- the row where `process` returned true, and stops where it returned false and no stream is wanted.
  abbrev pub collect : (List (Upper R O) → O → List O) → Bool × List (Upper R O) × O → List O
  collect go_on (b, us, d) =
      let out = go_on us d in if b then d ∷ out else if any wanted us then out else []

  unfoldable pub drain : Processor R O → ℕ → List (Upper R O) → O → List O
  unfolding fetch
  drain process zero us d = []
  drain process (suc n) us d = collect (drain process n) (process (map fetch us) d)
