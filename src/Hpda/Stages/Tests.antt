-- ===== src/Hpda/Stages/Tests.antt =====
-- A stream of three rows, filtered, trimmed, joined with another and split in two.
use yee_z_privacy_computing.Base.{ℕ, ◌+◌, ◌≡◌, refl, inl, [], ◌∷◌, map, arith, ltb}
use yee_z_privacy_computing.Hpda.Upper.{Upper, stream, remaining}
use yee_z_privacy_computing.Hpda.Sets.{drain}
use yee_z_privacy_computing.Hpda.Stages.{process_filter, process_trim, process_concat, give_at}
use yee_z_privacy_computing.Hpda.Stages.Passed.{filtered, stages-rows}

abbrev three_rows : {O : Type 0} → (ℕ → O → O) → Upper ℕ O
three_rows filler = stream (λ r. r) filler 0 (4 ∷ 9 ∷ 6 ∷ [])

abbrev copy_row : ℕ → ℕ → ℕ
copy_row r d = r

stages-rows_example :
    (drain (process_filter (ltb 5)) 4 (three_rows copy_row ∷ []) 0
      ≡ filtered (ltb 5) (remaining (three_rows copy_row)))
    × (drain (process_trim (1 +◌)) 4 (three_rows copy_row ∷ []) 0
        ≡ map (1 +◌) (remaining (three_rows copy_row)))
unfolding remaining
stages-rows_example =
    stages-rows (ltb 5) (1 +◌) (three_rows copy_row) (three_rows copy_row) 0 0 4 (inl refl)
      (inl refl) (omega arith) (omega arith)

abbrev keep_state : ℕ → ℕ × ℕ → ℕ × ℕ
keep_state r d = d

-- Each row with the index of its stream.
concat_run :
    drain process_concat 7
      (three_rows keep_state ∷ stream (λ r. r) keep_state 0 (1 ∷ 2 ∷ []) ∷ [])
      (0, 0)
    ≡ ((0, 4) ∷ (0, 9) ∷ (0, 6) ∷ (1, 1) ∷ (1, 2) ∷ [])
unfolding drain process_concat give_at
concat_run = refl
