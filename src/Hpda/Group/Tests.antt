-- ===== src/Hpda/Group/Tests.antt =====
-- Three groups of rows, summed, and the averages of the same.
use yee_z_privacy_computing.Base.{ℕ, ◌/◌, ◌≡◌, refl, List, [], ◌∷◌, arith, length}
use yee_z_privacy_computing.Hpda.Group.{
  sum, avg, max, min, count, OutRow, groupby_run, process_row, process_end, new_groupby,
}
use yee_z_privacy_computing.Blockfile.Result.{u64}
use yee_z_privacy_computing.Hpda.Group.Runs.{labelled, runs_of, aggregate, groupby_run-labelled}
use yee_z_privacy_computing.Hpda.Group.Aggregates.{avg-Restarts, aggregate_lem, sum_of, largest}

abbrev rows : List (ℕ × ℕ)
rows = (1, 10) ∷ (1, 20) ∷ (2, 5) ∷ (3, 1) ∷ (3, 3) ∷ []

abbrev no_row : OutRow
no_row = record { group_id = 0; aggregated = 0 }

-- The sums come with the group of the run behind them.
sum_run : groupby_run sum rows (new_groupby sum 0 no_row) ≡ (
    record { group_id = 2; aggregated = 30 }
    ∷ record { group_id = 3; aggregated = 5 }
    ∷ record { group_id = 3; aggregated = 4 }
    ∷ [])
unfolding groupby_run process_row process_end
sum_run = refl

groupby_run-labelled_example :
    groupby_run avg rows (new_groupby avg 0 no_row) ≡ labelled avg (runs_of rows)
groupby_run-labelled_example = groupby_run-labelled avg avg-Restarts rows 0 no_row (omega arith)

aggregate_lem_example :
    (aggregate sum (7 ∷ 9 ∷ []) ≡ u64 (sum_of (7 ∷ 9 ∷ [])))
    × (aggregate avg (7 ∷ 9 ∷ []) ≡ u64 (sum_of (7 ∷ 9 ∷ [])) / length {A = ℕ} (7 ∷ 9 ∷ []))
    × (aggregate max (7 ∷ 9 ∷ []) ≡ largest (7 ∷ 9 ∷ []))
    × (aggregate count (7 ∷ 9 ∷ []) ≡ length {A = ℕ} (7 ∷ 9 ∷ []))
    × (aggregate min (7 ∷ 9 ∷ []) ≡ 0)
aggregate_lem_example = aggregate_lem 7 (9 ∷ []) (omega arith)
