-- ===== src/Hpda/Group/Runs.antt =====
-- What `groupby_impl` gives of the runs of rows with the same group.
use yee_z_privacy_computing.Base.{
  ℕ, ◌+◌, ◌^◌, ◌<◌, ◌≡◌, refl, sym, ap, ◌∙◌, inl, inr, Bool, true, false, List, [], ◌∷◌, ◌++◌,
  arith, ◌==◌, if◌then◌else◌, ==_iff, Bool-cases, length, length-append,
}
use mathlib.Core.Path.{subst}
use yee_z_privacy_computing.Hpda.Group.{
  Aggregator, GroupBy, OutRow, process_row, process_end, groupby_run, new_groupby, close_group,
  open_group, kept,
}

-- The rows in their runs: the group and its values.
abbrev pub join : ℕ → ℕ → List (ℕ × List ℕ) → List (ℕ × List ℕ)
join t v [] = (t, v ∷ []) ∷ []
join t v ((t', vs) ∷ runs) = if t == t' then (t, v ∷ vs) ∷ runs else (t, v ∷ []) ∷ (t', vs) ∷ runs

abbrev pub runs_of : List (ℕ × ℕ) → List (ℕ × List ℕ)
runs_of [] = []
runs_of ((t, v) ∷ rows) = join t v (runs_of rows)

module _ (agg : Aggregator) where
  abbrev pub group_all : List ℕ → agg.Aggregate → agg.Aggregate
  group_all [] a = a
  group_all (v ∷ vs) a = group_all vs (agg.group v a)

  -- What an aggregator makes of the values of one group.
  abbrev pub aggregate : List ℕ → ℕ
  aggregate vs = agg.output (agg.end_group (group_all vs (agg.begin_group agg.start)))

  pub record Restarts : Type 0 where
    pub idle : agg.grouping agg.start ≡ false
    pub grouped : (v : ℕ) (a : agg.Aggregate) → agg.grouping (agg.group v a) ≡ true
    pub ended :
        (v : ℕ) (vs : List ℕ)
        → length vs + 1 < 2 ^ 64
        → agg.grouping (agg.end_group (group_all (v ∷ vs) (agg.begin_group agg.start))) ≡ false
    pub restarts :
        (v : ℕ) (vs : List ℕ)
        → length vs + 1 < 2 ^ 64
        → agg.begin_group (agg.end_group (group_all (v ∷ vs) (agg.begin_group agg.start)))
          ≡ agg.begin_group agg.start

-- The values of a group, before those of the run behind them.
abbrev attach : ℕ → List ℕ → List (ℕ × List ℕ) → List (ℕ × List ℕ)
attach t vs [] = (t, vs) ∷ []
attach t vs ((t', ws) ∷ runs) = if t == t' then (t, vs ++ ws) ∷ runs else (t, vs) ∷ (t', ws) ∷ runs

attach-one : (t v : ℕ) (runs : List (ℕ × List ℕ)) → attach t (v ∷ []) runs ≡ join t v runs
attach-one t v [] = refl
attach-one t v ((t', ws) ∷ runs) = refl

append_assoc : (vs : List ℕ) (v : ℕ) (ws : List ℕ) → vs ++ (v ∷ ws) ≡ (vs ++ (v ∷ [])) ++ ws
append_assoc [] v ws = refl
append_assoc (x ∷ vs) v ws = ap (x ∷◌) (append_assoc vs v ws)

attach-join :
    (t v : ℕ) (vs : List ℕ) (runs : List (ℕ × List ℕ))
    → attach t vs (join t v runs) ≡ attach t (vs ++ (v ∷ [])) runs
attach-join t v vs [] =
    ap (λ (b : Bool). if b then (t, vs ++ (v ∷ [])) ∷ [] else (t, vs) ∷ (t, v ∷ []) ∷ [])
      ((==_iff t t).1 refl)
attach-join t v vs ((t', ws) ∷ runs) = elim (Bool-cases (t == t')) [
  | inl e ↦ rw e (rw ((==_iff t t).1 refl) (λ i. (t, append_assoc vs v ws i) ∷ runs))
  | inr e ↦ rw e (rw ((==_iff t t).1 refl) refl)
]

module _ (agg : Aggregator) where
  -- The rows of the output: each group's aggregate, with the group of the run behind it, and the last
  -- with its own.
  abbrev pub labelled : List (ℕ × List ℕ) → List OutRow
  labelled [] = []
  labelled ((t, vs) ∷ []) = record { group_id = t; aggregated = aggregate agg vs } ∷ []
  labelled ((t, vs) ∷ (t', ws) ∷ runs) =
      record { group_id = t'; aggregated = aggregate agg vs } ∷ labelled ((t', ws) ∷ runs)

  -- The state behind the values `vs` of the group `t`.
  abbrev within : ℕ → List ℕ → ℕ → GroupBy agg
  within t vs y = record {
    m_last_group_id = t;
    m_data = record { group_id = t; aggregated = y };
    m_aggregator = group_all agg vs (agg.begin_group agg.start);
  }

  labelled-other :
      (t t' v' : ℕ) (vs : List ℕ) (runs : List (ℕ × List ℕ))
      → (t == t') ≡ false
      → labelled (attach t vs (join t' v' runs))
        ≡ (record { group_id = t'; aggregated = aggregate agg vs } ∷ labelled (join t' v' runs))
  labelled-other t t' v' vs [] e = rw e refl
  labelled-other t t' v' vs ((t'', ws) ∷ runs) e = elim (Bool-cases (t' == t'')) [
    | inl e' ↦ rw (e', e) refl
    | inr e' ↦ rw (e', e) refl
  ]

  group_all-append :
      (vs : List ℕ) (v : ℕ) (a : agg.Aggregate)
      → agg.group v (group_all agg vs a) ≡ group_all agg (vs ++ (v ∷ [])) a
  group_all-append [] v a = refl
  group_all-append (x ∷ vs) v a = group_all-append vs v (agg.group x a)

  module _ (laws : Restarts agg) where
    grouped_within :
        (t v : ℕ) (vs : List ℕ) (y : ℕ) → agg.grouping (within t (v ∷ vs) y).m_aggregator ≡ true
    grouped_within t v vs y = still vs v (agg.begin_group agg.start)
      where
        still :
            (vs : List ℕ) (v : ℕ) (a : agg.Aggregate)
            → agg.grouping (group_all agg (v ∷ vs) a) ≡ true
        still [] v a = laws.grouped v a
        still (w ∷ vs) v a = still vs w (agg.group v a)

  row_same :
      (t v : ℕ) (s : GroupBy agg)
      → agg.grouping s.m_aggregator ≡ true
      → (s.m_last_group_id == t) ≡ true
      → process_row agg t v s ≡ (false, record s { m_aggregator = agg.group v s.m_aggregator })
  unfolding process_row
  row_same t v s e e' = rw (e, e') refl

  row_other :
      (t v : ℕ) (s : GroupBy agg)
      → agg.grouping s.m_aggregator ≡ true
      → (s.m_last_group_id == t) ≡ false
      → process_row agg t v s ≡ (true, open_group agg t v (close_group agg s))
  unfolding process_row
  row_other t v s e e' = rw (e, e') refl

  end_open :
      (s : GroupBy agg)
      → agg.grouping s.m_aggregator ≡ true
      → process_end agg s ≡ (true, close_group agg s)
  unfolding process_end
  end_open s e = rw e refl

  end_closed :
      (s : GroupBy agg) → agg.grouping s.m_aggregator ≡ false → process_end agg s ≡ (false, s)
  unfolding process_end
  end_closed s e = rw e refl

  module _ (laws : Restarts agg) where
    run_end :
        (t v : ℕ) (vs : List ℕ) (y : ℕ)
        → length vs + 1 < 2 ^ 64
        → groupby_run agg [] (within t (v ∷ vs) y) ≡ labelled ((t, v ∷ vs) ∷ [])
    unfolding groupby_run
    run_end t v vs y h =
        rw
          (
            end_open (within t (v ∷ vs) y) (grouped_within laws t v vs y),
            end_closed (close_group agg (within t (v ∷ vs) y)) (laws.ended v vs h),
          )
          refl

    run_same :
        (rows : List (ℕ × ℕ)) (t v v' : ℕ) (vs : List ℕ) (y : ℕ)
        → groupby_run agg rows (within t (v ∷ (vs ++ (v' ∷ []))) y)
          ≡ labelled (attach t (v ∷ (vs ++ (v' ∷ []))) (runs_of rows))
        → kept agg (process_row agg t v' (within t (v ∷ vs) y)) (groupby_run agg rows)
          ≡ labelled (attach t (v ∷ vs) (join t v' (runs_of rows)))
    run_same rows t v v' vs y later =
        ap (λ (r : Bool × GroupBy agg). kept agg r (groupby_run agg rows))
          (row_same t v' (within t (v ∷ vs) y) (grouped_within laws t v vs y) ((==_iff t t).1 refl))
        ∙ ap
            (λ (a : agg.Aggregate). groupby_run agg rows (record {
              m_last_group_id = t;
              m_data = record { group_id = t; aggregated = y };
              m_aggregator = a;
            }))
            (group_all-append (v ∷ vs) v' (agg.begin_group agg.start))
        ∙ later
        ∙ ap labelled (sym (attach-join t v' (v ∷ vs) (runs_of rows)))

    run_other :
        (rows : List (ℕ × ℕ)) (t t' v v' : ℕ) (vs : List ℕ) (y : ℕ)
        → length vs + 1 < 2 ^ 64
        → (t == t') ≡ false
        → groupby_run agg rows (within t' (v' ∷ []) (aggregate agg (v ∷ vs)))
          ≡ labelled (attach t' (v' ∷ []) (runs_of rows))
        → kept agg (process_row agg t' v' (within t (v ∷ vs) y)) (groupby_run agg rows)
          ≡ labelled (attach t (v ∷ vs) (join t' v' (runs_of rows)))
    run_other rows t t' v v' vs y h e later =
        ap (λ (r : Bool × GroupBy agg). kept agg r (groupby_run agg rows))
          (row_other t' v' (within t (v ∷ vs) y) (grouped_within laws t v vs y) e)
        ∙ (λ i. record { group_id = t'; aggregated = aggregate agg (v ∷ vs) } ∷ fresh i)
        ∙ sym (labelled-other t t' v' (v ∷ vs) (runs_of rows) e)
      where
        fresh :
            groupby_run agg rows (open_group agg t' v' (close_group agg (within t (v ∷ vs) y)))
            ≡ labelled (join t' v' (runs_of rows))
        fresh =
            ap
              (λ (a : agg.Aggregate). groupby_run agg rows (record {
                m_last_group_id = t';
                m_data = record { group_id = t'; aggregated = aggregate agg (v ∷ vs) };
                m_aggregator = agg.group v' a;
              }))
              (laws.restarts v vs h)
            ∙ later
            ∙ ap labelled (attach-one t' v' (runs_of rows))

    run-within :
        (rows : List (ℕ × ℕ)) (t v : ℕ) (vs : List ℕ) (y : ℕ)
        → length rows + length vs + 1 < 2 ^ 64
        → groupby_run agg rows (within t (v ∷ vs) y) ≡ labelled (attach t (v ∷ vs) (runs_of rows))
    unfolding groupby_run
    run-within [] t v vs y h = run_end t v vs y (omega arith)
    run-within ((t', v') ∷ rows) t v vs y h = elim (Bool-cases (t == t')) [
      | inl e ↦
          subst
            (λ s.
              kept agg (process_row agg s v' (within t (v ∷ vs) y)) (groupby_run agg rows)
              ≡ labelled (attach t (v ∷ vs) (join s v' (runs_of rows))))
            ((==_iff t t').0 e)
            (run_same rows t v v' vs y
              (run-within rows t v (vs ++ (v' ∷ [])) y (omega (arith, length-append vs (v' ∷ [])))))
      | inr e ↦
          run_other rows t t' v v' vs y (omega arith) e
            (run-within rows t' v' [] (aggregate agg (v ∷ vs)) (omega arith))
    ]

    row_first :
        (t v : ℕ) (s : GroupBy agg)
        → agg.grouping s.m_aggregator ≡ false
        → process_row agg t v s ≡ (false, open_group agg t v s)
    unfolding process_row
    row_first t v s e = rw e refl

    -- For fewer than 2 ^ 64 rows, and an aggregator that `begin_group` resets: one row for each run of
    -- rows with the same group, in order, with what the aggregator makes of its values, and with the
    -- group of the run behind it, for the last run its own.
    pub groupby_run-labelled :
        (rows : List (ℕ × ℕ)) (unset : ℕ) (row : OutRow)
        → length rows < 2 ^ 64
        → groupby_run agg rows (new_groupby agg unset row) ≡ labelled (runs_of rows)
    unfolding groupby_run
    groupby_run-labelled [] unset row h =
        let closed = end_closed (new_groupby agg unset row) laws.idle in
        ap (λ (r : Bool × GroupBy agg). kept agg r (λ s. kept agg (process_end agg s) (λ end. [])))
          closed
        ∙ ap (λ (r : Bool × GroupBy agg). kept agg r (λ end. [])) closed
    groupby_run-labelled ((t, v) ∷ rows) unset row h =
        ap (λ (r : Bool × GroupBy agg). kept agg r (groupby_run agg rows))
          (row_first t v (new_groupby agg unset row) laws.idle)
        ∙ run-within rows t v [] row.aggregated (omega arith)
        ∙ ap labelled (attach-one t v (runs_of rows))
