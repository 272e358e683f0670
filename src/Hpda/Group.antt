-- ===== src/Hpda/Group.antt =====
-- include/hpda/processor/transform/group.h: the aggregators and `groupby_impl`. A column of values is
-- of the type `uint64_t`, the one that the aggregators are used with.
pub mod Runs
pub mod Aggregates
pub mod Tests
use yee_z_privacy_computing.Base.{
  ℕ, ◌+◌, ◌/◌, Bool, true, false, List, [], ◌∷◌, ltb, ◌==◌, if◌then◌else◌,
}
use yee_z_privacy_computing.Blockfile.Result.{u64}

-- What `groupby_impl` calls of its `m_aggregator`; `group` takes the value of the input column.
pub record Aggregator : Type 1 where
  pub Aggregate : Type 0
  pub start : Aggregate
  pub begin_group : Aggregate → Aggregate
  pub group : ℕ → Aggregate → Aggregate
  pub end_group : Aggregate → Aggregate
  pub output : Aggregate → ℕ
  pub grouping : Aggregate → Bool

-- The fields of `sum`, `max`, `min` and `count`.
pub record Total : Type 0 where
  pub m_data : ℕ
  pub m_grouping : Bool

abbrev no_total : Total
no_total = record { m_data = 0; m_grouping = false }

-- An aggregator that only replaces `m_data`.
abbrev pub totals : (ℕ → ℕ → ℕ) → Aggregator
totals next = record {
  Aggregate = Total;
  start = no_total;
  begin_group = λ a. record a { m_data = 0 };
  group = λ v a. record { m_data = next a.m_data v; m_grouping = true };
  end_group = λ a. record a { m_grouping = false };
  output = λ a. a.m_data;
  grouping = λ a. a.m_grouping;
}

abbrev pub sum : Aggregator
sum = totals (λ m_data v. u64 (m_data + v))

abbrev pub max : Aggregator
max = totals (λ m_data d. if ltb d m_data then m_data else d)

abbrev pub min : Aggregator
min = totals (λ m_data d. if ltb m_data d then m_data else d)

abbrev pub count : Aggregator
count = totals (λ m_data v. u64 (m_data + 1))

-- The fields of `avg`.
pub record Mean : Type 0 where
  pub m_data : ℕ
  pub m_count : ℕ
  pub m_grouping : Bool

abbrev no_mean : Mean
no_mean = record { m_data = 0; m_count = 0; m_grouping = false }

abbrev pub end_mean : Mean → Mean
end_mean a =
    if a.m_count == 0 then a else record a { m_data = a.m_data / a.m_count; m_grouping = false }

abbrev pub avg : Aggregator
avg = record {
  Aggregate = Mean;
  start = no_mean;
  begin_group = λ a. record a { m_data = 0; m_count = 0 };
  group = λ v a. record {
    m_data = u64 (a.m_data + v);
    m_count = u64 (a.m_count + 1);
    m_grouping = true;
  };
  end_group = end_mean;
  output = λ a. a.m_data;
  grouping = λ a. a.m_grouping;
}

-- A row of the output: the column `GroupByType`, then the aggregator's.
pub record OutRow : Type 0 where
  pub group_id : ℕ
  pub aggregated : ℕ

pub record GroupBy (agg : Aggregator) : Type 0 where
  pub m_last_group_id : ℕ
  pub m_data : OutRow
  pub m_aggregator : agg.Aggregate

module _ (agg : Aggregator) where
  -- `end_group`, and its output put in `m_data`.
  abbrev pub close_group : GroupBy agg → GroupBy agg
  close_group s =
      let ended = agg.end_group s.m_aggregator in
      record s { m_data = record s.m_data { aggregated = agg.output ended }; m_aggregator = ended }

  -- `begin_group` for the group `t`, and the first value of it.
  abbrev pub open_group : ℕ → ℕ → GroupBy agg → GroupBy agg
  open_group t v s = record s {
    m_last_group_id = t;
    m_data = record s.m_data { group_id = t };
    m_aggregator = agg.group v (agg.begin_group s.m_aggregator);
  }

  -- `process` with a value at hand, of the group `t` and with the value `v` in the input column. On each
  -- branch the value is consumed.
  unfoldable pub process_row : ℕ → ℕ → GroupBy agg → Bool × GroupBy agg
  process_row t v s =
      if agg.grouping s.m_aggregator
      then if s.m_last_group_id == t
        then (false, record s { m_aggregator = agg.group v s.m_aggregator })
        else (true, open_group t v (close_group s))
      else (false, open_group t v s)

  -- `process` without one.
  unfoldable pub process_end : GroupBy agg → Bool × GroupBy agg
  process_end s = if agg.grouping s.m_aggregator then (true, close_group s) else (false, s)

  -- What the stream below gets of a call.
  abbrev pub kept : Bool × GroupBy agg → (GroupBy agg → List OutRow) → List OutRow
  kept (b, s) go_on = if b then s.m_data ∷ go_on s else go_on s

  -- The calls for the rows of the stream above, then two without a row: `process` is called again after
  -- it returned true.
  unfoldable pub groupby_run : List (ℕ × ℕ) → GroupBy agg → List OutRow
  groupby_run [] s = kept (process_end s) (λ s'. kept (process_end s') (λ end. []))
  groupby_run ((t, v) ∷ rows) s = kept (process_row t v s) (groupby_run rows)

  abbrev pub new_groupby : ℕ → OutRow → GroupBy agg
  new_groupby unset row = record { m_last_group_id = unset; m_data = row; m_aggregator = agg.start }
