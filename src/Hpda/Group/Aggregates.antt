-- ===== src/Hpda/Group/Aggregates.antt =====
-- The aggregators: what each makes of the values of a group, and that `begin_group` resets it.
use yee_z_privacy_computing.Base.{
  ℕ, suc, ◌+◌, ◌/◌, ◌^◌, ◌<◌, ◌≡◌, refl, ap, ◌∙◌, true, false, List, [], ◌∷◌, arith, ltb,
  if◌then◌else◌, length,
}
use yee_z_privacy_computing.Blockfile.Result.{u64}
use yee_z_privacy_computing.Hpda.Group.{Total, Mean, totals, end_mean, sum, avg, max, min, count}
use yee_z_privacy_computing.Hpda.Group.Runs.{group_all, aggregate, Restarts}

abbrev pub sum_of : List ℕ → ℕ
sum_of [] = 0
sum_of (v ∷ vs) = v + sum_of vs

abbrev pub largest : List ℕ → ℕ
largest [] = 0
largest (v ∷ vs) = let m = largest vs in if ltb v m then m else v

folded : (next : ℕ → ℕ → ℕ) → List ℕ → ℕ → ℕ
folded next [] m = m
folded next (v ∷ vs) m = folded next vs (next m v)

totals-folded :
    (next : ℕ → ℕ → ℕ) (vs : List ℕ) (a : Total)
    → (group_all (totals next) vs a).m_data ≡ folded next vs a.m_data
unfolding folded
totals-folded next [] a = refl
totals-folded next (v ∷ vs) a =
    totals-folded next vs (record { m_data = next a.m_data v; m_grouping = true })

pub totals-Restarts : (next : ℕ → ℕ → ℕ) → Restarts (totals next)
totals-Restarts next = record {
  idle = refl;
  grouped = λ v a. refl;
  ended = λ v vs h. refl;
  restarts = λ v vs h. refl;
}

wrapped : (m v : ℕ) → u64 (u64 m + v) ≡ u64 (m + v)
wrapped m v = omega arith

sum-folded :
    (vs : List ℕ) (m : ℕ) → folded (λ m_data v. u64 (m_data + v)) vs (u64 m) ≡ u64 (m + sum_of vs)
unfolding folded
sum-folded [] m = ap u64 (omega arith)
sum-folded (v ∷ vs) m =
    ap (folded (λ m_data w. u64 (m_data + w)) vs) (wrapped m v)
    ∙ sum-folded vs (m + v)
    ∙ ap u64 (omega arith)

sum-zero : (vs : List ℕ) → folded (λ m_data v. u64 (m_data + v)) vs 0 ≡ u64 (sum_of vs)
sum-zero vs = sum-folded vs 0 ∙ ap u64 (omega arith)

max-folded :
    (vs : List ℕ) (m : ℕ)
    → folded (λ m_data d. if ltb d m_data then m_data else d) vs m
      ≡ (if ltb (largest vs) m then m else largest vs)
unfolding folded
max-folded [] m = ground arith
max-folded (v ∷ vs) m = max-folded vs _ ∙ ground arith

min-folded : (vs : List ℕ) → folded (λ m_data d. if ltb m_data d then m_data else d) vs 0 ≡ 0
unfolding folded
min-folded [] = refl
min-folded (v ∷ vs) =
    ap (folded (λ m_data d. if ltb m_data d then m_data else d) vs) (ground arith) ∙ min-folded vs

count-folded :
    (vs : List ℕ) (m : ℕ)
    → m + length vs < 2 ^ 64
    → folded (λ m_data v. u64 (m_data + 1)) vs m ≡ m + length vs
unfolding folded
count-folded [] m h = omega arith
count-folded (v ∷ vs) m h =
    ap (folded (λ m_data w. u64 (m_data + 1)) vs) (omega arith)
    ∙ count-folded vs (m + 1) (omega arith)
    ∙ omega arith

mean-count :
    (vs : List ℕ) (a : Mean)
    → a.m_count + length vs < 2 ^ 64
    → (group_all avg vs a).m_count ≡ a.m_count + length vs
mean-count [] a h = omega arith
mean-count (v ∷ vs) a h = omega (arith, mean-count vs (avg.group v a) (omega arith))

mean-folded :
    (vs : List ℕ) (a : Mean)
    → (group_all avg vs a).m_data ≡ folded (λ m_data v. u64 (m_data + v)) vs a.m_data
unfolding folded
mean-folded [] a = refl
mean-folded (v ∷ vs) a = mean-folded vs (avg.group v a)

end_mean-grouping : (a : Mean) (n : ℕ) → a.m_count ≡ suc n → (end_mean a).m_grouping ≡ false
end_mean-grouping a n h = ground arith

end_mean-data : (a : Mean) (n : ℕ) → a.m_count ≡ suc n → (end_mean a).m_data ≡ a.m_data / a.m_count
end_mean-data a n h = ground arith

pub avg-Restarts : Restarts avg
avg-Restarts = record {
  idle = refl;
  grouped = λ v a. refl;
  ended = λ v vs h. done v vs h;
  restarts = λ v vs h i. record { m_data = 0; m_count = 0; m_grouping = done v vs h i };
}
  where
    done :
        (v : ℕ) (vs : List ℕ)
        → length vs + 1 < 2 ^ 64
        → (end_mean (group_all avg (v ∷ vs) (avg.begin_group avg.start))).m_grouping ≡ false
    done v vs h =
        end_mean-grouping _ (length vs)
          (mean-count (v ∷ vs) (avg.begin_group avg.start) (omega arith) ∙ omega arith)

-- For the values of a group, at least one and fewer than 2 ^ 64: `sum` gives their sum modulo 2 ^ 64,
-- `avg` that sum divided by their number, `max` the largest, `count` their number, and `min`, which
-- starts at 0, gives 0 whatever they are.
pub aggregate_lem :
    (v : ℕ) (vs : List ℕ)
    → length (v ∷ vs) < 2 ^ 64
    → (aggregate sum (v ∷ vs) ≡ u64 (sum_of (v ∷ vs)))
      × (aggregate avg (v ∷ vs) ≡ u64 (sum_of (v ∷ vs)) / length (v ∷ vs))
      × (aggregate max (v ∷ vs) ≡ largest (v ∷ vs))
      × (aggregate count (v ∷ vs) ≡ length (v ∷ vs))
      × (aggregate min (v ∷ vs) ≡ 0)
aggregate_lem v vs h = (
  totals-folded _ (v ∷ vs) zero_total ∙ sum-zero (v ∷ vs),
  averaged,
  totals-folded _ (v ∷ vs) zero_total ∙ max-folded (v ∷ vs) 0 ∙ ground arith,
  totals-folded _ (v ∷ vs) zero_total ∙ count-folded (v ∷ vs) 0 (omega arith) ∙ omega arith,
  totals-folded _ (v ∷ vs) zero_total ∙ min-folded (v ∷ vs),
)
  where
    zero_total : Total
    zero_total = record { m_data = 0; m_grouping = false }

    counted : (group_all avg (v ∷ vs) (avg.begin_group avg.start)).m_count ≡ length (v ∷ vs)
    counted = mean-count (v ∷ vs) (avg.begin_group avg.start) (omega arith) ∙ omega arith

    averaged : aggregate avg (v ∷ vs) ≡ u64 (sum_of (v ∷ vs)) / length (v ∷ vs)
    averaged =
        end_mean-data _ (length vs) counted
        ∙ ap (λ (n : ℕ). (group_all avg (v ∷ vs) (avg.begin_group avg.start)).m_data / n) counted
        ∙ ap (λ (m : ℕ). m / length (v ∷ vs))
            (mean-folded (v ∷ vs) (avg.begin_group avg.start) ∙ sum-zero (v ∷ vs))
