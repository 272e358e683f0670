-- ===== src/Hpda/Sets/Tests.antt =====
-- Two streams of rows, a key and a payload, and what the processors give of them.
use yee_z_privacy_computing.Base.{ℕ, ◌≡◌, refl, inl, List, [], ◌∷◌, map, arith}
use yee_z_privacy_computing.Hpda.Upper.{Upper, stream, keys}
use yee_z_privacy_computing.Hpda.Keys.{mem, Increasing}
use yee_z_privacy_computing.Hpda.Sets.{
  drain, process_union, process_intersection, process_difference, has_union, give_least, least,
  fill_from, reset_same, reset_at, has_difference, give_first, lowest_there,
}
use yee_z_privacy_computing.Hpda.Sets.Choices.{in_some, in_all, in_first_only}
use yee_z_privacy_computing.Hpda.Sets.Union.{union-mem}
use yee_z_privacy_computing.Hpda.Sets.Intersection.{intersection-mem}
use yee_z_privacy_computing.Hpda.Sets.Difference.{difference-mem}

abbrev Row : Type 0
Row = ℕ × ℕ

abbrev no_row : Row
no_row = (0, 0)

abbrev row_key : Row → ℕ
row_key (k, v) = k

abbrev copy : Row → Row → Row
copy r d = r

abbrev two_streams : List (Upper Row Row)
two_streams =
    stream row_key copy no_row ((1, 10) ∷ (3, 30) ∷ (7, 70) ∷ [])
    ∷ stream row_key copy no_row ((3, 31) ∷ (5, 51) ∷ [])
    ∷ []

union_run : drain process_union 9 two_streams no_row ≡ ((1, 10) ∷ (3, 30) ∷ (5, 51) ∷ (7, 70) ∷ [])
unfolding drain process_union has_union give_least least fill_from reset_same reset_at
union_run = refl

intersection_run : drain process_intersection 9 two_streams no_row ≡ ((3, 31) ∷ [])
unfolding drain process_intersection
intersection_run = refl

difference_run : drain process_difference 9 two_streams no_row ≡ ((1, 10) ∷ (7, 70) ∷ [])
unfolding drain process_difference has_difference give_first lowest_there
difference_run = refl

union-mem_example :
    (mem 5 (map row_key (drain process_union 9 two_streams no_row))
      ≡ in_some (map (mem 5) (map keys two_streams)))
    × Increasing (map row_key (drain process_union 9 two_streams no_row))
unfolding keys
union-mem_example =
    union-mem row_key two_streams no_row 5 9 (omega arith) (inl refl, (inl refl, tt))
      (λ r d. refl, (λ r d. refl, tt))
      (
        (((omega arith), ((omega arith), tt)), ((omega arith, tt), (tt, tt))),
        (((omega arith, tt), (tt, tt)), tt),
      )
      (omega arith)

intersection-mem_example :
    (mem 3 (map row_key (drain process_intersection 9 two_streams no_row))
      ≡ in_all (map (mem 3) (map keys two_streams)))
    × Increasing (map row_key (drain process_intersection 9 two_streams no_row))
unfolding keys
intersection-mem_example =
    intersection-mem row_key two_streams no_row 3 9 (omega arith) (inl refl, (inl refl, tt))
      (λ r d. refl, (λ r d. refl, tt))
      (
        (((omega arith), ((omega arith), tt)), ((omega arith, tt), (tt, tt))),
        (((omega arith, tt), (tt, tt)), tt),
      )
      (omega arith)

difference-mem_example :
    (mem 3 (map row_key (drain process_difference 9 two_streams no_row))
      ≡ in_first_only (map (mem 3) (map keys two_streams)))
    × Increasing (map row_key (drain process_difference 9 two_streams no_row))
unfolding keys
difference-mem_example =
    difference-mem row_key two_streams no_row 3 9 (omega arith) (inl refl, (inl refl, tt))
      (λ r d. refl, (λ r d. refl, tt))
      (
        (((omega arith), ((omega arith), tt)), ((omega arith, tt), (tt, tt))),
        (((omega arith, tt), (tt, tt)), tt),
      )
      (omega arith)
