-- ===== src/Hpda/Stages/Passed.antt =====
-- What `filter` and `trim` make of the rows of their stream.
use yee_z_privacy_computing.Base.{
  ℕ, zero, suc, ◌<◌, ◌≡◌, refl, sym, ap, ◌∙◌, inl, inr, Bool, true, false, Option, none, some, List,
  [], ◌∷◌, map, arith, if◌then◌else◌, Bool-cases, length,
}
use yee_z_privacy_computing.Hpda.Upper.{Upper, reset_done_value, remaining, fetch, wanted, any}
use yee_z_privacy_computing.Hpda.Sets.{Processor, drain, collect}
use yee_z_privacy_computing.Hpda.Sets.Step.{IsDone, IsOpen, Fetched, fetch-Fetched}
use yee_z_privacy_computing.Hpda.Stages.{process_filter, process_trim}

abbrev pub pass_on {ℓ} : {O : Type ℓ} → Option O → List O → List O
pass_on none os = os
pass_on (some o) os = o ∷ os

abbrev pub passes {ℓ} : {R O : Type ℓ} → (R → Option O) → List R → List O
passes f [] = []
passes f (r ∷ rs) = pass_on (f r) (passes f rs)

abbrev is_some {ℓ} : {O : Type ℓ} → Option O → Bool
is_some none = false
is_some (some o) = true

abbrev kept {ℓ} : {O : Type ℓ} → O → Option O → O
kept d none = d
kept d (some o) = o

-- A processor that gives `f` of each row.
record Passes {ℓ} {R O : Type ℓ} (process : Processor R O) (f : R → Option O) : Type ℓ where
  idles : (u : Upper R O) (d : O) → u.m_has_value ≡ false → process (u ∷ []) d ≡ (false, u ∷ [], d)
  gives :
      (u : Upper R O) (d : O)
      → u.m_has_value ≡ true
      → process (u ∷ []) d ≡ (is_some (f u.value), reset_done_value u ∷ [], kept d (f u.value))

empty {ℓ} : {R : Type ℓ} (rs : List R) → length rs ≡ 0 → rs ≡ []
empty [] e = refl
empty (r ∷ rs) e = absurd (omega arith)

module _ {ℓ} {R O : Type ℓ} where
  reset-IsOpen : (u : Upper R O) → Fetched u → IsOpen (reset_done_value u)
  reset-IsOpen u (inl (has, going)) = inl going
  reset-IsOpen u (inr (no_value, at_end, all_given)) = inr (refl, at_end, all_given)

  pub fetch-remaining : (u : Upper R O) → IsOpen u → remaining (fetch u) ≡ remaining u
  unfolding fetch remaining
  fetch-remaining u o = ground arith

  remaining-full : (u : Upper R O) → u.m_has_value ≡ true → remaining u ≡ (u.value ∷ u.rest)
  unfolding remaining
  remaining-full u e = rw e refl

  remaining-reset : (u : Upper R O) → remaining (reset_done_value u) ≡ u.rest
  unfolding remaining
  remaining-reset u = refl

  remaining-done : (u : Upper R O) → IsDone u → remaining u ≡ []
  unfolding remaining
  remaining-done u (no_value, at_end, e) = rw no_value (empty u.rest e)

  collect-kept :
      (go_on : List (Upper R O) → O → List O) (us : List (Upper R O)) (d : O) (o : Option O)
      (os : List O)
      → any wanted us ≡ true
      → ((d' : O) → go_on us d' ≡ os)
      → collect go_on (is_some o, us, kept d o) ≡ pass_on o os
  collect-kept go_on us d none os w later = rw w (later d)
  collect-kept go_on us d (some o) os w later = ap (o ∷◌) (later o)

  collect-idle :
      (go_on : List (Upper R O) → O → List O) (u : Upper R O) (d : O)
      → wanted u ≡ false
      → collect go_on (false, u ∷ [], d) ≡ []
  collect-idle go_on u d w = rw w refl

  module _ (process : Processor R O) (f : R → Option O) (stage : Passes process f) where
    round_passes :
        (n : ℕ) (u : Upper R O) (d : O)
        → Fetched u
        → ((d' : O)
            → length u.rest < length (remaining u)
            → drain process n (reset_done_value u ∷ []) d' ≡ passes f u.rest)
        → collect (drain process n) (process (u ∷ []) d) ≡ passes f (remaining u)
    round_passes n u d (inr done) later =
        ap (collect (drain process n)) (stage.idles u d done.0)
        ∙ collect-idle (drain process n) u d (ground arith)
        ∙ ap (passes f) (sym (remaining-done u done))
    round_passes n u d (inl (has, going)) later =
        ap (collect (drain process n)) (stage.gives u d has)
        ∙ collect-kept (drain process n) _ d (f u.value) (passes f u.rest) (ground arith)
            (λ d'. later d' (omega (arith, ap length (remaining-full u has))))
        ∙ ap (passes f) (sym (remaining-full u has))

    drain-passes :
        (n : ℕ) (u : Upper R O) (d : O)
        → IsOpen u
        → length (remaining u) < n
        → drain process n (u ∷ []) d ≡ passes f (remaining u)
    unfolding drain
    drain-passes zero u d o h = absurd (omega arith)
    drain-passes (suc n) u d o h =
        let same = fetch-remaining u o in
        round_passes n (fetch u) d (fetch-Fetched u o) (λ d' less.
          drain-passes n (reset_done_value (fetch u)) d'
            (reset-IsOpen (fetch u) (fetch-Fetched u o))
            (omega (
              arith,
              less,
              ap (length {A = R}) (remaining-reset (fetch u)),
              ap (length {A = R}) same,
            ))
          ∙ ap (passes f) (remaining-reset (fetch u)))
        ∙ ap (passes f) same

filtering {ℓ} : {R : Type ℓ} → (R → Bool) → R → Option R
filtering func r = if func r then some r else none

filter-Passes {ℓ} : {R : Type ℓ} (func : R → Bool) → Passes (process_filter func) (filtering func)
unfolding process_filter filtering
filter-Passes {R = R} func = record {
  idles = λ u d e. rw e refl;
  gives = λ u d e. rw e (chosen u d (func u.value));
}
  where
    chosen :
        (u : Upper R R) (d : R) (b : Bool)
        → ◌≡◌ {A = Bool × List (Upper R R) × R}
            (b, reset_done_value u ∷ [], if b then u.value else d)
            (
              is_some (if b then some u.value else none),
              reset_done_value u ∷ [],
              kept d (if b then some u.value else none),
            )
    chosen u d true = refl
    chosen u d false = refl

trim-Passes {ℓ} :
    {R O : Type ℓ} (make_copy : R → O) → Passes (process_trim make_copy) (λ r. some (make_copy r))
unfolding process_trim
trim-Passes make_copy = record { idles = λ u d e. rw e refl; gives = λ u d e. rw e refl }

abbrev pub filtered {ℓ} : {R : Type ℓ} → (R → Bool) → List R → List R
filtered func [] = []
filtered func (r ∷ rs) = if func r then r ∷ filtered func rs else filtered func rs

passes-filtering {ℓ} :
    {R : Type ℓ} (func : R → Bool) (rs : List R) → passes (filtering func) rs ≡ filtered func rs
unfolding filtering
passes-filtering func [] = refl
passes-filtering func (r ∷ rs) = elim (Bool-cases (func r)) [
  | inl e ↦ rw e (ap (r ∷◌) (passes-filtering func rs))
  | inr e ↦ rw e (passes-filtering func rs)
]

passes-some {ℓ} : {R O : Type ℓ} (f : R → O) (rs : List R) → passes (λ r. some (f r)) rs ≡ map f rs
passes-some f [] = refl
passes-some f (r ∷ rs) = ap (f r ∷◌) (passes-some f rs)

-- For streams that are open, and fuel above the number of their rows: `filter` gives the rows of its
-- stream of which its predicate is true, in their order, and `trim` the copy of each row of its own.
pub stages-rows {ℓ} :
    {R O : Type ℓ} (func : R → Bool) (make_copy : R → O) (u : Upper R R) (v : Upper R O) (d : R)
    (e : O) (n : ℕ)
    → IsOpen u
    → IsOpen v
    → length (remaining u) < n
    → length (remaining v) < n
    → (drain (process_filter func) n (u ∷ []) d ≡ filtered func (remaining u))
      × (drain (process_trim make_copy) n (v ∷ []) e ≡ map make_copy (remaining v))
stages-rows func make_copy u v d e n open_u open_v enough_u enough_v = (
  drain-passes (process_filter func) (filtering func) (filter-Passes func) n u d open_u enough_u
      ∙ passes-filtering func (remaining u),
  drain-passes (process_trim make_copy) _ (trim-Passes make_copy) n v e open_v enough_v
      ∙ passes-some make_copy (remaining v),
)
