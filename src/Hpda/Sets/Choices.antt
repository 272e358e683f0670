-- ===== src/Hpda/Sets/Choices.antt =====
-- Which keys the three processors give, from the streams that have them, and when they go on.
use yee_z_privacy_computing.Base.{
  ℕ, ◌≡◌, refl, ◌≢◌, inl, inr, true, false, not, ◌&&◌, ◌||◌, Option, none, some, List, [], ◌∷◌, map,
  arith,
}
use yee_z_privacy_computing.Hpda.Keys.{
  Choice, Chooses, mem, has_some, least_head, head_is, lesser, lesser_cases, nowhere,
}

abbrev pub in_some : Choice
in_some [] = false
in_some (b ∷ bs) = b || in_some bs

abbrev pub in_every : Choice
in_every [] = true
in_every (b ∷ bs) = b && in_every bs

abbrev pub in_all : Choice
in_all [] = false
in_all (b ∷ bs) = b && in_every bs

abbrev pub in_first : Choice
in_first [] = false
in_first (b ∷ bs) = b

abbrev pub in_first_only : Choice
in_first_only [] = false
in_first_only (b ∷ bs) = b && not (in_some bs)

lesser-some : (k : ℕ) (o : Option ℕ) → lesser (some k) o ≢ none
lesser-some k none e = cc
lesser-some k (some n) e = cc

some_has_least : (ls : List (List ℕ)) → in_some (map has_some ls) ≡ true → least_head ls ≢ none
some_has_least [] e n = absurd cc
some_has_least ([] ∷ ls) e n = some_has_least ls e n
some_has_least ((k ∷ ks) ∷ ls) e n = lesser-some k (least_head ls) n

none_mem :
    (k : ℕ) (ls : List (List ℕ))
    → in_some (map has_some ls) ≡ false
    → in_some (map (mem k) ls) ≡ false
none_mem k [] e = refl
none_mem k ([] ∷ ls) e = none_mem k ls e
none_mem k ((x ∷ xs) ∷ ls) e = absurd cc

none_nowhere {ℓ} : {A : Type ℓ} (xs : List A) → in_some (nowhere xs) ≡ false
none_nowhere [] = refl
none_nowhere (x ∷ xs) = none_nowhere xs

every_mem :
    (k : ℕ) (ls : List (List ℕ))
    → in_every (map has_some ls) ≡ false
    → in_every (map (mem k) ls) ≡ false
every_mem k [] e = e
every_mem k ([] ∷ ls) e = refl
every_mem k ((x ∷ xs) ∷ ls) e = ground (arith, every_mem k ls e)

first_has_least : (l : List ℕ) (ls : List (List ℕ)) → has_some l ≡ true → least_head (l ∷ ls) ≢ none
first_has_least [] ls e n = absurd cc
first_has_least (k ∷ ks) ls e n = some_has_least ((k ∷ ks) ∷ ls) refl n

first_has_none : (k : ℕ) (l : List ℕ) → has_some l ≡ false → mem k l ≡ false
first_has_none k [] e = refl
first_has_none k (x ∷ l) e = absurd cc

pub in_some-Chooses : Chooses in_some in_some
in_some-Chooses = record { goes_on = some_has_least; stops = none_mem; nothing = none_nowhere }

pub in_all-Chooses : Chooses in_all in_all
in_all-Chooses = record {
  goes_on = λ ls. all_has_least ls;
  stops = all_stops;
  nothing = all_nothing;
}
  where
    all_has_least : (ls : List (List ℕ)) → in_all (map has_some ls) ≡ true → least_head ls ≢ none
    all_has_least [] e n = absurd cc
    all_has_least (l ∷ ls) e n = first_has_least l ls (ground arith) n

    all_stops :
        (k : ℕ) (ls : List (List ℕ))
        → in_all (map has_some ls) ≡ false
        → in_all (map (mem k) ls) ≡ false
    all_stops k [] e = refl
    all_stops k (l ∷ ls) e = every_mem k (l ∷ ls) e

    all_nothing : (ls : List (List ℕ)) → in_all (nowhere ls) ≡ false
    all_nothing [] = refl
    all_nothing (l ∷ ls) = refl

pub in_first_only-Chooses : Chooses in_first in_first_only
in_first_only-Chooses = record {
  goes_on = only_has_least;
  stops = only_stops;
  nothing = only_nothing;
}
  where
    only_has_least : (ls : List (List ℕ)) → in_first (map has_some ls) ≡ true → least_head ls ≢ none
    only_has_least [] e n = absurd cc
    only_has_least (l ∷ ls) e n = first_has_least l ls e n

    only_stops :
        (k : ℕ) (ls : List (List ℕ))
        → in_first (map has_some ls) ≡ false
        → in_first_only (map (mem k) ls) ≡ false
    only_stops k [] e = refl
    only_stops k (l ∷ ls) e = rw (first_has_none k l e) refl

    only_nothing : (ls : List (List ℕ)) → in_first_only (nowhere ls) ≡ false
    only_nothing [] = refl
    only_nothing (l ∷ ls) = refl

pub least-heads :
    (m : ℕ) (ls : List (List ℕ)) → least_head ls ≡ some m → in_some (map (head_is m) ls) ≡ true
least-heads m [] e = absurd cc
least-heads m ([] ∷ ls) e = least-heads m ls e
least-heads m ((k ∷ ks) ∷ ls) e = elim (lesser_cases k m (least_head ls) e) [
  | inl same ↦ ground arith
  | inr e' ↦ ground (arith, least-heads m ls e')
]
