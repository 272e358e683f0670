-- ===== src/Hpda/Sets/Difference.antt =====
-- `ordered_difference` gives the keys of the first stream that no other has.
use yee_z_privacy_computing.Base.{
  ℕ, ◌≤◌, ◌<◌, ◌≡◌, refl, sym, ap, ◌∙◌, inl, inr, Bool, true, false, not, ◌&&◌, ◌||◌, Option, none,
  some, List, [], ◌∷◌, map, arith, ltb, ◌==◌, if◌then◌else◌, ==_iff, Bool-cases, length, All,
}
use yee_z_privacy_computing.Hpda.Upper.{Upper, reset_done_value, key, keys, any}
use yee_z_privacy_computing.Hpda.Keys.{
  head_is, has_some, least_head, head_of, lesser, lesser_assoc, mem, Increasing, total,
  keys_run-mem, keys_run-Increasing,
}
use yee_z_privacy_computing.Hpda.Sets.{
  lowest_there, has_key, reset_min, give_first, has_difference, process_difference, drain,
}
use yee_z_privacy_computing.Hpda.Sets.Choices.{
  in_some, in_first, in_first_only, in_first_only-Chooses, least-heads,
}
use yee_z_privacy_computing.Hpda.Sets.Step.{
  IsOpen, Fetched, Keyed, reset_if, keys-head, keys-head_is, keys-has_some,
}
use yee_z_privacy_computing.Hpda.Sets.Run.{drain-keys}

lower_at :
    (b : Bool) (x val : ℕ)
    → some (if b && ltb x val then x else val) ≡ lesser (some val) (if b then some x else none)
lower_at true x val = refl
lower_at false x val = refl

both_values {ℓ} : {A : Type ℓ} (b : Bool) → b ≡ false → b ≡ true → A
both_values b e given = absurd cc

and_not-true : (a b : Bool) → b ≡ true → (a && not b) ≡ false
and_not-true a b e = ground arith

and_right : (a b : Bool) → (a && b) ≡ true → b ≡ true
and_right a b e = ground arith

and_both : (a b : Bool) → a ≡ true → b ≡ true → (a && b) ≡ true
and_both a b p q = ground arith

or_false : (a b : Bool) → (a || b) ≡ true → b ≡ false → a ≡ true
or_false a b p q = ground arith

module _ {ℓ} {R O : Type ℓ} where
  lower_head :
      (u : Upper R O) (val : ℕ)
      → Fetched u
      → some (if u.m_has_value && ltb (key u) val then key u else val)
        ≡ lesser (some val) (head_of (keys u))
  lower_head u val f =
      lower_at u.m_has_value (key u) val ∙ ap (lesser (some val)) (sym (keys-head u f))

  lowest-keys :
      (us : List (Upper R O)) (val : ℕ)
      → All Fetched us
      → some (lowest_there val us) ≡ lesser (some val) (least_head (map keys us))
  unfolding lowest_there
  lowest-keys [] val f = refl
  lowest-keys (u ∷ us) val (f, fs) =
      lowest-keys us _ fs
      ∙ ap (λ (o : Option ℕ). lesser o (least_head (map keys us))) (lower_head u val f)
      ∙ lesser_assoc (some val) (head_of (keys u)) (least_head (map keys us))

  others-keys :
      (m : ℕ) (us : List (Upper R O))
      → All Fetched us
      → any (has_key m) us ≡ in_some (map (head_is m) (map keys us))
  others-keys m [] f = refl
  others-keys m (u ∷ us) (f, fs) = λ i. sym (keys-head_is m u f) i || others-keys m us fs i

  idle :
      (us : List (Upper R O)) (d : O)
      → 2 ≤ length us
      → All Fetched us
      → in_first (map has_some (map keys us)) ≡ false
      → process_difference us d ≡ (false, us, d)
  unfolding process_difference
  idle [] d two f e = absurd (omega arith)
  idle (u ∷ us) d two (f, fs) e = rw (size, sym (keys-has_some u f) ∙ e) refl
    where
      size : ltb (length (u ∷ us)) 2 ≡ false
      size = ground arith

  step_at :
      (u : Upper R O) (us : List (Upper R O)) (d : O)
      → 1 ≤ length us
      → u.m_has_value ≡ true
      → process_difference (u ∷ us) d ≡ give_first (lowest_there (key u) us) u us d
  unfolding process_difference has_difference
  step_at u us d two has =
      ap
        (λ (b : Bool).
          if b
          then (false, u ∷ us, d)
          else if u.m_has_value
          then give_first (lowest_there (key u) us) u us d
          else (false, u ∷ us, d))
        size
      ∙ ap
          (λ (b : Bool).
            if b then give_first (lowest_there (key u) us) u us d else (false, u ∷ us, d))
          has
    where
      size : ltb (length (u ∷ us)) 2 ≡ false
      size = ground arith

  lowest-least :
      (u : Upper R O) (us : List (Upper R O)) (m : ℕ)
      → All Fetched (u ∷ us)
      → u.m_has_value ≡ true
      → least_head (map keys (u ∷ us)) ≡ some m
      → lowest_there (key u) us ≡ m
  lowest-least u us m (f, fs) has e = cc found
    where
      first : some (key u) ≡ head_of (keys u)
      first = sym (keys-head u f ∙ ap (λ (b : Bool). if b then some (key u) else none) has)

      found : some (lowest_there (key u) us) ≡ some m
      found =
          lowest-keys us (key u) fs
          ∙ ap (λ (o : Option ℕ). lesser o (least_head (map keys us))) first
          ∙ e

  give_others :
      (m : ℕ) (u : Upper R O) (us : List (Upper R O)) (d : O)
      → any (has_key m) us ≡ true
      → give_first m u us d
        ≡ (false, (if key u == m then reset_done_value u else u) ∷ map (reset_min m) us, d)
  unfolding give_first
  give_others m u us d e = rw e refl

  give_own :
      (m : ℕ) (u : Upper R O) (us : List (Upper R O)) (d : O)
      → any (has_key m) us ≡ false
      → give_first m u us d ≡ (true, reset_done_value u ∷ map (reset_min m) us, u.filler u.value d)
  unfolding give_first
  give_own m u us d e = rw e refl

  give_at :
      (key_of : O → ℕ) (u : Upper R O) (us : List (Upper R O)) (d : O) (m : ℕ)
      → All Fetched (u ∷ us)
      → All (Keyed key_of) (u ∷ us)
      → u.m_has_value ≡ true
      → least_head (map keys (u ∷ us)) ≡ some m
      → (d' : O) × ((give_first m u us d
            ≡ (in_first_only (map (head_is m) (map keys (u ∷ us))), map (reset_if m) (u ∷ us), d'))
          × (in_first_only (map (head_is m) (map keys (u ∷ us))) ≡ true → key_of d' ≡ m))
  give_at key_of u us d m (f, fs) k has least_m = elim (Bool-cases (any (has_key m) us)) [
    | inl e ↦ (
      d,
      (
        give_others m u us d e ∙ (λ i. (sym (elsewhere e) i, here i ∷ map (reset_if m) us, d)),
        λ given. both_values _ (elsewhere e) given,
      ),
    )
    | inr e ↦ (
      u.filler u.value d,
      (
        give_own m u us d e
            ∙ (λ i. (sym (alone e).0 i, hit e i ∷ map (reset_if m) us, u.filler u.value d)),
        λ given. k.0 u.value d ∙ (alone e).1,
      ),
    )
  ]
    where
      here : (if key u == m then reset_done_value u else u) ≡ reset_if m u
      here = ap (λ (b : Bool). if b && (key u == m) then reset_done_value u else u) (sym has)

      elsewhere :
          any (has_key m) us ≡ true
          → (head_is m (keys u) && not (in_some (map (head_is m) (map keys us)))) ≡ false
      elsewhere e = and_not-true _ _ (sym (others-keys m us fs) ∙ e)

      alone :
          any (has_key m) us ≡ false
          → ((head_is m (keys u) && not (in_some (map (head_is m) (map keys us)))) ≡ true)
            × (key u ≡ m)
      alone e =
          let rest = sym (others-keys m us fs) ∙ e in
          let first = or_false _ _ (least-heads m (map keys (u ∷ us)) least_m) rest in
          (
            λ i. first i && not (rest i),
            (==_iff (key u) m).0 (and_right u.m_has_value _ (sym (keys-head_is m u f) ∙ first)),
          )

      hit : any (has_key m) us ≡ false → reset_done_value u ≡ reset_if m u
      hit e =
          ap (λ (b : Bool). if b then reset_done_value u else u)
            (sym (and_both _ _ has ((==_iff (key u) m).1 (alone e).1)))

  takes :
      (key_of : O → ℕ) (us : List (Upper R O)) (d : O) (m : ℕ)
      → 2 ≤ length us
      → All Fetched us
      → All (Keyed key_of) us
      → in_first (map has_some (map keys us)) ≡ true
      → least_head (map keys us) ≡ some m
      → (d' : O) × ((process_difference us d
            ≡ (in_first_only (map (head_is m) (map keys us)), map (reset_if m) us, d'))
          × (in_first_only (map (head_is m) (map keys us)) ≡ true → key_of d' ≡ m))
  takes key_of [] d m two f k e least_m = absurd (omega arith)
  takes key_of (u ∷ us) d m two f k e least_m =
      let has = sym (keys-has_some u f.0) ∙ e in
      let low = lowest-least u us m f has least_m in
      let (d', (given, filled)) = give_at key_of u us d m f k has least_m in
      (
        d',
        (
          step_at u us d (omega arith) has ∙ ap (λ (v : ℕ). give_first v u us d) low ∙ given,
          filled,
        ),
      )

  -- From two streams at least, which are open and whose keys increase, with filler and traits that read
  -- the same key column, and fuel above the number of their keys: the keys that `ordered_difference`
  -- gives increase, and a key is among them exactly where the first stream has it and no other.
  pub difference-mem :
      (key_of : O → ℕ) (us : List (Upper R O)) (d : O) (k n : ℕ)
      → 2 ≤ length us
      → All IsOpen us
      → All (Keyed key_of) us
      → All Increasing (map keys us)
      → total (map keys us) < n
      → (mem k (map key_of (drain process_difference n us d))
          ≡ in_first_only (map (mem k) (map keys us)))
        × Increasing (map key_of (drain process_difference n us d))
  difference-mem key_of us d k n two o keyed i h =
      rw
        (drain-keys key_of process_difference in_first in_first_only
          (record { idle = idle; takes = takes key_of }) in_first_only-Chooses n us d two o keyed)
        (
          keys_run-mem in_first in_first_only in_first_only-Chooses k n (map keys us) i h,
          keys_run-Increasing in_first in_first_only n (map keys us) i,
        )
