-- ===== src/Hpda/Sets/Intersection.antt =====
-- `ordered_intersection` gives the keys that every stream has.
use yee_z_privacy_computing.Base.{
  ℕ, ◌≤◌, ◌<◌, ◌≡◌, refl, sym, ap, ◌∙◌, inl, inr, Bool, true, false, ◌&&◌, Option, none, some, List,
  [], ◌∷◌, map, arith, ltb, ◌==◌, if◌then◌else◌, ==_iff, Bool-cases, length, All,
}
use yee_z_privacy_computing.Hpda.Upper.{Upper, reset_done_value, key, keys}
use yee_z_privacy_computing.Hpda.Keys.{
  head_is, has_some, least_head, head_of, lesser, lesser_assoc, mem, Increasing, total,
  keys_run-mem, keys_run-Increasing,
}
use yee_z_privacy_computing.Hpda.Sets.{
  lowest, next_value, reset_equal, all_same, has_intersection, fill_output, all_have,
  process_intersection, drain,
}
use yee_z_privacy_computing.Hpda.Sets.Choices.{in_every, in_all, in_all-Chooses}
use yee_z_privacy_computing.Hpda.Sets.Step.{
  IsOpen, Fetched, Keyed, reset_if, keys-head, keys-head_is, keys-has_some,
}
use yee_z_privacy_computing.Hpda.Sets.Run.{Computes, drain-keys}

module _ {ℓ} {R O : Type ℓ} where
  all_have-keys :
      (us : List (Upper R O)) → All Fetched us → in_every (map has_some (map keys us)) ≡ all_have us
  all_have-keys [] f = refl
  all_have-keys (u ∷ us) (f, fs) = λ i. keys-has_some u f i && all_have-keys us fs i

  head_full : (u : Upper R O) → Fetched u → u.m_has_value ≡ true → head_of (keys u) ≡ some (key u)
  head_full u f has = keys-head u f ∙ ap (λ (b : Bool). if b then some (key u) else none) has

  head_is_full :
      (m : ℕ) (u : Upper R O) → Fetched u → u.m_has_value ≡ true → head_is m (keys u) ≡ (m == key u)
  head_is_full m u f has =
      keys-head_is m u f ∙ ap (λ (b : Bool). b && (key u == m)) has ∙ ground arith

  -- Where all streams have a value, the loops see the heads of their keys.
  lowest-keys :
      (us : List (Upper R O)) (val : ℕ)
      → All Fetched us
      → all_have us ≡ true
      → some (lowest val us) ≡ lesser (some val) (least_head (map keys us))
  unfolding lowest
  lowest-keys [] val f h = refl
  lowest-keys (u ∷ us) val (f, fs) h =
      lowest-keys us _ fs (ground arith)
      ∙ lesser_assoc (some val) (some (key u)) (least_head (map keys us))
      ∙ ap (λ (o : Option ℕ). lesser (some val) (lesser o (least_head (map keys us))))
          (sym (head_full u f (ground arith)))

  same-keys :
      (val : ℕ) (us : List (Upper R O))
      → All Fetched us
      → all_have us ≡ true
      → all_same val us ≡ in_every (map (head_is val) (map keys us))
  same-keys val [] f h = refl
  same-keys val (u ∷ us) (f, fs) h =
      λ i. sym (head_is_full val u f (ground arith)) i && same-keys val us fs (ground arith) i

  equal_one : (m : ℕ) (u : Upper R O) → u.m_has_value ≡ true → reset_equal m u ≡ reset_if m u
  equal_one m u has =
      ap (λ (b : Bool). if b then reset_done_value u else u)
        (same_test ∙ sym (ap (λ (b : Bool). b && (key u == m)) has))
    where
      same_test : (m == key u) ≡ (key u == m)
      same_test = ground arith

  equal_if :
      (m : ℕ) (us : List (Upper R O))
      → all_have us ≡ true
      → map (reset_equal m) us ≡ map (reset_if m) us
  equal_if m [] h = refl
  equal_if m (u ∷ us) h = λ i. equal_one m u (ground arith) i ∷ equal_if m us (ground arith) i

  -- The last copy is what stays: it is enough that the last stream has the key.
  fill_output-key :
      (key_of : O → ℕ) (m : ℕ) (us : List (Upper R O)) (d : O)
      → All (Keyed key_of) us
      → all_same m us ≡ true
      → 1 ≤ length us
      → key_of (fill_output us d) ≡ m
  unfolding fill_output
  fill_output-key key_of m [] d k e h = absurd (omega arith)
  fill_output-key key_of m (u ∷ []) d k e h = k.0 u.value d ∙ ground arith
  fill_output-key key_of m (u ∷ v ∷ us) d k e h =
      fill_output-key key_of m (v ∷ us) (u.filler u.value d) k.1 (ground arith) (omega arith)

  lowest_same : (us : List (Upper R O)) (val : ℕ) → all_same val us ≡ true → lowest val us ≡ val
  unfolding lowest
  lowest_same [] val e = refl
  lowest_same (u ∷ us) val e = ap (λ (v : ℕ). lowest v us) kept ∙ lowest_same us val (ground arith)
    where
      kept : (if ltb (key u) val then key u else val) ≡ val
      kept = ground arith

  -- `has_intersection` compares with the first key, `next_value` with the lowest.
  same-lowest :
      (val : ℕ) (us : List (Upper R O))
      → all_same val us ≡ (lowest val us == val && all_same (lowest val us) us)
  same-lowest val us = elim (Bool-cases (all_same val us)) [
    | inl e ↦ let low = lowest_same us val e in rw (low, e) (ground arith)
    | inr e ↦ elim (Bool-cases (lowest val us == val)) [
      | inl low ↦
          e
          ∙ sym (
              ap (λ (b : Bool). b && all_same (lowest val us) us) low
              ∙ ap (λ (v : ℕ). all_same v us) ((==_iff _ _).0 low)
              ∙ e)
      | inr low ↦ e ∙ sym (ap (λ (b : Bool). b && all_same (lowest val us) us) low)
    ]
  ]

  step_at :
      (u : Upper R O) (us : List (Upper R O)) (d : O)
      → 1 ≤ length us
      → all_have (u ∷ us) ≡ true
      → process_intersection (u ∷ us) d ≡ (
        all_same (key u) us,
        next_value (u ∷ us),
        if all_same (key u) us then fill_output (u ∷ us) d else d,
      )
  unfolding process_intersection has_intersection
  step_at u us d two has = rw (size, has) refl
    where
      size : ltb (length (u ∷ us)) 2 ≡ false
      size = ground arith

  next-reset :
      (u : Upper R O) (us : List (Upper R O))
      → all_have (u ∷ us) ≡ true
      → next_value (u ∷ us) ≡ map (reset_if (lowest (key u) us)) (u ∷ us)
  unfolding next_value
  next-reset u us has = equal_if (lowest (key u) us) (u ∷ us) has

  lowest-least :
      (u : Upper R O) (us : List (Upper R O)) (m : ℕ)
      → All Fetched (u ∷ us)
      → all_have (u ∷ us) ≡ true
      → least_head (map keys (u ∷ us)) ≡ some m
      → lowest (key u) us ≡ m
  lowest-least u us m (f, fs) has e = cc found
    where
      found : some (lowest (key u) us) ≡ some m
      found =
          lowest-keys us (key u) fs (ground arith)
          ∙ ap (λ (o : Option ℕ). lesser o (least_head (map keys us)))
              (sym (head_full u f (ground arith)))
          ∙ e

  gives-same :
      (u : Upper R O) (us : List (Upper R O))
      → All Fetched (u ∷ us)
      → all_have (u ∷ us) ≡ true
      → all_same (key u) us ≡ in_all (map (head_is (lowest (key u) us)) (map keys (u ∷ us)))
  gives-same u us f has = same-lowest (key u) us ∙ same-keys (lowest (key u) us) (u ∷ us) f has

  idle :
      (us : List (Upper R O)) (d : O)
      → 2 ≤ length us
      → All Fetched us
      → in_all (map has_some (map keys us)) ≡ false
      → process_intersection us d ≡ (false, us, d)
  unfolding process_intersection
  idle [] d two f e = absurd (omega arith)
  idle (u ∷ us) d two f e = rw (size, sym (all_have-keys (u ∷ us) f) ∙ e) refl
    where
      size : ltb (length (u ∷ us)) 2 ≡ false
      size = ground arith

  takes :
      (key_of : O → ℕ) (us : List (Upper R O)) (d : O) (m : ℕ)
      → 2 ≤ length us
      → All Fetched us
      → All (Keyed key_of) us
      → in_all (map has_some (map keys us)) ≡ true
      → least_head (map keys us) ≡ some m
      → (d' : O) × ((process_intersection us d
            ≡ (in_all (map (head_is m) (map keys us)), map (reset_if m) us, d'))
          × (in_all (map (head_is m) (map keys us)) ≡ true → key_of d' ≡ m))
  takes key_of [] d m two f k e least_m = absurd (omega arith)
  takes key_of (u ∷ us) d m two f k e least_m =
      let has = sym (all_have-keys (u ∷ us) f) ∙ e in
      let low = lowest-least u us m f has least_m in
      let gives =
        gives-same u us f has ∙ ap (λ (v : ℕ). in_all (map (head_is v) (map keys (u ∷ us)))) low in
      (
        if all_same (key u) us then fill_output (u ∷ us) d else d,
        (
          step_at u us d (omega arith) has ∙ (λ i. (
            gives i,
            (next-reset u us has ∙ ap (λ (v : ℕ). map (reset_if v) (u ∷ us)) low) i,
            if all_same (key u) us then fill_output (u ∷ us) d else d,
          )),
          λ given.
              ap (λ (b : Bool). key_of (if b then fill_output (u ∷ us) d else d)) (gives ∙ given)
              ∙ fill_output-key key_of m (u ∷ us) d k (same-keys m (u ∷ us) f has ∙ given)
                  (omega arith),
        ),
      )

  pub intersection-Computes :
      (key_of : O → ℕ) → Computes key_of (process_intersection {R = R} {O = O}) in_all in_all
  intersection-Computes key_of = record { idle = idle; takes = takes key_of }

  -- From two streams at least, which are open and whose keys increase, with filler and traits that read
  -- the same key column, and fuel above the number of their keys: the keys that `ordered_intersection`
  -- gives increase, and a key is among them exactly where every stream has it.
  pub intersection-mem :
      (key_of : O → ℕ) (us : List (Upper R O)) (d : O) (k n : ℕ)
      → 2 ≤ length us
      → All IsOpen us
      → All (Keyed key_of) us
      → All Increasing (map keys us)
      → total (map keys us) < n
      → (mem k (map key_of (drain process_intersection n us d))
          ≡ in_all (map (mem k) (map keys us)))
        × Increasing (map key_of (drain process_intersection n us d))
  intersection-mem key_of us d k n two o keyed i h =
      rw
        (drain-keys key_of process_intersection in_all in_all (intersection-Computes key_of)
          in_all-Chooses n us d two o keyed)
        (
          keys_run-mem in_all in_all in_all-Chooses k n (map keys us) i h,
          keys_run-Increasing in_all in_all n (map keys us) i,
        )
