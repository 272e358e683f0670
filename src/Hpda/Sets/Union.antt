-- ===== src/Hpda/Sets/Union.antt =====
-- `ordered_union` gives every key that some stream has, once each and in order.
use yee_z_privacy_computing.Base.{
  ℕ, zero, suc, ◌+◌, ◌≤◌, ◌<◌, ◌≡◌, refl, sym, ap, ◌∙◌, ◌≢◌, ◌⊎◌, inl, inr, Bool, true, false, not,
  ◌&&◌, Option, none, some, List, [], ◌∷◌, map, arith, ltb, ◌==◌, if◌then◌else◌, Bool-cases, length,
  All,
}
use mathlib.Core.Path.{subst}
use yee_z_privacy_computing.Hpda.Upper.{Upper, reset_done_value, key, keys}
use yee_z_privacy_computing.Hpda.Keys.{
  head_is, has_some, least_head, head_of, lesser, lesser_assoc, if_either, mem, Increasing, total,
  keys_run-mem, keys_run-Increasing,
}
use yee_z_privacy_computing.Hpda.Sets.{
  smaller, least, reset_same, reset_at, fill_from, give_least, has_union, process_union, drain,
}
use yee_z_privacy_computing.Hpda.Sets.Choices.{in_some, in_some-Chooses, least-heads}
use yee_z_privacy_computing.Hpda.Sets.Step.{IsOpen, Fetched, Keyed, reset_if, keys-head}
use yee_z_privacy_computing.Hpda.Sets.Run.{Computes, drain-keys}

abbrev value_of : Option (ℕ × ℕ) → Option ℕ
value_of none = none
value_of (some (val, index)) = some val

lesser-none : (a : Option ℕ) → a ≡ lesser a none
lesser-none none = refl
lesser-none (some a) = refl

value-smaller :
    (tmp i : ℕ) (found : Option (ℕ × ℕ))
    → value_of (smaller tmp i found) ≡ lesser (value_of found) (some tmp)
value-smaller tmp i none = refl
value-smaller tmp i (some (val, index)) = ground arith

value-none : (found : Option (ℕ × ℕ)) → value_of found ≡ none → found ≡ none
value-none none e = refl
value-none (some (val, index)) e = absurd cc

value-some :
    (found : Option (ℕ × ℕ)) (m : ℕ)
    → value_of found ≡ some m
    → (index : ℕ) × (found ≡ some (m, index))
value-some none m e = absurd cc
value-some (some (val, index)) m e = (index, ground arith)

no_heads : (ls : List (List ℕ)) → in_some (map has_some ls) ≡ false → least_head ls ≡ none
no_heads [] e = refl
no_heads ([] ∷ ls) e = no_heads ls e
no_heads ((k ∷ ks) ∷ ls) e = absurd cc

module _ {ℓ} {R O : Type ℓ} where
  -- The stream at `n` has the value `val` at hand.
  abbrev Points : ℕ → ℕ → List (Upper R O) → Type 0
  Points n val [] = suc val ≡ zero
  Points zero val (u ∷ us) = (u.m_has_value ≡ true) × (key u ≡ val)
  Points (suc n) val (u ∷ us) = Points n val us

  value-step :
      (i : ℕ) (u : Upper R O) (found : Option (ℕ × ℕ))
      → Fetched u
      → value_of (if u.m_has_value then smaller (key u) i found else found)
        ≡ lesser (value_of found) (head_of (keys u))
  value-step i u found f = elim (Bool-cases u.m_has_value) [
    | inl has ↦
        ap (λ (b : Bool). value_of (if b then smaller (key u) i found else found)) has
        ∙ value-smaller (key u) i found
        ∙ ap (lesser (value_of found))
            (sym (keys-head u f ∙ ap (λ (b : Bool). if b then some (key u) else none) has))
    | inr has ↦
        ap (λ (b : Bool). value_of (if b then smaller (key u) i found else found)) has
        ∙ lesser-none (value_of found)
        ∙ ap (lesser (value_of found))
            (sym (keys-head u f ∙ ap (λ (b : Bool). if b then some (key u) else none) has))
  ]

  value-least :
      (i : ℕ) (us : List (Upper R O)) (found : Option (ℕ × ℕ))
      → All Fetched us
      → value_of (least i us found) ≡ lesser (value_of found) (least_head (map keys us))
  unfolding least
  value-least i [] found f = lesser-none (value_of found)
  value-least i (u ∷ us) found (f, fs) =
      value-least (suc i) us _ fs
      ∙ ap (λ (o : Option ℕ). lesser o (least_head (map keys us))) (value-step i u found f)
      ∙ lesser_assoc (value_of found) (head_of (keys u)) (least_head (map keys us))

  found-Points :
      (i : ℕ) (u : Upper R O) (us : List (Upper R O)) (found : Option (ℕ × ℕ)) (val index : ℕ)
      → (if u.m_has_value then smaller (key u) i found else found) ≡ some (val, index)
      → (found ≡ some (val, index)) ⊎ ((n : ℕ) × ((index ≡ n + i) × Points n val (u ∷ us)))
  found-Points i u us none val index e = inr (0, ground arith)
  found-Points i u us (some (v, j)) val index e =
      elim (Bool-cases (u.m_has_value && ltb (key u) v)) [
        | inl new ↦ inr (0, ground arith)
        | inr old ↦ inl (ground arith)
      ]

  least-Points :
      (i : ℕ) (us : List (Upper R O)) (found : Option (ℕ × ℕ)) (val index : ℕ)
      → least i us found ≡ some (val, index)
      → (found ≡ some (val, index)) ⊎ ((n : ℕ) × ((index ≡ n + i) × Points n val us))
  unfolding least
  least-Points i [] found val index e = inl e
  least-Points i (u ∷ us) found val index e = elim (least-Points (suc i) us _ val index e) [
    | inl here ↦ found-Points i u us found val index here
    | inr (n, (at, p)) ↦ inr (suc n, (omega arith, p))
  ]

  other_reset :
      (val index i : ℕ) (u : Upper R O)
      → index ≢ i
      → (if u.m_has_value && (not (i == index) && (key u == val)) then reset_done_value u else u)
        ≡ reset_if val u
  other_reset val index i u h =
      ap
        (λ (b : Bool). if u.m_has_value && (not b && (key u == val)) then reset_done_value u else u)
        differ
    where
      differ : (i == index) ≡ false
      differ = ground arith

  -- Behind the index, the loop resets every stream with the value.
  reset_same_past :
      (val index i : ℕ) (us : List (Upper R O))
      → index < i
      → reset_same val index i us ≡ map (reset_if val) us
  unfolding reset_same
  reset_same_past val index i [] h = refl
  reset_same_past val index i (u ∷ us) h = λ j.
      other_reset val index i u (omega arith) j
      ∷ reset_same_past val index (suc i) us (omega arith) j

  same_at :
      (val index i : ℕ) (u : Upper R O)
      → Points 0 val (u ∷ [])
      → index ≡ i
      → reset_done_value
          (if u.m_has_value && (not (i == index) && (key u == val)) then reset_done_value u else u)
        ≡ reset_if val u
  same_at val index i u p e =
      if_either (λ w. reset_done_value w ≡ reset_done_value u)
        (u.m_has_value && (not (i == index) && (key u == val))) (reset_done_value u) u refl refl
      ∙ ap (λ (b : Bool). if b then reset_done_value u else u) (sym hit)
    where
      hit : (u.m_has_value && (key u == val)) ≡ true
      hit = ground arith

  reset_same_all :
      (val index n i : ℕ) (us : List (Upper R O))
      → index ≡ n + i
      → Points n val us
      → reset_at n (reset_same val index i us) ≡ map (reset_if val) us
  unfolding reset_same reset_at
  reset_same_all val index n i [] e p = absurd (omega arith)
  reset_same_all val index zero i (u ∷ us) e p = λ j.
      same_at val index i u p (omega arith) j ∷ reset_same_past val index (suc i) us (omega arith) j
  reset_same_all val index (suc n) i (u ∷ us) e p = λ j.
      other_reset val index i u (omega arith) j
      ∷ reset_same_all val index n (suc i) us (omega arith) p j

  fill_from-key :
      (key_of : O → ℕ) (val index n i : ℕ) (us : List (Upper R O)) (d : O)
      → index ≡ n + i
      → Points n val us
      → All (Keyed key_of) us
      → key_of (fill_from n (reset_same val index i us) d) ≡ val
  unfolding reset_same fill_from
  fill_from-key key_of val index n i [] d e p k = absurd (omega arith)
  fill_from-key key_of val index zero i (u ∷ us) d e p k =
      if_either (λ w. key_of (w.filler w.value d) ≡ val)
        (u.m_has_value && (not (i == index) && (key u == val))) (reset_done_value u) u
        (k.0 u.value d ∙ p.1) (k.0 u.value d ∙ p.1)
  fill_from-key key_of val index (suc n) i (u ∷ us) d e p k =
      fill_from-key key_of val index n (suc i) us d (omega arith) p k.1

  gives_nothing : (us : List (Upper R O)) (d : O) → give_least none us d ≡ (false, us, d)
  unfolding give_least
  gives_nothing us d = refl

  pointed :
      (n index m : ℕ) (us : List (Upper R O)) → index ≡ n + 0 → Points n m us → Points index m us
  pointed n index m us e p = subst (λ j. Points j m us) (omega arith) p

  least-Pointed :
      (us : List (Upper R O)) (m index : ℕ) → least 0 us none ≡ some (m, index) → Points index m us
  least-Pointed us m index found = elim (least-Points 0 us none m index found) [
    | inl missing ↦ absurd cc
    | inr (n, (at, p)) ↦ pointed n index m us at p
  ]

  gives_pointed :
      (key_of : O → ℕ) (index m : ℕ) (us : List (Upper R O)) (d : O)
      → Points index m us
      → All (Keyed key_of) us
      → (d' : O) × ((give_least (some (m, index)) us d ≡ (true, map (reset_if m) us, d'))
          × (true ≡ true → key_of d' ≡ m))
  unfolding give_least
  gives_pointed key_of index m us d p k = (
    fill_from index (reset_same m index 0 us) d,
    (
      λ i. (
        true,
        reset_same_all m index index 0 us (omega arith) p i,
        fill_from index (reset_same m index 0 us) d,
      ),
      λ _. fill_from-key key_of m index index 0 us d (omega arith) p k,
    ),
  )

  pub union_idle :
      (us : List (Upper R O)) (d : O)
      → 2 ≤ length us
      → All Fetched us
      → in_some (map has_some (map keys us)) ≡ false
      → process_union us d ≡ (false, us, d)
  unfolding process_union has_union
  union_idle us d two f e =
      rw (size, value-none _ (value-least 0 us none f ∙ no_heads (map keys us) e))
        (gives_nothing us d)
    where
      size : ltb (length us) 2 ≡ false
      size = ground arith

  pub union_takes :
      (key_of : O → ℕ) (us : List (Upper R O)) (d : O) (m : ℕ)
      → 2 ≤ length us
      → All Fetched us
      → All (Keyed key_of) us
      → in_some (map has_some (map keys us)) ≡ true
      → least_head (map keys us) ≡ some m
      → (d' : O) × ((process_union us d
            ≡ (in_some (map (head_is m) (map keys us)), map (reset_if m) us, d'))
          × (in_some (map (head_is m) (map keys us)) ≡ true → key_of d' ≡ m))
  unfolding process_union has_union
  union_takes key_of us d m two f k e least_m =
      let (index, found) = value-some _ m (value-least 0 us none f ∙ least_m) in
      rw (size, found, least-heads m (map keys us) least_m)
        (gives_pointed key_of index m us d (least-Pointed us m index found) k)
    where
      size : ltb (length us) 2 ≡ false
      size = ground arith

  pub union-Computes :
      (key_of : O → ℕ) → Computes key_of (process_union {R = R} {O = O}) in_some in_some
  union-Computes key_of = record { idle = union_idle; takes = union_takes key_of }

  -- From two streams at least, which are open and whose keys increase, with filler and traits that read
  -- the same key column, and fuel above the number of their keys: the keys that `ordered_union` gives
  -- increase, and a key is among them exactly where some stream has it.
  pub union-mem :
      (key_of : O → ℕ) (us : List (Upper R O)) (d : O) (k n : ℕ)
      → 2 ≤ length us
      → All IsOpen us
      → All (Keyed key_of) us
      → All Increasing (map keys us)
      → total (map keys us) < n
      → (mem k (map key_of (drain process_union n us d)) ≡ in_some (map (mem k) (map keys us)))
        × Increasing (map key_of (drain process_union n us d))
  union-mem key_of us d k n two o keyed i h =
      rw
        (drain-keys key_of process_union in_some in_some (union-Computes key_of) in_some-Chooses n
          us d two o keyed)
        (
          keys_run-mem in_some in_some in_some-Chooses k n (map keys us) i h,
          keys_run-Increasing in_some in_some n (map keys us) i,
        )
