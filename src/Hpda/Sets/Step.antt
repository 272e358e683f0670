-- ===== src/Hpda/Sets/Step.antt =====
-- What a call of `process` has to do with its streams, once the engine has fetched what they had.
use yee_z_privacy_computing.Base.{
  ℕ, ◌≡◌, refl, sym, ap, ◌∙◌, ◌⊎◌, inl, inr, Bool, true, false, ◌&&◌, ◌||◌, none, some, List, [],
  ◌∷◌, map, arith, ◌==◌, if◌then◌else◌, length, All,
}
use yee_z_privacy_computing.Hpda.Upper.{
  Upper, reset_done_value, key, keys, any, wanted, fetch, pull,
}
use yee_z_privacy_computing.Hpda.Keys.{
  head_is, drop_head, has_some, least_head, head_of, if_either, lesser_cases,
}

or_right : (a b : Bool) → b ≡ true → (a || b) ≡ true
or_right a b e = ground arith

module _ {ℓ} {R O : Type ℓ} where
  -- An ended stream has given everything.
  abbrev pub IsDone : Upper R O → Type 0
  IsDone u = (u.m_has_value ≡ false) × (u.ended ≡ true) × (length u.rest ≡ 0)

  abbrev pub IsOpen : Upper R O → Type 0
  IsOpen u = (u.ended ≡ false) ⊎ IsDone u

  -- After `fetch` it has a value or is done.
  abbrev pub Fetched : Upper R O → Type 0
  Fetched u = ((u.m_has_value ≡ true) × (u.ended ≡ false)) ⊎ IsDone u

  abbrev pub reset_if : ℕ → Upper R O → Upper R O
  reset_if m u = if u.m_has_value && (key u == m) then reset_done_value u else u

  fetch_at : (u : Upper R O) (rest : List R) → u.rest ≡ rest → IsOpen u → Fetched (fetch u)
  unfolding fetch
  fetch_at u [] e o = ground arith
  fetch_at u (r ∷ rs) e o = ground arith

  pub fetch-Fetched : (u : Upper R O) → IsOpen u → Fetched (fetch u)
  fetch-Fetched u o = fetch_at u u.rest refl o

  pub fetch-keys : (u : Upper R O) → IsOpen u → keys (fetch u) ≡ keys u
  unfolding fetch keys
  fetch-keys u o = ground arith

  pub reset_if-IsOpen : (m : ℕ) (u : Upper R O) → Fetched u → IsOpen (reset_if m u)
  reset_if-IsOpen m u f = ground arith

  pub keys-full : (u : Upper R O) → u.m_has_value ≡ true → keys u ≡ (key u ∷ map u.traits u.rest)
  unfolding keys
  keys-full u e = ground arith

  given_all : (u : Upper R O) (rs : List R) → length rs ≡ 0 → map u.traits rs ≡ []
  given_all u [] e = refl
  given_all u (r ∷ rs) e = absurd (omega arith)

  pub keys-done : (u : Upper R O) → IsDone u → keys u ≡ []
  unfolding keys
  keys-done u (no_value, at_end, e) = rw no_value (given_all u u.rest e)

  reset_full :
      (m : ℕ) (u : Upper R O)
      → u.m_has_value ≡ true
      → keys (reset_if m u)
        ≡ (if key u == m then map u.traits u.rest else key u ∷ map u.traits u.rest)
  unfolding keys
  reset_full m u has = ground arith

  reset_done : (m : ℕ) (u : Upper R O) → IsDone u → keys (reset_if m u) ≡ []
  reset_done m u done =
      ap (λ (b : Bool). keys (if b && (key u == m) then reset_done_value u else u)) done.0
      ∙ keys-done u done

  pub reset_if-keys :
      (m : ℕ) (u : Upper R O) → Fetched u → keys (reset_if m u) ≡ drop_head m (keys u)
  reset_if-keys m u (inl (has, going)) =
      reset_full m u has ∙ sym (ap (drop_head m) (keys-full u has))
  reset_if-keys m u (inr done) = reset_done m u done ∙ sym (ap (drop_head m) (keys-done u done))

  pub keys-head :
      (u : Upper R O)
      → Fetched u
      → head_of (keys u) ≡ (if u.m_has_value then some (key u) else none)
  keys-head u (inl (has, going)) = rw (keys-full u has, has) refl
  keys-head u (inr done) = rw (keys-done u done, done.0) refl

  pub keys-head_is :
      (m : ℕ) (u : Upper R O) → Fetched u → head_is m (keys u) ≡ (u.m_has_value && (key u == m))
  keys-head_is m u (inl (has, going)) = rw (keys-full u has, has) refl
  keys-head_is m u (inr done) = rw (keys-done u done, done.0) refl

  pub keys-has_some : (u : Upper R O) → Fetched u → has_some (keys u) ≡ u.m_has_value
  keys-has_some u (inl (has, going)) = rw (keys-full u has, has) refl
  keys-has_some u (inr done) = rw (keys-done u done, done.0) refl

  -- `m_filler` copies the column that `m_traits` reads into the key column of the output.
  abbrev pub Keyed : (O → ℕ) → Upper R O → Type ℓ
  Keyed key_of u = (r : R) (d : O) → key_of (u.filler r d) ≡ u.traits r

  pub fetch-All-Fetched : (us : List (Upper R O)) → All IsOpen us → All Fetched (map fetch us)
  fetch-All-Fetched [] h = tt
  fetch-All-Fetched (u ∷ us) (h, hs) = (fetch-Fetched u h, fetch-All-Fetched us hs)

  pub fetch-All-keys :
      (us : List (Upper R O)) → All IsOpen us → map keys (map fetch us) ≡ map keys us
  fetch-All-keys [] h = refl
  fetch-All-keys (u ∷ us) (h, hs) = λ i. fetch-keys u h i ∷ fetch-All-keys us hs i

  pub reset-All-IsOpen :
      (m : ℕ) (us : List (Upper R O)) → All Fetched us → All IsOpen (map (reset_if m) us)
  reset-All-IsOpen m [] h = tt
  reset-All-IsOpen m (u ∷ us) (h, hs) = (reset_if-IsOpen m u h, reset-All-IsOpen m us hs)

  pub reset-All-keys :
      (m : ℕ) (us : List (Upper R O))
      → All Fetched us
      → map keys (map (reset_if m) us) ≡ map (drop_head m) (map keys us)
  reset-All-keys m [] h = refl
  reset-All-keys m (u ∷ us) (h, hs) = λ i. reset_if-keys m u h i ∷ reset-All-keys m us hs i

  pull-Keyed :
      (key_of : O → ℕ) (u : Upper R O) (rs : List R) → Keyed key_of u → Keyed key_of (pull u rs)
  pull-Keyed key_of u [] k = k
  pull-Keyed key_of u (r ∷ rs) k = k

  fetch-Keyed : (key_of : O → ℕ) (u : Upper R O) → Keyed key_of u → Keyed key_of (fetch u)
  unfolding fetch
  fetch-Keyed key_of u k =
      if_either (Keyed key_of) (u.m_has_value || u.ended) u (pull u u.rest) k
        (pull-Keyed key_of u u.rest k)

  reset_if-Keyed :
      (key_of : O → ℕ) (m : ℕ) (u : Upper R O) → Keyed key_of u → Keyed key_of (reset_if m u)
  reset_if-Keyed key_of m u k =
      if_either (Keyed key_of) (u.m_has_value && (key u == m)) (reset_done_value u) u k k

  pub none-wanted : (us : List (Upper R O)) → All Fetched us → any wanted us ≡ false
  none-wanted [] h = refl
  none-wanted (u ∷ us) (h, hs) = ground (arith, none-wanted us hs)

  -- Where a key has been taken, its stream is wanted again.
  pub some-wanted :
      (m : ℕ) (us : List (Upper R O))
      → All Fetched us
      → least_head (map keys us) ≡ some m
      → any wanted (map (reset_if m) us) ≡ true
  some-wanted m [] h e = absurd cc
  some-wanted m (u ∷ us) (inr done, hs) e = or_right _ _ (
      some-wanted m us hs
        (ap (λ (l : List ℕ). least_head (l ∷ map keys us)) (sym (keys-done u done)) ∙ e))
  some-wanted m (u ∷ us) (inl (has, going), hs) e =
      elim (lesser_cases (key u) m _
        (ap (λ (l : List ℕ). least_head (l ∷ map keys us)) (sym (keys-full u has)) ∙ e)) [
          | inl same ↦ ground arith
          | inr e' ↦ or_right _ _ (some-wanted m us hs e')
        ]

  pub fetch-All-Keyed :
      (key_of : O → ℕ) (us : List (Upper R O))
      → All (Keyed key_of) us
      → All (Keyed key_of) (map fetch us)
  fetch-All-Keyed key_of [] k = tt
  fetch-All-Keyed key_of (u ∷ us) (k, ks) = (fetch-Keyed key_of u k, fetch-All-Keyed key_of us ks)

  pub reset-All-Keyed :
      (key_of : O → ℕ) (m : ℕ) (us : List (Upper R O))
      → All (Keyed key_of) us
      → All (Keyed key_of) (map (reset_if m) us)
  reset-All-Keyed key_of m [] k = tt
  reset-All-Keyed key_of m (u ∷ us) (k, ks) =
      (reset_if-Keyed key_of m u k, reset-All-Keyed key_of m us ks)
