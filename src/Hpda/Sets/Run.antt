-- ===== src/Hpda/Sets/Run.antt =====
-- A processor whose every call takes the least key from its streams computes `keys_run`.
use yee_z_privacy_computing.Base.{
  ℕ, zero, suc, ◌≤◌, ◌≡◌, refl, ap, ◌∙◌, inl, inr, Bool, true, false, some, List, [], ◌∷◌, map,
  arith, Bool-cases, Option-cases, length, All,
}
use yee_z_privacy_computing.Hpda.Upper.{Upper, keys, any, wanted, fetch}
use yee_z_privacy_computing.Hpda.Keys.{
  Choice, Chooses, head_is, has_some, least_head, given, keys_run,
}
use yee_z_privacy_computing.Hpda.Sets.{Processor, collect, drain}
use yee_z_privacy_computing.Hpda.Sets.Step.{
  IsOpen, Fetched, Keyed, reset_if, fetch-All-Fetched, fetch-All-keys, reset-All-IsOpen,
  reset-All-keys, none-wanted, some-wanted, fetch-All-Keyed, reset-All-Keyed,
}

-- One call, on two streams at least: nothing where the keys do not go on; otherwise the least key is
-- taken everywhere, and given where the choice says so.
pub record Computes {ℓ} {R O : Type ℓ} (key_of : O → ℕ) (process : Processor R O)
    (more gives : Choice) : Type ℓ where
  pub idle :
      (us : List (Upper R O)) (d : O)
      → 2 ≤ length us
      → All Fetched us
      → more (map has_some (map keys us)) ≡ false
      → process us d ≡ (false, us, d)
  pub takes :
      (us : List (Upper R O)) (d : O) (m : ℕ)
      → 2 ≤ length us
      → All Fetched us
      → All (Keyed key_of) us
      → more (map has_some (map keys us)) ≡ true
      → least_head (map keys us) ≡ some m
      → (d' : O) × ((process us d
            ≡ (gives (map (head_is m) (map keys us)), map (reset_if m) us, d'))
          × (gives (map (head_is m) (map keys us)) ≡ true → key_of d' ≡ m))

length-map {ℓ κ} :
    {A : Type ℓ} {B : Type κ} (f : A → B) (xs : List A) → length (map f xs) ≡ length xs
length-map f [] = refl
length-map f (x ∷ xs) = omega (arith, length-map f xs)

module _ {ℓ} {R O : Type ℓ} (key_of : O → ℕ) (process : Processor R O) (more gives : Choice)
    (computes : Computes key_of process more gives) (choice : Chooses more gives) where
  collect-given :
      (go_on : List (Upper R O) → O → List O) (b : Bool) (us : List (Upper R O)) (d : O) (m : ℕ)
      → (b ≡ true → key_of d ≡ m)
      → any wanted us ≡ true
      → map key_of (collect go_on (b, us, d)) ≡ given b m (map key_of (go_on us d))
  collect-given go_on true us d m k w = λ i. k refl i ∷ map key_of (go_on us d)
  collect-given go_on false us d m k w = rw w refl

  -- One round, behind the fetches, from the rounds after it.
  round_idle :
      (n : ℕ) (us : List (Upper R O)) (d : O)
      → 2 ≤ length us
      → All Fetched us
      → more (map has_some (map keys us)) ≡ false
      → map key_of (collect (drain process n) (process us d))
        ≡ keys_run more gives (suc n) (map keys us)
  unfolding keys_run
  round_idle n us d two f e = rw (e, computes.idle us d two f e, none-wanted us f) refl

  round_takes :
      (n : ℕ) (us : List (Upper R O)) (d : O) (m : ℕ)
      → 2 ≤ length us
      → All Fetched us
      → All (Keyed key_of) us
      → more (map has_some (map keys us)) ≡ true
      → least_head (map keys us) ≡ some m
      → ((d' : O)
          → map key_of (drain process n (map (reset_if m) us) d')
            ≡ keys_run more gives n (map keys (map (reset_if m) us)))
      → map key_of (collect (drain process n) (process us d))
        ≡ keys_run more gives (suc n) (map keys us)
  unfolding keys_run
  round_takes n us d m two f k e least later =
      let (d', (taken, filled)) = computes.takes us d m two f k e least in
      rw (e, least, taken)
        (collect-given (drain process n) _ _ d' m filled (some-wanted m us f least)
          ∙ ap (given _ m) (later d' ∙ ap (keys_run more gives n) (reset-All-keys m us f)))

  round_any :
      (n : ℕ) (us : List (Upper R O)) (d : O)
      → 2 ≤ length us
      → All Fetched us
      → All (Keyed key_of) us
      → ((m : ℕ) (d' : O)
          → map key_of (drain process n (map (reset_if m) us) d')
            ≡ keys_run more gives n (map keys (map (reset_if m) us)))
      → map key_of (collect (drain process n) (process us d))
        ≡ keys_run more gives (suc n) (map keys us)
  round_any n us d two f k later = elim (Bool-cases (more (map has_some (map keys us)))) [
    | inl e ↦ elim (Option-cases (least_head (map keys us))) [
      | inl empty ↦ absurd (choice.goes_on (map keys us) e empty)
      | inr (m, least) ↦ round_takes n us d m two f k e least (later m)
    ]
    | inr e ↦ round_idle n us d two f e
  ]

  pub drain-keys :
      (n : ℕ) (us : List (Upper R O)) (d : O)
      → 2 ≤ length us
      → All IsOpen us
      → All (Keyed key_of) us
      → map key_of (drain process n us d) ≡ keys_run more gives n (map keys us)
  unfolding drain keys_run
  drain-keys zero us d two o k = refl
  drain-keys (suc n) us d two o k =
      let fetched = fetch-All-Fetched us o in
      let keyed = fetch-All-Keyed key_of us k in
      round_any n (map fetch us) d (omega (arith, length-map fetch us)) fetched keyed (λ m d'.
        drain-keys n (map (reset_if m) (map fetch us)) d'
          (omega (arith, length-map fetch us, length-map (reset_if m) (map fetch us)))
          (reset-All-IsOpen m (map fetch us) fetched)
          (reset-All-Keyed key_of m (map fetch us) keyed))
      ∙ ap (keys_run more gives (suc n)) (fetch-All-keys us o)
