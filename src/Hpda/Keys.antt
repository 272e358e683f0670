-- ===== src/Hpda/Keys.antt =====
-- What the ordered set processors compute, seen on the keys of their streams alone: the least key at
-- hand is given or not and taken from every stream that has it.
use yee_z_privacy_computing.Base.{
  ℕ, zero, suc, ◌+◌, ◌≤◌, ◌<◌, ◌≡◌, refl, sym, ap, ◌∙◌, ◌≢◌, ◌⊎◌, inl, inr, Bool, true, false,
  Option, none, some, List, [], ◌∷◌, map, arith, ltb, ◌==◌, if◌then◌else◌, ==_iff, Bool-cases,
  Option-cases, length, All,
}
use yee_z_privacy_computing.Hpda.Upper.{any}

abbrev pub mem : ℕ → List ℕ → Bool
mem k = any (k ==◌)

abbrev pub head_is : ℕ → List ℕ → Bool
head_is m [] = false
head_is m (k ∷ ks) = k == m

abbrev pub drop_head : ℕ → List ℕ → List ℕ
drop_head m [] = []
drop_head m (k ∷ ks) = if k == m then ks else k ∷ ks

abbrev pub has_some : List ℕ → Bool
has_some [] = false
has_some (k ∷ ks) = true

-- The smaller of the keys there are.
abbrev pub lesser : Option ℕ → Option ℕ → Option ℕ
lesser none b = b
lesser (some a) none = some a
lesser (some a) (some b) = some (if ltb b a then b else a)

abbrev pub head_of : List ℕ → Option ℕ
head_of [] = none
head_of (k ∷ ks) = some k

abbrev pub least_head : List (List ℕ) → Option ℕ
least_head [] = none
least_head (l ∷ ls) = lesser (head_of l) (least_head ls)

abbrev pub total : List (List ℕ) → ℕ
total [] = 0
total (l ∷ ls) = length l + total ls

-- From which streams have a key, whether it is given or whether to go on.
abbrev pub Choice : Type 0
Choice = List Bool → Bool

abbrev pub given : Bool → ℕ → List ℕ → List ℕ
given b m out = if b then m ∷ out else out

abbrev pub take_least : Choice → (List (List ℕ) → List ℕ) → List (List ℕ) → Option ℕ → List ℕ
take_least gives go_on ls none = []
take_least gives go_on ls (some m) =
    given (gives (map (head_is m) ls)) m (go_on (map (drop_head m) ls))

unfoldable pub keys_run : Choice → Choice → ℕ → List (List ℕ) → List ℕ
keys_run more gives zero ls = []
keys_run more gives (suc n) ls =
    let out = take_least gives (keys_run more gives n) ls (least_head ls) in
    if more (map has_some ls) then out else []

abbrev pub Increasing : List ℕ → Type 0
Increasing [] = Unit
Increasing (k ∷ ks) = All (k <◌) ks × Increasing ks

-- No key below `m`, where the keys increase.
abbrev pub Above : ℕ → List ℕ → Type 0
Above m [] = Unit
Above m (k ∷ ks) = m ≤ k

pub if_either {ℓ κ} :
    {A : Type ℓ} (P : A → Type κ) (b : Bool) (x y : A) → P x → P y → P (if b then x else y)
if_either P true x y p q = p
if_either P false x y p q = q

mem_below : (m : ℕ) (ks : List ℕ) → All (m <◌) ks → mem m ks ≡ false
mem_below m [] h = refl
mem_below m (k ∷ ks) (h, hs) = ground (arith, mem_below m ks hs)

All-lower : (a b : ℕ) (ks : List ℕ) → a ≤ b → All (b <◌) ks → All (a <◌) ks
All-lower a b [] le h = tt
All-lower a b (k ∷ ks) le (h, hs) = (omega arith, All-lower a b ks le hs)

-- A key that is not below the first of an increasing list is in it where it is the first.
mem_head : (m : ℕ) (l : List ℕ) → Increasing l → Above m l → mem m l ≡ head_is m l
mem_head m [] i a = refl
mem_head m (k ∷ ks) (h, hs) a = ground (arith, mem_below m ks (All-lower m k ks a h))

mem-drop_head : (k m : ℕ) (l : List ℕ) → k ≢ m → mem k (drop_head m l) ≡ mem k l
mem-drop_head k m [] ne = refl
mem-drop_head k m (x ∷ l) ne = ground arith

drop_head-mem : (m : ℕ) (l : List ℕ) → Increasing l → Above m l → mem m (drop_head m l) ≡ false
drop_head-mem m [] i a = refl
drop_head-mem m (k ∷ ks) (h, hs) a = ground (arith, mem_below m ks (All-lower m k ks a h))

drop_head-Increasing : (m : ℕ) (l : List ℕ) → Increasing l → Increasing (drop_head m l)
drop_head-Increasing m [] i = tt
drop_head-Increasing m (k ∷ ks) (h, hs) = if_either Increasing (k == m) ks (k ∷ ks) hs (h, hs)

drop_head-All {κ} : (P : ℕ → Type κ) (m : ℕ) (l : List ℕ) → All P l → All P (drop_head m l)
drop_head-All P m [] h = tt
drop_head-All P m (k ∷ ks) h = if_either (All P) (k == m) ks (k ∷ ks) h.1 h

-- Above every head, once the least of them is taken, is that least.
drop_head-Above : (m : ℕ) (l : List ℕ) → Increasing l → Above m l → All (m <◌) (drop_head m l)
drop_head-Above m [] i a = tt
drop_head-Above m (k ∷ ks) (h, hs) a = elim (Bool-cases (k == m)) [
  | inl e ↦ rw e (All-lower m k ks a h)
  | inr e ↦ rw e (ground arith, All-lower m k ks a h)
]

abbrev NotBelow : ℕ → Option ℕ → Type 0
NotBelow m none = Unit
NotBelow m (some n) = m ≤ n

lesser-NotBelow : (m : ℕ) (a b : Option ℕ) → NotBelow m (lesser a b) → NotBelow m a × NotBelow m b
lesser-NotBelow m none b h = (tt, h)
lesser-NotBelow m (some a) none h = (h, tt)
lesser-NotBelow m (some a) (some b) h = (ground arith, ground arith)

least_head-Above : (m : ℕ) (ls : List (List ℕ)) → NotBelow m (least_head ls) → All (Above m) ls
least_head-Above m [] h = tt
least_head-Above m ([] ∷ ls) h = (tt, least_head-Above m ls h)
least_head-Above m ((k ∷ ks) ∷ ls) h =
    let (low, rest) = lesser-NotBelow m (some k) (least_head ls) h in
    (low, least_head-Above m ls rest)

least-Above : (m : ℕ) (ls : List (List ℕ)) → least_head ls ≡ some m → All (Above m) ls
least-Above m ls e = least_head-Above m ls (rw e (omega arith))

total_le : (m : ℕ) (ls : List (List ℕ)) → total (map (drop_head m) ls) ≤ total ls
total_le m [] = omega arith
total_le m ([] ∷ ls) = omega (arith, total_le m ls)
total_le m ((k ∷ ks) ∷ ls) = ground (arith, total_le m ls)

pub lesser_assoc : (a b c : Option ℕ) → lesser (lesser a b) c ≡ lesser a (lesser b c)
lesser_assoc none b c = refl
lesser_assoc (some a) none c = refl
lesser_assoc (some a) (some b) none = refl
lesser_assoc (some a) (some b) (some c) = ground arith

pub lesser_cases : (k m : ℕ) (o : Option ℕ) → lesser (some k) o ≡ some m → (k ≡ m) ⊎ (o ≡ some m)
lesser_cases k m none e = inl (ground arith)
lesser_cases k m (some n) e = ground arith

-- Each step takes a key away.
total_less :
    (m : ℕ) (ls : List (List ℕ)) → least_head ls ≡ some m → total (map (drop_head m) ls) < total ls
total_less m [] e = absurd cc
total_less m ([] ∷ ls) e = omega (arith, total_less m ls e)
total_less m ((k ∷ ks) ∷ ls) e = elim (lesser_cases k m (least_head ls) e) [
  | inl e' ↦ ground (arith, total_le m ls)
  | inr e' ↦ ground (arith, total_less m ls e')
]

-- The presence of the keys, each step.
heads_at :
    (m : ℕ) (ls : List (List ℕ))
    → All Increasing ls
    → All (Above m) ls
    → map (head_is m) ls ≡ map (mem m) ls
heads_at m [] i a = refl
heads_at m (l ∷ ls) (i, is) (a, above) = λ j. sym (mem_head m l i a) j ∷ heads_at m ls is above j

mem-rest :
    (k m : ℕ) (ls : List (List ℕ)) → k ≢ m → map (mem k) (map (drop_head m) ls) ≡ map (mem k) ls
mem-rest k m [] ne = refl
mem-rest k m (l ∷ ls) ne = λ j. mem-drop_head k m l ne j ∷ mem-rest k m ls ne j

-- As many streams, and none with the key.
abbrev pub nowhere {ℓ} : {A : Type ℓ} → List A → List Bool
nowhere = map (λ _. false)

mem-gone :
    (m : ℕ) (ls : List (List ℕ))
    → All Increasing ls
    → All (Above m) ls
    → map (mem m) (map (drop_head m) ls) ≡ nowhere ls
mem-gone m [] i a = refl
mem-gone m (l ∷ ls) (i, is) (a, above) = λ j. drop_head-mem m l i a j ∷ mem-gone m ls is above j

All-map_drop {κ} :
    (P : List ℕ → Type κ) (m : ℕ) (ls : List (List ℕ))
    → ((l : List ℕ) → P l → P (drop_head m l))
    → All P ls
    → All P (map (drop_head m) ls)
All-map_drop P m [] f h = tt
All-map_drop P m (l ∷ ls) f (h, hs) = (f l h, All-map_drop P m ls f hs)

-- What a choice of keys has to be: `more` fails only where nothing is given any more, and holds only
-- where some stream has a key.
pub record Chooses (more gives : Choice) : Type 0 where
  pub goes_on : (ls : List (List ℕ)) → more (map has_some ls) ≡ true → least_head ls ≢ none
  pub stops :
      (k : ℕ) (ls : List (List ℕ)) → more (map has_some ls) ≡ false → gives (map (mem k) ls) ≡ false
  pub nothing : (ls : List (List ℕ)) → gives (nowhere ls) ≡ false

given_other : (k m : ℕ) (b : Bool) (out : List ℕ) → k ≢ m → mem k (given b m out) ≡ mem k out
given_other k m true out ne = ground arith
given_other k m false out ne = refl

given_same : (m : ℕ) (b : Bool) (out : List ℕ) → mem m out ≡ false → mem m (given b m out) ≡ b
given_same m true out e = ground arith
given_same m false out e = e

abbrev Over : ℕ → Option ℕ → Type 0
Over c none = Unit
Over c (some n) = c < n

lesser-Over : (c : ℕ) (a b : Option ℕ) → Over c a → Over c b → Over c (lesser a b)
lesser-Over c none b ha hb = hb
lesser-Over c (some a) none ha hb = ha
lesser-Over c (some a) (some b) ha hb = ground arith

least_head-Over : (c : ℕ) (ls : List (List ℕ)) → All (All (c <◌)) ls → Over c (least_head ls)
least_head-Over c [] h = tt
least_head-Over c ([] ∷ ls) (h, hs) = least_head-Over c ls hs
least_head-Over c ((k ∷ ks) ∷ ls) (h, hs) =
    lesser-Over c (some k) (least_head ls) h.0 (least_head-Over c ls hs)

-- Behind a key taken, the streams have only larger ones.
behind_least :
    (m : ℕ) (ls : List (List ℕ))
    → All Increasing ls
    → All (Above m) ls
    → All (All (m <◌)) (map (drop_head m) ls)
behind_least m [] i a = tt
behind_least m (l ∷ ls) (i, is) (a, above) = (drop_head-Above m l i a, behind_least m ls is above)

module _ (more gives : Choice) (choice : Chooses more gives) where
  -- One step, from what the steps after it give.
  after_least :
      (k m : ℕ) (ls : List (List ℕ)) (out : List ℕ)
      → All Increasing ls
      → All (Above m) ls
      → mem k out ≡ gives (map (mem k) (map (drop_head m) ls))
      → mem k (given (gives (map (head_is m) ls)) m out) ≡ gives (map (mem k) ls)
  after_least k m ls out i a e = elim (Bool-cases (k == m)) [
    | inl same ↦
        let eq = (==_iff k m).0 same in
        rw eq (
          given_same m _ out
            (rw (sym eq) (e ∙ rw eq (ap gives (mem-gone m ls i a) ∙ choice.nothing ls)))
          ∙ ap gives (heads_at m ls i a))
    | inr other ↦ another (λ same. ground arith)
  ]
    where
      another : k ≢ m → mem k (given (gives (map (head_is m) ls)) m out) ≡ gives (map (mem k) ls)
      another ne = given_other k m _ out ne ∙ e ∙ ap gives (mem-rest k m ls ne)

  pub keys_run-mem :
      (k n : ℕ) (ls : List (List ℕ))
      → All Increasing ls
      → total ls < n
      → mem k (keys_run more gives n ls) ≡ gives (map (mem k) ls)
  unfolding keys_run
  keys_run-mem k zero ls i h = absurd (omega arith)
  keys_run-mem k (suc n) ls i h = elim (Bool-cases (more (map has_some ls))) [
    | inl e ↦ elim (Option-cases (least_head ls)) [
      | inl empty ↦ absurd (choice.goes_on ls e empty)
      | inr (m, least) ↦
          rw (e, least)
            (after_least k m ls _ i (least-Above m ls least) (
              keys_run-mem k n (map (drop_head m) ls)
                (All-map_drop Increasing m ls (drop_head-Increasing m) i)
                (omega (arith, total_less m ls least))))
    ]
    | inr e ↦ rw e (sym (choice.stops k ls e))
  ]

module _ (more gives : Choice) where
  least-All :
      (c : ℕ) (go_on : List (List ℕ) → List ℕ) (ls : List (List ℕ)) (o : Option ℕ)
      → Over c o
      → ((m : ℕ) → All (c <◌) (go_on (map (drop_head m) ls)))
      → All (c <◌) (take_least gives go_on ls o)
  least-All c go_on ls none h f = tt
  least-All c go_on ls (some m) h f =
      if_either (All (c <◌)) (gives (map (head_is m) ls)) (m ∷ go_on (map (drop_head m) ls)) _
        (h, f m) (f m)

  keys_run-All :
      (c n : ℕ) (ls : List (List ℕ)) → All (All (c <◌)) ls → All (c <◌) (keys_run more gives n ls)
  unfolding keys_run
  keys_run-All c zero ls h = tt
  keys_run-All c (suc n) ls h =
      if_either (All (c <◌)) (more (map has_some ls)) _ []
        (least-All c (keys_run more gives n) ls (least_head ls) (least_head-Over c ls h) (λ m.
          keys_run-All c n (map (drop_head m) ls)
            (All-map_drop (All (c <◌)) m ls (drop_head-All (c <◌) m) h)))
        tt

  given-Increasing :
      (b : Bool) (m : ℕ) (out : List ℕ)
      → All (m <◌) out
      → Increasing out
      → Increasing (given b m out)
  given-Increasing true m out h i = (h, i)
  given-Increasing false m out h i = i

  least-Increasing :
      (n : ℕ) (ls : List (List ℕ)) (o : Option ℕ)
      → least_head ls ≡ o
      → All Increasing ls
      → ((m : ℕ) → Increasing (keys_run more gives n (map (drop_head m) ls)))
      → Increasing (take_least gives (keys_run more gives n) ls o)
  least-Increasing n ls none e i f = tt
  least-Increasing n ls (some m) e i f =
      given-Increasing _ m _
        (keys_run-All m n (map (drop_head m) ls) (behind_least m ls i (least-Above m ls e))) (f m)

  pub keys_run-Increasing :
      (n : ℕ) (ls : List (List ℕ)) → All Increasing ls → Increasing (keys_run more gives n ls)
  unfolding keys_run
  keys_run-Increasing zero ls i = tt
  keys_run-Increasing (suc n) ls i =
      if_either Increasing (more (map has_some ls)) _ []
        (least-Increasing n ls (least_head ls) refl i (λ m.
          keys_run-Increasing n (map (drop_head m) ls)
            (All-map_drop Increasing m ls (drop_head-Increasing m) i)))
        tt
