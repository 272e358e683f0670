-- ===== src/Hpda/Engine/Removal.antt =====
-- `remove_functor` takes every occurrence of a functor out.
use yee_z_privacy_computing.Base.{
  ℕ, zero, suc, ◌+◌, ◌<◌, ◌≡◌, refl, sym, ap, ◌∙◌, inl, inr, Bool, true, false, List, [], ◌∷◌,
  arith, some, ◌==◌, if◌then◌else◌, Bool-cases, length,
}
use yee_z_privacy_computing.Hpda.Engine.{keep_before, erase_first, remove_loop, remove_functor}

abbrev pub without : ℕ → List ℕ → List ℕ
without f [] = []
without f (g ∷ functors) = if g == f then without f functors else g ∷ without f functors

-- What an erasure leaves.
abbrev Erases : ℕ → List ℕ → Bool × List ℕ → Type 0
Erases f functors (true, rest) =
    (length functors ≡ suc (length rest)) × (without f rest ≡ without f functors)
Erases f functors (false, rest) = (rest ≡ functors) × (without f functors ≡ functors)

Erases-keep_before :
    (f g : ℕ) (functors : List ℕ) (r : Bool × List ℕ)
    → (g == f) ≡ false
    → Erases f functors r
    → Erases f (g ∷ functors) (keep_before g r)
Erases-keep_before f g functors (true, rest) ne (len, same) = (omega arith, rw ne (ap (g ∷◌) same))
Erases-keep_before f g functors (false, rest) ne (same, gone) =
    (ap (g ∷◌) same, rw ne (ap (g ∷◌) gone))

erase_first-Erases : (f : ℕ) (functors : List ℕ) → Erases f functors (erase_first f functors)
unfolding erase_first
erase_first-Erases f [] = (refl, refl)
erase_first-Erases f (g ∷ functors) = elim (Bool-cases (g == f)) [
  | inl e ↦ rw e (refl, sym (dropped e))
  | inr e ↦
      rw e
        (Erases-keep_before f g functors (erase_first f functors) e (erase_first-Erases f functors))
]
  where
    dropped : (g == f) ≡ true → without f (g ∷ functors) ≡ without f functors
    dropped e = rw e refl

looped :
    (n f : ℕ) (functors : List ℕ) (r : Bool × List ℕ)
    → Erases f functors r
    → ((rest : List ℕ)
        → length functors ≡ suc (length rest)
        → remove_loop n f rest ≡ some (without f rest))
    → (if r.0 then remove_loop n f r.1 else some r.1) ≡ some (without f functors)
looped n f functors (true, rest) (len, same) later = later rest len ∙ ap some same
looped n f functors (false, rest) (same, gone) later = ap some (same ∙ sym gone)

remove_loop-without :
    (n f : ℕ) (functors : List ℕ)
    → length functors < n
    → remove_loop n f functors ≡ some (without f functors)
unfolding remove_loop
remove_loop-without zero f functors h = absurd (omega arith)
remove_loop-without (suc n) f functors h =
    looped n f functors (erase_first f functors) (erase_first-Erases f functors)
      (λ rest len. remove_loop-without n f rest (omega arith))

-- However often the functor was added, and wherever: the loop of `remove_functor` ends within one round
-- more than there are functors, and leaves those that are not `f`, in their order.
pub remove_functor-without :
    (f : ℕ) (functors : List ℕ) (n : ℕ)
    → (remove_functor f functors ≡ some (without f functors))
      × (remove_loop (n + suc (length functors)) f functors ≡ some (without f functors))
remove_functor-without f functors n = (
  remove_loop-without (suc (length functors)) f functors (omega arith),
  remove_loop-without (n + suc (length functors)) f functors (omega arith),
)
