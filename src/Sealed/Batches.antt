-- ===== src/Sealed/Batches.antt =====
-- What the loop of `seal_file` puts into the file, without the file: how it cuts the items into
-- batches, and the hash chain over them.
use yee_z_privacy_computing.Base.{
  ℕ, ◌+◌, ◌<◌, ◌≡◌, refl, sym, ap, ◌∙◌, inl, inr, List, [], ◌∷◌, ◌++◌, arith, Bytes, leb,
  if◌then◌else◌, Bool-cases, length, is_empty, All, length-append,
}
use mathlib.Core.List.{append_assoc, append-nil}
use yee_z_privacy_computing.Sealed.Library.{Library, max_item_size}

-- The batches written from a state that holds `batch`.
abbrev pub batches : List Bytes → ℕ → List Bytes → List (List Bytes)
batches batch size [] = if is_empty batch then [] else batch ∷ []
batches batch size (x ∷ xs) =
    if leb max_item_size (size + length x)
    then (batch ++ x ∷ []) ∷ batches [] 0 xs
    else batches (batch ++ x ∷ []) (size + length x) xs

abbrev pub concat {ℓ} : {A : Type ℓ} → List (List A) → List A
concat [] = []
concat (xs ∷ xss) = xs ++ concat xss

-- H(... H(H(h ++ x1) ++ x2) ...).
abbrev pub chain : Library → Bytes → List Bytes → Bytes
chain l h [] = h
chain l h (x ∷ xs) = chain l (l.hash_256 (h ++ x)) xs

pub chain-append :
    (l : Library) (h : Bytes) (xs ys : List Bytes)
    → chain l h (xs ++ ys) ≡ chain l (chain l h xs) ys
chain-append l h [] ys = refl
chain-append l h (x ∷ xs) ys = chain-append l (l.hash_256 (h ++ x)) xs ys

-- No item is lost or moved.
pub concat-batches :
    (batch : List Bytes) (size : ℕ) (xs : List Bytes) → concat (batches batch size xs) ≡ batch ++ xs
concat-batches [] size [] = refl
concat-batches (b ∷ batch) size [] = append-nil (b ∷ batch) ∙ sym (append-nil (b ∷ batch))
concat-batches batch size (x ∷ xs) = elim (Bool-cases (leb max_item_size (size + length x))) [
  | inl full ↦
      rw full (ap ((batch ++ x ∷ []) ++◌) (concat-batches [] 0 xs) ∙ append_assoc batch (x ∷ []) xs)
  | inr more ↦
      rw more
        (concat-batches (batch ++ x ∷ []) (size + length x) xs ∙ append_assoc batch (x ∷ []) xs)
]

-- A batch that `seal_file` writes has at least one item.
abbrev pub Filled : List Bytes → Type 0
Filled b = 0 < length b

pub batches-Filled :
    (batch : List Bytes) (size : ℕ) (xs : List Bytes) → All Filled (batches batch size xs)
batches-Filled [] size [] = tt
batches-Filled (b ∷ batch) size [] = (omega arith, tt)
batches-Filled batch size (x ∷ xs) = elim (Bool-cases (leb max_item_size (size + length x))) [
  | inl full ↦ rw full (omega (arith, length-append batch (x ∷ [])), batches-Filled [] 0 xs)
  | inr more ↦ rw more (batches-Filled (batch ++ x ∷ []) (size + length x) xs)
]

-- The ciphers of the batches, from the `k`-th encryption on.
abbrev pub ciphers : Library → Bytes → ℕ → List (List Bytes) → List Bytes
ciphers l pkey k [] = []
ciphers l pkey k (b ∷ bs) =
    (l.encrypt_message_with_prefix k pkey (l.batch_to_bytes b)).1 ∷ ciphers l pkey (k + 1) bs
