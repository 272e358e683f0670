-- ===== src/Sealed/Sealing.antt =====
-- `seal_file` writes the batches of Sealed/Batches.antt, each encrypted, and closes the file.
use yee_z_privacy_computing.Base.{
  ℕ, suc, ◌+◌, ◌^◌, ◌≤◌, ◌<◌, ◌≡◌, refl, ap, ◌∙◌, inl, inr, true, false, List, [], ◌∷◌, ◌++◌, arith,
  Bytes, leb, Bool-cases, length, is_empty, All,
}
use mathlib.Core.Path.{subst}
use mathlib.Core.List.{append_assoc, append-nil}
use yee_z_privacy_computing.Blockfile.Result.{Result, ok, Params}
use yee_z_privacy_computing.Blockfile.Tail.{Blockfile, append_item, close}
use yee_z_privacy_computing.Blockfile.Tail.Append.{Holds, Fits, append_item-Holds}
use yee_z_privacy_computing.Blockfile.Tail.Closing.{on_disk, close-Holds}
use yee_z_privacy_computing.Blockfile.Tail.Session.{
  Fits-prefix, fresh, open_for_write-fresh, fresh-Holds,
}
use yee_z_privacy_computing.Sealed.Library.{
  Library, IsPrivateKey, fidelius, max_item_size, Outcome, gives, ◌>>=◌,
}
use yee_z_privacy_computing.Sealed.Writer.{
  of_result, Sealing, write_batch, flush, flush_if_full, push_back, seal_item, next_read, seal_loop,
  seal_rest, sealing, seal_all, seal_file,
}
use yee_z_privacy_computing.Sealed.Batches.{batches, concat, concat-batches, chain, ciphers}

-- An item that `seal_file` takes.
pub record IsItem (x : Bytes) : Type 0 where
  pub some_bytes : 0 < length x
  pub not_too_large : length x ≤ max_item_size

is_empty_some : (x : Bytes) → 0 < length x → is_empty x ≡ false
is_empty_some [] h = absurd (omega (arith, h))
is_empty_some (b ∷ x) h = refl

-- The state behind a batch that is written into the file `f`.
abbrev flushed : Blockfile → Sealing → Sealing
flushed f s = record s { file = f; calls = s.calls + 1; batch = []; batch_size = 0 }

write_batch_step :
    (l : Library) (c : Params) (pkey : Bytes) (s : Sealing) (f : Blockfile)
    → (l.encrypt_message_with_prefix s.calls pkey (l.batch_to_bytes s.batch)).0 ≡ 0
    → append_item c (l.encrypt_message_with_prefix s.calls pkey (l.batch_to_bytes s.batch)).1 s.file
      ≡ ok f
    → flush l c pkey s ≡ gives (flushed f s)
unfolding flush write_batch
write_batch_step l c pkey s f e a = ground (arith, e, a)

module _ (l : Library) (c : Params) (skey : Bytes) (key : IsPrivateKey l skey) where
  abbrev its_pkey : Bytes
  its_pkey = l.generate_pkey_from_skey skey

  abbrev cipher : Sealing → Bytes
  cipher s = (l.encrypt_message_with_prefix s.calls its_pkey (l.batch_to_bytes s.batch)).1

  flush-Holds :
      (done : List Bytes) (s : Sealing)
      → Holds c done s.file
      → Fits c (done ++ cipher s ∷ [])
      → (f : Blockfile) × (flush l c its_pkey s ≡ gives (flushed f s))
        × Holds c (done ++ cipher s ∷ []) f
  flush-Holds done s h fits =
      let (f, e, h') = append_item-Holds c done (cipher s) s.file h fits in
      (f, write_batch_step l c its_pkey s f (key.encrypts s.calls (l.batch_to_bytes s.batch)) e, h')

  flushes_full :
      (p : Sealing)
      → leb max_item_size p.batch_size ≡ true
      → flush_if_full l c its_pkey p ≡ flush l c its_pkey p
  unfolding flush_if_full
  flushes_full p e = rw e refl

  keeps_open :
      (p : Sealing)
      → leb max_item_size p.batch_size ≡ false
      → flush_if_full l c its_pkey p ≡ gives p
  unfolding flush_if_full
  keeps_open p e = rw e refl

  -- One more round of the loop.
  abbrev counted : Bytes → Sealing → Sealing
  counted item w = record w {
    data_hash = l.hash_256 (w.data_hash ++ item);
    counter = w.counter + 1;
  }

  seal_loop_step :
      (number : ℕ) (item : Bytes) (reads : List Bytes) (s w : Sealing)
      → flush_if_full l c its_pkey (push_back item s) ≡ gives w
      → IsItem item
      → s.counter < number
      → w.counter + 1 < 2 ^ 32
      → length (next_read reads) ≤ max_item_size
      → seal_loop l c its_pkey number (item ∷ reads) s
        ≡ seal_loop l c its_pkey number reads (counted item w)
  unfolding seal_loop seal_item
  seal_loop_step number item reads s w e ok_item lt lt32 next =
      ground (arith, e, is_empty_some item ok_item.some_bytes, next)

  -- What is left to be written from the state `s`.
  abbrev to_write : Sealing → List Bytes → List Bytes
  to_write s reads = ciphers l its_pkey s.calls (batches s.batch s.batch_size reads)

  record Sealed (done : List Bytes) (s : Sealing) (reads : List Bytes) (s' : Sealing) : Type 0 where
    file_holds : Holds c (done ++ to_write s reads) s'.file
    hash_is : s'.data_hash ≡ chain l s.data_hash reads

  nothing_left : (s : Sealing) → is_empty s.batch ≡ true → to_write s [] ≡ []
  nothing_left s e = rw e refl

  batch_left : (s : Sealing) → is_empty s.batch ≡ false → to_write s [] ≡ cipher s ∷ []
  batch_left s e = rw e refl

  seal_end :
      (number : ℕ) (done : List Bytes) (s : Sealing)
      → Holds c done s.file
      → Fits c (done ++ to_write s [])
      → (s' : Sealing) × (seal_loop l c its_pkey number [] s >>= seal_rest l c its_pkey
          ≡ gives (0, s'))
        × Sealed done s [] s'
  unfolding seal_loop seal_rest
  seal_end number done s h fits = elim (Bool-cases (is_empty s.batch)) [
    | inl e ↦ (
      s,
      ground (arith, e),
      record { file_holds = rw (nothing_left s e, append-nil done) h; hash_is = refl },
    )
    | inr e ↦
        let (f, flushes, h') =
          flush-Holds done s h (subst (λ xs. Fits c (done ++ xs)) (batch_left s e) fits) in
        (
          flushed f s,
          ground (arith, e, flushes),
          record { file_holds = rw (batch_left s e) h'; hash_is = refl },
        )
  ]

  full_batch :
      (s : Sealing) (item : Bytes) (reads : List Bytes)
      → leb max_item_size (s.batch_size + length item) ≡ true
      → (f : Blockfile)
      → to_write s (item ∷ reads)
        ≡ cipher (push_back item s) ∷ to_write (counted item (flushed f (push_back item s))) reads
  full_batch s item reads e f = rw e refl

  open_batch :
      (s : Sealing) (item : Bytes) (reads : List Bytes)
      → leb max_item_size (s.batch_size + length item) ≡ false
      → to_write s (item ∷ reads) ≡ to_write (counted item (push_back item s)) reads
  open_batch s item reads e = rw e refl

  next_read_small :
      (reads : List Bytes) → All IsItem reads → length (next_read reads) ≤ max_item_size
  next_read_small [] ok_items = omega arith
  next_read_small (x ∷ xs) (ok_item, ok_items) = ok_item.not_too_large

  seal_loop-Sealed :
      (number : ℕ) (reads : List Bytes) (done : List Bytes) (s : Sealing)
      → Holds c done s.file
      → All IsItem reads
      → s.counter + length reads ≤ number
      → s.counter + length reads < 2 ^ 32
      → Fits c (done ++ to_write s reads)
      → (s' : Sealing) × (seal_loop l c its_pkey number reads s >>= seal_rest l c its_pkey
          ≡ gives (0, s'))
        × Sealed done s reads s'
  seal_loop-Sealed number [] done s h ok_items le lt fits = seal_end number done s h fits
  seal_loop-Sealed number (item ∷ reads) done s h (ok_item, ok_items) le lt fits =
      elim (Bool-cases (leb max_item_size (s.batch_size + length item))) [
        | inl e ↦
            let p = push_back item s in
            let fits' : (f : Blockfile)
                → Fits c (done ++ (cipher p ∷ to_write (counted item (flushed f p)) reads)) =
              λ f. subst (λ xs. Fits c (done ++ xs)) (full_batch s item reads e f) fits in
            let fits1 : (f : Blockfile)
                → Fits c ((done ++ cipher p ∷ []) ++ to_write (counted item (flushed f p)) reads) =
              λ f.
                rw (append_assoc done (cipher p ∷ []) (to_write (counted item (flushed f p)) reads))
                  (fits' f) in
            let (f, flushes, h1) = flush-Holds done p h (
              Fits-prefix c (done ++ cipher p ∷ [])
                (to_write (counted item (flushed p.file p)) reads) (fits1 p.file)) in
            let (s', runs, sealed) =
              seal_loop-Sealed number reads (done ++ cipher p ∷ []) (counted item (flushed f p)) h1
                ok_items (omega arith) (omega arith) (fits1 f) in
            (
              s',
              ap (λ (r : Outcome (ℕ × Sealing)). r >>= seal_rest l c its_pkey)
                    (seal_loop_step number item reads s (flushed f p) (flushes_full p e ∙ flushes)
                      ok_item (omega arith) (omega arith) (next_read_small reads ok_items))
                  ∙ runs,
              record {
                file_holds = rw (full_batch s item reads e f) (
                    subst (λ xs. Holds c xs s'.file)
                      (append_assoc done (cipher p ∷ [])
                        (to_write (counted item (flushed f p)) reads))
                      sealed.file_holds);
                hash_is = sealed.hash_is;
              },
            )
        | inr e ↦
            let p = push_back item s in
            let (s', runs, sealed) =
              seal_loop-Sealed number reads done (counted item p) h ok_items (omega arith)
                (omega arith)
                (subst (λ xs. Fits c (done ++ xs)) (open_batch s item reads e) fits) in
            (
              s',
              ap (λ (r : Outcome (ℕ × Sealing)). r >>= seal_rest l c its_pkey)
                    (seal_loop_step number item reads s p (keeps_open p e) ok_item (omega arith)
                      (omega arith) (next_read_small reads ok_items))
                  ∙ runs,
              record {
                file_holds = rw (open_batch s item reads e) sealed.file_holds;
                hash_is = sealed.hash_is;
              },
            )
      ]

pub length-ciphers :
    (l : Library) (pkey : Bytes) (k : ℕ) (bs : List (List Bytes))
    → length (ciphers l pkey k bs) ≡ length bs
length-ciphers l pkey k [] = refl
length-ciphers l pkey k (b ∷ bs) = ap suc (length-ciphers l pkey (k + 1) bs)

pub batches_some :
    (bs : List (List Bytes)) (xs : List Bytes) → concat bs ≡ xs → 0 < length xs → 0 < length bs
batches_some [] xs e h = absurd (omega (arith, ap length e))
batches_some (b ∷ bs) xs e h = omega arith

-- The ciphers that `seal_file` writes for `items`.
abbrev pub sealed_items : Library → Bytes → List Bytes → List Bytes
sealed_items l skey items = ciphers l (l.generate_pkey_from_skey skey) 0 (batches [] 0 items)

seal_file_step :
    (l : Library) (c : Params) (pkey : Bytes) (number status : ℕ) (reads : List Bytes) (s : Sealing)
    (content : Bytes) (b' : Blockfile)
    → seal_all l c pkey number reads (sealing l (fresh c)) ≡ gives (status, s)
    → close s.file ≡ ok (content, b')
    → seal_file l c pkey number reads ≡ gives (status, s.data_hash, content)
unfolding seal_file
seal_file_step l c pkey number status reads s content b' e1 e2 =
    ap
      (λ (r : Result Blockfile). of_result r >>= λ (f : Blockfile).
        (seal_all l c pkey number reads (sealing l f) >>= λ (p : ℕ × Sealing).
        (of_result (close p.1.file) >>= λ (q : Bytes × Blockfile).
        gives (p.0, p.1.data_hash, q.0))))
      (open_for_write-fresh c)
    ∙ (ap
          (λ (r : Outcome (ℕ × Sealing)). r >>= λ (p : ℕ × Sealing).
            (of_result (close p.1.file) >>= λ (q : Bytes × Blockfile).
            gives (p.0, p.1.data_hash, q.0)))
          e1
        ∙ ap
            (λ (r : Result (Bytes × Blockfile)).
              of_result r >>= λ (q : Bytes × Blockfile). gives (status, s.data_hash, q.0))
            e2)

pub seal_file-Holds :
    (l : Library) (c : Params) (skey : Bytes) (number : ℕ) (reads : List Bytes)
    → IsPrivateKey l skey
    → All IsItem reads
    → 0 < length reads
    → length reads ≤ number
    → length reads < 2 ^ 32
    → Fits c (sealed_items l skey reads)
    → (b : Blockfile) × Holds c (sealed_items l skey reads) b
      × (seal_file l c (l.generate_pkey_from_skey skey) number reads
          ≡ gives (0, chain l (l.hash_256 fidelius) reads, on_disk (sealed_items l skey reads) b))
unfolding seal_all
seal_file-Holds l c skey number reads key ok_items some_item le lt fits =
    let pkey = l.generate_pkey_from_skey skey in
    let (s', runs, sealed) =
      seal_loop-Sealed l c skey key number reads [] (sealing l (fresh c)) (fresh-Holds c) ok_items
        (omega arith) (omega arith) fits in
    let (b', closes) = close-Holds c (sealed_items l skey reads) s'.file sealed.file_holds fits (
      omega (
        arith,
        length-ciphers l pkey 0 (batches [] 0 reads),
        batches_some (batches [] 0 reads) reads (concat-batches [] 0 reads) some_item,
      )) in
    (
      s'.file,
      sealed.file_holds,
      seal_file_step l c pkey number 0 reads s' (on_disk (sealed_items l skey reads) s'.file) b'
            (ground (arith, next_read_small l c skey key reads ok_items, runs)) closes
          ∙ λ i. gives (0, sealed.hash_is i, on_disk (sealed_items l skey reads) s'.file),
    )
