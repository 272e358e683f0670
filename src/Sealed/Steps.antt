-- ===== src/Sealed/Steps.antt =====
-- One call of `process`: within a batch, at its end, and behind the last batch.
use yee_z_privacy_computing.Base.{
  ℕ, zero, suc, ◌+◌, ◌%◌, ◌^◌, ◌<◌, ◌≡◌, refl, ap, ◌∙◌, inl, inr, Bool, true, false, Option, some,
  List, [], ◌∷◌, ◌++◌, arith, Bytes, ltb, if◌then◌else◌, Bool-cases, length, get_elem?, take_all,
  bytes_eq,
}
use mathlib.Core.Path.{subst}
use mathlib.Core.Option.{none-ne-some}
use yee_z_privacy_computing.Blockfile.Result.{Result, ok, ◌>>=◌, NextItem, succ, u64}
use yee_z_privacy_computing.Blockfile.Tail.{Blockfile, next_item}
use yee_z_privacy_computing.Status.{success}
use yee_z_privacy_computing.Sealed.Library.{Library}
use yee_z_privacy_computing.Sealed.Provider.{
  Host, find_source, set_source, batch_answer, read_source, answer_from, next_data_batch, Provider,
  hash_items, reach_end, take_batch, open_batch, hash_and_pkey, fetch, process, output_value,
}

-- The outputs of the calls of `process` up to the one that returns false, in at most `n` calls.
abbrev pub drain_more :
    Option Bytes
    → Result (List (Option Bytes) × Provider × Host)
    → Result (List (Option Bytes) × Provider × Host)
drain_more out r = do (outs, p, host) ← r; ok (out ∷ outs, p, host)

abbrev pub drain_on :
    (Provider → Host → Result (List (Option Bytes) × Provider × Host))
    → (Bool × Provider) × Host
    → Result (List (Option Bytes) × Provider × Host)
drain_on more ((true, p), host) = drain_more (output_value p) (more p host)
drain_on more ((false, p), host) = ok ([], p, host)

abbrev pub drain : Library → ℕ → Provider → Host → Result (List (Option Bytes) × Provider × Host)
drain l zero p host = ok ([], p, host)
drain l (suc n) p host = process l p host >>= drain_on (drain l n)

pub find-set_source :
    (key : Bytes) (file old : Blockfile) (sources : List (Bytes × Blockfile))
    → find_source key sources ≡ some old
    → find_source key (set_source key file sources) ≡ some file
find-set_source key file old [] e = absurd (none-ne-some old e)
find-set_source key file old ((k, f) ∷ sources) e = elim (Bool-cases (bytes_eq k key)) [
  | inl here ↦ rw (here, here) refl
  | inr there ↦
      rw (there, there)
        (find-set_source key file old sources
          (subst (λ b. (if b then some f else find_source key sources) ≡ some old) there e))
]

pub get_elem?-middle {ℓ} :
    {A : Type ℓ} (xs : List A) (y : A) (ys : List A) → get_elem? (xs ++ y ∷ ys) (length xs) ≡ some y
get_elem?-middle [] y ys = refl
get_elem?-middle (x ∷ xs) y ys = get_elem?-middle xs y ys

-- The three ways of `process`.
pub process_next :
    (l : Library) (p : Provider) (host : Host)
    → p.data_reach_end ≡ false
    → p.item_index + 1 < length p.items
    → length p.items < 2 ^ 64
    → process l p host ≡ ok ((true, record p { item_index = p.item_index + 1 }), host)
unfolding process
process_next l p host e lt fit = ground arith

pub process-fetch :
    (l : Library) (p : Provider) (host : Host)
    → p.data_reach_end ≡ false
    → ltb (u64 (p.item_index + 1)) (length p.items) ≡ false
    → process l p host ≡ fetch l p host
unfolding process
process-fetch l p host e last = rw (e, last) refl

abbrev pub moved : Provider → Blockfile → Host → Host
moved p file host = record host {
  data_sources = set_source (hash_and_pkey p) file host.data_sources;
}

batch_answer_whole :
    (s : Bytes) → 0 < length s → length s < 2 ^ 32 → batch_answer (succ s (length s)) ≡ (success, s)
batch_answer_whole s pos small = ground (arith, take_all s (length s % 2 ^ 32))

read_step :
    (l : Library) (p : Provider) (host : Host) (file file' : Blockfile) (s : Bytes)
    → next_item (some host.mem_buf_size) file ≡ ok (succ s (length s), file')
    → read_source (hash_and_pkey p) file host
      ≡ ok (batch_answer (succ s (length s)), moved p file' host)
unfolding read_source
read_step l p host file file' s e =
    ap
      (λ (r : Result (NextItem × Blockfile)).
        r >>= λ (q : NextItem × Blockfile). ok (batch_answer q.0, moved p q.1 host))
      e

pub fetch_step :
    (l : Library) (p : Provider) (host : Host) (file file' : Blockfile) (s : Bytes)
    → find_source (hash_and_pkey p) host.data_sources ≡ some file
    → next_item (some host.mem_buf_size) file ≡ ok (succ s (length s), file')
    → fetch l p host ≡ ok (open_batch l (batch_answer (succ s (length s))) p, moved p file' host)
unfolding fetch next_data_batch
fetch_step l p host file file' s found e =
    ap
      (λ (o : Option Blockfile).
        answer_from (hash_and_pkey p) host o >>= λ (q : (ℕ × Bytes) × Host).
        ok (open_batch l q.0 p, q.1))
      found
    ∙ (ap
        (λ (r : Result ((ℕ × Bytes) × Host)).
          r >>= λ (q : (ℕ × Bytes) × Host). ok (open_batch l q.0 p, q.1))
        (read_step l p host file file' s e))

-- The provider behind a batch.
abbrev pub loaded : Library → Bytes → List Bytes → Provider → Provider
loaded l y ys p = record p {
  items = y ∷ ys;
  actual_data_hash = hash_items l p.actual_data_hash (y ∷ ys);
  item_index = 0;
}

pub open_batch_step :
    (l : Library) (p : Provider) (s b : Bytes) (y : Bytes) (ys : List Bytes)
    → 0 < length s
    → length s < 2 ^ 32
    → l.decrypt_message_with_prefix p.private_key s ≡ (0, b)
    → l.batch_from_bytes b ≡ some (y ∷ ys)
    → open_batch l (batch_answer (succ s (length s))) p ≡ (true, loaded l y ys p)
unfolding open_batch take_batch
open_batch_step l p s b y ys pos small d e =
    ap (λ a. open_batch l a p) (batch_answer_whole s pos small) ∙ opened
  where
    opened : open_batch l (success, s) p ≡ (true, loaded l y ys p)
    opened = rw (d, e) refl

pub open_batch_end :
    (l : Library) (p : Provider) → open_batch l (batch_answer (succ [] 0)) p ≡ reach_end p
unfolding open_batch
open_batch_end l p = refl
