-- ===== src/Sealed/Draining.antt =====
-- An analyzer that calls `process` until it returns false gets every item of a sealed file once, in
-- order.
use yee_z_privacy_computing.Base.{
  ℕ, zero, suc, ◌+◌, ◌^◌, ◌≤◌, ◌<◌, ◌≡◌, refl, sym, ap, ◌∙◌, ◌⊎◌, inl, inr, Bool, true, false, some,
  List, [], ◌∷◌, ◌++◌, map, arith, Bytes, ltb, length, All, length-append,
}
use mathlib.Core.Path.{subst}
use mathlib.Core.List.{append_assoc, append-nil}
use yee_z_privacy_computing.Blockfile.Stream.Laws.{IsGood}
use yee_z_privacy_computing.Blockfile.Codec.{u64_bytes}
use yee_z_privacy_computing.Blockfile.Codec.Laws.{length-le_bytes}
use yee_z_privacy_computing.Blockfile.Result.{Result, ok, ◌>>=◌, succ, u64}
use yee_z_privacy_computing.Blockfile.Tail.{Blockfile}
use yee_z_privacy_computing.Blockfile.Tail.Layout.{encode}
use yee_z_privacy_computing.Blockfile.Tail.Items.{At, next_item-At, Within}
use yee_z_privacy_computing.Sealed.Library.{Library, IsCodec, IsPrivateKey}
use yee_z_privacy_computing.Sealed.Provider.{
  Host, find_source, batch_answer, Provider, hash_items, open_batch, hash_and_pkey, fetch, process,
  output_value,
}
use yee_z_privacy_computing.Sealed.Batches.{concat, chain, chain-append, ciphers}
use yee_z_privacy_computing.Sealed.Steps.{
  drain, drain_on, drain_more, find-set_source, get_elem?-middle, process_next, process-fetch,
  moved, fetch_step, loaded, open_batch_step, open_batch_end,
}

-- The provider stands in a batch of which the items `cur` are still to come, and the ciphers of the
-- batches `bs` follow in the file.
pub record Reading (l : Library) (skey : Bytes) (k : ℕ) (bs : List (List Bytes)) (cur : List Bytes)
    (p : Provider) (host : Host) (file : Blockfile) (done : List Bytes) (pre rest : Bytes)
    : Type 0 where
  pub not_end : p.data_reach_end ≡ false
  pub skey_is : p.private_key ≡ skey
  pub items_are : p.items ≡ done ++ cur
  pub index_is : (p.items ≡ []) ⊎ (p.item_index + 1 ≡ length done)
  pub items_fit : length p.items < 2 ^ 64
  pub found : find_source (hash_and_pkey p) host.data_sources ≡ some file
  pub file_good : IsGood file.file
  pub content_is :
      file.file.content
      ≡ pre ++ (encode (ciphers l (l.generate_pkey_from_skey skey) k bs ++ [] ∷ []) ++ rest)
  pub pos_is : file.file.pos ≡ length pre

pub record Drained (l : Library) (n : ℕ) (outs : List Bytes) (h : Bytes) (p : Provider)
    (host : Host) : Type 0 where
  pub last : Provider
  pub host_behind : Host
  pub drains : drain l n p host ≡ ok (map some outs, last, host_behind)
  pub reached : last.data_reach_end ≡ true
  pub hash_is : last.actual_data_hash ≡ h
  pub expect_kept : last.expect_data_hash ≡ p.expect_data_hash

drain_true :
    (l : Library) (n : ℕ) (p p' : Provider) (host host' : Host) (y : Bytes) (outs : List Bytes)
    (h : Bytes)
    → process l p host ≡ ok ((true, p'), host')
    → output_value p' ≡ some y
    → p'.expect_data_hash ≡ p.expect_data_hash
    → Drained l n outs h p' host'
    → Drained l (suc n) (y ∷ outs) h p host
drain_true l n p p' host host' y outs h e out same d = record {
  last = d.last;
  host_behind = d.host_behind;
  drains =
      ap (λ (r : Result ((Bool × Provider) × Host)). r >>= drain_on (drain l n)) e
      ∙ (ap (λ o. drain_more o (drain l n p' host')) out ∙ ap (drain_more (some y)) d.drains);
  reached = d.reached;
  hash_is = d.hash_is;
  expect_kept = d.expect_kept ∙ same;
}

drain_false :
    (l : Library) (n : ℕ) (p p' : Provider) (host host' : Host)
    → process l p host ≡ ok ((false, p'), host')
    → p'.data_reach_end ≡ true
    → p'.expect_data_hash ≡ p.expect_data_hash
    → Drained l (suc n) [] p'.actual_data_hash p host
drain_false l n p p' host host' e ends same = record {
  last = p';
  host_behind = host';
  drains = ap (λ (r : Result ((Bool × Provider) × Host)). r >>= drain_on (drain l n)) e;
  reached = ends;
  hash_is = refl;
  expect_kept = same;
}

hash_items-chain : (l : Library) (h : Bytes) (xs : List Bytes) → hash_items l h xs ≡ chain l h xs
hash_items-chain l h [] = refl
hash_items-chain l h (x ∷ xs) = hash_items-chain l (l.hash_256 (h ++ x)) xs

-- Batches that `vector::size` can count.
abbrev pub IsBatch : List Bytes → Type 0
IsBatch b = (0 < length b) × (length b < 2 ^ 64)

-- A batch has no further item.
used_up :
    (p : Provider) (done : List Bytes)
    → p.items ≡ done
    → (p.items ≡ []) ⊎ (p.item_index + 1 ≡ length done)
    → length p.items < 2 ^ 64
    → ltb (u64 (p.item_index + 1)) (length p.items) ≡ false
used_up p done e (inl none_yet) fit = ground (arith, ap length none_yet)
used_up p done e (inr at_last) fit = ground (arith, ap length e)

module _ (l : Library) (skey : Bytes) (codec : IsCodec l) (key : IsPrivateKey l skey)
    (rest : Bytes) where
  abbrev cipher : ℕ → List Bytes → Bytes
  cipher k b =
      (l.encrypt_message_with_prefix k (l.generate_pkey_from_skey skey) (l.batch_to_bytes b)).1

  -- The item of the file that the next `fetch` reads.
  fetch-Reading :
      (k : ℕ) (s : Bytes) (more : List Bytes) (p : Provider) (host : Host) (file : Blockfile)
      (pre : Bytes)
      → find_source (hash_and_pkey p) host.data_sources ≡ some file
      → At pre s (encode more ++ rest) file
      → length s ≤ host.mem_buf_size
      → fetch l p host
        ≡ ok (
          open_batch l (batch_answer (succ s (length s))) p,
          moved p
              (record file { file = record file.file { pos = file.file.pos + 8 + length s } })
              host,
        )
  fetch-Reading k s more p host file pre found here le =
      fetch_step l p host file _ s found
        (next_item-At pre s (encode more ++ rest) host.mem_buf_size file here le)

  next_index :
      (p : Provider) (done : List Bytes) (y : Bytes) (ys : List Bytes)
      → p.items ≡ done ++ y ∷ ys
      → (p.items ≡ []) ⊎ (p.item_index + 1 ≡ length done)
      → p.item_index + 1 ≡ length done
  next_index p done y ys e (inl none_yet) =
      absurd (omega (arith, ap length e, ap length none_yet, length-append done (y ∷ ys)))
  next_index p done y ys e (inr i) = i

  next_output :
      (p : Provider) (done : List Bytes) (y : Bytes) (ys : List Bytes)
      → p.items ≡ done ++ y ∷ ys
      → p.item_index + 1 ≡ length done
      → output_value (record p { item_index = p.item_index + 1 }) ≡ some y
  next_output p done y ys e i = rw (e, i) (get_elem?-middle done y ys)

  Reading-next :
      (k : ℕ) (bs : List (List Bytes)) (p : Provider) (host : Host) (file : Blockfile)
      (done : List Bytes) (y : Bytes) (ys : List Bytes) (pre : Bytes)
      → Reading l skey k bs (y ∷ ys) p host file done pre rest
      → p.item_index + 1 ≡ length done
      → Reading l skey k bs ys
          (record p { item_index = p.item_index + 1 })
          host
          file
          (done ++ y ∷ [])
          pre
          rest
  Reading-next k bs p host file done y ys pre r i = record {
    not_end = r.not_end;
    skey_is = r.skey_is;
    items_are = r.items_are ∙ sym (append_assoc done (y ∷ []) ys);
    index_is = inr (omega (arith, i, length-append done (y ∷ [])));
    items_fit = r.items_fit;
    found = r.found;
    file_good = r.file_good;
    content_is = r.content_is;
    pos_is = r.pos_is;
  }

  first_cipher :
      (k : ℕ) (s : Bytes) (more : List Bytes) (p : Provider) (host : Host) (file : Blockfile)
      (pre : Bytes)
      → IsGood file.file
      → file.file.content ≡ pre ++ (encode (s ∷ more) ++ rest)
      → file.file.pos ≡ length pre
      → length s < 2 ^ 64
      → At pre s (encode more ++ rest) file
  first_cipher k s more p host file pre g e pos fit = record {
    good_file = g;
    content_at = e ∙ simp (append_assoc);
    pos_at = pos;
    len_fits = fit;
  }

  opens :
      (k : ℕ) (y : Bytes) (ys : List Bytes) (p : Provider)
      → p.private_key ≡ skey
      → length (cipher k (y ∷ ys)) < 2 ^ 32
      → open_batch l (batch_answer (succ (cipher k (y ∷ ys)) (length (cipher k (y ∷ ys))))) p
        ≡ (true, loaded l y ys p)
  opens k y ys p e small =
      open_batch_step l p (cipher k (y ∷ ys)) (l.batch_to_bytes (y ∷ ys)) y ys
        (key.cipher_some k (l.batch_to_bytes (y ∷ ys))) small
        (ap (λ z. l.decrypt_message_with_prefix z (cipher k (y ∷ ys))) e
          ∙ key.decrypts k (l.batch_to_bytes (y ∷ ys)))
        (codec.from-to_bytes (y ∷ ys))

  hash_behind :
      (b xs : List Bytes) (p : Provider)
      → chain l (hash_items l p.actual_data_hash b) xs ≡ chain l p.actual_data_hash (b ++ xs)
  hash_behind b xs p =
      ap (λ h. chain l h xs) (hash_items-chain l p.actual_data_hash b)
      ∙ sym (chain-append l p.actual_data_hash b xs)

  Reading-loaded :
      (k : ℕ) (bs : List (List Bytes)) (p : Provider) (host : Host) (file : Blockfile)
      (done : List Bytes) (y : Bytes) (ys : List Bytes) (pre : Bytes)
      → Reading l skey k ((y ∷ ys) ∷ bs) [] p host file done pre rest
      → length (y ∷ ys) < 2 ^ 64
      → let s = cipher k (y ∷ ys) in
        let file' = record file {
          file = record file.file { pos = file.file.pos + 8 + length s };
        } in
        Reading l skey
          (k + 1)
          bs
          ys
          (loaded l y ys p)
          (moved p file' host)
          file'
          (y ∷ [])
          (pre ++ (u64_bytes (length s) ++ s))
          rest
  Reading-loaded k bs p host file done y ys pre r small =
      let s = cipher k (y ∷ ys) in
      let file' = record file { file = record file.file { pos = file.file.pos + 8 + length s } } in
      record {
        not_end = r.not_end;
        skey_is = r.skey_is;
        items_are = refl;
        index_is = inr (omega arith);
        items_fit = small;
        found = find-set_source (hash_and_pkey p) file' file host.data_sources r.found;
        file_good = record { not_eof = r.file_good.not_eof; not_fail = r.file_good.not_fail };
        content_is = r.content_is ∙ simp (append_assoc);
        pos_is = omega (
          arith,
          r.pos_is,
          length-append pre (u64_bytes (length s) ++ s),
          length-append (u64_bytes (length s)) s,
          length-le_bytes 8 (length s),
        );
      }

  pub drained :
      (bs : List (List Bytes)) (cur : List Bytes) (n k : ℕ) (p : Provider) (host : Host)
      (file : Blockfile) (done : List Bytes) (pre : Bytes)
      → Reading l skey k bs cur p host file done pre rest
      → n ≡ length cur + length (concat bs)
      → All IsBatch bs
      → Within host.mem_buf_size (ciphers l (l.generate_pkey_from_skey skey) k bs)
      → host.mem_buf_size < 2 ^ 32
      → Drained l (suc n) (cur ++ concat bs) (chain l p.actual_data_hash (concat bs)) p host
  drained bs (y ∷ ys) zero k p host file done pre r e sizes within fit = absurd (omega (arith, e))
  drained bs (y ∷ ys) (suc n) k p host file done pre r e sizes within fit =
      let i = next_index p done y ys r.items_are r.index_is in
      drain_true l (suc n) p (record p { item_index = p.item_index + 1 }) host host y
        (ys ++ concat bs) _
        (process_next l p host r.not_end
          (omega (arith, i, ap length r.items_are, length-append done (y ∷ ys))) r.items_fit)
        (next_output p done y ys r.items_are i) refl
        (drained bs ys n k (record p { item_index = p.item_index + 1 }) host file (done ++ y ∷ [])
          pre (Reading-next k bs p host file done y ys pre r i) (omega (arith, e)) sizes within fit)
  drained [] [] n k p host file done pre r e sizes within fit =
      drain_false l n p (record p { data_reach_end = true }) host _
        (process-fetch l p host r.not_end
            (used_up p done (r.items_are ∙ append-nil done) r.index_is r.items_fit)
          ∙ fetch-Reading k [] [] p host file pre r.found
              (first_cipher k [] [] p host file pre r.file_good r.content_is r.pos_is (omega arith))
              (omega arith)
          ∙ λ j. ok (
            open_batch_end l p j,
            moved p (record file { file = record file.file { pos = file.file.pos + 8 + 0 } }) host,
          ))
        refl refl
  drained ([] ∷ bs) [] n k p host file done pre r e ((pos, small), sizes) within fit =
      absurd (omega (arith, pos))
  drained ((y ∷ ys) ∷ bs) [] zero k p host file done pre r e sizes within fit =
      absurd (omega (arith, e))
  drained ((y ∷ ys) ∷ bs) [] (suc n) k p host file done pre r e ((pos, small), sizes) (le, within)
        fit =
      let s = cipher k (y ∷ ys) in
      let file' = record file { file = record file.file { pos = file.file.pos + 8 + length s } } in
      drain_true l (suc n) p (loaded l y ys p) host (moved p file' host) y (ys ++ concat bs) _
        (process-fetch l p host r.not_end
            (used_up p done (r.items_are ∙ append-nil done) r.index_is r.items_fit)
          ∙ (fetch-Reading k s _ p host file pre r.found
                (first_cipher k s _ p host file pre r.file_good r.content_is r.pos_is (omega arith))
                le
              ∙ λ j. ok (opens k y ys p r.skey_is (omega arith) j, moved p file' host)))
        refl refl
        (subst (λ h. Drained l (suc n) (ys ++ concat bs) h (loaded l y ys p) (moved p file' host))
          (hash_behind (y ∷ ys) (concat bs) p)
          (drained bs ys n (k + 1) (loaded l y ys p) (moved p file' host) file' (y ∷ [])
            (pre ++ (u64_bytes (length s) ++ s))
            (Reading-loaded k bs p host file done y ys pre r small)
            (omega (arith, e, length-append ys (concat bs))) sizes within fit))
