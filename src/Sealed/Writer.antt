-- ===== src/Sealed/Writer.antt =====
-- `write_batch` and `seal_file` of toolkit/datahub/main.cpp, with sealed_file_base of
-- ypc/core/src/sealed_file.cpp. The plugin's reader is the list of what `read_item_data` gives, call
-- by call; behind its end it gives empty items.
use yee_z_privacy_computing.Base.{
  ℕ, ◌+◌, ◌%◌, ◌^◌, true, not, ◌&&◌, List, [], ◌∷◌, ◌++◌, Bytes, ltb, leb, ◌==◌, if◌then◌else◌,
  length, is_empty,
}
use yee_z_privacy_computing.Blockfile.Result.{Result, ok, err, Params}
use yee_z_privacy_computing.Blockfile.Tail.{Blockfile, init, open_for_write, append_item, close}
use yee_z_privacy_computing.Sealed.Library.{
  Library, fidelius, max_item_size, Outcome, gives, exits, fails, ◌>>=◌,
}

abbrev pub of_result {ℓ} : {A : Type ℓ} → Result A → Outcome A
of_result (ok a) = gives a
of_result (err e) = fails e

-- `calls` counts the encryptions.
pub record Sealing : Type 0 where
  pub file : Blockfile
  pub calls : ℕ
  pub batch : List Bytes
  pub batch_size : ℕ
  pub data_hash : Bytes
  pub counter : ℕ

-- `privacy_data_reader::read_item_data`, from what the plugin answers: its status and the bytes.
abbrev pub read_item_data : ℕ × Bytes → Bytes
read_item_data (status, item) = if status == 0 then item else []

unfoldable pub write_batch : Library → Params → Bytes → Sealing → Outcome Sealing
write_batch l c pkey s =
    let (status, cipher) = l.encrypt_message_with_prefix s.calls pkey (l.batch_to_bytes s.batch) in
    if status == 0
    then of_result (append_item c cipher s.file)
      >>= (λ file. gives (record s { file = file; calls = s.calls + 1 }))
    else exits 1

-- `write_batch`, then `batch.clear()` and `batch_size = 0`.
unfoldable pub flush : Library → Params → Bytes → Sealing → Outcome Sealing
flush l c pkey s = do w ← write_batch l c pkey s; gives (record w { batch = []; batch_size = 0 })

abbrev pub push_back : Bytes → Sealing → Sealing
push_back item s = record s {
  batch = s.batch ++ item ∷ [];
  batch_size = s.batch_size + length item;
}

unfoldable pub flush_if_full : Library → Params → Bytes → Sealing → Outcome Sealing
flush_if_full l c pkey s = if leb max_item_size s.batch_size then flush l c pkey s else gives s

-- The body of the loop up to the next `read_item_data`.
unfoldable pub seal_item : Library → Params → Bytes → Bytes → Sealing → Outcome Sealing
seal_item l c pkey item s = do
  w ← flush_if_full l c pkey (push_back item s)
  gives (record w { data_hash = l.hash_256 (w.data_hash ++ item) })

-- The item that the next `read_item_data` gives.
abbrev pub next_read : List Bytes → Bytes
next_read [] = []
next_read (item ∷ items) = item

-- The loop, from an item that is read: the status that `seal_file` returns. `counter` is a 32-bit
-- `uint`.
unfoldable pub seal_loop :
    Library → Params → Bytes → ℕ → List Bytes → Sealing → Outcome (ℕ × Sealing)
seal_loop l c pkey item_number [] s = gives (0, s)
seal_loop l c pkey item_number (item ∷ reads) s =
    if not (is_empty item) && ltb s.counter item_number
    then seal_item l c pkey item s >>= (λ s'.
      if ltb max_item_size (length (next_read reads))
      then gives (1, s')
      else seal_loop l c pkey item_number reads (record s' { counter = (s'.counter + 1) % 2 ^ 32 }))
    else gives (0, s)

-- The last batch.
unfoldable pub seal_rest : Library → Params → Bytes → ℕ × Sealing → Outcome (ℕ × Sealing)
seal_rest l c pkey (status, s) =
    if status == 0 && not (is_empty s.batch)
    then flush l c pkey s >>= (λ w. gives (0, w))
    else gives (status, s)

abbrev pub sealing : Library → Blockfile → Sealing
sealing l file = record {
  file = file;
  calls = 0;
  batch = [];
  batch_size = 0;
  data_hash = l.hash_256 fidelius;
  counter = 0;
}

unfoldable pub seal_all :
    Library → Params → Bytes → ℕ → List Bytes → Sealing → Outcome (ℕ × Sealing)
seal_all l c pkey item_number reads s =
    if ltb max_item_size (length (next_read reads))
    then gives (1, s)
    else seal_loop l c pkey item_number reads s >>= seal_rest l c pkey

-- The status, the hash and the file that `seal_file` leaves when its `sf` is closed.
unfoldable pub seal_file : Library → Params → Bytes → ℕ → List Bytes → Outcome (ℕ × Bytes × Bytes)
seal_file l c pkey item_number reads = do
  file ← of_result (open_for_write true (init c))
  (status, s) ← seal_all l c pkey item_number reads (sealing l file)
  (content, closed) ← of_result (close s.file)
  gives (status, s.data_hash, content)
