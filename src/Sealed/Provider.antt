-- ===== src/Sealed/Provider.antt =====
-- include/ypc/core_t/analyzer/sealed_data_provider.h and raw_data_provider.h, and the part of
-- toolkit/analyzer/parsers/parser.cpp that answers their calls.
use yee_z_privacy_computing.Base.{
  ℕ, ◌+◌, ◌%◌, ◌^◌, Bool, true, false, Option, none, some, List, [], ◌∷◌, ◌++◌, Bytes, ltb, ◌==◌,
  if◌then◌else◌, length, get_elem?, take, bytes_eq,
}
use yee_z_privacy_computing.Blockfile.Result.{
  Result, ok, ◌>>=◌, NextItem, succ, at_eof, invalid_buf, small_buf, u64,
}
use yee_z_privacy_computing.Blockfile.Tail.{Blockfile, next_item}
use yee_z_privacy_computing.Status.{
  success, data_source_not_found, sealed_file_reach_end, data_hash_not_same_as_expect,
}
use yee_z_privacy_computing.Sealed.Library.{Library, fidelius}

-- `m_data_sources` and `m_mem_buf_size` of `parser`.
pub record Host : Type 0 where
  pub data_sources : List (Bytes × Blockfile)
  pub mem_buf_size : ℕ

abbrev pub find_source : Bytes → List (Bytes × Blockfile) → Option Blockfile
find_source key [] = none
find_source key ((k, file) ∷ sources) =
    if bytes_eq k key then some file else find_source key sources

abbrev pub set_source : Bytes → Blockfile → List (Bytes × Blockfile) → List (Bytes × Blockfile)
set_source key file [] = []
set_source key file ((k, old) ∷ sources) =
    if bytes_eq k key then (k, file) ∷ sources else (k, old) ∷ set_source key file sources

-- `next_data_batch` from what `next_item` gives; the length is handed over as 32 bits.
abbrev pub batch_answer : NextItem → ℕ × Bytes
batch_answer (succ buf s) =
    if s == 0 then (sealed_file_reach_end, []) else (success, take (s % 2 ^ 32) buf)
batch_answer at_eof = (sealed_file_reach_end, [])
batch_answer invalid_buf = (sealed_file_reach_end, [])
batch_answer (small_buf n) = (sealed_file_reach_end, [])

-- The reading of one source, which stays behind in `m_data_sources`.
unfoldable pub read_source : Bytes → Blockfile → Host → Result ((ℕ × Bytes) × Host)
read_source key file host = do
  (r, file') ← next_item (some host.mem_buf_size) file
  ok (batch_answer r, record host { data_sources = set_source key file' host.data_sources })

-- The two branches of `next_data_batch`.
abbrev pub answer_from : Bytes → Host → Option Blockfile → Result ((ℕ × Bytes) × Host)
answer_from key host none = ok ((data_source_not_found, []), host)
answer_from key host (some file) = read_source key file host

unfoldable pub next_data_batch : Bytes → Host → Result ((ℕ × Bytes) × Host)
next_data_batch key host = answer_from key host (find_source key host.data_sources)

pub record Provider : Type 0 where
  pub expect_data_hash : Bytes
  pub data_reach_end : Bool
  pub actual_data_hash : Bytes
  pub items : List Bytes
  pub item_index : ℕ
  pub private_key : Bytes
  pub public_key : Bytes

-- The constructor; it leaves `m_item_index` as it finds it.
unfoldable pub sealed_data_provider : Library → ℕ → Bytes → Bytes → Provider
sealed_data_provider l unset data_hash private_key = record {
  expect_data_hash = data_hash;
  data_reach_end = false;
  actual_data_hash = l.hash_256 fidelius;
  items = [];
  item_index = unset;
  private_key = private_key;
  public_key = l.generate_pkey_from_skey private_key;
}

-- The loop over the items of a batch.
abbrev pub hash_items : Library → Bytes → List Bytes → Bytes
hash_items l h [] = h
hash_items l h (b ∷ items) = hash_items l (l.hash_256 (h ++ b)) items

abbrev pub reach_end : Provider → Bool × Provider
reach_end p = (false, record p { data_reach_end = true })

-- The `try` block, from what `from_bytes` gives. `m_items` is set even where it is empty.
unfoldable pub take_batch : Library → Option (List Bytes) → Provider → Bool × Provider
take_batch l none p = reach_end p
take_batch l (some []) p = reach_end (record p { items = [] })
take_batch l (some (b ∷ items)) p = (
  true,
  record p {
    items = b ∷ items;
    actual_data_hash = hash_items l p.actual_data_hash (b ∷ items);
    item_index = 0;
  },
)

-- The call answered: its status, and the decryption of the sealed data.
unfoldable pub open_batch : Library → ℕ × Bytes → Provider → Bool × Provider
open_batch l (status, sealed_data) p =
    let (ret, msg) = l.decrypt_message_with_prefix p.private_key sealed_data in
    if status == success
    then if ret == 0 then take_batch l (l.batch_from_bytes msg) p else reach_end p
    else reach_end p

-- The key under which the provider asks for its data.
abbrev pub hash_and_pkey : Provider → Bytes
hash_and_pkey p = p.expect_data_hash ++ p.public_key

unfoldable pub fetch : Library → Provider → Host → Result ((Bool × Provider) × Host)
fetch l p host = do
  (answer, host') ← next_data_batch (hash_and_pkey p) host
  ok (open_batch l answer p, host')

-- `process()` of sealed_data_provider.
unfoldable pub process : Library → Provider → Host → Result ((Bool × Provider) × Host)
process l p host =
    if p.data_reach_end
    then ok ((false, p), host)
    else if ltb (u64 (p.item_index + 1)) (length p.items)
    then ok ((true, record p { item_index = u64 (p.item_index + 1) }), host)
    else fetch l p host

-- `m_items[m_item_index]`, which is undefined out of range.
abbrev pub output_value : Provider → Option Bytes
output_value p = get_elem? p.items p.item_index

-- `check_actual_data_hash` of data_interface.h.
abbrev pub check_actual_data_hash : Provider → ℕ
check_actual_data_hash p =
    if bytes_eq p.actual_data_hash p.expect_data_hash then success else data_hash_not_same_as_expect
