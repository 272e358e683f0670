-- ===== src/Sealed/RawProvider.antt =====
-- include/ypc/core_t/analyzer/raw_data_provider.h: a source that is not encrypted. It differs from the
-- sealed one in the key under which it asks for data, the hash alone, and in that nothing is decrypted.
use yee_z_privacy_computing.Base.{
  ℕ, ◌+◌, Bool, true, false, [], Bytes, ltb, ◌==◌, if◌then◌else◌, length,
}
use yee_z_privacy_computing.Blockfile.Result.{Result, ok, ◌>>=◌, u64}
use yee_z_privacy_computing.Status.{success}
use yee_z_privacy_computing.Sealed.Library.{Library, fidelius}
use yee_z_privacy_computing.Sealed.Provider.{Host, next_data_batch, Provider, reach_end, take_batch}

-- It has no keys.
abbrev pub raw_data_provider : Library → ℕ → Bytes → Provider
raw_data_provider l unset hash = record {
  expect_data_hash = hash;
  data_reach_end = false;
  actual_data_hash = l.hash_256 fidelius;
  items = [];
  item_index = unset;
  private_key = [];
  public_key = [];
}

open_raw_batch : Library → ℕ × Bytes → Provider → Bool × Provider
open_raw_batch l (status, raw_data) p =
    if status == success then take_batch l (l.batch_from_bytes raw_data) p else reach_end p

fetch_raw : Library → Provider → Host → Result ((Bool × Provider) × Host)
unfolding open_raw_batch
fetch_raw l p host = do
  (answer, host') ← next_data_batch p.expect_data_hash host
  ok (open_raw_batch l answer p, host')

pub process_raw : Library → Provider → Host → Result ((Bool × Provider) × Host)
unfolding fetch_raw
process_raw l p host =
    if p.data_reach_end
    then ok ((false, p), host)
    else if ltb (u64 (p.item_index + 1)) (length p.items)
    then ok ((true, record p { item_index = u64 (p.item_index + 1) }), host)
    else fetch_raw l p host
