-- ===== src/Blockfile/Tail.antt =====
-- `blockfile_impl_r` of include/ypc/corecommon/blockfile/blockfile_base_r.h: the items come first,
-- then the block table, then the header. `m_block_infos` is a list with the back of the vector at its
-- head. The file system is what `open_for_read` finds under the path.
pub mod Layout
pub mod Append
pub mod Reading
pub mod Closing
pub mod Items
pub mod Table
pub mod Session
pub mod RoundTrip
mod Tests
use yee_z_privacy_computing.Base.{
  ℕ, zero, suc, ◌+◌, ◌*◌, Bool, true, false, Option, none, some, List, [], ◌∷◌, ◌++◌, map, Bytes,
  ltb, leb, ◌==◌, if◌then◌else◌, length, drop,
}
use mathlib.Core.List.{reverse}
use yee_z_privacy_computing.Blockfile.Stream.{
  File, zeros, read, write, clear, tellg, seekg_beg, seekg_end, seekp_beg, seekp_back,
}
use yee_z_privacy_computing.Blockfile.Codec.{
  u64_bytes, of_le_bytes, BlockInfo, Header, sizeof_block_info, block_info_bytes, block_info_of,
  header_bytes, header_of,
}
use yee_z_privacy_computing.Blockfile.Result.{
  already_open, file_open_failure, invalid_blockfile, undefined, Result, ok, err, ◌>>=◌, Params,
  sizeof_header, NextItem, succ, at_eof, invalid_buf, small_buf, u64, sub64,
}

pub record Blockfile : Type 0 where
  pub file : File
  pub header : Header
  pub is_header_valid : Bool
  pub is_block_info_valid : Bool
  pub block_infos : List BlockInfo

-- A value-initialised header and block_info.
abbrev pub no_header : Params → Header
no_header c = record {
  magic_number = 0;
  version_number = 0;
  block_number = 0;
  item_number = 0;
  data_hash = zeros c.hash_size;
}

abbrev pub no_block_info : BlockInfo
no_block_info = record {
  start_item_index = 0;
  end_item_index = 0;
  start_file_pos = 0;
  end_file_pos = 0;
}

abbrev pub opened : Bytes → Bool → File
opened content writable = record {
  content = content;
  pos = 0;
  eof = false;
  fail = false;
  is_open = true;
  writable = writable;
}

abbrev pub closed_file : File
closed_file = record {
  content = [];
  pos = 0;
  eof = false;
  fail = false;
  is_open = false;
  writable = false;
}

-- The constructor.
pub init : Params → Blockfile
init c = record {
  file = closed_file;
  header = no_header c;
  is_header_valid = false;
  is_block_info_valid = false;
  block_infos = [];
}

-- What a read of `raw` bytes leaves of the struct that it is read into.
abbrev pub overlay : Bytes → Bytes → Bytes
overlay raw old = raw ++ drop (length raw) old

-- The branch of `read_header` for a file that is not empty.
load_header : Params → Option ℕ → Blockfile → Result Blockfile
load_header c prev b =
    let f1 = seekg_end (sizeof_header c) b.file in
    let (raw, f2) = read (sizeof_header c) f1 in
    let h = header_of (overlay raw (header_bytes b.header)) in
    if h.magic_number == c.magic_number
    then ok (record b { file = seekg_beg prev f2; header = h; is_header_valid = true })
    else err invalid_blockfile

abbrev is_zero : Option ℕ → Bool
is_zero none = false
is_zero (some n) = n == 0

unfoldable pub read_header : Params → Blockfile → Result Blockfile
unfolding load_header
read_header c b =
    let prev = tellg b.file in
    let f = seekg_end 0 b.file in
    if b.is_header_valid
    then ok b
    else if is_zero (tellg f)
    then ok (record b { file = seekg_beg prev f; is_header_valid = true })
    else load_header c prev (record b { file = f })

-- The `for` loop of `read_all_block_info` over the rounds left.
read_block_infos : ℕ → File → List BlockInfo → List BlockInfo × File
read_block_infos zero f infos = (infos, f)
read_block_infos (suc n) f infos =
    let (raw, f') = read sizeof_block_info f in
    read_block_infos n f' (block_info_of (overlay raw (block_info_bytes no_block_info)) ∷ infos)

load_block_infos : Params → Blockfile → Blockfile
unfolding read_block_infos
load_block_infos c b =
    let prev = tellg b.file in
    let f = seekg_end (u64 (sizeof_header c + b.header.block_number * sizeof_block_info)) b.file in
    let (infos, f') = read_block_infos b.header.block_number f b.block_infos in
    record b { file = seekg_beg prev f'; block_infos = infos; is_block_info_valid = true }

pub read_all_block_info : Params → Blockfile → Result Blockfile
unfolding read_header load_block_infos
read_all_block_info c b = do
  b' ← read_header c b
  if b'.is_block_info_valid then ok b' else ok (load_block_infos c b')

pub reset_read_item : Params → Blockfile → Result Blockfile
reset_read_item c b = do
  b1 ← read_header c (record b { file = clear b.file })
  b2 ← read_all_block_info c b1
  ok (record b2 { file = seekg_beg (some 0) b2.file })

-- `found` is the content of the file under the path, `none` where it cannot be opened.
pub open_for_read : Params → Option Bytes → Blockfile → Result Blockfile
open_for_read c found b = if b.file.is_open then err already_open else elim found [
  | none ↦ err file_open_failure
  | some content ↦ reset_read_item c (record b { file = opened content false })
]

-- Opening by `out` alone empties the file; `can_open` is whether that succeeds.
unfoldable pub open_for_write : Bool → Blockfile → Result Blockfile
open_for_write can_open b =
    if b.file.is_open
    then err already_open
    else if can_open
    then ok (record b { file = opened [] true })
    else err file_open_failure

-- The new block table: the first block, a block behind a full one, or one more item in the last.
add_to_blocks : Params → ℕ → List BlockInfo → List BlockInfo
add_to_blocks c len [] =
    record {
      start_item_index = 0;
      end_item_index = 1;
      start_file_pos = 0;
      end_file_pos = u64 (0 + len + 8);
    }
    ∷ []
add_to_blocks c len (bi ∷ rest) =
    if leb c.item_num_per_block_limit (sub64 bi.end_item_index bi.start_item_index)
    then record {
      start_item_index = bi.end_item_index;
      end_item_index = u64 (bi.end_item_index + 1);
      start_file_pos = bi.end_file_pos;
      end_file_pos = u64 (bi.end_file_pos + len + 8);
    }
      ∷ bi
      ∷ rest
    else record bi {
      end_item_index = u64 (bi.end_item_index + 1);
      end_file_pos = u64 (bi.end_file_pos + len + 8);
    }
      ∷ rest

-- `m_header.block_number` grows where a block is pushed.
adds_block : Params → List BlockInfo → Bool
adds_block c [] = true
adds_block c (bi ∷ rest) =
    leb c.item_num_per_block_limit (sub64 bi.end_item_index bi.start_item_index)

abbrev pub back_end : List BlockInfo → ℕ
back_end [] = 0
back_end (bi ∷ rest) = bi.end_file_pos

-- `append_item(data, len)`; it returns 0 where it returns.
pub append_item : Params → Bytes → Blockfile → Result Blockfile
append_item c item b = do
  b1 ← read_header c b
  b2 ← read_all_block_info c b1
  let len = length item
  let infos = add_to_blocks c len b2.block_infos
  let header = record b2.header {
    item_number = u64 (b2.header.item_number + 1);
    magic_number = c.magic_number;
    version_number = c.version_number;
    block_number =
        if adds_block c b2.block_infos
        then u64 (b2.header.block_number + 1)
        else b2.header.block_number;
  }
  let f1 = seekp_beg (sub64 (sub64 (back_end infos) 8) len) (clear b2.file)
  ok (record b2 {
    file = write item (write (u64_bytes len) f1);
    header = header;
    block_infos = infos;
  })

-- `next_item(buf, in_size, out_size)`, where `none` is a null buffer. On a stream that failed
-- without reaching the end, `len` is never set.
unfoldable pub next_item : Option ℕ → Blockfile → Result (NextItem × Blockfile)
next_item buf b =
    let (raw, f1) = read 8 b.file in
    let len = of_le_bytes raw in
    let (got, f2) = read len f1 in
    if b.file.eof
    then ok (at_eof, b)
    else if f1.eof
    then ok (at_eof, record b { file = f1 })
    else if f1.fail
    then err undefined
    else elim buf [
      | none ↦ ok (invalid_buf, record b { file = seekp_back 8 f1 })
      | some in_size ↦
          if ltb in_size len
          then ok (small_buf len, record b { file = seekp_back 8 f1 })
          else ok (succ got len, record b { file = f2 })
    ]

unfoldable pub item_number : Params → Blockfile → Result (ℕ × Blockfile)
unfolding read_header
item_number c b = do b' ← read_header c b; ok (b'.header.item_number, b')

abbrev write_all : List Bytes → File → File
write_all [] f = f
write_all (s ∷ ss) f = write_all ss (write s f)

-- The table and the header behind the last block. `m_block_infos.back()` of an empty vector is
-- undefined.
unfoldable pub write_table : Blockfile → List BlockInfo → Result (Bytes × Blockfile)
write_table b [] = err undefined
write_table b (back ∷ rest) =
    let f1 = seekp_beg back.end_file_pos b.file in
    let f2 = write_all (map block_info_bytes (reverse (back ∷ rest))) f1 in
    let f3 = write (header_bytes b.header) f2 in
    ok (
      f3.content,
      record b {
        file = record f3 { is_open = false };
        is_header_valid = false;
        is_block_info_valid = false;
        block_infos = [];
      },
    )

-- `close()` gives the content that stays on disk.
unfoldable pub close : Blockfile → Result (Bytes × Blockfile)
unfolding write_table
close b = write_table b b.block_infos
