-- ===== src/Blockfile/Tail/Tests.antt =====
-- A file of at most two items in a block, with three items.
use yee_z_privacy_computing.Base.{◌≡◌, refl, false, some, List, [], ◌∷◌, ◌++◌, arith, Bytes}
use yee_z_privacy_computing.Blockfile.Codec.{u64_bytes, le_bytes}
use yee_z_privacy_computing.Blockfile.Result.{ok, Params, succ, small_buf}
use yee_z_privacy_computing.Blockfile.Tail.{Blockfile, opened, append_item, next_item}
use yee_z_privacy_computing.Blockfile.Tail.Append.{Holds, Fits, append_item-Holds}
use yee_z_privacy_computing.Blockfile.Tail.Items.{At, received, next_item_retry}
use yee_z_privacy_computing.Blockfile.Tail.Session.{fresh, fresh-Holds, write_session, read_session}
use yee_z_privacy_computing.Blockfile.Tail.RoundTrip.{
  ParamsFit, read_session-write_session, read_session_behind_last,
}

abbrev tiny : Params
tiny = record {
  magic_number = 0x4788d13e7fefe21f;
  version_number = 2;
  block_num_limit = 4;
  item_num_per_block_limit = 2;
  hash_size = 32;
}

abbrev three : List Bytes
three = (1 ∷ 2 ∷ []) ∷ [] ∷ (3 ∷ []) ∷ []

tiny-ParamsFit : ParamsFit tiny
tiny-ParamsFit = record { magic_fits = omega arith; version_fits = omega arith }

three-Fits : Fits tiny three
unfolding le_bytes
three-Fits = record {
  limit_pos = omega arith;
  limit_fits = omega arith;
  items_fit = omega arith;
  bytes_fit = omega arith;
}

one-Fits : Fits tiny ((1 ∷ 2 ∷ []) ∷ [])
unfolding le_bytes
one-Fits = record {
  limit_pos = omega arith;
  limit_fits = omega arith;
  items_fit = omega arith;
  bytes_fit = omega arith;
}

append_item-Holds_example :
    (b' : Blockfile) × (append_item tiny (1 ∷ 2 ∷ []) (fresh tiny) ≡ ok b')
    × Holds tiny ((1 ∷ 2 ∷ []) ∷ []) b'
append_item-Holds_example =
    append_item-Holds tiny [] (1 ∷ 2 ∷ []) (fresh tiny) (fresh-Holds tiny) one-Fits

read_session-write_session_example :
    (content : Bytes) × (b : Blockfile) × (write_session tiny three ≡ ok (content, b))
    × (read_session tiny 3 16 content ≡ ok (3, received three))
read_session-write_session_example =
    read_session-write_session tiny three 16 tiny-ParamsFit three-Fits (omega arith) (omega arith)
      (omega arith, (omega arith, (omega arith, tt)))

read_session_behind_last_example :
    (content : Bytes) × (b : Blockfile) × (write_session tiny three ≡ ok (content, b))
    × (read_session tiny 4 16 content ≡ ok (3, received (three ++ [] ∷ [])))
read_session_behind_last_example =
    read_session_behind_last tiny three 16 tiny-ParamsFit three-Fits (omega arith) (omega arith)
      (omega arith, (omega arith, (omega arith, tt)))

abbrev at_item : Blockfile
at_item = record (fresh tiny) { file = opened (u64_bytes 2 ++ (7 ∷ 8 ∷ [])) false }

at_item-At : At [] (7 ∷ 8 ∷ []) [] at_item
at_item-At = record {
  good_file = record { not_eof = refl; not_fail = refl };
  content_at = refl;
  pos_at = refl;
  len_fits = omega arith;
}

next_item_retry_example :
    (next_item (some 1) at_item ≡ ok (small_buf 2, at_item))
    × (next_item (some 2) at_item
        ≡ ok (succ (7 ∷ 8 ∷ []) 2, record at_item { file = record at_item.file { pos = 10 } }))
next_item_retry_example = next_item_retry [] (7 ∷ 8 ∷ []) [] 1 at_item at_item-At (omega arith)
