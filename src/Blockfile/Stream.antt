-- ===== src/Blockfile/Stream.antt =====
-- std::fstream over a regular file, as blockfile_base.h and blockfile_base_r.h use it: one position
-- for reading and writing, and the flags eofbit and failbit (badbit is shown as failbit). An offset
-- is a 64-bit pattern, and one with the top bit set is negative.
pub mod Laws
use yee_z_privacy_computing.Base.{
  ℕ, zero, suc, ◌+◌, ◌-◌, ◌^◌, Bool, true, false, not, ◌&&◌, Option, none, some, [], ◌∷◌, ◌++◌,
  Bytes, ltb, if◌then◌else◌, length, take, drop,
}

pub record File : Type 0 where
  pub content : Bytes
  pub pos : ℕ
  pub eof : Bool
  pub fail : Bool
  pub is_open : Bool
  pub writable : Bool

unfoldable pub good : File → Bool
good f = not f.eof && not f.fail

abbrev pub zeros : ℕ → Bytes
zeros zero = []
zeros (suc n) = 0 ∷ zeros n

-- The bytes `bs` written over `content` from `pos` on; a gap behind the end is filled by zeros.
unfoldable pub overwrite : Bytes → ℕ → Bytes → Bytes
overwrite content pos bs =
    take pos (content ++ zeros (pos - length content)) ++ (bs ++ drop (pos + length bs) content)

-- A short read sets both flags; a read on a stream that is not good gives nothing.
unfoldable pub read : ℕ → File → Bytes × File
unfolding good
read n f =
    let got = take n (drop f.pos f.content) in
    if good f
    then if ltb (length got) n
      then (got, record f { pos = f.pos + length got; eof = true; fail = true })
      else (got, record f { pos = f.pos + n })
    else ([], record f { fail = true })

unfoldable pub write : Bytes → File → File
unfolding good overwrite
write bs f =
    if good f
    then if f.writable
      then record f { content = overwrite f.content f.pos bs; pos = f.pos + length bs }
      else record f { fail = true }
    else f

abbrev pub clear : File → File
clear f = record f { eof = false; fail = false }

-- `tellg()` is -1 on a failed stream.
unfoldable pub tellg : File → Option ℕ
tellg f = if f.fail then none else some f.pos

set_pos : ℕ → File → File
set_pos p f = if ltb p (2 ^ 63) then record f { pos = p } else record f { fail = true }

-- `seekg` clears eofbit first. From the beginning, to an offset or to what `tellg` gave:
unfoldable pub seekg_beg : Option ℕ → File → File
unfolding set_pos
seekg_beg none f = record f { eof = false; fail = true }
seekg_beg (some p) f = let f' = record f { eof = false } in if f.fail then f' else set_pos p f'

-- From the end, by the offset -k for a 64-bit unsigned `k`.
unfoldable pub seekg_end : ℕ → File → File
seekg_end k f =
    let f' = record f { eof = false } in
    if f.fail
    then f'
    else if ltb (2 ^ 63) k
    then record f' { pos = length f.content + (2 ^ 64 - k) }
    else if ltb (length f.content) k
    then record f' { fail = true }
    else record f' { pos = length f.content - k }

-- `seekp` leaves eofbit alone.
unfoldable pub seekp_beg : ℕ → File → File
unfolding set_pos
seekp_beg p f = if f.fail then f else set_pos p f

-- `seekp(-k, cur)`.
unfoldable pub seekp_back : ℕ → File → File
seekp_back k f =
    if f.fail
    then f
    else if ltb f.pos k
    then record f { fail = true }
    else record f { pos = f.pos - k }
