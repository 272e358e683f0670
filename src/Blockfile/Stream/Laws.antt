-- ===== src/Blockfile/Stream/Laws.antt =====
-- The stream where no flag is set.
use yee_z_privacy_computing.Base.{
  ℕ, ◌+◌, ◌-◌, ◌^◌, ◌≤◌, ◌<◌, ◌≡◌, true, false, Option, none, some, ◌++◌, arith, Bytes, length,
  take, drop, take-append, drop-append, take_all, drop_all,
}
use mathlib.Core.List.{append-nil}
use yee_z_privacy_computing.Blockfile.Stream.{
  File, overwrite, read, write, tellg, seekg_beg, seekg_end, seekp_beg,
}

-- An open stream with no flag set.
pub record IsGood (f : File) : Type 0 where
  pub not_eof : f.eof ≡ false
  pub not_fail : f.fail ≡ false

pub read_within :
    (n : ℕ) (f : File) (pre got rest : Bytes)
    → IsGood f
    → f.content ≡ pre ++ (got ++ rest)
    → f.pos ≡ length pre
    → n ≡ length got
    → read n f ≡ (got, record f { pos = f.pos + n })
unfolding read
read_within n f pre got rest h c p e =
    let here : take n (drop f.pos f.content) ≡ got =
      rw (c, drop-append pre (got ++ rest) f.pos p) (take-append got rest n e) in
    ground (arith, here)

overwrite_at_end : (xs bs : Bytes) (n : ℕ) → n ≡ length xs → overwrite xs n bs ≡ xs ++ bs
unfolding overwrite
overwrite_at_end xs bs n e =
    let z : n - length xs ≡ 0 = omega arith in
    rw (z, append-nil xs, take_all xs n (omega arith), drop_all xs (n + length bs) (omega arith))
      (rw (append-nil bs))

-- Writing at the end appends.
pub write_at_end :
    (bs : Bytes) (f : File)
    → IsGood f
    → f.writable ≡ true
    → f.pos ≡ length f.content
    → write bs f ≡ record f { content = f.content ++ bs; pos = f.pos + length bs }
unfolding write
write_at_end bs f h w p = ground (arith, overwrite_at_end f.content bs f.pos p)

pub seekg_beg_good :
    (p : ℕ) (f : File) → IsGood f → p < 2 ^ 63 → seekg_beg (some p) f ≡ record f { pos = p }
unfolding seekg_beg
seekg_beg_good p f h b = ground arith

pub seekp_beg_good :
    (p : ℕ) (f : File) → IsGood f → p < 2 ^ 63 → seekp_beg p f ≡ record f { pos = p }
unfolding seekp_beg
seekp_beg_good p f h b = ground arith

pub seekg_end_good :
    (k : ℕ) (f : File)
    → IsGood f
    → k ≤ length f.content
    → k ≤ 2 ^ 63
    → seekg_end k f ≡ record f { pos = length f.content - k }
unfolding seekg_end
seekg_end_good k f h b m = ground arith

pub tellg_good : (f : File) → IsGood f → tellg f ≡ some f.pos
unfolding tellg
tellg_good f h = ground arith

-- A seek changes the position and the flags alone.
pub record Kept (f f' : File) : Type 0 where
  pub content_kept : f'.content ≡ f.content
  pub writable_kept : f'.writable ≡ f.writable
  pub is_open_kept : f'.is_open ≡ f.is_open

pub seekg_beg-Kept : (p : Option ℕ) (f : File) → Kept f (seekg_beg p f)
unfolding seekg_beg
seekg_beg-Kept none f = ground arith
seekg_beg-Kept (some p) f = ground arith

pub seekg_end-Kept : (k : ℕ) (f : File) → Kept f (seekg_end k f)
unfolding seekg_end
seekg_end-Kept k f = ground arith

pub tellg-seekg_end : (f : File) → IsGood f → tellg (seekg_end 0 f) ≡ some (length f.content)
unfolding tellg seekg_end
tellg-seekg_end f h = ground arith
