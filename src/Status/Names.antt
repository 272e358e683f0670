-- ===== src/Status/Names.antt =====
-- `status_string` of ypc/stbox/src/stx_status.cpp. The names of the SGX codes come from the SGX SDK
-- (`sgx_name`), so they are a parameter.
use Prim.Native.Nat.{bit_and, bit_or}
use Prim.Native.String.{String}
use yee_z_privacy_computing.Base.{
  ℕ, ◌≡◌, refl, ap, Bool, true, false, List, [], ◌∷◌, Option, none, some, ◌==◌, ==_iff,
  if◌then◌else◌, arith, Bool-cases, inl, inr,
}
use yee_z_privacy_computing.Status.{stx_status_def}

-- The `switch` with a `case b | 0x10000` for each row.
stx_case : ℕ → List (ℕ × String) → Option String
stx_case status [] = none
stx_case status ((b, name) ∷ rows) =
    if bit_or b 0x10000 == status then some name else stx_case status rows

abbrev pub name_or : Option String → String → String
name_or none default = default
name_or (some name) default = name

module _ (sgx_name : ℕ → Option String) where
  pub status_string : ℕ → String
  unfolding stx_case
  status_string status =
      if bit_and status 0x10000 == 0
      then name_or (stx_case status stx_status_def) "unknown stx status"
      else name_or (sgx_name status) "unknown sgx status"

-- All keys of the `switch` have the bit that the branch has found to be clear.
has_bit : List (ℕ × String) → Bool
has_bit [] = true
has_bit ((b, name) ∷ rows) = if bit_and (bit_or b 0x10000) 0x10000 == 0 then false else has_bit rows

stx_case-none :
    (status : ℕ) (rows : List (ℕ × String))
    → has_bit rows ≡ true
    → bit_and status 0x10000 ≡ 0
    → stx_case status rows ≡ none
unfolding stx_case has_bit
stx_case-none status [] h e = refl
stx_case-none status ((b, name) ∷ rows) h e = elim (Bool-cases (bit_or b 0x10000 == status)) [
  | inl same ↦
      let eq : bit_or b 0x10000 ≡ status = (==_iff _ _).0 same in
      absurd (ground (arith, ap (λ (t : ℕ). bit_and t 0x10000) eq))
  | inr other ↦ rw other (stx_case-none status rows (ground arith) e)
]

-- `status_string` on every status: no name of the table is ever found. With the bit 0x10000 clear the
-- answer is "unknown stx status", and with the bit set only a name of the SDK is looked for.
pub status_string_lem :
    (sgx_name : ℕ → Option String) (status : ℕ)
    → status_string sgx_name status ≡ (
        if bit_and status 0x10000 == 0
        then "unknown stx status"
        else name_or (sgx_name status) "unknown sgx status")
unfolding status_string
status_string_lem sgx_name status = elim (Bool-cases (bit_and status 0x10000 == 0)) [
  | inl clear ↦
      rw
        (
          clear,
          stx_case-none status stx_status_def table ((==_iff (bit_and status 0x10000) 0).0 clear),
        )
        refl
  | inr bit ↦ rw bit refl
]
  where
    table : has_bit stx_status_def ≡ true
    table = unfold has_bit in refl
