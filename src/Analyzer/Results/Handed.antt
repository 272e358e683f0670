-- ===== src/Analyzer/Results/Handed.antt =====
-- The buffer in which the enclave hands out its result.
use yee_z_privacy_computing.Base.{
  ℕ, ◌%◌, ◌^◌, ◌<◌, ◌≡◌, refl, ◌∙◌, ◌≢◌, ◌⊎◌, inl, inr, Bool, true, false, [], arith, Bytes, ◌==◌,
  if◌then◌else◌, ==_iff, Bool-cases, length,
}
use yee_z_privacy_computing.Status.{success, out_buffer_length_error}
use yee_z_privacy_computing.Analyzer.Results.Signing.{Inputs}
use yee_z_privacy_computing.Analyzer.Results.Onchain.{OnchainPackage, onchain_pkg}
use yee_z_privacy_computing.Analyzer.Results.Offchain.{OffchainPackage, offchain_pkg}
use yee_z_privacy_computing.Analyzer.Results.Classes.{
  Codec, Generated, of_onchain, of_offchain, of_forward, of_local, get_analyze_result_size,
  get_analyze_result, sized,
}

-- `parser_sgx_module::get_analyze_result`: the host asks for the size, and then for the result in a
-- buffer of that size.
abbrev pub hand_over : Codec → Inputs → Generated → ℕ × Bytes
hand_over codec s g = get_analyze_result codec s g (get_analyze_result_size codec s g)

-- The codec writes as many bytes as it announces.
pub record IsExact (codec : Codec) : Type 0 where
  pub onchain_exact :
      (pkg : OnchainPackage) → codec.onchain_length pkg ≡ length (codec.onchain_to_bytes pkg)
  pub offchain_exact :
      (pkg : OffchainPackage) → codec.offchain_length pkg ≡ length (codec.offchain_to_bytes pkg)

-- The bytes of a result.
abbrev pub package_bytes : Codec → Inputs → Generated → Bytes
package_bytes codec s (of_onchain r) = codec.onchain_to_bytes (onchain_pkg s r)
package_bytes codec s (of_offchain r) = codec.offchain_to_bytes (offchain_pkg s r)
package_bytes codec s (of_forward r) = codec.forward_to_bytes r
package_bytes codec s of_local = s.analysis.result

abbrev pub looks_at_size : Generated → Bool
looks_at_size (of_forward r) = false
looks_at_size g = true

sized_lem :
    (size actual : ℕ) (out : Bytes)
    → actual ≡ length out
    → ((size ≡ length out) × (sized size actual out ≡ (success, out)))
      ⊎ ((size ≢ length out) × (sized size actual out ≡ (out_buffer_length_error, [])))
sized_lem size actual out e = elim (Bool-cases (size == actual)) [
  | inl same ↦ inl ((==_iff size actual).0 same ∙ e, rw same refl)
  | inr other ↦ inr (λ q. absurd (ground (arith, q, e)), rw other refl)
]

sized_whole :
    (actual : ℕ) (out : Bytes)
    → actual ≡ length out
    → length out < 2 ^ 32
    → sized (actual % 2 ^ 32) actual out ≡ (success, out)
sized_whole actual out e small = ground arith

-- Where the codec announces the sizes that it writes: the host gets every result whole that is smaller
-- than 2^32 bytes. In a buffer of any size, the result is written if it has that size exactly, and
-- otherwise nothing but an error is given; except that the result of `forward_result` is always written,
-- with success, however small the buffer.
pub hand_over_lem :
    (codec : Codec) (s : Inputs) (g : Generated)
    → IsExact codec
    → (length (package_bytes codec s g) < 2 ^ 32
        → hand_over codec s g ≡ (success, package_bytes codec s g))
      × ((size : ℕ)
          → ((size ≡ length (package_bytes codec s g))
              × (get_analyze_result codec s g size ≡ (success, package_bytes codec s g)))
            ⊎ ((size ≢ length (package_bytes codec s g))
                × (get_analyze_result codec s g size ≡ (
                    if looks_at_size g
                    then (out_buffer_length_error, [])
                    else (success, package_bytes codec s g)))))
unfolding get_analyze_result get_analyze_result_size
hand_over_lem codec s (of_onchain r) exact = (
  sized_whole _ _ (exact.onchain_exact (onchain_pkg s r)),
  λ size. sized_lem size _ _ (exact.onchain_exact (onchain_pkg s r)),
)
hand_over_lem codec s (of_offchain r) exact = (
  sized_whole _ _ (exact.offchain_exact (offchain_pkg s r)),
  λ size. sized_lem size _ _ (exact.offchain_exact (offchain_pkg s r)),
)
hand_over_lem codec s (of_forward r) exact = (
  λ small. refl,
  λ size. elim (Bool-cases (size == length (codec.forward_to_bytes r))) [
    | inl same ↦ inl ((==_iff _ _).0 same, refl)
    | inr other ↦ inr (λ q. absurd (ground (arith, q)), refl)
  ],
)
hand_over_lem codec s of_local exact = (sized_whole _ _ refl, λ size. sized_lem size _ _ refl)
