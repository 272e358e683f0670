-- ===== src/Analyzer/Results/Classes.antt =====
-- internal/results: what the classes share, the choice of the class by `algo_wrapper`'s argument
-- `Result` and the bytes handed out, and local_result.h.
use yee_z_privacy_computing.Base.{ℕ, ◌%◌, ◌^◌, Option, List, [], Bytes, ◌==◌, if◌then◌else◌, length}
use yee_z_privacy_computing.Status.{success, out_buffer_length_error}
use yee_z_privacy_computing.Analyzer.Ecc.{Ecc}
use yee_z_privacy_computing.Analyzer.Results.Run.{Run, done, ◌>>=◌}
use yee_z_privacy_computing.Analyzer.Results.Signing.{Inputs}
use yee_z_privacy_computing.Analyzer.Results.Onchain.{
  OnchainResult, OnchainPackage, generate_onchain, onchain_pkg,
}
use yee_z_privacy_computing.Analyzer.Results.Offchain.{
  OffchainResult, OffchainPackage, generate_offchain, generate_offchain_file, offchain_pkg,
}
use yee_z_privacy_computing.Analyzer.Results.Forward.{ForwardPackage, generate_forward}

-- The packages' codec (ff::net): what `arch` writes, the length that it announces, and what
-- `from_bytes` reads.
pub record Codec : Type 0 where
  pub batch_to_bytes : List Bytes → Bytes
  pub onchain_to_bytes : OnchainPackage → Bytes
  pub onchain_length : OnchainPackage → ℕ
  pub offchain_to_bytes : OffchainPackage → Bytes
  pub offchain_length : OffchainPackage → ℕ
  pub offchain_from_bytes : Bytes → Option OffchainPackage
  pub forward_to_bytes : ForwardPackage → Bytes

-- The template argument `Result`, and its members once they are generated.
pub data ResultType : Type 0 where
  onchain : ResultType
  offchain : ResultType
  offchain_file : ResultType
  forward : ResultType
  local : ResultType

pub data Generated : Type 0 where
  of_onchain : OnchainResult → Generated
  of_offchain : OffchainResult → Generated
  of_forward : ForwardPackage → Generated
  of_local : Generated

abbrev pub map_run {ℓ} : {A : Type ℓ} → (A → Generated) → Run A → Run Generated
map_run f r = do a ← r; done (f a)

unfoldable pub generate_result : Ecc → Codec → ResultType → Inputs → Run Generated
generate_result ecc codec onchain s = map_run of_onchain (generate_onchain ecc s)
generate_result ecc codec offchain s = map_run of_offchain (generate_offchain ecc s)
generate_result ecc codec offchain_file s =
    map_run of_offchain (generate_offchain_file ecc codec.offchain_from_bytes s)
generate_result ecc codec forward s =
    map_run of_forward (generate_forward ecc codec.batch_to_bytes s)
generate_result ecc codec local s = done of_local

-- `get_analyze_result_size`, the size of a `uint32_t`.
unfoldable pub get_analyze_result_size : Codec → Inputs → Generated → ℕ
get_analyze_result_size codec s (of_onchain r) = codec.onchain_length (onchain_pkg s r) % 2 ^ 32
get_analyze_result_size codec s (of_offchain r) = codec.offchain_length (offchain_pkg s r) % 2 ^ 32
get_analyze_result_size codec s (of_forward r) = length (codec.forward_to_bytes r) % 2 ^ 32
get_analyze_result_size codec s of_local = length s.analysis.result % 2 ^ 32

-- The test of the size of the buffer: a status, and the bytes written, from its start on.
abbrev pub sized : ℕ → ℕ → Bytes → ℕ × Bytes
sized size actual out = if size == actual then (success, out) else (out_buffer_length_error, [])

-- `get_analyze_result`, for a buffer of `size` bytes. That of `forward_result` does not look at it.
unfoldable pub get_analyze_result : Codec → Inputs → Generated → ℕ → ℕ × Bytes
get_analyze_result codec s (of_onchain r) size =
    sized size (codec.onchain_length (onchain_pkg s r)) (codec.onchain_to_bytes (onchain_pkg s r))
get_analyze_result codec s (of_offchain r) size =
    sized size (codec.offchain_length (offchain_pkg s r))
      (codec.offchain_to_bytes (offchain_pkg s r))
get_analyze_result codec s (of_forward r) size = (success, codec.forward_to_bytes r)
get_analyze_result codec s of_local size = sized size (length s.analysis.result) s.analysis.result
