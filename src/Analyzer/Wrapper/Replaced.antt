-- ===== src/Analyzer/Wrapper/Replaced.antt =====
-- A single sealed source that the host sets once more, between the run of the algorithm and the check.
use yee_z_privacy_computing.Base.{
  ℕ, ◌≡◌, refl, ap, ◌∙◌, ◌≢◌, inl, inr, false, Option, some, Bytes, Bool-cases, bytes_eq,
  bytes_eq→eq,
}
use yee_z_privacy_computing.Status.{success, data_hash_not_same_as_expect}
use yee_z_privacy_computing.Sealed.Library.{Library, fidelius}
use yee_z_privacy_computing.Analyzer.Sources.{
  DataSource, DataVars, single, data_hash, expect_data_hash, SealedInfo, init_sealed,
  check_actual_data_hash,
}
use yee_z_privacy_computing.Analyzer.Sources.Multi.{init_sealed-unread}
use yee_z_privacy_computing.Analyzer.Results.Run.{Run, done, stopped, ◌>>=◌}
use yee_z_privacy_computing.Analyzer.Results.Classes.{Generated, generate_result}
use yee_z_privacy_computing.Analyzer.Wrapper.{
  Build, Wrapper, inputs_of, or_leave, end_parse_data_item,
}

-- `end_parse_data_item` from what the check gives.
finish : Build → Wrapper → Option ℕ → Run Wrapper
finish b w status = do
  checked ← or_leave status
  g ← generate_result b.ecc b.codec b.result_type (inputs_of w)
  left ← or_leave (some b.closed)
  done (record w { generated = some g })

end_parse_data_item-finish :
    (b : Build) (w : Wrapper) (status : Option ℕ)
    → check_actual_data_hash w.sources ≡ status
    → end_parse_data_item b w ≡ finish b w status
unfolding end_parse_data_item finish
end_parse_data_item-finish b w status e = ap (finish b w) e

finish-success :
    (b : Build) (w : Wrapper) (g : Generated)
    → generate_result b.ecc b.codec b.result_type (inputs_of w) ≡ done g
    → b.closed ≡ 0
    → finish b w (some success) ≡ done (record w { generated = some g })
unfolding finish
finish-success b w g made closes = rw (made, closes) refl

bytes_ne : (h k : Bytes) → h ≢ k → bytes_eq h k ≡ false
bytes_ne h k ne = elim (Bool-cases (bytes_eq h k)) [
  | inl e ↦ absurd (ne (bytes_eq→eq h k e))
  | inr e ↦ e
]

check_source_differs :
    (ds : DataSource) (use_pkey : Bytes)
    → data_hash ds ≢ expect_data_hash ds
    → check_actual_data_hash (single (some ds) use_pkey) ≡ some data_hash_not_same_as_expect
unfolding check_actual_data_hash
check_source_differs ds use_pkey ne = rw (bytes_ne (data_hash ds) (expect_data_hash ds) ne) refl

-- What was read of a single sealed source does not have the hash announced for it: then
-- `end_parse_data_item` refuses it and no result is made. But where the host first calls
-- `init_data_source` again, for a key that the key manager gives and with the hash of "Fidelius" as the
-- data's, `end_parse_data_item` makes and keeps the result of the run as it stands, if that can be
-- signed and encrypted and the session closes.
pub init_sealed-end_parse_data_item :
    (b : Build) (l : Library) (unset : ℕ) (w : Wrapper) (ds : DataSource) (use_pkey : Bytes)
    (info : SealedInfo) (vars : DataVars) (g : Generated)
    → w.sources ≡ single (some ds) use_pkey
    → data_hash ds ≢ expect_data_hash ds
    → info.data_hash ≡ l.hash_256 fidelius
    → init_sealed l unset b.ecc b.session info w.sources ≡ (success, vars)
    → generate_result b.ecc b.codec b.result_type (inputs_of w) ≡ done g
    → b.closed ≡ 0
    → (end_parse_data_item b w ≡ stopped data_hash_not_same_as_expect)
      × (end_parse_data_item b (record w { sources = vars })
          ≡ done (record w { sources = vars; generated = some g }))
unfolding finish
init_sealed-end_parse_data_item b l unset w ds use_pkey info vars g is_single differs start again
      made closes =
    (
      end_parse_data_item-finish b w (some data_hash_not_same_as_expect)
          (ap check_actual_data_hash is_single ∙ check_source_differs ds use_pkey differs),
      end_parse_data_item-finish b (record w { sources = vars }) (some success)
            (init_sealed-unread l unset b.ecc b.session info w.sources vars start again)
          ∙ finish-success b (record w { sources = vars }) g made closes,
    )
