-- ===== src/Analyzer/Sources/Tests.antt =====
-- Two sources, one of them sealed, in the scheme of Analyzer/Tests.antt, and a sort by insertion.
use yee_z_privacy_computing.Base.{
  ℕ, ◌≡◌, refl, inl, inr, true, none, List, [], ◌∷◌, ◌++◌, map, Bytes, if◌then◌else◌, drop, All,
}
use mathlib.Core.List.Perm
use yee_z_privacy_computing.Status.{success}
use yee_z_privacy_computing.Sealed.Library.{Library}
use yee_z_privacy_computing.Sealed.Provider.{Provider}
use yee_z_privacy_computing.Analyzer.Tests.{open_ecc, keeper, owner}
use yee_z_privacy_computing.Analyzer.Sources.{
  DataSource, sealed, raw, multi, SealedInfo, init_multi, set_data_hash,
}
use yee_z_privacy_computing.Analyzer.Sources.Order.{gt, Sorts, set_data_hash-Perm}
use yee_z_privacy_computing.Analyzer.Sources.Multi.{IsServed, IsRefused, source_of, init_multi_lem}
use yee_z_privacy_computing.Analyzer.Keymgr.{request_private_key_for_public_key}

abbrev pub source_with : Bytes → Bytes → Provider
source_with expect actual = record {
  expect_data_hash = expect;
  data_reach_end = true;
  actual_data_hash = actual;
  items = [];
  item_index = 0;
  private_key = owner;
  public_key = owner;
}

-- Insertion into a descending list.
abbrev insert : Bytes → List Bytes → List Bytes
insert h [] = h ∷ []
insert h (k ∷ rs) = if gt k h then k ∷ insert h rs else h ∷ k ∷ rs

abbrev pub insertion_sort : List Bytes → List Bytes
insertion_sort [] = []
insertion_sort (h ∷ rs) = insert h (insertion_sort rs)

abbrev two_sources : List DataSource
two_sources = sealed (source_with [] (7 ∷ 1 ∷ [])) ∷ raw (source_with [] (7 ∷ 3 ∷ [])) ∷ []

abbrev turned_sources : List DataSource
turned_sources = raw (source_with [] (7 ∷ 3 ∷ [])) ∷ sealed (source_with [] (7 ∷ 1 ∷ [])) ∷ []

two_sources-Sorts : Sorts insertion_sort ((7 ∷ 1 ∷ []) ∷ (7 ∷ 3 ∷ []) ∷ [])
unfolding gt
two_sources-Sorts = record {
  same_hashes = Perm.swap (7 ∷ 1 ∷ []) (7 ∷ 3 ∷ []) [];
  sorted = ((refl, tt), (tt, tt));
}

turned_sources-Sorts : Sorts insertion_sort ((7 ∷ 3 ∷ []) ∷ (7 ∷ 1 ∷ []) ∷ [])
unfolding gt
turned_sources-Sorts = record {
  same_hashes = Perm.refl ((7 ∷ 3 ∷ []) ∷ (7 ∷ 1 ∷ []) ∷ []);
  sorted = ((refl, tt), (tt, tt));
}

set_data_hash-Perm_example :
    set_data_hash open_ecc insertion_sort (multi two_sources []) []
    ≡ set_data_hash open_ecc insertion_sort (multi turned_sources []) []
set_data_hash-Perm_example =
    set_data_hash-Perm open_ecc insertion_sort 2 two_sources turned_sources [] [] [] []
      (Perm.swap (raw (source_with [] (7 ∷ 3 ∷ []))) (sealed (source_with [] (7 ∷ 1 ∷ []))) [])
      (refl, (refl, tt)) two_sources-Sorts turned_sources-Sorts

abbrev pub start_only : Library
start_only = record {
  hash_256 = λ m. 5 ∷ [];
  generate_pkey_from_skey = λ k. k;
  encrypt_message_with_prefix = λ k pkey m. (0, k ∷ m);
  decrypt_message_with_prefix = λ skey s. (0, drop 1 s);
  batch_to_bytes = λ xs. [];
  batch_from_bytes = λ s. none;
}

abbrev two_infos : List SealedInfo
two_infos =
    record { data_hash = 7 ∷ []; pkey = owner } ∷ record { data_hash = 8 ∷ []; pkey = [] } ∷ []

two_infos-IsServed : All (IsServed start_only 0 open_ecc keeper) two_infos
unfolding yee_z_privacy_computing.Analyzer.Keymgr.request_private_key_for_public_key
    yee_z_privacy_computing.Analyzer.Keymgr.keys_from
    yee_z_privacy_computing.Analyzer.Keymgr.check_keys
two_infos-IsServed = (inr refl, (inl refl, tt))

init_multi_lem_example :
    (init_multi start_only 0 open_ecc keeper two_infos [] []
      ≡ (success, map (source_of start_only 0 open_ecc keeper) two_infos, (1 ∷ 2 ∷ 7 ∷ []) ∷ []))
    × ((ret : ℕ) (refused : SealedInfo) (rest : List SealedInfo)
        → IsRefused start_only 0 open_ecc keeper ret refused
        → init_multi start_only 0 open_ecc keeper (two_infos ++ refused ∷ rest) [] []
          ≡ (ret, map (source_of start_only 0 open_ecc keeper) two_infos, (1 ∷ 2 ∷ 7 ∷ []) ∷ []))
init_multi_lem_example =
    init_multi_lem start_only 0 open_ecc keeper two_infos [] [] two_infos-IsServed
