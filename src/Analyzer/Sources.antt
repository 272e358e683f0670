-- ===== src/Analyzer/Sources.antt =====
-- interface/data_interface.h, var/data_source_var.h and interface/data_hash_interface.h: the data
-- sources of an analyzer, the check of what was read from them, and the hash that stands for them.
pub mod Order
pub mod Multi
pub mod Tests
use yee_z_privacy_computing.Base.{
  ℕ, Option, none, some, List, [], ◌∷◌, ◌++◌, map, Bytes, ◌==◌, if◌then◌else◌, is_empty, bytes_eq,
}
use yee_z_privacy_computing.Status.{success, data_source_not_set, data_hash_not_same_as_expect}
use yee_z_privacy_computing.Sealed.Library.{Library}
use yee_z_privacy_computing.Sealed.Provider.{Provider, sealed_data_provider}
use yee_z_privacy_computing.Sealed.RawProvider.{raw_data_provider}
use yee_z_privacy_computing.Analyzer.Ecc.{Ecc, Session}
use yee_z_privacy_computing.Analyzer.Keymgr.{request_private_key_for_public_key}

-- A `data_source_with_dhash`.
pub data DataSource : Type 0 where
  sealed : Provider → DataSource
  raw : Provider → DataSource

abbrev pub provider : DataSource → Provider
provider (sealed p) = p
provider (raw p) = p

abbrev pub data_hash : DataSource → Bytes
data_hash ds = (provider ds).actual_data_hash

abbrev pub expect_data_hash : DataSource → Bytes
expect_data_hash ds = (provider ds).expect_data_hash

-- `data_source_var`, for `noinput_data_stream`, for one source, sealed or raw, and for
-- `multi_data_stream`: `m_datasource`, null where it is `none`, and `m_ds_use_pkey`.
pub data DataVars : Type 0 where
  no_input : DataVars
  single : Option DataSource → Bytes → DataVars
  multi : List DataSource → List Bytes → DataVars

-- The package of one source.
pub record SealedInfo : Type 0 where
  pub data_hash : Bytes
  pub pkey : Bytes

-- The library and the value that `m_item_index` has before it is set; `Crypto` and the session.
module _ (l : Library) (unset : ℕ) (ecc : Ecc) (session : Session) where
  abbrev pub sealed_source : Bytes → Bytes → DataSource
  sealed_source hash private_key = sealed (sealed_data_provider l unset hash private_key)

  -- `init_data_source` for a raw source, whose hash is the argument.
  abbrev pub init_raw : Bytes → DataVars → ℕ × DataVars
  init_raw hash (single ds use_pkey) =
      (success, single (some (raw (raw_data_provider l unset hash))) use_pkey)
  init_raw hash vars = (success, vars)

  -- `init_data_source` for a sealed source, behind `init_keymgr_session`. `set_sealed` is what follows
  -- the request.
  abbrev pub set_sealed : SealedInfo → ℕ × Bytes × Bytes → DataVars → ℕ × DataVars
  set_sealed info (ret, private_key, dian_pkey) vars =
      if ret == 0
      then (
        success,
        single (some (sealed_source info.data_hash private_key)) (info.pkey ++ info.data_hash),
      )
      else (ret, vars)

  unfoldable pub init_sealed : SealedInfo → DataVars → ℕ × DataVars
  init_sealed info vars =
      set_sealed info (request_private_key_for_public_key ecc session info.pkey) vars

  -- The loop body of `init_data_source` for several sources.
  abbrev pub push_source :
      SealedInfo
      → ℕ × Bytes × Bytes
      → List DataSource
      → List Bytes
      → ℕ × List DataSource × List Bytes
  push_source info (ret, private_key, dian_pkey) sources use_pkeys =
      if is_empty info.pkey
      then (success, sources ++ raw (raw_data_provider l unset info.data_hash) ∷ [], use_pkeys)
      else if ret == 0
      then (
        success,
        sources ++ sealed_source info.data_hash private_key ∷ [],
        use_pkeys ++ (info.pkey ++ info.data_hash) ∷ [],
      )
      else (ret, sources, use_pkeys)

  -- The loop, behind `init_keymgr_session`: it is left where a key is refused, and what was pushed
  -- before stays. A key is asked for where there is one.
  unfoldable pub init_multi :
      List SealedInfo → List DataSource → List Bytes → ℕ × List DataSource × List Bytes
  init_multi [] sources use_pkeys = (success, sources, use_pkeys)
  init_multi (info ∷ infos) sources use_pkeys =
      let (ret, sources', use_pkeys') =
        push_source info (request_private_key_for_public_key ecc session info.pkey) sources
          use_pkeys in
      let rest = init_multi infos sources' use_pkeys' in
      if ret == 0 then rest else (ret, sources', use_pkeys')

-- `check_actual_data_hash`. Where no source is set, the pointer that it follows is null; `none` stands
-- for that.
abbrev pub check_source : DataSource → ℕ
check_source ds =
    if bytes_eq (data_hash ds) (expect_data_hash ds) then success else data_hash_not_same_as_expect

abbrev pub check_sources : List DataSource → ℕ
check_sources [] = success
check_sources (ds ∷ sources) =
    if check_source ds == 0 then check_sources sources else check_source ds

unfoldable pub check_actual_data_hash : DataVars → Option ℕ
check_actual_data_hash no_input = some success
check_actual_data_hash (single none use_pkey) = none
check_actual_data_hash (single (some ds) use_pkey) = some (check_source ds)
check_actual_data_hash (multi sources use_pkeys) = some (check_sources sources)

-- `set_data_hash`: `std::sort` is a parameter, `m_data_hash` an argument that stays without input. The
-- status of `hash_256` is not looked at.
abbrev pub join : List Bytes → Bytes
join [] = []
join (h ∷ rs) = h ++ join rs

unfoldable pub set_data_hash : Ecc → (List Bytes → List Bytes) → DataVars → Bytes → Option Bytes
set_data_hash ecc sort no_input m_data_hash = some m_data_hash
set_data_hash ecc sort (single none use_pkey) m_data_hash = none
set_data_hash ecc sort (single (some ds) use_pkey) m_data_hash = some (data_hash ds)
set_data_hash ecc sort (multi sources use_pkeys) m_data_hash =
    some (ecc.hash_256 (join (sort (map data_hash sources)))).1

-- `create_parser` of interface/parser_interface.h: whether there is a source.
abbrev pub create_parser : DataVars → ℕ
create_parser no_input = success
create_parser (single none use_pkey) = data_source_not_set
create_parser (single (some ds) use_pkey) = success
create_parser (multi [] use_pkeys) = data_source_not_set
create_parser (multi (ds ∷ sources) use_pkeys) = success
