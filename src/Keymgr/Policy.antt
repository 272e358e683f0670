-- ===== src/Keymgr/Policy.antt =====
-- ypc/core/src/core_t/ecommon/signer_verify.cpp and include/ypc/common/access_policy.h: which enclaves
-- the key manager talks to.
use yee_z_privacy_computing.Base.{
  ℕ, ◌≡◌, refl, ◌∙◌, ◌≢◌, ◌⊎◌, Bool, true, false, not, ◌&&◌, ◌||◌, Option, none, some, List, [],
  ◌∷◌, arith, Bytes, ◌==◌, if◌then◌else◌, length, All, bytes_eq,
}
use yee_z_privacy_computing.Status.{success, enclave_trust_error}

abbrev pub access_policy_whitelist : ℕ
access_policy_whitelist = 1

abbrev pub access_policy_blacklist : ℕ
access_policy_blacklist = 2

abbrev pub access_policy_signer : ℕ
access_policy_signer = 3

abbrev pub access_policy_enclave : ℕ
access_policy_enclave = 4

-- What is read of `sgx_dh_session_enclave_identity_t`: the two measurements, of 32 bytes each, and the
-- flags `SGX_FLAGS_INITTED` and `SGX_FLAGS_DEBUG`.
pub record Identity : Type 0 where
  pub mr_enclave : Bytes
  pub mr_signer : Bytes
  pub initted : Bool
  pub debug : Bool

-- `access_item_t` and `access_list_package_t`.
pub record AccessItem : Type 0 where
  pub access_data_type : ℕ
  pub access_data : Bytes

pub record AccessList : Type 0 where
  pub access_list_type : ℕ
  pub access_list : List AccessItem

-- `d.size() == sizeof(sgx_measurement_t) && 0 == memcmp(...)`.
abbrev pub matches : Bytes → Bytes → Bool
matches measurement d = length d == 32 && bytes_eq measurement d

-- The loop of the whitelist.
unfoldable pub in_whitelist : Identity → List AccessItem → Bool
in_whitelist peer [] = false
in_whitelist peer (item ∷ items) =
    let rest = in_whitelist peer items in
    if item.access_data_type == access_policy_enclave
    then if matches peer.mr_enclave item.access_data then true else rest
    else if item.access_data_type == access_policy_signer
    then if matches peer.mr_signer item.access_data then true else rest
    else false

-- The loop of the blacklist, true where it is passed.
unfoldable pub passes_blacklist : Identity → List AccessItem → Bool
passes_blacklist peer [] = true
passes_blacklist peer (item ∷ items) =
    let rest = passes_blacklist peer items in
    if item.access_data_type == access_policy_enclave
    then if matches peer.mr_enclave item.access_data then false else rest
    else if item.access_data_type == access_policy_signer
    then if matches peer.mr_signer item.access_data then false else rest
    else false

-- The default policy: the signer of the enclave itself.
abbrev pub same_signer : Bytes → Identity → Bool
same_signer self_signer peer = length self_signer == 32 && bytes_eq peer.mr_signer self_signer

abbrev pub by_list : Identity → AccessList → Bool
by_list peer policy =
    if policy.access_list_type == access_policy_whitelist
    then in_whitelist peer policy.access_list
    else if policy.access_list_type == access_policy_blacklist
    then passes_blacklist peer policy.access_list
    else true

abbrev pub by_policy : Bytes → Identity → Option AccessList → Bool
by_policy self_signer peer none = same_signer self_signer peer
by_policy self_signer peer (some policy) = by_list peer policy

-- `release` is whether the build defines NDEBUG and not EDEBUG.
unfoldable pub is_certified_signer : Bool → Bytes → Identity → Option AccessList → Bool
is_certified_signer release self_signer peer policy =
    if not peer.initted
    then false
    else if release && peer.debug
    then false
    else by_policy self_signer peer policy

-- `verify_peer_enclave_trust` of ekeymgr.ipp, for a pointer that is set.
unfoldable pub verify_peer_enclave_trust : Bool → Bytes → Option AccessList → Identity → ℕ
verify_peer_enclave_trust release self_signer policy peer =
    if is_certified_signer release self_signer peer policy then success else enclave_trust_error

-- An item of one of the two types that the loops know.
abbrev pub IsKnown : AccessItem → Type 0
IsKnown item =
    (item.access_data_type ≡ access_policy_enclave) ⊎ (item.access_data_type ≡ access_policy_signer)

-- The item names the peer.
abbrev pub names : Identity → AccessItem → Bool
names peer item =
    if item.access_data_type == access_policy_enclave
    then matches peer.mr_enclave item.access_data
    else matches peer.mr_signer item.access_data

abbrev pub some_names : Identity → List AccessItem → Bool
some_names peer [] = false
some_names peer (item ∷ items) = names peer item || some_names peer items

in_whitelist-names :
    (peer : Identity) (items : List AccessItem)
    → All IsKnown items
    → in_whitelist peer items ≡ some_names peer items
unfolding in_whitelist
in_whitelist-names peer [] k = refl
in_whitelist-names peer (item ∷ items) (k, ks) = ground (arith, in_whitelist-names peer items ks)

passes_blacklist-names :
    (peer : Identity) (items : List AccessItem)
    → All IsKnown items
    → passes_blacklist peer items ≡ not (some_names peer items)
unfolding passes_blacklist
passes_blacklist-names peer [] k = refl
passes_blacklist-names peer (item ∷ items) (k, ks) =
    ground (arith, passes_blacklist-names peer items ks)

certified :
    (release : Bool) (self_signer : Bytes) (peer : Identity) (policy : Option AccessList)
    → peer.initted ≡ true
    → (release && peer.debug) ≡ false
    → is_certified_signer release self_signer peer policy ≡ by_policy self_signer peer policy
unfolding is_certified_signer
certified release self_signer peer policy init safe = ground arith

-- A peer that is initialised and, in a release build, not in debug mode: with a list all of whose items
-- are for an enclave or a signer it is certified by a whitelist exactly where an item names it, and by
-- a blacklist exactly where none does; with neither kind of list always; and with no policy exactly
-- where its signer is the enclave's own, of 32 bytes.
pub is_certified_signer-names :
    (release : Bool) (self_signer : Bytes) (peer : Identity) (items : List AccessItem) (tag : ℕ)
    → peer.initted ≡ true
    → (release && peer.debug) ≡ false
    → All IsKnown items
    → tag ≢ access_policy_whitelist
    → tag ≢ access_policy_blacklist
    → (is_certified_signer release self_signer peer
          (some (record { access_list_type = access_policy_whitelist; access_list = items }))
        ≡ some_names peer items)
      × (is_certified_signer release self_signer peer
            (some (record { access_list_type = access_policy_blacklist; access_list = items }))
          ≡ not (some_names peer items))
      × (is_certified_signer release self_signer peer
            (some (record { access_list_type = tag; access_list = items }))
          ≡ true)
      × (is_certified_signer release self_signer peer none ≡ same_signer self_signer peer)
is_certified_signer-names release self_signer peer items tag init safe known white black = (
  certified release self_signer peer _ init safe ∙ in_whitelist-names peer items known,
  certified release self_signer peer _ init safe ∙ passes_blacklist-names peer items known,
  certified release self_signer peer _ init safe ∙ ground arith,
  certified release self_signer peer none init safe,
)
