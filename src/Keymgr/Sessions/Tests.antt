-- ===== src/Keymgr/Sessions/Tests.antt =====
-- A key agreement in which every message is the peer's identity, and a channel without encryption.
use yee_z_privacy_computing.Base.{
  suc, drop, ℕ, ◌+◌, ◌≡◌, refl, true, false, Option, none, some, [], ◌∷◌, ◌++◌, Bytes, length, All,
}
use yee_z_privacy_computing.Status.{error_unexpected}
use yee_z_privacy_computing.Channel.{
  Message, Platform, no_message, is_active, generate_response, handle_request, respond,
  encrypt_response,
}
use yee_z_privacy_computing.Channel.Responder.{
  Sgx, Instance, session_request, request_instance, exchange_report, end_session, report_found,
  report_instance, respond_to, respond_found,
}
use yee_z_privacy_computing.Keymgr.Policy.{
  is_certified_signer, verify_peer_enclave_trust, passes_blacklist,
}
use yee_z_privacy_computing.Keymgr.Forward.{KeyTable, handle_pkg}
use yee_z_privacy_computing.Keymgr.Sessions.{
  Responding, msession_request, mexchange_report, mgenerate_response, mend_session, throws, tested,
  package_handler, Packages, no_call, then_call, requested, reported, responded,
}
use yee_z_privacy_computing.Keymgr.Sessions.Certified.{
  ActiveOnly, Calls-certified, mend_session-inactive,
}
use yee_z_privacy_computing.Keymgr.Tests.{
  length_ecc, trusted_peer, owner_entry, owner_skey, owner_pkey, manager_key,
}

abbrev plain_agreement : Sgx
plain_agreement = record {
  init_session = (0, []);
  gen_msg1 = λ dh. (0, 1 ∷ [], dh);
  proc_msg2 = λ msg2 dh. (0, [], 7 ∷ [], msg2, dh);
  verify_peer = λ peer. 0;
}

abbrev keymgr_sgx : Sgx
keymgr_sgx =
    tested plain_agreement (λ peer. trusted_peer) false []
      (some (record { access_list_type = 2; access_list = [] }))

abbrev after_request : Option Responding
after_request = (msession_request keymgr_sgx true 0 none).3

abbrev state_of : Option Responding → Responding
state_of none = record {
  verifies = true;
  responder = record { all_sessions = []; next_session_id = 0 };
}
state_of (some s) = s

abbrev reported_state : Responding
reported_state = state_of (mexchange_report keymgr_sgx true 0 (8 ∷ []) 0 after_request).2

abbrev plain_platform : Platform
plain_platform = record {
  encrypt = λ key msg nonce. (0, msg, []);
  decrypt = λ key cipher nonce tag. (0, cipher);
  can_malloc = λ size. true;
  sizeof_message = 40;
}

-- The entry of the owner for the enclave that the session's peer is.
abbrev peer_table : KeyTable
peer_table = (3 ∷ 1 ∷ [], owner_entry) ∷ []

-- A package is its type's number and the public key.
abbrev packages : Packages
packages = record { type_id = id_of; pkey = λ msg. some (drop 1 msg) }
  where
    id_of : Bytes → ℕ
    id_of [] = 0
    id_of (id ∷ msg) = id

abbrev asks_for : Bytes → Message
asks_for pkey = record no_message { payload_size = suc (length pkey); payload = 5 ∷ pkey }

abbrev peer_handler : Instance → Bytes → Option Bytes
peer_handler = package_handler length_ecc peer_table (λ peer. trusted_peer) packages

abbrev answer_to : Bytes → ℕ × Message × Option Responding
answer_to pkey =
    mgenerate_response plain_platform peer_handler 0 (asks_for pkey) (41 + length pkey) 9 60 0
      (some reported_state)

abbrev reply : ℕ × Message × Option Responding → ℕ × Bytes
reply (status, resp, s) = (status, resp.payload)

-- The keys of the owner are sent; for a key that is not there, the exception is an error.
replies :
    (reply (answer_to owner_pkey) ≡ (0, owner_skey ++ manager_key))
    × (reply (answer_to (5 ∷ [])) ≡ (error_unexpected, []))
unfolding msession_request mexchange_report mgenerate_response throws handle_pkg respond_to
    respond_found generate_response handle_request respond encrypt_response session_request
    request_instance exchange_report report_found report_instance verify_peer_enclave_trust
    is_certified_signer passes_blacklist
replies = (refl, refl)

abbrev answered_state : Responding
answered_state = state_of (answer_to owner_pkey).2

Calls-certified_example :
    ActiveOnly
      (λ p.
        is_certified_signer false [] trusted_peer
          (some (record { access_list_type = 2; access_list = [] }))
        ≡ true)
      answered_state
unfolding msession_request mexchange_report mgenerate_response throws handle_pkg exchange_report
    session_request request_instance report_found report_instance verify_peer_enclave_trust
    is_certified_signer passes_blacklist
Calls-certified_example =
    Calls-certified plain_agreement (λ peer. trusted_peer) false []
      (some (record { access_list_type = 2; access_list = [] })) answered_state
      (then_call (then_call (then_call no_call (requested true 0)) (reported true 0 (8 ∷ []) 0)) (
        responded plain_platform length_ecc peer_table (λ peer. trusted_peer) packages 0
          (asks_for owner_pkey) 42 9 60 0))

abbrev refused_state : Responding
refused_state =
    state_of
      (mexchange_report plain_agreement true 0 (8 ∷ []) 0
        (msession_request plain_agreement true 0 (mend_session 0 5 none).1).3).2

abbrev refused_again : Responding
refused_again =
    state_of
      (mgenerate_response plain_platform peer_handler 0 (asks_for owner_pkey) 42 9 60 0
        (some refused_state)).2

mend_session-inactive_example :
    All
      (λ (e : ℕ × Instance). is_active e.1.session.status ≡ false)
      refused_again.responder.all_sessions
unfolding msession_request mexchange_report mgenerate_response mend_session throws handle_pkg
    exchange_report session_request request_instance end_session report_found report_instance
mend_session-inactive_example = mend_session-inactive plain_agreement 0 5 refused_again (
    then_call (then_call (then_call no_call (requested true 0)) (reported true 0 (8 ∷ []) 0)) (
      responded plain_platform length_ecc peer_table (λ peer. trusted_peer) packages 0
        (asks_for owner_pkey) 42 9 60 0))
