-- ===== src/Keymgr/Sessions.antt =====
-- The session calls of ekeymgr.ipp on `dh_resp_session`, which each makes where it is not there, and of
-- which only `msession_request` sets the test of the peer.
pub mod Certified
mod Tests
use yee_z_privacy_computing.Base.{
  [], ℕ, Bool, true, false, not, ◌&&◌, Option, none, some, ◌+◌, ◌-◌, ◌%◌, ◌^◌, take, Bytes, ◌==◌,
  if◌then◌else◌,
}
use yee_z_privacy_computing.Status.{success, error_unexpected}
use yee_z_privacy_computing.Channel.{Message, Platform, no_message, is_active}
use yee_z_privacy_computing.Analyzer.Ecc.{Ecc}
use yee_z_privacy_computing.Keymgr.Forward.{KeyTable, handle_pkg}
use yee_z_privacy_computing.Channel.Responder.{
  Sgx, Instance, Responder, session_request, exchange_report, respond_to, end_session, find_session,
  is_in_progress,
}
use yee_z_privacy_computing.Keymgr.Policy.{Identity, AccessList, verify_peer_enclave_trust}

-- `dh_resp_session`; `verifies` is whether its `m_verify_peer_enclave_trust` is set.
pub record Responding : Type 0 where
  pub verifies : Bool
  pub responder : Responder

-- `std::make_shared<stbox::dh_session_responder>()`, where the number of the first session is what the
-- memory held.
abbrev pub made : Bool → ℕ → Responding
made verifies unset = record {
  verifies = verifies;
  responder = record { all_sessions = []; next_session_id = unset };
}

abbrev pub made_if_not : Bool → ℕ → Option Responding → Responding
made_if_not verifies unset none = made verifies unset
made_if_not verifies unset (some r) = r

-- The responder's `m_verify_peer_enclave_trust`. The call of an empty `std::function` throws, which
-- leaves the sessions as a test that fails does.
abbrev pub refusing : Sgx → Sgx
refusing sgx = record sgx { verify_peer = λ peer. 1 }

abbrev pub tester : Sgx → Bool → Sgx
tester sgx true = sgx
tester sgx false = refusing sgx

unfoldable pub msession_request :
    Sgx → Bool → ℕ → Option Responding → ℕ × Bytes × ℕ × Option Responding
msession_request sgx pointers unset dh_resp_session =
    let s = made_if_not true unset dh_resp_session in
    let (status, msg1, id, r) = session_request (tester sgx s.verifies) pointers s.responder in
    (status, msg1, id, some (record s { responder = r }))

-- Whether `exchange_report` of the instance reaches the call of the test.
abbrev pub reaches_test : Sgx → Bool → Bytes → Option Instance → Bool
reaches_test sgx pointers msg2 none = false
reaches_test sgx pointers msg2 (some p) =
    is_in_progress p.session.status && (pointers && (sgx.proc_msg2 msg2 p.dh_session).0 == success)

unfoldable pub mexchange_report :
    Sgx → Bool → ℕ → Bytes → ℕ → Option Responding → ℕ × Bytes × Option Responding
mexchange_report sgx pointers unset msg2 id dh_resp_session =
    let s = made_if_not false unset dh_resp_session in
    let (status, msg3, r) = exchange_report (tester sgx s.verifies) pointers msg2 id s.responder in
    let found = find_session id s.responder.all_sessions in
    (
      if not s.verifies && reaches_test sgx pointers msg2 found then error_unexpected else status,
      msg3,
      some (record s { responder = r }),
    )

unfoldable pub mend_session : ℕ → ℕ → Option Responding → ℕ × Option Responding
mend_session unset id dh_resp_session =
    let s = made_if_not false unset dh_resp_session in
    let (status, r) = end_session id s.responder in (status, some (record s { responder = r }))

-- How ff reads a package: the number of its type, and its public key, or `none` where it throws.
pub record Packages : Type 0 where
  pub type_id : Bytes → ℕ
  pub pkey : Bytes → Option Bytes

abbrev pub request_skey_from_pkey_item : ℕ
request_skey_from_pkey_item = 5

abbrev pub answer_for : Ecc → KeyTable → Bytes → Option Bytes → Option Bytes
answer_for ecc table mr_enclave none = none
answer_for ecc table mr_enclave (some pkey) = handle_pkg ecc table mr_enclave pkey

-- `sgx_package_handler::handle_pkg` with the one handler that `handle_pkg` adds, on the session's peer.
-- It throws on any other type, as `handle_pkg` does where the table has no key.
abbrev pub package_handler :
    Ecc → KeyTable → (Bytes → Identity) → Packages → Instance → Bytes → Option Bytes
package_handler ecc table identity packages p decrypted_data =
    if packages.type_id decrypted_data == request_skey_from_pkey_item
    then answer_for ecc table (identity p.peer_identity).mr_enclave (packages.pkey decrypted_data)
    else none

-- What is given for the answer of a handler that has thrown; `mgenerate_response` never sends it.
abbrev pub or_empty : Option Bytes → Bytes
or_empty none = []
or_empty (some out) = out

abbrev pub is_thrown : Option Bytes → Bool
is_thrown none = true
is_thrown (some out) = false

-- Whether `generate_response` of the instance reaches its handler, and that throws.
unfoldable pub throws :
    Platform → Message → ℕ → (Instance → Bytes → Option Bytes) → Option Instance → Bool
throws platform req req_size handler none = false
throws platform req req_size handler (some p) =
    let (status, decrypted_data) =
      platform.decrypt p.session.key (take req.payload_size req.payload) req.reserved
        req.payload_tag in
    is_active p.session.status
    && ((req_size + 2 ^ 64 - platform.sizeof_message) % 2 ^ 64 == req.payload_size
        && (platform.can_malloc req.payload_size
            && (status == success && is_thrown (handler p decrypted_data))))

-- The handler of the session that is found; of none, it is not called.
abbrev pub found_handler : (Instance → Bytes → Option Bytes) → Option Instance → Bytes → Bytes
found_handler handler none decrypted_data = []
found_handler handler (some p) decrypted_data = or_empty (handler p decrypted_data)

-- `mgenerate_response`, where `handler` is `package_handler` for the tables and the codec: an exception
-- of the handler leaves `generate_response` before anything of the session has changed.
unfoldable pub mgenerate_response :
    Platform
    → (Instance → Bytes → Option Bytes)
    → ℕ
    → Message
    → ℕ
    → ℕ
    → ℕ
    → ℕ
    → Option Responding
    → ℕ × Message × Option Responding
mgenerate_response platform handler unset req req_size max_payload resp_size id dh_resp_session =
    let s = made_if_not false unset dh_resp_session in
    let found = find_session id s.responder.all_sessions in
    let (status, resp, r) =
      respond_to platform req req_size (found_handler handler found) max_payload resp_size id
        s.responder in
    if throws platform req req_size handler found
    then (error_unexpected, no_message, some s)
    else (status, resp, some (record s { responder = r }))

-- With the test of ekeymgr.ipp, on the identity that the key agreement gives.
abbrev pub tested : Sgx → (Bytes → Identity) → Bool → Bytes → Option AccessList → Sgx
tested sgx identity release self_signer policy = record sgx {
  verify_peer = λ peer. verify_peer_enclave_trust release self_signer policy (identity peer);
}

-- The calls, with any arguments.
pub data Call (sgx : Sgx) : Option Responding → Option Responding → Type 0 where
  requested :
      {o : Option Responding} (pointers : Bool) (unset : ℕ)
      → Call sgx o (msession_request sgx pointers unset o).3
  reported :
      {o : Option Responding} (pointers : Bool) (unset : ℕ) (msg2 : Bytes) (id : ℕ)
      → Call sgx o (mexchange_report sgx pointers unset msg2 id o).2
  responded :
      {o : Option Responding} (platform : Platform) (ecc : Ecc) (table : KeyTable)
      (identity : Bytes → Identity) (packages : Packages) (unset : ℕ) (req : Message)
      (req_size max_payload resp_size id : ℕ)
      → Call sgx o
          (mgenerate_response platform
            (package_handler ecc table identity packages)
            unset
            req
            req_size
            max_payload
            resp_size
            id
            o).2
  ended : {o : Option Responding} (unset id : ℕ) → Call sgx o (mend_session unset id o).1

pub data Calls (sgx : Sgx) : Option Responding → Option Responding → Type 0 where
  no_call : {o : Option Responding} → Calls sgx o o
  then_call : {o o' o'' : Option Responding} → Calls sgx o o' → Call sgx o' o'' → Calls sgx o o''
