-- ===== src/Channel/Responder.antt =====
-- ypc/stbox/src/tsgx/channel/dh_session_responder.cpp: the sessions that an enclave answers, from the
-- first message of the key agreement to their end. The key agreement of the SGX SDK is a parameter.
pub mod Trusted
use yee_z_privacy_computing.Base.{
  ℕ, ◌+◌, ◌%◌, ◌^◌, Bool, true, false, Option, none, some, List, [], ◌∷◌, Bytes, ◌==◌,
  if◌then◌else◌,
}
use yee_z_privacy_computing.Status.{success, invalid_parameter_error, invalid_session}
use yee_z_privacy_computing.Channel.{
  Message, Platform, SessionStatus, in_progress, active, closed, Session, no_message,
  generate_response,
}

-- `sgx_dh_init_session`, `sgx_dh_responder_gen_msg1`, `sgx_dh_responder_proc_msg2` (which gives message
-- 3, the key, the identity of the initiator and the `sgx_dh_session_t` that it has changed) and
-- `m_verify_peer_enclave_trust`, each with a status.
pub record Sgx : Type 0 where
  pub init_session : ℕ × Bytes
  pub gen_msg1 : Bytes → ℕ × Bytes × Bytes
  pub proc_msg2 : Bytes → Bytes → ℕ × Bytes × Bytes × Bytes × Bytes
  pub verify_peer : Bytes → ℕ

-- `dh_session_responder_instance`; `dh_session` is the part of `m_state` before the key is there.
pub record Instance : Type 0 where
  pub session : Session
  pub dh_session : Bytes
  pub peer_identity : Bytes

-- `m_all_sessions` and `m_next_session_id`, a uint32_t that no constructor sets.
pub record Responder : Type 0 where
  pub all_sessions : List (ℕ × Instance)
  pub next_session_id : ℕ

-- `std::map`: `find`, `insert`, which keeps an entry that is there, writing through the iterator, and
-- `erase`.
abbrev pub find_session : ℕ → List (ℕ × Instance) → Option Instance
find_session id [] = none
find_session id ((k, p) ∷ sessions) = if k == id then some p else find_session id sessions

abbrev pub insert_session : ℕ → Instance → List (ℕ × Instance) → List (ℕ × Instance)
insert_session id p [] = (id, p) ∷ []
insert_session id p ((k, q) ∷ sessions) =
    if k == id then (k, q) ∷ sessions else (k, q) ∷ insert_session id p sessions

abbrev pub set_session : ℕ → Instance → List (ℕ × Instance) → List (ℕ × Instance)
set_session id p [] = []
set_session id p ((k, q) ∷ sessions) =
    if k == id then (k, p) ∷ sessions else (k, q) ∷ set_session id p sessions

abbrev pub erase_session : ℕ → List (ℕ × Instance) → List (ℕ × Instance)
erase_session id [] = []
erase_session id ((k, q) ∷ sessions) =
    if k == id then sessions else (k, q) ∷ erase_session id sessions

-- A new instance with its two functions set.
abbrev pub new_instance : Instance
new_instance = record {
  session = record {
    key = [];
    counter = 0;
    session_id = 0;
    status = in_progress;
    send_request_ocall_set = true;
    verify_peer_enclave_trust_set = true;
  };
  dh_session = [];
  peer_identity = [];
}

-- `session_request` of the instance: the status, message 1 and the instance.
unfoldable pub request_instance : Sgx → Instance → ℕ × Bytes × Instance
request_instance sgx p =
    let (init_status, dh) = sgx.init_session in
    let (status, msg1, dh') = sgx.gen_msg1 dh in
    let p' = record p { session = record p.session { status = in_progress } } in
    if init_status == success
    then if status == success
      then (success, msg1, record p' { dh_session = dh' })
      else (status, [], p')
    else (init_status, [], p)

-- `session_request`, where `pointers` is whether both pointers are set: the status, message 1, the
-- session's number and the responder.
unfoldable pub session_request : Sgx → Bool → Responder → ℕ × Bytes × ℕ × Responder
session_request sgx pointers r =
    let id = r.next_session_id in
    let counted = record r { next_session_id = (id + 1) % 2 ^ 32 } in
    let (status, msg1, p) = request_instance sgx new_instance in
    if pointers
    then if status == success
      then (success, msg1, id, record counted { all_sessions = insert_session id p r.all_sessions })
      else (status, msg1, id, counted)
    else (invalid_parameter_error, [], 0, r)

-- `exchange_report` of the instance.
unfoldable pub report_instance : Sgx → Bytes → Instance → ℕ × Bytes × Instance
report_instance sgx msg2 p =
    let (se_ret, msg3, aek, initiator_identity, dh) = sgx.proc_msg2 msg2 p.dh_session in
    let p' = record p { dh_session = dh } in
    if se_ret == success
    then if sgx.verify_peer initiator_identity == success
      then (
        success,
        msg3,
        record p' {
          session = record p.session { status = active; counter = 0; key = aek };
          peer_identity = initiator_identity;
        },
      )
      else (invalid_session, msg3, p')
    else (se_ret, msg3, p')

abbrev pub is_in_progress : SessionStatus → Bool
is_in_progress in_progress = true
is_in_progress active = false
is_in_progress closed = false

-- The end of `exchange_report`, for a session that is found.
unfoldable pub report_found : Sgx → Bool → Bytes → ℕ → Instance → Responder → ℕ × Bytes × Responder
report_found sgx pointers msg2 id p r =
    let (status, msg3, p') = report_instance sgx msg2 p in
    if is_in_progress p.session.status
    then if pointers
      then (status, msg3, record r { all_sessions = set_session id p' r.all_sessions })
      else (invalid_parameter_error, [], r)
    else (invalid_session, [], r)

abbrev pub report_at : Sgx → Bool → Bytes → ℕ → Responder → Option Instance → ℕ × Bytes × Responder
report_at sgx pointers msg2 id r none = (invalid_session, [], r)
report_at sgx pointers msg2 id r (some p) = report_found sgx pointers msg2 id p r

unfoldable pub exchange_report : Sgx → Bool → Bytes → ℕ → Responder → ℕ × Bytes × Responder
exchange_report sgx pointers msg2 id r =
    report_at sgx pointers msg2 id r (find_session id r.all_sessions)

-- `generate_response`, for a session that is found and for any.
unfoldable pub respond_found :
    Platform
    → Message
    → ℕ
    → (Bytes → Bytes)
    → ℕ
    → ℕ
    → ℕ
    → Instance
    → Responder
    → ℕ × Message × Responder
respond_found platform req req_size handler max_payload resp_size id p r =
    let (status, resp, s') =
      generate_response platform p.session req req_size handler max_payload resp_size in
    (
      status,
      resp,
      record r { all_sessions = set_session id (record p { session = s' }) r.all_sessions },
    )

abbrev pub respond_at :
    Platform
    → Message
    → ℕ
    → (Bytes → Bytes)
    → ℕ
    → ℕ
    → ℕ
    → Responder
    → Option Instance
    → ℕ × Message × Responder
respond_at platform req req_size handler max_payload resp_size id r none =
    (invalid_session, no_message, r)
respond_at platform req req_size handler max_payload resp_size id r (some p) =
    respond_found platform req req_size handler max_payload resp_size id p r

unfoldable pub respond_to :
    Platform → Message → ℕ → (Bytes → Bytes) → ℕ → ℕ → ℕ → Responder → ℕ × Message × Responder
respond_to platform req req_size handler max_payload resp_size id r =
    respond_at platform req req_size handler max_payload resp_size id r
      (find_session id r.all_sessions)

-- `end_session`; that of the instance does nothing.
abbrev pub end_at : ℕ → Responder → Option Instance → ℕ × Responder
end_at id r none = (invalid_session, r)
end_at id r (some p) = (success, record r { all_sessions = erase_session id r.all_sessions })

unfoldable pub end_session : ℕ → Responder → ℕ × Responder
end_session id r = end_at id r (find_session id r.all_sessions)
