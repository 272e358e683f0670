-- ===== src/Channel/Initiator.antt =====
-- ypc/stbox/src/tsgx/channel/dh_session_initiator.cpp: how a session gets its key. The key agreement of
-- the SGX SDK and the ocalls to the other enclave are parameters.
use yee_z_privacy_computing.Base.{ℕ, ◌≡◌, ◌≢◌, ◌⊎◌, true, arith, Bytes, ◌==◌, if◌then◌else◌}
use yee_z_privacy_computing.Status.{success, invalid_session}
use yee_z_privacy_computing.Channel.{active, Session, is_active}

-- The calls in the order of their use, each with a status: `sgx_dh_init_session`, the ocall for message
-- 1 and the session's number, `sgx_dh_initiator_proc_msg1`, the ocall that trades message 2 for message
-- 3, `sgx_dh_initiator_proc_msg3` with the key and the identity, the test of that identity, and the
-- ocall that ends a session.
pub record Agreement : Type 0 where
  pub init_session : ℕ × Bytes
  pub session_request_ocall : ℕ × Bytes × ℕ
  pub proc_msg1 : Bytes → Bytes → ℕ × Bytes × Bytes
  pub exchange_report_ocall : Bytes → ℕ → ℕ × Bytes
  pub proc_msg3 : Bytes → Bytes → ℕ × Bytes × Bytes
  pub verify_peer : Bytes → ℕ
  pub end_session_ocall : ℕ → ℕ

pub record Initiator : Type 0 where
  pub session : Session
  pub peer_identity : Bytes

-- Behind `sgx_dh_initiator_proc_msg3`.
adopt : Agreement → ℕ → Bytes → Bytes → Initiator → ℕ × Initiator
adopt g session_id dh_aek responder_identity s =
    if g.verify_peer responder_identity == success
    then (
      success,
      record {
        session = record s.session {
          key = dh_aek;
          session_id = session_id;
          counter = 0;
          status = active;
        };
        peer_identity = responder_identity;
      },
    )
    else (invalid_session, s)

-- From message 3 on.
agree : Agreement → ℕ → Bytes → Bytes → Initiator → ℕ × Initiator
unfolding adopt
agree g session_id dh_msg3 dh s =
    let (status, dh_aek, responder_identity) = g.proc_msg3 dh_msg3 dh in
    if status == success then adopt g session_id dh_aek responder_identity s else (status, s)

-- From message 1 on.
exchange : Agreement → Bytes → ℕ → Bytes → Initiator → ℕ × Initiator
unfolding agree
exchange g dh_msg1 session_id dh s =
    let (status, dh_msg2, dh') = g.proc_msg1 dh_msg1 dh in
    let (retstatus, dh_msg3) = g.exchange_report_ocall dh_msg2 session_id in
    if status == success
    then if retstatus == success then agree g session_id dh_msg3 dh' s else (retstatus, s)
    else (status, s)

pub create_session : Agreement → Initiator → ℕ × Initiator
unfolding exchange
create_session g s =
    let (status, dh) = g.init_session in
    let (retstatus, dh_msg1, session_id) = g.session_request_ocall in
    if status == success
    then if retstatus == success then exchange g dh_msg1 session_id dh s else (retstatus, s)
    else (status, s)

-- `close_session` returns the status of the ocall and leaves the session as it is.
abbrev pub close_session : Agreement → Initiator → ℕ
close_session g s = g.end_session_ocall s.session.session_id

-- `create_session` either returns another status than success and changes nothing, or the session is
-- active with the counter 0 and a peer that it has verified.
pub create_session_lem :
    (g : Agreement) (s s' : Initiator) (status : ℕ)
    → create_session g s ≡ (status, s')
    → ((status ≢ 0) × (s' ≡ s))
      ⊎ ((status ≡ 0)
          × (is_active s'.session.status ≡ true)
          × (s'.session.counter ≡ 0)
          × (g.verify_peer s'.peer_identity ≡ 0))
unfolding create_session
create_session_lem g s s' status e = ground arith
