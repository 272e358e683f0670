-- ===== src/Channel/Tests.antt =====
-- A platform that marks what it encrypts by its nonce in the tag, and two ends with the counter 41.
use yee_z_privacy_computing.Base.{
  ℕ, ◌≡◌, ◌≢◌, ◌⊎◌, refl, true, [], ◌∷◌, arith, Bytes, if◌then◌else◌, bytes_eq, bytes_eq_refl,
}
use yee_z_privacy_computing.Channel.{
  Message, Platform, is_active, active, Session, next_counter, send_request_recv_response,
  generate_response, request_message, no_message,
}
use yee_z_privacy_computing.Channel.Exchange.{
  Received, Works, response, send_request-Received, generate_response_again,
}
use yee_z_privacy_computing.Channel.Responder.{Sgx, Responder, session_request, exchange_report}
use yee_z_privacy_computing.Channel.Responder.Trusted.{
  AllTrusted, requested, reported, Steps, none_left, then_step, Steps-AllTrusted,
}
use yee_z_privacy_computing.Channel.Initiator.{
  Agreement, Initiator, create_session, create_session_lem,
}
use yee_z_privacy_computing.Channel.InStep.{to_peer, InStep, Sizes, send_request-InStep}

abbrev plain : Platform
plain = record {
  encrypt = λ key m iv. (0, m, iv ∷ []);
  decrypt = λ key c iv tag. (if bytes_eq tag (iv ∷ []) then 0 else 1, c);
  can_malloc = λ n. true;
  sizeof_message = 36;
}

plain-Works : Works plain
plain-Works = record {
  encrypts = λ key m iv. refl;
  decrypts = λ key m iv. rw (bytes_eq_refl (iv ∷ [])) refl;
  cipher_length = λ key m iv. refl;
  has_memory = λ n. refl;
}

abbrev one_end : Session
one_end = record {
  key = 1 ∷ 2 ∷ [];
  counter = 41;
  session_id = 7;
  status = active;
  send_request_ocall_set = true;
  verify_peer_enclave_trust_set = true;
}

abbrev echo : Bytes → Bytes
echo m = 0 ∷ m

in_step : InStep one_end one_end
in_step = record {
  same_key = refl;
  same_counter = refl;
  counter_fits = omega arith;
  answers = refl;
  sends = refl;
  verifies = refl;
}

sizes : Sizes plain (5 ∷ []) (0 ∷ 5 ∷ []) 8 64
sizes = record {
  inp_fits = omega arith;
  out_fits = omega arith;
  message_fits = omega arith;
  payload_fits = omega arith;
  buffer_fits = omega arith;
}

send_request-InStep_example :
    (s' : Session) × (r' : Session) × (req : Message) × (resp : Message)
    × (send_request_recv_response plain (to_peer plain one_end 37 echo 8 64) one_end (5 ∷ []) 8
        ≡ (0, 0 ∷ 5 ∷ [], s'))
    × (generate_response plain one_end req 37 echo 8 64 ≡ (0, resp, r'))
    × (s'.counter ≡ 42)
    × InStep s' r'
send_request-InStep_example =
    send_request-InStep plain one_end one_end (5 ∷ []) echo 8 64 8 plain-Works in_step sizes

abbrev answering : Message → ℕ × Message
answering req =
    (0, record req { reserved = 42; payload = 9 ∷ []; payload_size = 1; payload_tag = 42 ∷ [] })

accepted :
    send_request_recv_response plain answering one_end (5 ∷ []) 8
    ≡ (0, 9 ∷ [], record one_end { counter = 42 })
unfolding send_request_recv_response yee_z_privacy_computing.Channel.send_encrypted
    yee_z_privacy_computing.Channel.take_response yee_z_privacy_computing.Channel.accept_response
accepted = refl

send_request-Received_example :
    (req : Message) × (req.reserved ≡ 41)
    × Received plain one_end (9 ∷ []) (record one_end { counter = 42 }) (answering req).1
send_request-Received_example =
    send_request-Received plain answering one_end (record one_end { counter = 42 }) (5 ∷ [])
      (9 ∷ []) 8 accepted

abbrev a_request : Message
a_request = request_message one_end 1 (5 ∷ []) (41 ∷ [])

first_answer :
    generate_response plain one_end a_request 37 echo 8 64
    ≡ (0, response plain one_end (0 ∷ 5 ∷ []), record one_end { counter = 42 })
unfolding generate_response yee_z_privacy_computing.Channel.handle_request
    yee_z_privacy_computing.Channel.respond yee_z_privacy_computing.Channel.encrypt_response
first_answer = refl

generate_response_again_example :
    (m : Bytes) × (response plain one_end (0 ∷ 5 ∷ []) ≡ response plain one_end (echo m))
    × (generate_response plain (record one_end { counter = 42 }) a_request 37 echo 8 64 ≡ (
      0,
      response plain (record one_end { counter = 42 }) (echo m),
      record one_end { counter = 43 },
    ))
generate_response_again_example =
    generate_response_again plain one_end (record one_end { counter = 42 }) a_request
      (response plain one_end (0 ∷ 5 ∷ [])) 37 echo 8 64 plain-Works first_answer

abbrev known_peer : Sgx
known_peer = record {
  init_session = (0, []);
  gen_msg1 = λ dh. (0, 1 ∷ [], 2 ∷ []);
  proc_msg2 = λ msg2 dh. (0, 3 ∷ [], 4 ∷ [], msg2, dh);
  verify_peer = λ identity. if bytes_eq identity (9 ∷ []) then 0 else 1;
}

abbrev no_sessions : Responder
no_sessions = record { all_sessions = []; next_session_id = 5 }

two-Steps :
    Steps known_peer plain no_sessions
      (exchange_report known_peer true (9 ∷ []) 5 (session_request known_peer true no_sessions).3).2
two-Steps = then_step (then_step none_left (requested true)) (reported true (9 ∷ []) 5)

Steps-AllTrusted_example :
    AllTrusted known_peer
      (exchange_report known_peer true (9 ∷ []) 5 (session_request known_peer true no_sessions).3).2
Steps-AllTrusted_example = Steps-AllTrusted known_peer plain no_sessions _ two-Steps tt

abbrev agreeing : Agreement
agreeing = record {
  init_session = (0, []);
  session_request_ocall = (0, 1 ∷ [], 5);
  proc_msg1 = λ msg1 dh. (0, 2 ∷ [], dh);
  exchange_report_ocall = λ msg2 id. (0, 3 ∷ []);
  proc_msg3 = λ msg3 dh. (0, 4 ∷ [], 9 ∷ []);
  verify_peer = λ identity. if bytes_eq identity (9 ∷ []) then 0 else 1;
  end_session_ocall = λ id. 0;
}

abbrev before : Initiator
before = record { session = one_end; peer_identity = [] }

create_session_lem_example :
    (((create_session agreeing before).0 ≢ 0) × ((create_session agreeing before).1 ≡ before))
    ⊎ (((create_session agreeing before).0 ≡ 0)
        × (is_active (create_session agreeing before).1.session.status ≡ true)
        × ((create_session agreeing before).1.session.counter ≡ 0)
        × (agreeing.verify_peer (create_session agreeing before).1.peer_identity ≡ 0))
create_session_lem_example =
    create_session_lem agreeing before (create_session agreeing before).1
      (create_session agreeing before).0 refl
