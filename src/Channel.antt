-- ===== src/Channel.antt =====
-- ypc/stbox/src/tsgx/channel/dh_session.cpp: the encrypted channel between two enclaves, once a key is
-- agreed on. AES-GCM of the SGX SDK, `malloc` and the handler are parameters.
pub mod Exchange
pub mod InStep
pub mod Responder
pub mod Initiator
mod Tests
use yee_z_privacy_computing.Base.{
  ℕ, ◌+◌, ◌-◌, ◌%◌, ◌^◌, Bool, true, false, ◌&&◌, [], Bytes, ltb, ◌==◌, if◌then◌else◌, length, take,
}
use yee_z_privacy_computing.Status.{
  success, invalid_parameter_error, invalid_session, malloc_error, out_buffer_length_error,
}

-- `secure_message_t`: `reserved` is a 12-byte vector, as a number with the low byte first.
pub record Message : Type 0 where
  pub session_id : ℕ
  pub payload_size : ℕ
  pub reserved : ℕ
  pub payload_tag : Bytes
  pub payload : Bytes

-- `sgx_rijndael128GCM_encrypt` and `_decrypt` give a status and what they put out; `can_malloc` is
-- whether an allocation of a size succeeds; `sizeof_message` is `sizeof(secure_message_t)`.
pub record Platform : Type 0 where
  pub encrypt : Bytes → Bytes → ℕ → ℕ × Bytes × Bytes
  pub decrypt : Bytes → Bytes → ℕ → Bytes → ℕ × Bytes
  pub can_malloc : ℕ → Bool
  pub sizeof_message : ℕ

pub data SessionStatus : Type 0 where
  in_progress active closed : SessionStatus

-- The fields of `dh_session` that the two calls use; `key` is `m_state.active.AEK`.
pub record Session : Type 0 where
  pub key : Bytes
  pub counter : ℕ
  pub session_id : ℕ
  pub status : SessionStatus
  pub send_request_ocall_set : Bool
  pub verify_peer_enclave_trust_set : Bool

-- `memset` leaves a message of zeros.
abbrev pub no_message : Message
no_message = record {
  session_id = 0;
  payload_size = 0;
  reserved = 0;
  payload_tag = [];
  payload = [];
}

abbrev pub next_counter : Session → ℕ
next_counter s = (s.counter + 1) % 2 ^ 32

-- The end of `send_request_recv_response`, behind the decryption: the nonce of the response.
unfoldable pub accept_response : Session → Message → ℕ → Bytes → ℕ × Bytes × Session
accept_response s resp status out_buff =
    if status == success
    then if resp.reserved % 2 ^ 32 == next_counter s
      then (success, out_buff, record s { counter = next_counter s })
      else (invalid_parameter_error, out_buff, s)
    else (status, out_buff, s)

-- From the answer of the ocall on. The length decrypted is the one that the response states; the test
-- of the size compares that of a pointer and never fails, so that of a length beyond the
-- `max_out_buff_size` allocated the source reads on past the response, which is undefined: here it
-- stops at the end. Where nothing is assigned to `out_buff`, it is shown empty.
unfoldable pub take_response : Platform → Session → ℕ × Message → ℕ × Bytes × Session
take_response platform s (retstatus, resp) =
    let (status, out_buff) =
      platform.decrypt s.key (take resp.payload_size resp.payload) resp.reserved resp.payload_tag in
    if retstatus == success then accept_response s resp status out_buff else (retstatus, [], s)

-- The request that is sent.
abbrev pub request_message : Session → ℕ → Bytes → Bytes → Message
request_message s size cipher tag = record {
  session_id = s.session_id;
  payload_size = size % 2 ^ 32;
  reserved = s.counter;
  payload_tag = tag;
  payload = cipher;
}

-- Behind the first allocation.
unfoldable pub send_encrypted :
    Platform → (Message → ℕ × Message) → Session → Bytes → ℕ → ℕ × Bytes × Session
send_encrypted platform send_request_ocall s inp_buff max_out_buff_size =
    let (status, cipher, tag) = platform.encrypt s.key inp_buff s.counter in
    if status == success
    then if platform.can_malloc (platform.sizeof_message + max_out_buff_size)
      then take_response platform s
          (send_request_ocall (request_message s (length inp_buff) cipher tag))
      else (malloc_error, [], s)
    else (status, [], s)

-- `send_request_recv_response`: the status, `out_buff` and the session behind the call.
unfoldable pub send_request_recv_response :
    Platform → (Message → ℕ × Message) → Session → Bytes → ℕ → ℕ × Bytes × Session
send_request_recv_response platform send_request_ocall s inp_buff max_out_buff_size =
    if s.send_request_ocall_set && s.verify_peer_enclave_trust_set
    then if platform.can_malloc (platform.sizeof_message + length inp_buff)
      then send_encrypted platform send_request_ocall s inp_buff max_out_buff_size
      else (malloc_error, [], s)
    else (invalid_parameter_error, [], s)

-- The end of `generate_response`: the nonce grows before the encryption.
unfoldable pub encrypt_response : Platform → Session → Bytes → ℕ × Message × Session
encrypt_response platform s resp_str =
    let s' = record s { counter = next_counter s } in
    let (status, cipher, tag) = platform.encrypt s'.key resp_str s'.counter in
    if status == success
    then (success, request_message s' (length resp_str) cipher tag, s')
    else (status, no_message, s')

-- From the answer of the handler on.
unfoldable pub respond : Platform → Session → Bytes → ℕ → ℕ → ℕ × Message × Session
respond platform s resp_str max_payload_size resp_message_size =
    if ltb max_payload_size (length resp_str)
    then (out_buffer_length_error, no_message, s)
    else if ltb resp_message_size (platform.sizeof_message + length resp_str)
    then (out_buffer_length_error, no_message, s)
    else if platform.can_malloc (platform.sizeof_message + length resp_str)
    then encrypt_response platform s resp_str
    else (malloc_error, no_message, s)

-- The decryption of the request, and the handler.
unfoldable pub handle_request :
    Platform → Session → Message → (Bytes → Bytes) → ℕ → ℕ → ℕ × Message × Session
handle_request platform s req handler max_payload_size resp_message_size =
    let (status, decrypted_data) =
      platform.decrypt s.key (take req.payload_size req.payload) req.reserved req.payload_tag in
    if status == success
    then respond platform s (handler decrypted_data) max_payload_size resp_message_size
    else (status, no_message, s)

abbrev pub is_active : SessionStatus → Bool
is_active in_progress = false
is_active active = true
is_active closed = false

-- `generate_response`: the status, `resp_message` and the session behind the call. The request comes
-- with `req_message_size`; `size_t` subtraction wraps. Both pointers are set.
unfoldable pub generate_response :
    Platform → Session → Message → ℕ → (Bytes → Bytes) → ℕ → ℕ → ℕ × Message × Session
generate_response platform s req req_message_size handler max_payload_size resp_message_size =
    if is_active s.status
    then if (req_message_size + 2 ^ 64 - platform.sizeof_message) % 2 ^ 64 == req.payload_size
      then if platform.can_malloc req.payload_size
        then handle_request platform s req handler max_payload_size resp_message_size
        else (malloc_error, no_message, s)
      else (invalid_parameter_error, no_message, s)
    else (invalid_session, no_message, s)
