-- ===== src/Channel/Exchange.antt =====
-- One request and its response, between two ends and with anyone in between.
use yee_z_privacy_computing.Base.{
  ℕ, ◌+◌, ◌-◌, ◌%◌, ◌^◌, ◌≤◌, ◌≡◌, refl, sym, ap, ◌∙◌, ◌≢◌, true, arith, Bytes, ==_iff, length,
  take,
}
use mathlib.Core.Path.{subst}
use yee_z_privacy_computing.Channel.{
  Message, Platform, Session, next_counter, accept_response, take_response, request_message,
  send_encrypted, send_request_recv_response, encrypt_response, respond, handle_request, is_active,
  generate_response,
}

-- What a success or a failure of the call has left.
pub record Received (platform : Platform) (s : Session) (out : Bytes) (s' : Session)
    (resp : Message) : Type 0 where
  pub decrypted :
      platform.decrypt s.key (take resp.payload_size resp.payload) resp.reserved resp.payload_tag
      ≡ (0, out)
  pub nonce : resp.reserved % 2 ^ 32 ≡ next_counter s
  pub counted : s' ≡ record s { counter = next_counter s }

take_response-Received :
    (platform : Platform) (s s' : Session) (answer : ℕ × Message) (out : Bytes)
    → take_response platform s answer ≡ (0, out, s')
    → Received platform s out s' answer.1
unfolding take_response accept_response
take_response-Received platform s s' (ret, resp) out e = record {
  decrypted = λ i. (ok_status i, same_out i);
  nonce = ground arith;
  counted = sym same_session;
}
  where
    ok_status :
        (platform.decrypt s.key
          (take resp.payload_size resp.payload)
          resp.reserved
          resp.payload_tag).0
        ≡ 0
    ok_status = ground arith

    same_out :
        (platform.decrypt s.key
          (take resp.payload_size resp.payload)
          resp.reserved
          resp.payload_tag).1
        ≡ out
    same_out = ground arith

    same_session : record s { counter = next_counter s } ≡ s'
    same_session = ground arith

send_steps :
    (platform : Platform) (send_request_ocall : Message → ℕ × Message) (s s' : Session)
    (inp out : Bytes) (size : ℕ)
    → send_request_recv_response platform send_request_ocall s inp size ≡ (0, out, s')
    → take_response platform s (
        send_request_ocall (
          request_message s
            (length inp)
            (platform.encrypt s.key inp s.counter).1
            (platform.encrypt s.key inp s.counter).2))
      ≡ (0, out, s')
unfolding send_request_recv_response send_encrypted
send_steps platform send_request_ocall s s' inp out size e = ground arith

-- Whoever answers: where `send_request_recv_response` returns success, the answer decrypts under the
-- key of the session to what is returned, its nonce is the next one, and the counter has grown by one.
pub send_request-Received :
    (platform : Platform) (send_request_ocall : Message → ℕ × Message) (s s' : Session)
    (inp out : Bytes) (size : ℕ)
    → send_request_recv_response platform send_request_ocall s inp size ≡ (0, out, s')
    → (req : Message) × (req.reserved ≡ s.counter)
      × Received platform s out s' (send_request_ocall req).1
send_request-Received platform send_request_ocall s s' inp out size e =
    let req =
      request_message s (length inp) (platform.encrypt s.key inp s.counter).1
        (platform.encrypt s.key inp s.counter).2 in
    (
      req,
      refl,
      take_response-Received platform s s' (send_request_ocall req) out
          (send_steps platform send_request_ocall s s' inp out size e),
    )

-- A call that does not return success leaves the session as it was, so that the next request uses the
-- same nonce again.
pub send_request_failed :
    (platform : Platform) (send_request_ocall : Message → ℕ × Message) (s s' : Session)
    (inp out : Bytes) (size status : ℕ)
    → send_request_recv_response platform send_request_ocall s inp size ≡ (status, out, s')
    → status ≢ 0
    → s' ≡ s
unfolding send_request_recv_response send_encrypted take_response accept_response
send_request_failed platform send_request_ocall s s' inp out size status e bad = ground arith

-- The SDK and the memory of the enclave as they work: encryption succeeds and is undone.
pub record Works (platform : Platform) : Type 0 where
  pub encrypts : (key m : Bytes) (iv : ℕ) → (platform.encrypt key m iv).0 ≡ 0
  pub decrypts :
      (key m : Bytes) (iv : ℕ)
      → platform.decrypt key (platform.encrypt key m iv).1 iv (platform.encrypt key m iv).2 ≡ (0, m)
  pub cipher_length : (key m : Bytes) (iv : ℕ) → length (platform.encrypt key m iv).1 ≡ length m
  pub has_memory : (n : ℕ) → platform.can_malloc n ≡ true

-- The response that carries `resp_str`.
abbrev pub response : Platform → Session → Bytes → Message
response platform s resp_str =
    request_message (record s { counter = next_counter s }) (length resp_str)
      (platform.encrypt s.key resp_str (next_counter s)).1
      (platform.encrypt s.key resp_str (next_counter s)).2

-- The guards of `generate_response`.
pub record Admits (platform : Platform) (s : Session) (req : Message) (size : ℕ) (m : Bytes)
    (resp_str : Bytes) (max_payload resp_size : ℕ) : Type 0 where
  pub is_on : is_active s.status ≡ true
  pub sized : (size + 2 ^ 64 - platform.sizeof_message) % 2 ^ 64 ≡ req.payload_size
  pub opens :
      platform.decrypt s.key (take req.payload_size req.payload) req.reserved req.payload_tag
      ≡ (0, m)
  pub fits_payload : length resp_str ≤ max_payload
  pub fits_buffer : platform.sizeof_message + length resp_str ≤ resp_size

respond_step :
    (platform : Platform) (s : Session) (resp_str : Bytes) (max_payload resp_size : ℕ)
    → Works platform
    → length resp_str ≤ max_payload
    → platform.sizeof_message + length resp_str ≤ resp_size
    → respond platform s resp_str max_payload resp_size
      ≡ (0, response platform s resp_str, record s { counter = next_counter s })
unfolding respond encrypt_response
respond_step platform s resp_str max_payload resp_size w a b = ground (
  arith,
  w.encrypts s.key resp_str (next_counter s),
  w.has_memory (platform.sizeof_message + length resp_str),
)

pub generate_response-Admits :
    (platform : Platform) (s : Session) (req : Message) (size : ℕ) (m : Bytes)
    (handler : Bytes → Bytes) (max_payload resp_size : ℕ)
    → Works platform
    → Admits platform s req size m (handler m) max_payload resp_size
    → generate_response platform s req size handler max_payload resp_size
      ≡ (0, response platform s (handler m), record s { counter = next_counter s })
unfolding generate_response handle_request
generate_response-Admits platform s req size m handler max_payload resp_size w a =
    rw (a.is_on, (==_iff _ _).1 a.sized, w.has_memory req.payload_size, a.opens)
      (respond_step platform s (handler m) max_payload resp_size w a.fits_payload a.fits_buffer)

Admits-success :
    (platform : Platform) (s s' : Session) (req resp : Message) (size : ℕ) (handler : Bytes → Bytes)
    (max_payload resp_size : ℕ)
    → generate_response platform s req size handler max_payload resp_size ≡ (0, resp, s')
    → (m : Bytes) × Admits platform s req size m (handler m) max_payload resp_size
unfolding generate_response handle_request respond
Admits-success platform s s' req resp size handler max_payload resp_size e = (
  decrypted_request.1,
  record {
    is_on = ground arith;
    sized = ground arith;
    opens = λ i. (opened i, decrypted_request.1);
    fits_payload = ground arith;
    fits_buffer = ground arith;
  },
)
  where
    decrypted_request : ℕ × Bytes
    decrypted_request =
        platform.decrypt s.key (take req.payload_size req.payload) req.reserved req.payload_tag

    opened : decrypted_request.0 ≡ 0
    opened = ground arith

-- A request that was answered is answered once more when it comes again: the nonce of a request is not
-- compared with the session's, the handler runs again, and its answer is sent under the next nonce.
pub generate_response_again :
    (platform : Platform) (s s' : Session) (req resp : Message) (size : ℕ) (handler : Bytes → Bytes)
    (max_payload resp_size : ℕ)
    → Works platform
    → generate_response platform s req size handler max_payload resp_size ≡ (0, resp, s')
    → (m : Bytes) × (resp ≡ response platform s (handler m))
      × (generate_response platform s' req size handler max_payload resp_size
          ≡ (0, response platform s' (handler m), record s' { counter = next_counter s' }))
generate_response_again platform s s' req resp size handler max_payload resp_size w e =
    let (m, a) = Admits-success platform s s' req resp size handler max_payload resp_size e in
    let first = generate_response-Admits platform s req size m handler max_payload resp_size w a in
    let moved : record s { counter = next_counter s } ≡ s' =
      ap (λ (r : ℕ × Message × Session). r.2) (sym first ∙ e) in
    (
      m,
      ap (λ (r : ℕ × Message × Session). r.1) (sym e ∙ first),
      generate_response-Admits platform s' req size m handler max_payload resp_size w (
          subst (λ r. Admits platform r req size m (handler m) max_payload resp_size) moved
            (record {
              is_on = a.is_on;
              sized = a.sized;
              opens = a.opens;
              fits_payload = a.fits_payload;
              fits_buffer = a.fits_buffer;
            })),
    )
