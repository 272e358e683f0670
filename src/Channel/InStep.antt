-- ===== src/Channel/InStep.antt =====
-- Two ends that are in step stay in step, and the answer of the handler comes back.
use yee_z_privacy_computing.Base.{
  ℕ, ◌+◌, ◌%◌, ◌^◌, ◌≤◌, ◌<◌, ◌≡◌, refl, sym, ap, ◌∙◌, true, arith, Bytes, ==_iff, length, take,
  take_all,
}
use yee_z_privacy_computing.Channel.{
  Message, Platform, Session, next_counter, accept_response, take_response, request_message,
  send_encrypted, send_request_recv_response, is_active, generate_response,
}
use yee_z_privacy_computing.Channel.Exchange.{Works, response, Admits, generate_response-Admits}

-- The ocall that hands a request to the other end.
abbrev pub to_peer : Platform → Session → ℕ → (Bytes → Bytes) → ℕ → ℕ → Message → ℕ × Message
to_peer platform r size handler max_payload resp_size req =
    let (status, resp, r') = generate_response platform r req size handler max_payload resp_size in
    (status, resp)

-- Two ends that are in step: one key and one counter.
pub record InStep (s r : Session) : Type 0 where
  pub same_key : s.key ≡ r.key
  pub same_counter : s.counter ≡ r.counter
  pub counter_fits : s.counter < 2 ^ 32
  pub answers : is_active r.status ≡ true
  pub sends : s.send_request_ocall_set ≡ true
  pub verifies : s.verify_peer_enclave_trust_set ≡ true

-- Sizes for which no guard refuses.
pub record Sizes (platform : Platform) (inp out : Bytes) (max_payload resp_size : ℕ) : Type 0 where
  pub inp_fits : length inp < 2 ^ 32
  pub out_fits : length out < 2 ^ 32
  pub message_fits : platform.sizeof_message < 2 ^ 32
  pub payload_fits : length out ≤ max_payload
  pub buffer_fits : platform.sizeof_message + length out ≤ resp_size

accepts :
    (platform : Platform) (s : Session) (resp : Message) (out : Bytes)
    → resp.reserved % 2 ^ 32 ≡ next_counter s
    → accept_response s resp 0 out ≡ (0, out, record s { counter = next_counter s })
unfolding accept_response
accepts platform s resp out e = rw ((==_iff _ _).1 e) refl

send_request_step :
    (platform : Platform) (send_request_ocall : Message → ℕ × Message) (s : Session)
    (inp out : Bytes) (size : ℕ) (resp : Message)
    → Works platform
    → s.send_request_ocall_set ≡ true
    → s.verify_peer_enclave_trust_set ≡ true
    → send_request_ocall (
        request_message s
          (length inp)
          (platform.encrypt s.key inp s.counter).1
          (platform.encrypt s.key inp s.counter).2)
      ≡ (0, resp)
    → platform.decrypt s.key (take resp.payload_size resp.payload) resp.reserved resp.payload_tag
      ≡ (0, out)
    → resp.reserved % 2 ^ 32 ≡ next_counter s
    → send_request_recv_response platform send_request_ocall s inp size
      ≡ (0, out, record s { counter = next_counter s })
unfolding send_request_recv_response send_encrypted
send_request_step platform send_request_ocall s inp out size resp w set1 set2 answer opens nonce =
    sent ∙ (ap (take_response platform s) answer ∙ accepted)
  where
    accepted : take_response platform s (0, resp) ≡ (0, out, record s { counter = next_counter s })
    accepted = unfold take_response in rw opens (accepts platform s resp out nonce)

    sent :
        send_request_recv_response platform send_request_ocall s inp size
        ≡ take_response platform s (
            send_request_ocall (
              request_message s
                (length inp)
                (platform.encrypt s.key inp s.counter).1
                (platform.encrypt s.key inp s.counter).2))
    sent = ground (
      arith,
      w.has_memory (platform.sizeof_message + length inp),
      w.encrypts s.key inp s.counter,
      w.has_memory (platform.sizeof_message + size),
    )

-- A payload is cut to its own length and decrypts under the key of the other end.
opens_under :
    (platform : Platform) (key key' m : Bytes) (iv : ℕ)
    → Works platform
    → key ≡ key'
    → length m < 2 ^ 32
    → platform.decrypt key'
        (take (length m % 2 ^ 32) (platform.encrypt key m iv).1)
        iv
        (platform.encrypt key m iv).2
      ≡ (0, m)
opens_under platform key key' m iv w same fit =
    ap
      (λ k.
        platform.decrypt k (take (length m % 2 ^ 32) (platform.encrypt key m iv).1) iv
          (platform.encrypt key m iv).2)
      (sym same)
    ∙ (ap (λ c. platform.decrypt key c iv (platform.encrypt key m iv).2)
          (take_all (platform.encrypt key m iv).1 (length m % 2 ^ 32)
            (omega (arith, w.cipher_length key m iv, fit)))
        ∙ w.decrypts key m iv)

-- The request that the session sends, and the answer that the other end gives.
exchange_Admits :
    (platform : Platform) (s r : Session) (inp : Bytes) (handler : Bytes → Bytes)
    (max_payload resp_size : ℕ)
    → Works platform
    → InStep s r
    → Sizes platform inp (handler inp) max_payload resp_size
    → Admits platform r
        (request_message s
          (length inp)
          (platform.encrypt s.key inp s.counter).1
          (platform.encrypt s.key inp s.counter).2)
        (platform.sizeof_message + length inp)
        inp
        (handler inp)
        max_payload
        resp_size
exchange_Admits platform s r inp handler max_payload resp_size w i z = record {
  is_on = i.answers;
  sized = omega (arith, z.inp_fits, z.message_fits);
  opens = opens_under platform s.key r.key inp s.counter w i.same_key z.inp_fits;
  fits_payload = z.payload_fits;
  fits_buffer = z.buffer_fits;
}

-- Between two ends in step, and for sizes that no guard refuses, a call returns success with the
-- answer of the handler to what was sent, and both ends are in step again, one nonce later.
pub send_request-InStep :
    (platform : Platform) (s r : Session) (inp : Bytes) (handler : Bytes → Bytes)
    (max_payload resp_size out_size : ℕ)
    → Works platform
    → InStep s r
    → Sizes platform inp (handler inp) max_payload resp_size
    → (s' : Session) × (r' : Session) × (req : Message) × (resp : Message)
      × (send_request_recv_response platform
            (to_peer platform r
              (platform.sizeof_message + length inp)
              handler
              max_payload
              resp_size)
            s
            inp
            out_size
          ≡ (0, handler inp, s'))
      × (generate_response platform r req
            (platform.sizeof_message + length inp)
            handler
            max_payload
            resp_size
          ≡ (0, resp, r'))
      × (s'.counter ≡ (s.counter + 1) % 2 ^ 32)
      × InStep s' r'
send_request-InStep platform s r inp handler max_payload resp_size out_size w i z =
    let req =
      request_message s (length inp) (platform.encrypt s.key inp s.counter).1
        (platform.encrypt s.key inp s.counter).2 in
    let answer =
      generate_response-Admits platform r req (platform.sizeof_message + length inp) inp handler
        max_payload resp_size w
        (exchange_Admits platform s r inp handler max_payload resp_size w i z) in
    let next : next_counter r ≡ next_counter s = ap (λ n. (n + 1) % 2 ^ 32) (sym i.same_counter) in
    (
      record s { counter = next_counter s },
      record r { counter = next_counter r },
      req,
      response platform r (handler inp),
      send_request_step platform
          (to_peer platform r (platform.sizeof_message + length inp) handler max_payload resp_size)
          s inp (handler inp) out_size (response platform r (handler inp)) w i.sends i.verifies
          (ap (λ (a : ℕ × Message × Session). (a.0, a.1)) answer)
          (opens_under platform r.key s.key (handler inp) (next_counter r) w (sym i.same_key)
            z.out_fits)
          (omega (arith, next)),
      answer,
      refl,
      record {
        same_key = i.same_key;
        same_counter = sym next;
        counter_fits = omega arith;
        answers = i.answers;
        sends = i.sends;
        verifies = i.verifies;
      },
    )
