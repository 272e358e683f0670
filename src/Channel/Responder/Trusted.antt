-- ===== src/Channel/Responder/Trusted.antt =====
-- An enclave answers on sessions with a verified peer alone.
use yee_z_privacy_computing.Base.{
  ℕ, ◌≡◌, refl, sym, ap, ◌∙◌, ◌⊎◌, inl, inr, Bool, true, false, Option, none, some, List, [], ◌∷◌,
  arith, Bytes, ◌==◌, if◌then◌else◌, ==_iff, Bool-cases, All,
}
use mathlib.Core.Option.{none-ne-some, some-injective}
use mathlib.Core.Path.{subst}
use yee_z_privacy_computing.Channel.{
  Message, Platform, in_progress, Session, is_active, generate_response, handle_request, respond,
  encrypt_response,
}
use yee_z_privacy_computing.Channel.Responder.{
  Sgx, Instance, Responder, find_session, insert_session, set_session, erase_session, new_instance,
  request_instance, session_request, report_instance, is_in_progress, report_found, report_at,
  exchange_report, respond_found, respond_at, respond_to, end_at, end_session,
}

-- An instance that is active has a peer that the enclave trusts.
abbrev pub IsTrusted : Sgx → Instance → Type 0
IsTrusted sgx p = (is_active p.session.status ≡ false) ⊎ (sgx.verify_peer p.peer_identity ≡ 0)

abbrev pub AllTrusted : Sgx → Responder → Type 0
AllTrusted sgx r = All (λ (e : ℕ × Instance). IsTrusted sgx e.1) r.all_sessions

-- Whatever the host calls, with any argument.
pub data Step (sgx : Sgx) (platform : Platform) : Responder → Responder → Type 0 where
  requested :
      {r : Responder} (pointers : Bool) → Step sgx platform r (session_request sgx pointers r).3
  reported :
      {r : Responder} (pointers : Bool) (msg2 : Bytes) (id : ℕ)
      → Step sgx platform r (exchange_report sgx pointers msg2 id r).2
  responded :
      {r : Responder} (req : Message) (req_size : ℕ) (handler : Bytes → Bytes)
      (max_payload resp_size id : ℕ)
      → Step sgx platform r (respond_to platform req req_size handler max_payload resp_size id r).2
  ended : {r : Responder} (id : ℕ) → Step sgx platform r (end_session id r).1

pub data Steps (sgx : Sgx) (platform : Platform) : Responder → Responder → Type 0 where
  none_left : {r : Responder} → Steps sgx platform r r
  then_step :
      {r r' r'' : Responder}
      → Steps sgx platform r r'
      → Step sgx platform r' r''
      → Steps sgx platform r r''

module _ (P : Instance → Type 0) where
  abbrev AllSessions : List (ℕ × Instance) → Type 0
  AllSessions sessions = All (λ (e : ℕ × Instance). P e.1) sessions

  find_session-AllSessions :
      (id : ℕ) (p : Instance) (sessions : List (ℕ × Instance))
      → AllSessions sessions
      → find_session id sessions ≡ some p
      → P p
  find_session-AllSessions id p [] a e = absurd (none-ne-some p e)
  find_session-AllSessions id p ((k, q) ∷ sessions) (h, a) e = elim (Bool-cases (k == id)) [
    | inl here ↦ subst P (some-injective q p (sym (rw here refl) ∙ e)) h
    | inr there ↦ find_session-AllSessions id p sessions a (sym (rw there refl) ∙ e)
  ]

  insert_session-AllSessions :
      (id : ℕ) (p : Instance) (sessions : List (ℕ × Instance))
      → P p
      → AllSessions sessions
      → AllSessions (insert_session id p sessions)
  insert_session-AllSessions id p [] h a = (h, tt)
  insert_session-AllSessions id p ((k, q) ∷ sessions) h (hq, a) = elim (Bool-cases (k == id)) [
    | inl here ↦ rw here (hq, a)
    | inr there ↦ rw there (hq, insert_session-AllSessions id p sessions h a)
  ]

  set_session-AllSessions :
      (id : ℕ) (p : Instance) (sessions : List (ℕ × Instance))
      → P p
      → AllSessions sessions
      → AllSessions (set_session id p sessions)
  set_session-AllSessions id p [] h a = tt
  set_session-AllSessions id p ((k, q) ∷ sessions) h (hq, a) = elim (Bool-cases (k == id)) [
    | inl here ↦ rw here (h, a)
    | inr there ↦ rw there (hq, set_session-AllSessions id p sessions h a)
  ]

  erase_session-AllSessions :
      (id : ℕ) (sessions : List (ℕ × Instance))
      → AllSessions sessions
      → AllSessions (erase_session id sessions)
  erase_session-AllSessions id [] a = tt
  erase_session-AllSessions id ((k, q) ∷ sessions) (hq, a) = elim (Bool-cases (k == id)) [
    | inl here ↦ rw here a
    | inr there ↦ rw there (hq, erase_session-AllSessions id sessions a)
  ]

-- A property of an `if` holds where it holds of both branches.
pub if_both :
    {A : Type 0} (P : A → Type 0) (b : Bool) (x y : A)
    → (b ≡ true → P x)
    → (b ≡ false → P y)
    → P (if b then x else y)
if_both P true x y hx hy = hx refl
if_both P false x y hx hy = hy refl

request_instance-status :
    (sgx : Sgx) (p : Instance)
    → p.session.status ≡ in_progress
    → (request_instance sgx p).2.session.status ≡ in_progress
unfolding request_instance
request_instance-status sgx p e = ground arith

module _ (sgx : Sgx) where
  pub session_request-AllTrusted :
      (pointers : Bool) (r : Responder)
      → AllTrusted sgx r
      → AllTrusted sgx (session_request sgx pointers r).3
  unfolding session_request
  session_request-AllTrusted false r a = a
  session_request-AllTrusted true r a =
      let p = (request_instance sgx new_instance).2 in
      if_both (λ (t : ℕ × Bytes × ℕ × Responder). AllTrusted sgx t.3)
        ((request_instance sgx new_instance).0 == 0) _ _
        (λ e.
          insert_session-AllSessions (IsTrusted sgx) r.next_session_id p r.all_sessions
            (inl (ap is_active (request_instance-status sgx new_instance refl))) a)
        (λ e. a)

  report_instance-IsTrusted :
      (msg2 : Bytes) (p : Instance) → IsTrusted sgx p → IsTrusted sgx (report_instance sgx msg2 p).2
  unfolding report_instance
  report_instance-IsTrusted msg2 p t =
      if_both (λ (u : ℕ × Bytes × Instance). IsTrusted sgx u.2)
        ((sgx.proc_msg2 msg2 p.dh_session).0 == 0) _ _
        (λ e.
          if_both (λ (u : ℕ × Bytes × Instance). IsTrusted sgx u.2)
            (sgx.verify_peer (sgx.proc_msg2 msg2 p.dh_session).3 == 0) _ _
            (λ e'. inr ((==_iff _ 0).0 e')) (λ e'. t))
        (λ e. t)

  report_found-AllTrusted :
      (pointers : Bool) (msg2 : Bytes) (id : ℕ) (p : Instance) (r : Responder)
      → IsTrusted sgx p
      → AllTrusted sgx r
      → AllTrusted sgx (report_found sgx pointers msg2 id p r).2
  unfolding report_found
  report_found-AllTrusted pointers msg2 id p r t a =
      if_both (λ (u : ℕ × Bytes × Responder). AllTrusted sgx u.2) (is_in_progress p.session.status)
        _ _
        (λ e.
          if_both (λ (u : ℕ × Bytes × Responder). AllTrusted sgx u.2) pointers _ _
            (λ e'.
              set_session-AllSessions (IsTrusted sgx) id (report_instance sgx msg2 p).2
                r.all_sessions (report_instance-IsTrusted msg2 p t) a)
            (λ e'. a))
        (λ e. a)

  report_at-AllTrusted :
      (pointers : Bool) (msg2 : Bytes) (id : ℕ) (r : Responder) (o : Option Instance)
      → find_session id r.all_sessions ≡ o
      → AllTrusted sgx r
      → AllTrusted sgx (report_at sgx pointers msg2 id r o).2
  report_at-AllTrusted pointers msg2 id r none e a = a
  report_at-AllTrusted pointers msg2 id r (some p) e a =
      report_found-AllTrusted pointers msg2 id p r
        (find_session-AllSessions (IsTrusted sgx) id p r.all_sessions a e) a

pub exchange_report-AllTrusted :
    (sgx : Sgx) (pointers : Bool) (msg2 : Bytes) (id : ℕ) (r : Responder)
    → AllTrusted sgx r
    → AllTrusted sgx (exchange_report sgx pointers msg2 id r).2
unfolding exchange_report
exchange_report-AllTrusted sgx pointers msg2 id r a =
    report_at-AllTrusted sgx pointers msg2 id r (find_session id r.all_sessions) refl a

generate_response-status :
    (platform : Platform) (s : Session) (req : Message) (size : ℕ) (handler : Bytes → Bytes)
    (max_payload resp_size : ℕ)
    → (generate_response platform s req size handler max_payload resp_size).2.status ≡ s.status
unfolding generate_response handle_request respond encrypt_response
generate_response-status platform s req size handler max_payload resp_size = ground arith

end_at-AllTrusted :
    (sgx : Sgx) (id : ℕ) (r : Responder) (o : Option Instance)
    → AllTrusted sgx r
    → AllTrusted sgx (end_at id r o).1
end_at-AllTrusted sgx id r none a = a
end_at-AllTrusted sgx id r (some p) a =
    erase_session-AllSessions (IsTrusted sgx) id r.all_sessions a

pub end_session-AllTrusted :
    (sgx : Sgx) (id : ℕ) (r : Responder) → AllTrusted sgx r → AllTrusted sgx (end_session id r).1
unfolding end_session
end_session-AllTrusted sgx id r a = end_at-AllTrusted sgx id r (find_session id r.all_sessions) a

module _ (sgx : Sgx) (platform : Platform) where
  respond_at-AllTrusted :
      (req : Message) (req_size : ℕ) (handler : Bytes → Bytes) (max_payload resp_size id : ℕ)
      (r : Responder) (o : Option Instance)
      → find_session id r.all_sessions ≡ o
      → AllTrusted sgx r
      → AllTrusted sgx (respond_at platform req req_size handler max_payload resp_size id r o).2
  unfolding respond_found
  respond_at-AllTrusted req req_size handler max_payload resp_size id r none e a = a
  respond_at-AllTrusted req req_size handler max_payload resp_size id r (some p) e a =
      set_session-AllSessions (IsTrusted sgx) id _ r.all_sessions
        (still (find_session-AllSessions (IsTrusted sgx) id p r.all_sessions a e)) a
    where
      still :
          IsTrusted sgx p
          → IsTrusted sgx (record p {
            session =
                (generate_response platform p.session req req_size handler max_payload resp_size).2;
          })
      still (inl off) = inl (
          ap is_active
            (generate_response-status platform p.session req req_size handler max_payload resp_size)
          ∙ off)
      still (inr known) = inr known

  pub respond_to-AllTrusted :
      (req : Message) (req_size : ℕ) (handler : Bytes → Bytes) (max_payload resp_size id : ℕ)
      (r : Responder)
      → AllTrusted sgx r
      → AllTrusted sgx (respond_to platform req req_size handler max_payload resp_size id r).2
  unfolding respond_to
  respond_to-AllTrusted req req_size handler max_payload resp_size id r a =
      respond_at-AllTrusted req req_size handler max_payload resp_size id r
        (find_session id r.all_sessions) refl a

  Step-AllTrusted :
      (r r' : Responder) → Step sgx platform r r' → AllTrusted sgx r → AllTrusted sgx r'
  Step-AllTrusted r _ (requested pointers) a = session_request-AllTrusted sgx pointers r a
  Step-AllTrusted r _ (reported pointers msg2 id) a =
      exchange_report-AllTrusted sgx pointers msg2 id r a
  Step-AllTrusted r _ (responded req req_size handler max_payload resp_size id) a =
      respond_to-AllTrusted req req_size handler max_payload resp_size id r a
  Step-AllTrusted r _ (ended id) a = end_session-AllTrusted sgx id r a

-- Whatever calls the host makes, in any order and with any arguments, an enclave that starts with no
-- session or with trusted ones has at each point active sessions alone whose peer it has verified.
pub Steps-AllTrusted :
    (sgx : Sgx) (platform : Platform) (r r' : Responder)
    → Steps sgx platform r r'
    → AllTrusted sgx r
    → AllTrusted sgx r'
Steps-AllTrusted sgx platform r r' none_left a = a
Steps-AllTrusted sgx platform r r' (then_step more step) a =
    Step-AllTrusted sgx platform _ r' step (Steps-AllTrusted sgx platform r _ more a)
