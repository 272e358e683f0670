-- ===== src/Keymgr/Sessions/Certified.antt =====
-- Which sessions the calls of the key manager can make active.
use yee_z_privacy_computing.Base.{
  ℕ, ◌≡◌, refl, ◌⊎◌, inl, inr, Bool, true, false, Option, none, some, List, [], ◌∷◌, arith, Bytes,
  All,
}
use yee_z_privacy_computing.Channel.{Message, Platform, is_active}
use yee_z_privacy_computing.Channel.Responder.{Sgx, Instance, find_session}
use yee_z_privacy_computing.Channel.Responder.Trusted.{
  IsTrusted, AllTrusted, session_request-AllTrusted, exchange_report-AllTrusted,
  end_session-AllTrusted, respond_to-AllTrusted, if_both,
}
use yee_z_privacy_computing.Keymgr.Policy.{
  Identity, AccessList, is_certified_signer, verify_peer_enclave_trust,
}
use yee_z_privacy_computing.Keymgr.Sessions.{
  Responding, made, made_if_not, refusing, tester, msession_request, mexchange_report, mend_session,
  mgenerate_response, package_handler, found_handler, throws, tested, Call, requested, reported,
  responded, ended, Calls, no_call, then_call,
}

-- Each active session has a peer that the responder's own test took.
abbrev pub Tested : Sgx → Option Responding → Type 0
Tested sgx none = Unit
Tested sgx (some s) = AllTrusted (tester sgx s.verifies) s.responder

made-Tested :
    (sgx : Sgx) (verifies : Bool) (unset : ℕ) (o : Option Responding)
    → Tested sgx o
    → Tested sgx (some (made_if_not verifies unset o))
made-Tested sgx verifies unset none t = tt
made-Tested sgx verifies unset (some s) t = t

mgenerate_response-Tested :
    (sgx : Sgx) (platform : Platform) (handler : Instance → Bytes → Option Bytes) (unset : ℕ)
    (req : Message) (req_size max_payload resp_size id : ℕ) (o : Option Responding)
    → Tested sgx o
    → Tested sgx
        (mgenerate_response platform handler unset req req_size max_payload resp_size id o).2
unfolding mgenerate_response
mgenerate_response-Tested sgx platform handler unset req req_size max_payload resp_size id o t =
    let s = made_if_not false unset o in
    let found = find_session id s.responder.all_sessions in
    if_both (λ (u : ℕ × Message × Option Responding). Tested sgx u.2)
      (throws platform req req_size handler found) _ _ (λ e. made-Tested sgx false unset o t)
      (λ e.
        respond_to-AllTrusted (tester sgx s.verifies) platform req req_size
          (found_handler handler found) max_payload resp_size id s.responder
          (made-Tested sgx false unset o t))

Call-Tested : (sgx : Sgx) (o o' : Option Responding) → Call sgx o o' → Tested sgx o → Tested sgx o'
unfolding msession_request mexchange_report mend_session
Call-Tested sgx o _ (requested pointers unset) t =
    session_request-AllTrusted (tester sgx (made_if_not true unset o).verifies) pointers
      (made_if_not true unset o).responder (made-Tested sgx true unset o t)
Call-Tested sgx o _ (reported pointers unset msg2 id) t =
    let s = made_if_not false unset o in
    exchange_report-AllTrusted (tester sgx s.verifies) pointers msg2 id s.responder
      (made-Tested sgx false unset o t)
Call-Tested sgx o _
      (responded platform ecc table identity packages unset req req_size max_payload resp_size id)
      t =
    mgenerate_response-Tested sgx platform (package_handler ecc table identity packages) unset req
      req_size max_payload resp_size id o t
Call-Tested sgx o _ (ended unset id) t =
    let s = made_if_not false unset o in
    end_session-AllTrusted (tester sgx s.verifies) id s.responder (made-Tested sgx false unset o t)

Calls-Tested :
    (sgx : Sgx) (o o' : Option Responding) → Calls sgx o o' → Tested sgx o → Tested sgx o'
Calls-Tested sgx o o' no_call t = t
Calls-Tested sgx o o' (then_call more call) t =
    Call-Tested sgx _ o' call (Calls-Tested sgx o _ more t)

abbrev IsUnset : Option Responding → Type 0
IsUnset none = true ≡ false
IsUnset (some s) = s.verifies ≡ false

-- No call sets the test of a responder that is there.
Call-IsUnset : (sgx : Sgx) (o o' : Option Responding) → Call sgx o o' → IsUnset o → IsUnset o'
unfolding msession_request mexchange_report mgenerate_response mend_session
Call-IsUnset sgx none o' call u = absurd cc
Call-IsUnset sgx (some s) _ (requested pointers unset) u = u
Call-IsUnset sgx (some s) _ (reported pointers unset msg2 id) u = u
Call-IsUnset sgx (some s) _
      (responded platform ecc table identity packages unset req req_size max_payload resp_size id)
      u =
    if_both (λ (t : ℕ × Message × Option Responding). IsUnset t.2)
      (throws platform req req_size (package_handler ecc table identity packages)
        (find_session id s.responder.all_sessions))
      _ _ (λ e. u) (λ e. u)
Call-IsUnset sgx (some s) _ (ended unset id) u = u

Calls-IsUnset : (sgx : Sgx) (o o' : Option Responding) → Calls sgx o o' → IsUnset o → IsUnset o'
Calls-IsUnset sgx o o' no_call u = u
Calls-IsUnset sgx o o' (then_call more call) u =
    Call-IsUnset sgx _ o' call (Calls-IsUnset sgx o _ more u)

-- An active session, of a peer of which `P` holds.
abbrev pub ActiveOnly : (Instance → Type 0) → Responding → Type 0
ActiveOnly P s =
    All (λ (e : ℕ × Instance). (is_active e.1.session.status ≡ false) ⊎ P e.1)
      s.responder.all_sessions

All-imply :
    (P Q : Instance → Type 0) (sessions : List (ℕ × Instance))
    → ((p : Instance) → P p → Q p)
    → All (λ (e : ℕ × Instance). P e.1) sessions
    → All (λ (e : ℕ × Instance). Q e.1) sessions
All-imply P Q [] f a = tt
All-imply P Q ((id, p) ∷ sessions) f (h, a) = (f p h, All-imply P Q sessions f a)

took-certified :
    (release : Bool) (self_signer : Bytes) (policy : Option AccessList) (peer : Identity)
    → verify_peer_enclave_trust release self_signer policy peer ≡ 0
    → is_certified_signer release self_signer peer policy ≡ true
unfolding verify_peer_enclave_trust
took-certified release self_signer policy peer e = ground arith

-- Whatever session calls the host makes of a key manager that has made no responder, in any order and
-- with any arguments: under a policy that stays, each active session has a peer that
-- `is_certified_signer` takes.
pub Calls-certified :
    (sgx : Sgx) (identity : Bytes → Identity) (release : Bool) (self_signer : Bytes)
    (policy : Option AccessList) (s : Responding)
    → Calls (tested sgx identity release self_signer policy) none (some s)
    → ActiveOnly
        (λ p. is_certified_signer release self_signer (identity p.peer_identity) policy ≡ true)
        s
Calls-certified sgx identity release self_signer policy s calls =
    All-imply _ _ s.responder.all_sessions (certified s.verifies)
      (Calls-Tested (tested sgx identity release self_signer policy) none (some s) calls tt)
  where
    certified :
        (v : Bool) (p : Instance)
        → IsTrusted (tester (tested sgx identity release self_signer policy) v) p
        → (is_active p.session.status ≡ false)
          ⊎ (is_certified_signer release self_signer (identity p.peer_identity) policy ≡ true)
    certified v p (inl off) = inl off
    certified true p (inr took) =
        inr (took-certified release self_signer policy (identity p.peer_identity) took)
    certified false p (inr took) = absurd (omega arith)

-- Where `mend_session` is the first call, with any session number, the responder that it makes has no
-- test of the peer, and whatever session calls follow, no session ever becomes active.
pub mend_session-inactive :
    (sgx : Sgx) (unset id : ℕ) (s : Responding)
    → Calls sgx (mend_session unset id none).1 (some s)
    → All (λ (e : ℕ × Instance). is_active e.1.session.status ≡ false) s.responder.all_sessions
unfolding mend_session
mend_session-inactive sgx unset id s calls =
    All-imply _ _ s.responder.all_sessions
      (inactive s.verifies (Calls-IsUnset sgx _ (some s) calls refl))
      (Calls-Tested sgx _ (some s) calls
        (end_session-AllTrusted (refusing sgx) id (made false unset).responder tt))
  where
    inactive :
        (v : Bool)
        → v ≡ false
        → (p : Instance) → IsTrusted (tester sgx v) p
        → is_active p.session.status ≡ false
    inactive v e p (inl off) = off
    inactive true e p (inr took) = absurd cc
    inactive false e p (inr took) = absurd (omega arith)
