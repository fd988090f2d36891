-- ===== src/LoginServer/Session/Protocol.antt =====
-- What the login server answers, against a table of the protocol:
-- crates/login_server/src/session.rs.
use rust_gameserver.Base.{
  ℕ, ◌≡◌, refl, ◌⊎◌, Bool, true, false, ◌||◌, List, [], ◌∷◌, ◌++◌, map, append-nil, Option, none,
  some, is_some, is_empty, if◌then◌else◌, arith,
}
use rust_gameserver.Proto.{
  pos, Payload, keep_alive_request, login_request, login_response, error_response,
}
use rust_gameserver.Net.Cancellation.{Cancellation}
use rust_gameserver.Net.Outbox.{Channel, ControlFlow, continue, break, wrap, send_flow}
use rust_gameserver.Net.Outbox.Sent.{send_flow_lem}
use rust_gameserver.LoginServer.Authenticate.{
  to_i32, Account, LoginOutcome, logged_in, failure, db_error,
}
use rust_gameserver.LoginServer.Session.{
  State, Work, on_remote, on_login_outcome, try_consume_login_attempt,
}

-- The messages that a session may send before it is authenticated.
abbrev pub is_open : Option Payload → Bool
is_open (some (login_request u p)) = true
is_open (some keep_alive_request) = true
is_open other = false

abbrev refusal : ℕ → Payload
refusal code = login_response false (pos code) []

-- The answer that is sent at once, by whether the session is authenticated and whether the attempt
-- is within the limit.
abbrev pub reply : Bool → Bool → Option Payload → List Payload
reply true within (some (login_request u p)) = refusal 1 ∷ []
reply false false (some (login_request u p)) = refusal 4 ∷ []
reply false true (some (login_request u p)) =
    if is_empty u || is_empty p then refusal 1 ∷ [] else []
reply authenticated within p = []

-- The login that a message starts.
abbrev pub work_of : Bool → Bool → Option Payload → List Work
work_of false true (some (login_request u p)) =
    if is_empty u || is_empty p then [] else record { user_id = u; password_hash = p } ∷ []
work_of authenticated within p = []

module _ {Token Store C : Type 0} (can : Cancellation Token Store) (ch : Channel C) where
  -- The session may send the message: it is authenticated, or the message is an open one.
  abbrev pub IsAllowed : Bool → Option Payload → Type 0
  IsAllowed authenticated p = (authenticated ≡ true) ⊎ (is_open p ≡ true)

  -- The queue refuses the answer `x`.
  abbrev pub Refused : State Token Store C → List Payload → Type 0
  Refused s xs = (x : Payload) × (xs ≡ x ∷ []) × ((send_flow ch s.outbox x).1 ≡ break)

  -- An answer as the protocol has it, or the end of the session.
  abbrev pub Answers :
      Bool
      → Bool
      → Option Payload
      → State Token Store C
      → State Token Store C × ControlFlow
      → Type 0
  Answers authenticated within p s r =
      ((r.1 ≡ continue)
        × IsAllowed authenticated p
        × (ch.sent r.0.outbox ≡ ch.sent s.outbox ++ map wrap (reply authenticated within p)))
      ⊎ ((r.1 ≡ break)
          × (ch.sent r.0.outbox ≡ ch.sent s.outbox)
          × (((authenticated ≡ false) × (is_open p ≡ false))
              ⊎ Refused s (reply authenticated within p)))

  on_remote-Answers_account :
      (now : ℕ) (s : State Token Store C) (p : Option Payload) (o : Option Account) (w : Bool)
      → s.account ≡ o
      → (try_consume_login_attempt now s.session).1 ≡ w
      → Answers (is_some o) w p s (on_remote can ch now s p)
  unfolding on_remote
  on_remote-Answers_account now s (some (login_request u p)) (some a) w e h =
      ground (arith, send_flow_lem ch s.outbox (refusal 1))
  on_remote-Answers_account now s (some (login_request u p)) none false e h =
      ground (arith, send_flow_lem ch s.outbox (refusal 4))
  on_remote-Answers_account now s (some (login_request [] p)) none true e h =
      ground (arith, send_flow_lem ch s.outbox (refusal 1))
  on_remote-Answers_account now s (some (login_request (c ∷ u) [])) none true e h =
      ground (arith, send_flow_lem ch s.outbox (refusal 1))
  on_remote-Answers_account now s (some (login_request (c ∷ u) (d ∷ p))) none true e h =
      ground (arith, append-nil (ch.sent s.outbox))
  on_remote-Answers_account now s (some keep_alive_request) o w e h =
      ground (arith, append-nil (ch.sent s.outbox))
  on_remote-Answers_account now s p none w e h = ground (arith, append-nil (ch.sent s.outbox))
  on_remote-Answers_account now s p (some a) w e h = ground (arith, append-nil (ch.sent s.outbox))

  -- The login server answers each message as the protocol table `reply` says: a login request of a
  -- session that is logged in is refused with code 1, one beyond the limit with code 4, one with an
  -- empty user id or password hash with code 1, and nothing else is answered at once. If the loop
  -- goes on, the session was allowed to send the message, and exactly this answer has been handed to
  -- the writer. The loop ends, with no answer handed over, only if the message needs a login that
  -- has not happened, or if the send queue refuses the answer.
  pub login_server-Answers :
      (now : ℕ) (s : State Token Store C) (p : Option Payload)
      → Answers
          (is_some s.account)
          (try_consume_login_attempt now s.session).1
          p
          s
          (on_remote can ch now s p)
  login_server-Answers now s p =
      on_remote-Answers_account now s p s.account (try_consume_login_attempt now s.session).1 refl
        refl

  on_remote-work :
      (now : ℕ) (s : State Token Store C) (p : Option Payload) (o : Option Account) (w : Bool)
      → s.account ≡ o
      → (try_consume_login_attempt now s.session).1 ≡ w
      → (on_remote can ch now s p).0.spawned ≡ s.spawned ++ work_of (is_some o) w p
  unfolding on_remote
  on_remote-work now s (some (login_request u p)) (some a) w e h =
      ground (arith, append-nil s.spawned)
  on_remote-work now s (some (login_request u p)) none false e h =
      ground (arith, append-nil s.spawned)
  on_remote-work now s (some (login_request [] p)) none true e h =
      ground (arith, append-nil s.spawned)
  on_remote-work now s (some (login_request (c ∷ u) [])) none true e h =
      ground (arith, append-nil s.spawned)
  on_remote-work now s (some (login_request (c ∷ u) (d ∷ p))) none true e h = ground arith
  on_remote-work now s (some keep_alive_request) o w e h = ground (arith, append-nil s.spawned)
  on_remote-work now s p none w e h = ground (arith, append-nil s.spawned)
  on_remote-work now s p (some a) w e h = ground (arith, append-nil s.spawned)

  -- The password hash is only computed for a login request of a session that is not logged in,
  -- within the limit, with a user id and a password hash; no other message starts work.
  pub login_server_starts :
      (now : ℕ) (s : State Token Store C) (p : Option Payload)
      → (on_remote can ch now s p).0.spawned
        ≡ s.spawned ++ work_of (is_some s.account) (try_consume_login_attempt now s.session).1 p
  login_server_starts now s p =
      on_remote-work now s p s.account (try_consume_login_attempt now s.session).1 refl refl

  -- The answer to the outcome of a login.
  abbrev pub outcome_reply : LoginOutcome → Payload
  outcome_reply (logged_in a token) = login_response true (pos 0) token
  outcome_reply (failure code) = login_response false (to_i32 code) []
  outcome_reply db_error = error_response (pos 3)

  -- The outcome of a login is answered by one message: the token, the code of the failure, or error
  -- code 3 for a failure of the stores. If the send queue refuses the message the loop ends.
  pub on_login_outcome_answers :
      (now : ℕ) (s : State Token Store C) (m : LoginOutcome)
      → (((on_login_outcome can ch now s m).1 ≡ continue)
          × (ch.sent (on_login_outcome can ch now s m).0.outbox
              ≡ ch.sent s.outbox ++ wrap (outcome_reply m) ∷ []))
        ⊎ (((on_login_outcome can ch now s m).1 ≡ break)
            × (ch.sent (on_login_outcome can ch now s m).0.outbox ≡ ch.sent s.outbox))
  unfolding on_login_outcome
  on_login_outcome_answers now s (logged_in a token) =
      ground (arith, send_flow_lem ch s.outbox (login_response true (pos 0) token))
  on_login_outcome_answers now s (failure code) =
      ground (arith, send_flow_lem ch s.outbox (login_response false (to_i32 code) []))
  on_login_outcome_answers now s db_error =
      ground (arith, send_flow_lem ch s.outbox (error_response (pos 3)))
