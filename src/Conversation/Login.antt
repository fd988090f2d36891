-- ===== src/Conversation/Login.antt =====
-- The login phase of crates/dummy_client/src/client.rs against a session of
-- crates/login_server/src/session.rs.
use rust_gameserver.Base.{
  ℕ, ◌≡◌, refl, ◌∙◌, true, false, List, [], ◌∷◌, ◌++◌, append_assoc, map, some, Bytes, ap, is_empty,
}
use rust_gameserver.Proto.{MessageWrapper, pos, connected_response, login_request, login_response}
use rust_gameserver.Net.Cancellation.{Cancellation}
use rust_gameserver.Net.Registry.{Registry}
use rust_gameserver.Net.Outbox.{Channel, ControlFlow, continue, wrap}
use rust_gameserver.LoginServer.Authenticate.{Account, logged_in}
use rust_gameserver.LoginServer.Session.{
  State, Work, on_remote, on_login_request, on_login_outcome, try_consume_login_attempt,
}
use rust_gameserver.LoginServer.Session.Loop.{new_session}
use rust_gameserver.LoginServer.Serve.{greet}
use rust_gameserver.DummyClient.Client.{receives, login_phase, token}
use rust_gameserver.Conversation.{sent_through}

abbrev pub work : Bytes → Bytes → Work
work user_id client_hash = record { user_id = user_id; password_hash = client_hash }

-- What the session sends.
abbrev pub replies : Bytes → List MessageWrapper
replies auth_token =
    wrap (connected_response (pos 0)) ∷ wrap (login_response true (pos 0) auth_token) ∷ []

module _ {Token Store C : Type 0} (can : Cancellation Token Store) (ch : Channel C)
    (session_id now : ℕ) (tx : C) (r : Registry Token) (st : Store) where
  -- The session of the login server that has greeted the client.
  abbrev pub greeted : State Token Store C
  greeted = record {
    session = (greet can ch (new_session can ch session_id now tx)).0;
    registry = r;
    tokens = st;
    spawned = [];
  }

  -- It has received a client's request.
  abbrev pub requested : Bytes → Bytes → State Token Store C
  requested user_id client_hash =
      (on_remote can ch now greeted (some (login_request user_id client_hash))).0

  request_lem :
      (user_id client_hash : Bytes)
      → is_empty user_id ≡ false
      → is_empty client_hash ≡ false
      → ((requested user_id client_hash).outbox ≡ greeted.outbox)
        × ((requested user_id client_hash).spawned ≡ work user_id client_hash ∷ [])
  unfolding on_remote on_login_request try_consume_login_attempt greet
  request_lem [] h u e = absurd (cc)
  request_lem (x ∷ xs) [] u e = absurd (cc)
  request_lem (x ∷ xs) (y ∷ ys) u e = (refl, refl)

  greeted_lem :
      (greet can ch (new_session can ch session_id now tx)).1 ≡ continue
      → ch.sent greeted.outbox ≡ ch.sent tx ++ wrap (connected_response (pos 0)) ∷ []
  unfolding greet
  greeted_lem = sent_through ch tx (connected_response (pos 0))

  -- The session has been given the outcome of the login.
  abbrev pub answered : Bytes → Bytes → Account → Bytes → State Token Store C × ControlFlow
  answered user_id client_hash account auth_token =
      on_login_outcome can ch now (requested user_id client_hash) (logged_in account auth_token)

  -- A client and a session of the login server understand each other: if the outcome of the login is
  -- a success and the session could send its greeting and its answer, then the session has spawned
  -- exactly the login that the client asked for, is authenticated as the account, and has sent two
  -- messages; and a client that receives these (and can send) has sent exactly that login request,
  -- and ends its login with the token of the outcome.
  pub client_logs_in :
      (user_id client_hash : Bytes) (account : Account) (auth_token : Bytes)
      → is_empty user_id ≡ false
      → is_empty client_hash ≡ false
      → (greet can ch (new_session can ch session_id now tx)).1 ≡ continue
      → (answered user_id client_hash account auth_token).1 ≡ continue
      → ((requested user_id client_hash).spawned ≡ work user_id client_hash ∷ [])
        × ((answered user_id client_hash account auth_token).0.account ≡ some account)
        × (ch.sent (answered user_id client_hash account auth_token).0.outbox
            ≡ ch.sent tx ++ replies auth_token)
        × (login_phase user_id client_hash (map (λ m. receives m true) (replies auth_token))
            ≡ record { sent = login_request user_id client_hash ∷ []; ended = token auth_token })
  unfolding on_login_outcome login_phase
  client_logs_in user_id client_hash account auth_token u h g a =
      let (o, w) = request_lem user_id client_hash u h in
      let last = login_response true (pos 0) auth_token in
      let sent =
        sent_through ch (requested user_id client_hash).outbox last a
        ∙ ap (λ out. ch.sent out ++ wrap last ∷ []) o
        ∙ ap (λ ms. ms ++ wrap last ∷ []) (greeted_lem g)
        ∙ append_assoc (ch.sent tx) (wrap (connected_response (pos 0)) ∷ []) (wrap last ∷ []) in
      (w, refl, sent, refl)
