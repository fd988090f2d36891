-- ===== src/Conversation/Enter.antt =====
-- The game phase of crates/dummy_client/src/client.rs against a session of
-- crates/game_server/src/session.rs.
use rust_gameserver.Base.{
  ℕ, ◌≡◌, refl, ◌∙◌, true, false, List, [], ◌∷◌, ◌++◌, append_assoc, none, some, Bytes, ap,
  is_empty,
}
use rust_gameserver.Proto.{
  MessageWrapper, pos, connected_response, game_connect_request, game_connect_response,
  keep_alive_request,
}
use rust_gameserver.Net.Cancellation.{Cancellation}
use rust_gameserver.Net.Registry.{Registry}
use rust_gameserver.Net.Outbox.{Channel, ControlFlow, continue, wrap}
use rust_gameserver.GameServer.Token.{Account, parse_token_value}
use rust_gameserver.GameServer.Session.{
  State, take_token, token_taken, on_remote, on_game_connect_request, on_inner, on_authenticated,
}
use rust_gameserver.GameServer.Session.Loop.{new_session}
use rust_gameserver.GameServer.Serve.{greet}
use rust_gameserver.DummyClient.Client.{receives, ticks, game_loop, game_phase}
use rust_gameserver.Conversation.{sent_through}

-- What the session sends.
abbrev pub replies : List MessageWrapper
replies = wrap (connected_response (pos 0)) ∷ wrap (game_connect_response true (pos 0)) ∷ []

module _ {Token Store C : Type 0} (can : Cancellation Token Store) (ch : Channel C)
    (session_id now : ℕ) (tx : C) (r : Registry Token) (st : Store) where
  -- The session of the game server that has greeted the client.
  abbrev pub greeted : State Token Store C
  greeted = record {
    session = (greet can ch (new_session can ch session_id now tx)).0;
    registry = r;
    tokens = st;
    spawned = [];
  }

  -- It has received a client's request.
  abbrev pub requested : Bytes → State Token Store C
  requested auth_token = (on_remote can ch now greeted (some (game_connect_request auth_token))).0

  request_lem :
      (auth_token : Bytes)
      → is_empty auth_token ≡ false
      → ((requested auth_token).outbox ≡ greeted.outbox)
        × ((requested auth_token).spawned ≡ take_token auth_token ∷ [])
  unfolding on_remote on_game_connect_request greet
  request_lem [] e = absurd (cc)
  request_lem (x ∷ xs) e = (refl, refl)

  greeted_lem :
      (greet can ch (new_session can ch session_id now tx)).1 ≡ continue
      → ch.sent greeted.outbox ≡ ch.sent tx ++ wrap (connected_response (pos 0)) ∷ []
  unfolding greet
  greeted_lem = sent_through ch tx (connected_response (pos 0))

  -- The session has been given the value that the token was stored with.
  abbrev pub answered : Bytes → Bytes → State Token Store C × ControlFlow
  answered auth_token value = on_inner can ch now (requested auth_token) (token_taken (some value))

  answered_lem :
      (auth_token value : Bytes) (account : Account)
      → parse_token_value value ≡ some account
      → (answered auth_token value).1 ≡ continue
      → ((answered auth_token value).0.account ≡ some account)
        × (ch.sent (answered auth_token value).0.outbox
            ≡ ch.sent (requested auth_token).outbox
              ++ wrap (game_connect_response true (pos 0)) ∷ [])
  unfolding on_inner on_authenticated
  answered_lem auth_token value account e =
      let last = game_connect_response true (pos 0) in
      rw e (λ h. (refl, sent_through ch (requested auth_token).outbox last h))

  -- A client and a session of the game server understand each other: if the session could send its
  -- greeting and its answer, and the value of the client's token parses as the account, then the
  -- session has spawned exactly the taking of the token, is authenticated as the account, and has
  -- sent two messages; and a client that receives these between two ticks (and can send) has sent
  -- its request to connect and then, no earlier than the answer, a keep-alive, and goes on.
  pub client_enters :
      (add : ℕ → ℕ → ℕ) (auth_token value : Bytes) (account : Account)
      → is_empty auth_token ≡ false
      → parse_token_value value ≡ some account
      → (greet can ch (new_session can ch session_id now tx)).1 ≡ continue
      → (answered auth_token value).1 ≡ continue
      → ((requested auth_token).spawned ≡ take_token auth_token ∷ [])
        × ((answered auth_token value).0.account ≡ some account)
        × (ch.sent (answered auth_token value).0.outbox ≡ ch.sent tx ++ replies)
        × (game_phase add auth_token true (
              receives (wrap (connected_response (pos 0))) true
              ∷ ticks true
              ∷ receives (wrap (game_connect_response true (pos 0))) true
              ∷ ticks true
              ∷ [])
            ≡ record {
              sent = game_connect_request auth_token ∷ keep_alive_request ∷ [];
              ended = none;
            })
  unfolding game_phase game_loop
  client_enters add auth_token value account u e g a =
      let (o, w) = request_lem auth_token u in
      let (v, s) = answered_lem auth_token value account e a in
      let last = game_connect_response true (pos 0) in
      let sent =
        s
        ∙ ap (λ out. ch.sent out ++ wrap last ∷ []) o
        ∙ ap (λ ms. ms ++ wrap last ∷ []) (greeted_lem g)
        ∙ append_assoc (ch.sent tx) (wrap (connected_response (pos 0)) ∷ []) (wrap last ∷ []) in
      (w, v, sent, refl)
