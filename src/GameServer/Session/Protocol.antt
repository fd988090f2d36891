-- ===== src/GameServer/Session/Protocol.antt =====
-- What the game server answers, against a table of the protocol: crates/game_server/src/session.rs.
use rust_gameserver.Base.{
  ℕ, ◌≡◌, refl, Bool, true, false, List, [], ◌∷◌, ◌++◌, map, append-nil, Option, none, some,
  is_some, arith, ◌⊎◌,
}
use rust_gameserver.Proto.{
  pos, Payload, keep_alive_request, enter_world_request, enter_world_response, error_response,
  game_over_response, move_request, move_response, game_connect_request, game_connect_response,
}
use rust_gameserver.Net.Cancellation.{Cancellation}
use rust_gameserver.Net.Outbox.{Channel, ControlFlow, continue, break, wrap, send_flow}
use rust_gameserver.Net.Outbox.Sent.{send_flow_lem}
use rust_gameserver.GameServer.Token.{Account, parse_token_value}
use rust_gameserver.GameServer.Session.{
  State, on_remote, on_inner, InnerMessage, token_taken, score_saved, db_error,
}

-- The messages that a session may send before it is authenticated.
abbrev pub is_open : Option Payload → Bool
is_open (some (game_connect_request t)) = true
is_open (some keep_alive_request) = true
is_open other = false

abbrev pub reply_authenticated : Option Payload → List Payload
reply_authenticated (some (move_request x y)) = move_response true x y ∷ []
reply_authenticated (some (enter_world_request w)) = enter_world_response true ∷ []
reply_authenticated (some (game_connect_request t)) = game_connect_response false (pos 1) ∷ []
reply_authenticated other = []

-- The answers that are sent at once; others follow when the stores have answered.
abbrev pub reply : Bool → Option Payload → List Payload
reply true p = reply_authenticated p
reply false (some (game_connect_request [])) = game_connect_response false (pos 1) ∷ []
reply false p = []

module _ {Token Store C : Type 0} (can : Cancellation Token Store) (ch : Channel C) where
  -- The session may send the message: it is authenticated, or the message is an open one.
  abbrev pub IsAllowed : Bool → Option Payload → Type 0
  IsAllowed authenticated p = (authenticated ≡ true) ⊎ (is_open p ≡ true)

  -- The queue refuses the answer `x`.
  abbrev pub Refused : State Token Store C → List Payload → Type 0
  Refused s xs = (x : Payload) × (xs ≡ x ∷ []) × ((send_flow ch s.outbox x).1 ≡ break)

  -- An answer as the protocol has it, or the end of the session.
  abbrev pub Answers :
      Bool → Option Payload → State Token Store C → State Token Store C × ControlFlow → Type 0
  Answers authenticated p s r =
      ((r.1 ≡ continue)
        × IsAllowed authenticated p
        × (ch.sent r.0.outbox ≡ ch.sent s.outbox ++ map wrap (reply authenticated p)))
      ⊎ ((r.1 ≡ break)
          × (ch.sent r.0.outbox ≡ ch.sent s.outbox)
          × (((authenticated ≡ false) × (is_open p ≡ false)) ⊎ Refused s (reply authenticated p)))

  on_remote-Answers_account :
      (now : ℕ) (s : State Token Store C) (p : Option Payload) (o : Option Account)
      → s.account ≡ o
      → Answers (is_some o) p s (on_remote can ch now s p)
  unfolding on_remote
  on_remote-Answers_account now s (some (game_connect_request [])) none e = ground (
    arith,
    append-nil (ch.sent s.outbox),
    send_flow_lem ch s.outbox (game_connect_response false (pos 1)),
  )
  on_remote-Answers_account now s (some (game_connect_request (c ∷ t))) none e =
      ground (arith, append-nil (ch.sent s.outbox))
  on_remote-Answers_account now s (some (game_connect_request t)) (some a) e =
      ground (arith, send_flow_lem ch s.outbox (game_connect_response false (pos 1)))
  on_remote-Answers_account now s (some keep_alive_request) o e =
      ground (arith, append-nil (ch.sent s.outbox))
  on_remote-Answers_account now s (some (move_request x y)) o e =
      ground (arith, send_flow_lem ch s.outbox (move_response true x y))
  on_remote-Answers_account now s (some (enter_world_request w)) o e =
      ground (arith, send_flow_lem ch s.outbox (enter_world_response true))
  on_remote-Answers_account now s p none e = ground (arith, append-nil (ch.sent s.outbox))
  on_remote-Answers_account now s p (some a) e = ground (arith, append-nil (ch.sent s.outbox))

  -- The game server answers each message as the protocol table `reply` says, counting whether the
  -- session was authenticated when it came: if the loop goes on, the session was allowed to send
  -- the message, and exactly these answers have been handed to the writer. The loop ends, with no
  -- answer handed over, only if the message needs a login that has not happened, or if the send
  -- queue refuses the answer.
  pub on_remote-Answers :
      (now : ℕ) (s : State Token Store C) (p : Option Payload)
      → Answers (is_some s.account) p s (on_remote can ch now s p)
  on_remote-Answers now s p = on_remote-Answers_account now s p s.account refl

  -- The answer to the result of work in another task.
  abbrev pub inner_reply : InnerMessage → Payload
  inner_reply (token_taken none) = game_connect_response false (pos 1)
  inner_reply (token_taken (some v)) = elim (parse_token_value v) [
    | none ↦ game_connect_response false (pos 1)
    | some a ↦ game_connect_response true (pos 0)
  ]
  inner_reply score_saved = game_over_response true
  inner_reply db_error = error_response (pos 3)

  -- The result of a token lookup, of a saved score or of a failure of the stores is answered by one
  -- message: success for a token value that parses, error code 1 for a missing or malformed one,
  -- and error code 3 for a failure. If the send queue refuses the message the loop ends.
  pub on_inner_answers :
      (now : ℕ) (s : State Token Store C) (m : InnerMessage)
      → (((on_inner can ch now s m).1 ≡ continue)
          × (ch.sent (on_inner can ch now s m).0.outbox
              ≡ ch.sent s.outbox ++ wrap (inner_reply m) ∷ []))
        ⊎ (((on_inner can ch now s m).1 ≡ break)
            × (ch.sent (on_inner can ch now s m).0.outbox ≡ ch.sent s.outbox))
  unfolding on_inner
  on_inner_answers now s (token_taken none) =
      ground (arith, send_flow_lem ch s.outbox (game_connect_response false (pos 1)))
  on_inner_answers now s (token_taken (some v)) = ground (
    arith,
    send_flow_lem ch s.outbox (game_connect_response false (pos 1)),
    send_flow_lem ch s.outbox (game_connect_response true (pos 0)),
  )
  on_inner_answers now s score_saved =
      ground (arith, send_flow_lem ch s.outbox (game_over_response true))
  on_inner_answers now s db_error =
      ground (arith, send_flow_lem ch s.outbox (error_response (pos 3)))
