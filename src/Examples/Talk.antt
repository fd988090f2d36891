-- ===== src/Examples/Talk.antt =====
-- A client at the game server at concrete inputs.
use rust_gameserver.Base.{◌+◌, ◌≡◌, refl, true, [], ◌∷◌, none, some, Bytes}
use rust_gameserver.Proto.{
  pos, connected_response, game_connect_request, game_connect_response, keep_alive_request,
}
use rust_gameserver.Text.{split_once, parse_u64, scan}
use rust_gameserver.Net.Registry.{default}
use rust_gameserver.Net.Outbox.{wrap, send, send_flow}
use rust_gameserver.GameServer.Token.{parse_token_value}
use rust_gameserver.GameServer.Session.{take_token}
use rust_gameserver.GameServer.Session as Game
use rust_gameserver.GameServer.Serve as GameServe
use rust_gameserver.DummyClient.Client.{receives, ticks, game_phase}
use rust_gameserver.Conversation.Enter as Enter
use rust_gameserver.Conversation.Enter.{client_enters}
use rust_gameserver.Examples.Params.{flags, queue}

-- The token is two bytes, and is stored with "7:a".
abbrev auth_token : Bytes
auth_token = 116 ∷ 116 ∷ []

abbrev value : Bytes
value = 55 ∷ 58 ∷ 97 ∷ []

client_enters_example :
    ((Enter.requested flags queue 1 5 [] default [] auth_token).spawned
      ≡ take_token auth_token ∷ [])
    × ((Enter.answered flags queue 1 5 [] default [] auth_token value).0.account
        ≡ some (record { account_id = 7; user_id = 97 ∷ [] }))
    × (queue.sent (Enter.answered flags queue 1 5 [] default [] auth_token value).0.outbox
        ≡ Enter.replies)
    × (game_phase
          (λ a b. a + b)
          auth_token
          true
          (receives (wrap (connected_response (pos 0))) true
            ∷ ticks true
            ∷ receives (wrap (game_connect_response true (pos 0))) true
            ∷ ticks true
            ∷ [])
        ≡ record { sent = game_connect_request auth_token ∷ keep_alive_request ∷ []; ended = none })
unfolding GameServe.greet Game.on_remote Game.on_game_connect_request Game.on_inner
    Game.on_authenticated parse_token_value split_once parse_u64 scan send_flow send
client_enters_example =
    client_enters flags queue 1 5 [] default [] (λ a b. a + b) auth_token value
      (record { account_id = 7; user_id = 97 ∷ [] }) refl refl refl refl
