-- ===== src/Examples/Dummy.antt =====
-- crates/dummy_client at concrete inputs.
use rust_gameserver.Base.{ℕ, ◌+◌, ◌≡◌, refl, true, false, List, [], ◌∷◌, some, arith}
use rust_gameserver.Proto.{pos, connected_response, login_response, game_connect_response}
use rust_gameserver.Redis.{done}
use rust_gameserver.Net.Outbox.{wrap}
use rust_gameserver.Db.Password.{client_hash}
use rust_gameserver.DummyClient.Counters.{default, game_server}
use rust_gameserver.DummyClient.Client.{
  LoginPoll, GamePoll, disconnected, receives, lost, ticks, moved, game_loop, run,
}
use rust_gameserver.DummyClient.Client.Protocol.{Gone, run-Gone}
use rust_gameserver.DummyClient.Seeder.{Sql, seed, insert_batch, range, after_create}
use rust_gameserver.DummyClient.Seeder.Batches.{rows}
use rust_gameserver.DummyClient.Seeder.Inserts.{seed_lem}
use rust_gameserver.Examples.Params.{crypto}

abbrev add : ℕ → ℕ → ℕ
add a b = a + b

abbrev refused : List GamePoll
refused =
    receives (wrap (connected_response (pos 0))) true
    ∷ moved 1 2 true
    ∷ receives (wrap (game_connect_response false (pos 1))) true
    ∷ ticks true
    ∷ lost
    ∷ []

abbrev logins : List LoginPoll
logins =
    receives (wrap (connected_response (pos 0))) true
    ∷ receives (wrap (login_response true (pos 0) (5 ∷ []))) true
    ∷ []

ends : (run add default (97 ∷ []) (1 ∷ []) logins true refused).1 ≡ some (disconnected game_server)
unfolding run game_loop
ends = refl

run-Gone_example : Gone default (run add default (97 ∷ []) (1 ∷ []) logins true refused).0
run-Gone_example =
    run-Gone add default (97 ∷ []) (1 ∷ []) logins true refused (disconnected game_server)
      (omega arith) (omega arith) ends

abbrev db : Sql ℕ
db = record { create_accounts = λ d. (d, done tt); insert_ignore = λ d u h s. (d + 1, done 1) }

seed_lem_example :
    seed db crypto (λ i. i ∷ []) 4 (9 ∷ []) 2500 0
    ≡ after_create db crypto
        (λ i. i ∷ [])
        4
        (λ d.
          insert_batch db 1
            (rows crypto (λ i. i ∷ []) (client_hash crypto (9 ∷ [])) (range 1 2500))
            d
            0)
        (0, done tt)
seed_lem_example = seed_lem db crypto (λ i. i ∷ []) 4 (9 ∷ []) 2500 0
