-- ===== src/Examples/Login.antt =====
-- crates/login_server and crates/db at concrete inputs, and the hand-off to crates/game_server.
use rust_gameserver.Base.{
  ℕ, ◌≡◌, ◌≢◌, refl, inl, inr, ◌↔◌, true, List, [], ◌∷◌, ◌++◌, Option, none, some, Bytes,
  ℕ_discrete, is_some, min, arith, Option-cases,
}
use rust_gameserver.Base.Map.{get, insert, remove as delete}
use rust_gameserver.Proto.{pos, Payload, MessageWrapper, connected_response, login_request}
use rust_gameserver.Redis.{done}
use rust_gameserver.Net.Registry.{default, register, remove}
use rust_gameserver.Net.Registry.Exclusive.{Op, run as run_ops}
use rust_gameserver.Net.Outbox.{wrap, send, send_flow}
use rust_gameserver.Net.SelectLoop.{Poll, Frame, pending, closed, turn, turns, event_loop}
use rust_gameserver.LoginServer.Backend.{AccountRow, Backend, token_value, issue_auth_token}
use rust_gameserver.LoginServer.Backend as Login
use rust_gameserver.LoginServer.Authenticate.{
  Account, LoginOutcome, logged_in, authenticate, Passed, authenticate_iff,
}
use rust_gameserver.LoginServer.Session.{
  State, Session, on_remote, on_login_outcome, login_attempts_per_window, try_consume_login_attempt,
}
use rust_gameserver.LoginServer.Session.Loop.{handlers, start, run}
use rust_gameserver.LoginServer.Session.RateLimit.{allowed, five_attempts_per_window}
use rust_gameserver.LoginServer.Session.Protocol.{Answers, login_server-Answers}
use rust_gameserver.LoginServer.Session.Task.{ByLogin, authenticated-ByLogin}
use rust_gameserver.GameServer.Backend as Game
use rust_gameserver.GameServer.Backend.{take_auth_token}
use rust_gameserver.GameServer.Backend.Take.Once as Once
use rust_gameserver.GameServer.Backend.Take.Once.{here, next, issues, take_auth_token_once}
use rust_gameserver.LoginServer.Config as LoginConfig
use rust_gameserver.GameServer.Config as GameConfig
use rust_gameserver.GameServer.Session.{State as GameState, take_token, perform, on_inner}
use rust_gameserver.GameServer.Session.Loop.{start as begin_game}
use rust_gameserver.Handoff.{connect-issue}
use rust_gameserver.Examples.Params.{flags, queue, store, crypto}

abbrev ann : Account
ann = record { user_id = 97 ∷ [] }

-- One account; its password hash is the client's hash followed by the salt.
abbrev row : AccountRow
row = record {
  account_id = 7;
  user_id = 97 ∷ [];
  password_hash = 1 ∷ 2 ∷ [];
  salt = 2 ∷ [];
  status = 0;
}

abbrev db : Login.Sql (List ℕ)
db = record {
  select_account = λ d u. (d, done (some row));
  update_last_login = λ d id. (id ∷ d, done tt);
}

abbrev servers : Login.MySqlRedisBackend (List ℕ) (List (Bytes × Bytes))
servers = record {
  pool = [];
  redis = [];
  auth_token_prefix = LoginConfig.default.auth_token_prefix;
  auth_token_ttl_seconds = 60;
}

abbrev login_backend : Backend (Login.MySqlRedisBackend (List ℕ) (List (Bytes × Bytes)))
login_backend = Login.backend db store (5 ∷ [])

authenticate_iff_example :
    ((authenticate login_backend crypto true servers (97 ∷ []) (1 ∷ [])).1 ≡ logged_in ann (5 ∷ []))
    ↔ Passed login_backend crypto true servers (97 ∷ []) (1 ∷ []) ann (5 ∷ [])
authenticate_iff_example =
    authenticate_iff login_backend crypto true servers (97 ∷ []) (1 ∷ []) ann (5 ∷ [])

abbrev fresh : Session (List MessageWrapper)
fresh = record {
  session_id = 1;
  outbox = [];
  account = none;
  last_keep_alive = 5;
  login_window = none;
  login_attempts = 0;
}

five_attempts_per_window_example :
    allowed fresh (5 ∷ 6 ∷ 7 ∷ 8 ∷ 9 ∷ 10 ∷ 11 ∷ []) ≡ min login_attempts_per_window 7
five_attempts_per_window_example =
    five_attempts_per_window fresh 5 (6 ∷ 7 ∷ 8 ∷ 9 ∷ 10 ∷ 11 ∷ []) refl
      (omega arith, (omega arith, (omega arith, (omega arith, (omega arith, (omega arith, tt))))))
      (omega arith)

abbrev begun : State ℕ (List ℕ) (List MessageWrapper)
begun = start flags queue 1 10 5 [] default []

abbrev request : Option Payload
request = some (login_request (97 ∷ []) (1 ∷ []))

login_server-Answers_example :
    Answers flags queue
      (is_some begun.account)
      (try_consume_login_attempt 6 begun.session).1
      request
      begun
      (on_remote flags queue 6 begun request)
login_server-Answers_example = login_server-Answers flags queue 6 begun request

abbrev poll : ℕ → Frame → Option LoginOutcome → Poll LoginOutcome (Op ℕ)
poll now frame inner = record { now = now; others = []; frame = frame; inner = inner }

abbrev left : State ℕ (List ℕ) (List MessageWrapper)
left = record {
  session = record fresh { outbox = wrap (connected_response (pos 0)) ∷ [] };
  registry = default;
  tokens = [];
  spawned = [];
}

ends : run flags queue 1 10 10 5 [] default [] (poll 6 closed none ∷ []) ≡ some left
unfolding run turn send_flow send run_ops register remove get insert delete ℕ_discrete
ends = refl

abbrev polls : List (Poll LoginOutcome (Op ℕ))
polls = poll 6 pending (some (logged_in ann (5 ∷ []))) ∷ []

is_logged_in :
    (event_loop
      (handlers flags queue 10 10)
      (start flags queue 1 10 5 [] default [])
      polls).0.account
    ≡ some ann
unfolding event_loop turns turn start send_flow send on_login_outcome run_ops
is_logged_in = refl

authenticated-ByLogin_example : ByLogin flags queue 10 10 polls ann
authenticated-ByLogin_example =
    authenticated-ByLogin flags queue 10 10 1 5 [] default [] polls ann is_logged_in

abbrev game_db : Game.Sql (Unit {0})
game_db = record {
  insert_score = λ d id score kills seconds. (d, done tt);
  update_last_login = λ d id. (d, done tt);
}

abbrev issued_redis : List (Bytes × Bytes)
issued_redis = (issue_auth_token db store (5 ∷ []) servers 7 (97 ∷ [])).0.redis

abbrev game : Game.MySqlRedisBackend (Unit {0}) (List (Bytes × Bytes))
game = record {
  pool = tt;
  redis = issued_redis;
  auth_token_prefix = GameConfig.default.auth_token_prefix;
}

issued_five : (issue_auth_token db store (5 ∷ []) servers 7 (97 ∷ [])).1 ≡ done (some (5 ∷ []))
unfolding issue_auth_token
issued_five = refl

abbrev held : Game.MySqlRedisBackend (Unit {0}) (List (Bytes × Bytes)) → Bytes → Option Bytes
held b t = store.stored b.redis (b.auth_token_prefix ++ t)

takes :
    (b : Game.MySqlRedisBackend (Unit {0}) (List (Bytes × Bytes))) (t : Bytes)
    → (take_auth_token game_db store b t).1 ≡ done (held b t)
unfolding take_auth_token
takes b t = elim (Option-cases (held b t)) [ inl e ↦ rw e refl | inr (v, e) ↦ rw e refl ]

-- A session of the game server that has sent its lookup.
abbrev waiting : GameState ℕ (List ℕ) (List MessageWrapper)
waiting = begin_game flags queue 1 10 5 [] default []

connect-issue_example :
    ((on_inner flags queue 6 waiting
        (perform (Game.backend game_db store) game (take_token (5 ∷ []))).1).0.account
      ≡ some (record { account_id = 7; user_id = 97 ∷ [] }))
    × (store.stored
          (take_auth_token game_db store game (5 ∷ [])).0.redis
          (game.auth_token_prefix ++ 5 ∷ [])
        ≡ none)
connect-issue_example =
    connect-issue db game_db store flags queue (5 ∷ []) (5 ∷ []) servers game 7 (97 ∷ [])
      (held game (5 ∷ [])) 6 waiting (omega arith) issued_five refl refl (takes game (5 ∷ []))

abbrev taken : Game.MySqlRedisBackend (Unit {0}) (List (Bytes × Bytes))
taken = (take_auth_token game_db store game (5 ∷ [])).0

-- Another token is issued, and taken, in between.
abbrev between : Game.MySqlRedisBackend (Unit {0}) (List (Bytes × Bytes))
between = record taken {
  redis =
      (issue_auth_token db store (6 ∷ []) (record servers { redis = taken.redis }) 7
        (97 ∷ [])).0.redis;
}

other_key : servers.auth_token_prefix ++ 6 ∷ [] ≢ game.auth_token_prefix ++ 5 ∷ []
other_key e = cc

take_auth_token_once_example :
    held (take_auth_token game_db store between (6 ∷ [])).0 (5 ∷ []) ≡ none
take_auth_token_once_example =
    let later = (take_auth_token game_db store between (6 ∷ [])).0 in
    take_auth_token_once db game_db store game later (5 ∷ []) (held game (5 ∷ []))
      (held later (5 ∷ [])) (takes game (5 ∷ []))
      (next
        (next here
          (issues (record servers { redis = taken.redis }) (6 ∷ []) 7 (97 ∷ []) refl other_key))
        (Once.takes (6 ∷ [])))
      (takes later (5 ∷ []))
