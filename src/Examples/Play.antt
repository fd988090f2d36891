-- ===== src/Examples/Play.antt =====
-- A client from the login server into the game at concrete inputs.
use rust_gameserver.Base.{
  ℕ, ◌+◌, ◌≤◌, ◌≡◌, refl, sym, true, List, [], ◌∷◌, ◌++◌, Option, none, some, Bytes, arith,
  bytes_discrete, ℕ_discrete,
}
use rust_gameserver.Base.Map.{get, insert}
use rust_gameserver.Proto.{MessageWrapper}
use rust_gameserver.Text.{max_u64, split_once, parse_u64, scan, display, digits}
use rust_gameserver.Redis.{done}
use rust_gameserver.Db.Password.{verify, derive}
use rust_gameserver.Net.Registry.{default}
use rust_gameserver.Net.Outbox.{ControlFlow, continue, send, send_flow}
use rust_gameserver.LoginServer.Backend.{
  AccountRow, token_value, find_account, touch_last_login, issue_auth_token,
}
use rust_gameserver.LoginServer.Backend as Login
use rust_gameserver.LoginServer.Authenticate.{Account, logged_in}
use rust_gameserver.LoginServer.Authenticate as LoginTask
use rust_gameserver.LoginServer.Session as LoginSession
use rust_gameserver.LoginServer.Session.Loop as LoginLoop
use rust_gameserver.LoginServer.Serve as LoginServe
use rust_gameserver.GameServer.Backend.{take_auth_token, get_del}
use rust_gameserver.GameServer.Backend as Game
use rust_gameserver.GameServer.Token.{parse_token_value}
use rust_gameserver.GameServer.Session.{
  State, perform, on_inner, on_remote, on_game_connect_request, on_authenticated,
}
use rust_gameserver.GameServer.Session.Loop as GameLoop
use rust_gameserver.GameServer.Serve as GameServe
use rust_gameserver.DummyClient.Counters as Counters
use rust_gameserver.Conversation.Login as AtLogin
use rust_gameserver.Conversation.Play.{performed, entered, IsPlayer, IsPlaying, client_plays}
use rust_gameserver.Examples.Params.{flags, queue, store, crypto}

-- One account; its password hash is the client's hash followed by the salt.
abbrev row : AccountRow
row = record {
  account_id = 7;
  user_id = 97 ∷ [];
  password_hash = 1 ∷ 2 ∷ [];
  salt = 2 ∷ [];
  status = 0;
}

abbrev accounts : Login.Sql (Unit {0})
accounts = record {
  select_account = λ d u. (d, done (some row));
  update_last_login = λ d id. (d, done tt);
}

abbrev scores : Game.Sql (Unit {0})
scores = record {
  insert_score = λ d id score kills seconds. (d, done tt);
  update_last_login = λ d id. (d, done tt);
}

abbrev LoginStores : Type 0
LoginStores = Login.MySqlRedisBackend (Unit {0}) (List (Bytes × Bytes))

abbrev login : LoginStores
login = record {
  pool = tt;
  redis = [];
  auth_token_prefix = 97 ∷ 58 ∷ [];
  auth_token_ttl_seconds = 60;
}

abbrev token : Bytes
token = 116 ∷ 116 ∷ []

abbrev after_login : LoginStores
after_login =
    (performed accounts scores store crypto (λ b w. true) token login (97 ∷ []) (1 ∷ [])).0

abbrev game : Game.MySqlRedisBackend (Unit {0}) (List (Bytes × Bytes))
game = record { pool = tt; redis = after_login.redis; auth_token_prefix = 97 ∷ 58 ∷ [] }

abbrev value : Option Bytes
value = some (55 ∷ 58 ∷ 97 ∷ [])

logs_in :
    (performed accounts scores store crypto (λ b w. true) token login (97 ∷ []) (1 ∷ [])).1
    ≡ logged_in (record { user_id = 97 ∷ [] }) token
unfolding LoginServe.perform LoginTask.authenticate Login.backend find_account touch_last_login
    issue_auth_token verify derive bytes_discrete ℕ_discrete
logs_in = refl

looks_up : (take_auth_token scores store game token).1 ≡ done value
unfolding LoginServe.perform LoginTask.authenticate Login.backend find_account touch_last_login
    issue_auth_token token_value display digits take_auth_token get_del verify derive get
    bytes_discrete ℕ_discrete insert
looks_up = refl

abbrev client : LoginSession.State ℕ (List ℕ) (List MessageWrapper) × ControlFlow
client =
    AtLogin.answered flags queue 1 5 [] default [] (97 ∷ []) (1 ∷ []) (record { user_id = 97 ∷ [] })
      token

login_greets :
    (LoginServe.greet flags queue (LoginLoop.new_session flags queue 1 5 [])).1 ≡ continue
unfolding LoginServe.greet send_flow send
login_greets = refl

login_answers : client.1 ≡ continue
unfolding LoginServe.greet LoginSession.on_remote LoginSession.on_login_request
    LoginSession.on_login_outcome LoginSession.try_consume_login_attempt send_flow send
login_answers = refl

game_greets : (GameServe.greet flags queue (GameLoop.new_session flags queue 2 6 [])).1 ≡ continue
unfolding GameServe.greet send_flow send
game_greets = refl

abbrev joined : State ℕ (List ℕ) (List MessageWrapper) × ControlFlow
joined =
    entered accounts scores store crypto (λ b w. true) token flags queue 2 6 [] default [] game
      token

joins_in : joined.1 ≡ continue
unfolding LoginServe.perform LoginTask.authenticate Login.backend find_account touch_last_login
    issue_auth_token token_value display digits take_auth_token get_del verify derive perform
    Game.backend on_inner on_remote on_game_connect_request on_authenticated parse_token_value
    split_once parse_u64 scan GameServe.greet send_flow send get bytes_discrete ℕ_discrete insert
joins_in = refl

found_id :
    (r : AccountRow)
    → (accounts.select_account login.pool (97 ∷ [])).1 ≡ done (some r)
    → r.account_id ≤ max_u64
found_id r e = let same : row ≡ r = ground arith in rw (sym same) (omega arith)

client_plays_example :
    (r : AccountRow) × IsPlayer accounts crypto login (97 ∷ []) (1 ∷ []) r
    × (joined.0.account ≡ some (record { account_id = r.account_id; user_id = r.user_id }))
    × (store.stored
          (take_auth_token scores store game token).0.redis
          (game.auth_token_prefix ++ token)
        ≡ none)
    × IsPlaying
        (λ a b. a + b)
        Counters.default
        (97 ∷ [])
        (1 ∷ [])
        token
        (queue.sent client.0.outbox)
        (queue.sent joined.0.outbox)
client_plays_example =
    client_plays accounts scores store crypto (λ b w. true) token flags queue login game (97 ∷ [])
      (1 ∷ []) token (record { user_id = 97 ∷ [] }) value 1 5 2 6 [] [] default default [] []
      (λ a b. a + b) Counters.default logs_in found_id refl refl looks_up refl refl refl refl refl
      login_greets login_answers game_greets joins_in
