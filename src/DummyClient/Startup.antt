-- ===== src/DummyClient/Startup.antt =====
-- crates/dummy_client/src/main.rs: the connections that the load client opens, and config.rs.
pub mod Connects
use rust_gameserver.Base.{
  ℕ, zero, suc, ◌+◌, ◌%◌, Bool, true, false, not, ◌&&◌, ◌||◌, List, [], ◌∷◌, Option, none, some,
  Bytes, codes, ltb, ◌==◌, if◌then◌else◌,
}
use rust_gameserver.Net.Consts.{from_secs}
use rust_gameserver.Db.Password.{Crypto, client_hash}

pub record DummyClientConfig : Type 0 where
  pub login_server : Bytes
  pub game_server : Bytes
  pub max_client_count : ℕ
  pub password : Bytes
  pub seed_account_count : ℕ

abbrev pub default : DummyClientConfig
default = record {
  login_server = codes "127.0.0.1:9000";
  game_server = codes "127.0.0.1:9001";
  max_client_count = 10000;
  password = codes "Test1234!";
  seed_account_count = 10000;
}

abbrev pub startup_delay : ℕ
startup_delay = from_secs 2

abbrev pub connect_batch_size : ℕ
connect_batch_size = 1000

abbrev pub connect_batch_delay : ℕ
connect_batch_delay = from_secs 1

pub record ClientSettings : Type 0 where
  pub game_server : Bytes
  pub client_hash : Bytes

abbrev pub settings : Crypto → DummyClientConfig → ClientSettings
settings c cfg = record { game_server = cfg.game_server; client_hash = client_hash c cfg.password }

-- What the environment does at one round of the loop: whether the shutdown token is cancelled when
-- it begins, and whether the connection succeeds.
pub record Attempt : Type 0 where
  pub is_stopped : Bool
  pub connects : Bool

-- A client task: the number of its account, and whether it is given the keys of the player.
pub record Spawned : Type 0 where
  pub account : ℕ
  pub has_keyboard : Bool

-- The tasks, oldest first, and the counts of connections after which the loop slept.
pub record Trace : Type 0 where
  pub clients : List Spawned
  pub pauses : List ℕ

abbrev pub no_trace : Trace
no_trace = record { clients = []; pauses = [] }

abbrev pub pauses_after : ℕ → ℕ → Bool
pauses_after max connected =
    ((connected % connect_batch_size == 0) || (connected == max)) && ltb connected max

abbrev pub connected_one : ℕ → ℕ → Spawned → Trace → Trace
connected_one max connected client t = record {
  clients = client ∷ t.clients;
  pauses = if pauses_after max connected then connected ∷ t.pauses else t.pauses;
}

-- Rounds `i` to `i + left`; `attempt` is what each round finds.
unfoldable pub connect_loop : Bool → ℕ → (ℕ → Attempt) → ℕ → ℕ → ℕ → Trace
connect_loop use_keyboard max attempt i connected zero = no_trace
connect_loop use_keyboard max attempt i connected (suc left) =
    let rest = connect_loop use_keyboard max attempt (i + 1) (connected + 1) left in
    let a = attempt i in
    if a.is_stopped
    then no_trace
    else if not a.connects
    then no_trace
    else connected_one max (connected + 1)
        (record { account = i + 1; has_keyboard = (i == 0) && use_keyboard }) rest

-- `for i in 0..cfg.max_client_count`
unfoldable pub connect_all : Bool → DummyClientConfig → (ℕ → Attempt) → Trace
unfolding connect_loop
connect_all use_keyboard cfg attempt =
    connect_loop use_keyboard cfg.max_client_count attempt 0 0 cfg.max_client_count

-- How `main` ends. `seeded` carries what the seeder returned, and a keyboard that cannot be opened
-- is an error; otherwise `main` waits for the shutdown and then for its clients.
pub data Ended : Type 0 where
  config_failed url_failed : Ended
  seeded : Bool → Ended
  keyboard_failed stopped : Ended

-- What `main` finds: the argument `--seed`, a terminal, the configuration, a well-formed database
-- URL, what the seeder returns, and whether the terminal can be switched.
pub record Start : Type 0 where
  pub seed : Bool
  pub keyboard_available : Bool
  pub config : Option DummyClientConfig
  pub url_is_fine : Bool
  pub seeds : Bool
  pub raw_mode : Bool

abbrev has_player : List Spawned → Bool
has_player [] = false
has_player (c ∷ cs) = c.has_keyboard || has_player cs

abbrev pub run_clients : Start → (ℕ → Attempt) → DummyClientConfig → Trace × Ended
run_clients s attempt cfg =
    let t = connect_all (not s.seed && s.keyboard_available) cfg attempt in
    (t, if has_player t.clients && not s.raw_mode then keyboard_failed else stopped)

abbrev pub main_with : Start → (ℕ → Attempt) → Option DummyClientConfig → Trace × Ended
main_with s attempt none = (no_trace, config_failed)
main_with s attempt (some cfg) =
    let clients = run_clients s attempt cfg in
    if s.seed then (no_trace, if s.url_is_fine then seeded s.seeds else url_failed) else clients

unfoldable pub main : Start → (ℕ → Attempt) → Trace × Ended
unfolding connect_all
main s attempt = main_with s attempt s.config
