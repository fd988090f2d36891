-- ===== src/LoginServer/Admin/Server.antt =====
-- The HTTP interface as `router` of crates/login_server/src/admin/mod.rs puts it together: from a
-- request through the middleware to a handler. What axum and serde read out of a request is the
-- parameter `Extractors`; the middleware is a layer around the routes and around what answers a path
-- that has none, as `Router::layer` documents.
pub mod Keyless
use rust_gameserver.Base.{ℕ, Bool, List, Option, none, some, Bytes, if◌then◌else◌}
use rust_gameserver.Proto.{ℤ}
use rust_gameserver.Redis.{Reply, done, failed, Redis}
use rust_gameserver.Net.Cancellation.{Cancellation}
use rust_gameserver.Net.Registry.{Registry}
use rust_gameserver.Net.Stats.{Stats}
use rust_gameserver.Db.Password.{Crypto}
use rust_gameserver.Db.Pools.{check_mysql, check_redis}
use rust_gameserver.LoginServer.Config.{AdminApiConfig, key_store}
use rust_gameserver.LoginServer.Admin.SessionKey.{
  SessionKeyStore, Header, Access, runs_next, missing_header, invalid_key, internal_error,
  require_session_key,
}
use rust_gameserver.LoginServer.Admin.Handlers.{
  Sql, LoginResponse, StatusCode, HealthDto, SessionDto, StatsDto, login, logout, notice, health,
  sessions, disconnect, stats,
}
use rust_gameserver.LoginServer.Admin.Router.{
  Method, Endpoint, auth_login, auth_logout, health_check, send_notice, account_scores, top_scores,
  list_sessions, disconnect_session, server_stats, route, takes,
}
use rust_gameserver.LoginServer.Admin.Scores.{ScoreDto, ScoreSql, scores_by_account, scores_top}

pub record Request : Type 0 where
  pub method : Method
  pub path : Bytes
  pub query : Bytes
  pub key : Header
  pub body : Bytes

-- `none` is a request that axum rejects.
pub record Extractors : Type 0 where
  pub login_request : Bytes → Option (Bytes × Bytes)
  pub notice_request : Bytes → Option Bytes
  pub scores_query : Bytes → Option (ℕ × Option ℤ)
  pub top_query : Bytes → Option (Option ℤ)
  pub session_id : Bytes → Option ℕ

-- What the client is answered: by a handler, by the middleware (401 and 500), or by axum.
pub data Response : Type 0 where
  logged_in_or_not : LoginResponse → Response
  status_only : StatusCode → Response
  health_json : HealthDto → Response
  scores_json : List ScoreDto → Response
  sessions_json : List SessionDto → Response
  stats_json : StatsDto → Response
  missing_key invalid_session_key internal_server_error : Response
  rejected path_not_found method_not_allowed : Response

-- `Inner`, without the process metrics and the time of the start; the registry of the shared
-- sessions, their kick tokens and the packet counters are what the handlers reach through it.
pub record AdminState (D R Token Store : Type 0) : Type 0 where
  pub config : AdminApiConfig
  pub broadcast_channel : Bytes
  pub pool : D
  pub redis : R
  pub registry : Registry Token
  pub tokens : Store
  pub keys : SessionKeyStore
  pub counters : Stats

-- `AdminState::new`
unfoldable pub new :
    {D R Token Store : Type 0}
    → AdminApiConfig
    → Bytes
    → D
    → R
    → Registry Token
    → Store
    → Stats
    → AdminState D R Token Store
new config broadcast_channel pool redis registry tokens counters = record {
  config = config;
  broadcast_channel = broadcast_channel;
  pool = pool;
  redis = redis;
  registry = registry;
  tokens = tokens;
  keys = key_store config;
  counters = counters;
}

-- The calls of the stores: the statements of the handlers, the pings of `check_mysql` and
-- `check_redis`, and Redis' PUBLISH on a channel.
pub record Stores (D R : Type 0) : Type 0 where
  pub sql : Sql D
  pub scores : ScoreSql D
  pub red : Redis R
  pub select_one : D → D × Reply (Unit {0})
  pub ping : R → R × Reply Bytes
  pub publish : Bytes → R → Bytes → R × Reply (Unit {0})

abbrev scores_response : Reply (List ScoreDto) → Response
scores_response (done scores) = scores_json scores
scores_response failed = internal_server_error

module _ {D R Token Store : Type 0} (stores : Stores D R) (c : Crypto)
    (can : Cancellation Token Store) (ex : Extractors) where
  abbrev pub State : Type 0
  State = AdminState D R Token Store

  -- `new_key` is the random session key, and `joins` tells whether the hashing task delivers.
  abbrev pub on_login : Bool → Bytes → State → Option (Bytes × Bytes) → State × Response
  on_login joins new_key s none = (s, rejected)
  on_login joins new_key s (some (user_id, password)) =
      let ((d, r), answer) =
        login stores.sql stores.red c joins s.config s.keys new_key (s.pool, s.redis) user_id
          password in
      (record s { pool = d; redis = r }, logged_in_or_not answer)

  abbrev on_logout : State → Header → State × Response
  on_logout s key =
      let (r, status) = logout stores.red s.keys s.redis key in
      (record s { redis = r }, status_only status)

  abbrev on_health : State → State × Response
  on_health s =
      let (d, db_ok) = check_mysql stores.select_one s.pool in
      let (r, redis_ok) = check_redis stores.ping s.redis in
      (record s { pool = d; redis = r }, health_json (health db_ok redis_ok))

  abbrev on_notice : State → Option Bytes → State × Response
  on_notice s none = (s, rejected)
  on_notice s (some message) =
      let (r, status) = notice (stores.publish s.broadcast_channel) s.redis message in
      (record s { redis = r }, status_only status)

  abbrev on_scores : State → Option (ℕ × Option ℤ) → State × Response
  on_scores s none = (s, rejected)
  on_scores s (some (account_id, limit)) =
      let (d, reply) = scores_by_account stores.scores s.pool account_id limit in
      (record s { pool = d }, scores_response reply)

  abbrev on_top : State → Option (Option ℤ) → State × Response
  on_top s none = (s, rejected)
  on_top s (some limit) =
      let (d, reply) = scores_top stores.scores s.pool limit in
      (record s { pool = d }, scores_response reply)

  abbrev on_disconnect : State → Option ℕ → State × Response
  on_disconnect s none = (s, rejected)
  on_disconnect s (some session_id) =
      let (tokens, status) = disconnect can s.registry s.tokens session_id in
      (record s { tokens = tokens }, status_only status)

  abbrev pub handle : Bool → Bytes → State → Request → Endpoint → State × Response
  handle joins new_key s q auth_login = on_login joins new_key s (ex.login_request q.body)
  handle joins new_key s q auth_logout = on_logout s q.key
  handle joins new_key s q health_check = on_health s
  handle joins new_key s q send_notice = on_notice s (ex.notice_request q.body)
  handle joins new_key s q account_scores = on_scores s (ex.scores_query q.query)
  handle joins new_key s q top_scores = on_top s (ex.top_query q.query)
  handle joins new_key s q list_sessions = (s, sessions_json (sessions s.registry))
  handle joins new_key s q (disconnect_session id) = on_disconnect s (ex.session_id id)
  handle joins new_key s q server_stats = (s, stats_json (stats s.registry s.counters))

  abbrev pub dispatch_to : Bool → Bytes → State → Request → Option Endpoint → State × Response
  dispatch_to joins new_key s q none = (s, path_not_found)
  dispatch_to joins new_key s q (some e) =
      let handled = handle joins new_key s q e in
      if takes e q.method then handled else (s, method_not_allowed)

  -- By whether the middleware lets the request through.
  abbrev pub respond : Bool → Bytes → State → Request → Access → State × Response
  respond joins new_key s q runs_next = dispatch_to joins new_key s q (route q.path)
  respond joins new_key s q missing_header = (s, missing_key)
  respond joins new_key s q invalid_key = (s, invalid_session_key)
  respond joins new_key s q internal_error = (s, internal_server_error)

  unfoldable pub serve_request : Bool → Bytes → State → Request → State × Response
  unfolding route
  serve_request joins new_key s q =
      let (r, access) = require_session_key stores.red s.keys s.redis q.path q.key in
      respond joins new_key (record s { redis = r }) q access
