-- ===== src/LoginServer/Admin/Router.antt =====
-- The routes of `router` in crates/login_server/src/admin/mod.rs.
pub mod Paths
use rust_gameserver.Base.{
  ℕ, Bool, true, false, not, ◌&&◌, ◌||◌, List, [], ◌∷◌, Option, none, some, Bytes, bytes_discrete,
  ite, codes, is_empty, ◌==◌, if◌then◌else◌,
}
use rust_gameserver.Proto.{ℤ}
use rust_gameserver.Redis.{Reply, done, failed, Redis}
use rust_gameserver.Text.{split_once}
use rust_gameserver.Net.Cancellation.{Cancellation}
use rust_gameserver.Net.Registry.{Registry}
use rust_gameserver.Net.Stats.{Stats}
use rust_gameserver.Db.Password.{Crypto}
use rust_gameserver.LoginServer.Config.{AdminApiConfig, key_store}
use rust_gameserver.LoginServer.Admin.SessionKey.{
  SessionKeyStore, Header, Access, runs_next, missing_header, invalid_key, internal_error,
  require_session_key,
}
use rust_gameserver.LoginServer.Admin.Handlers.{
  Sql, LoginResponse, StatusCode, HealthDto, SessionDto, StatsDto, login, logout, notice, health,
  sessions, disconnect, stats,
}
use rust_gameserver.LoginServer.Admin.Scores.{ScoreDto, ScoreSql, scores_by_account, scores_top}

pub data Method : Type 0 where
  get head post other : Method

pub data Endpoint : Type 0 where
  auth_login auth_logout health_check send_notice account_scores top_scores list_sessions : Endpoint
  disconnect_session : (session_id : Bytes) → Endpoint
  server_stats : Endpoint

abbrev pub strip_prefix : Bytes → Bytes → Option Bytes
strip_prefix [] s = some s
strip_prefix (c ∷ p) [] = none
strip_prefix (c ∷ p) (d ∷ s) = if c == d then strip_prefix p s else none

-- A segment is not empty and has no slash.
abbrev pub ends_with_disconnect : Option (Bytes × Bytes) → Option Endpoint
ends_with_disconnect none = none
ends_with_disconnect (some (session_id, tail)) =
    if is_empty session_id
    then none
    else ite (bytes_discrete tail (codes "disconnect")) (some (disconnect_session session_id)) none

abbrev pub after_sessions : Option Bytes → Option Endpoint
after_sessions none = none
after_sessions (some tail) = ends_with_disconnect (split_once b'/' tail)

abbrev pub is_path : Bytes → Bytes → Endpoint → Option Endpoint → Option Endpoint
is_path pattern path e rest = ite (bytes_discrete path pattern) (some e) rest

unfoldable pub route : Bytes → Option Endpoint
unfolding split_once
route path = is_path (codes "/api/auth/login") path auth_login (
    is_path (codes "/api/auth/logout") path auth_logout (
      is_path (codes "/api/health") path health_check (
        is_path (codes "/api/notice") path send_notice (
          is_path (codes "/api/scores") path account_scores (
            is_path (codes "/api/scores/top") path top_scores (
              is_path (codes "/api/sessions") path list_sessions (
                is_path (codes "/api/stats") path server_stats
                  (after_sessions (strip_prefix (codes "/api/sessions/") path)))))))))

-- `get` also answers HEAD.
abbrev is_get : Method → Bool
is_get get = true
is_get head = true
is_get post = false
is_get other = false

abbrev is_post : Method → Bool
is_post get = false
is_post head = false
is_post post = true
is_post other = false

abbrev pub takes : Endpoint → Method → Bool
takes auth_login m = is_post m
takes auth_logout m = is_post m
takes health_check m = is_get m
takes send_notice m = is_post m
takes account_scores m = is_get m
takes top_scores m = is_get m
takes list_sessions m = is_get m
takes (disconnect_session session_id) m = is_post m
takes server_stats m = is_get m
