-- ===== src/LoginServer/Admin/Handlers.antt =====
-- crates/login_server/src/admin/handlers.rs: the handlers of the HTTP interface. The SQL statements,
-- Redis' publish and the process metrics are parameters; JSON is left to serde.
pub mod Login
pub mod Sessions
use rust_gameserver.Base.{
  ℕ, ◌≡◌, Bool, true, false, ◌||◌, ◌&&◌, not, List, [], ◌∷◌, map, min, Option, none, some, Bytes,
  bytes_discrete, ite, is_empty, ltb, leb, ◌==◌, if◌then◌else◌,
}
use rust_gameserver.Proto.{ℤ, pos, negsuc}
use rust_gameserver.Redis.{Reply, done, failed, Redis}
use rust_gameserver.Net.Stats.{Stats, snapshot}
use rust_gameserver.Net.Cancellation.{Cancellation}
use rust_gameserver.Net.Registry.{Registry, SessionInfo, is_authenticated, count}
use rust_gameserver.Net.Registry as Registries
use rust_gameserver.Db.Password.{Crypto, Verdict, ok, err, client_hash, verify}
use rust_gameserver.LoginServer.Config.{AdminApiConfig}
use rust_gameserver.LoginServer.Admin.SessionKey.{
  SessionKeyStore, Header, absent, opaque, text, issue, revoke,
}

-- The white space of Unicode, in UTF-8.
abbrev is_space : ℕ → Bool
is_space a = (leb 9 a && leb a 13) || (a == 32)

abbrev is_space2 : ℕ → ℕ → Bool
is_space2 a b = (a == 0xc2) && ((b == 0x85) || (b == 0xa0))

abbrev is_general_space : ℕ → ℕ → Bool
is_general_space b c =
    ((b == 0x80) && ((leb 0x80 c && leb c 0x8a) || (c == 0xa8) || (c == 0xa9) || (c == 0xaf)))
    || ((b == 0x81) && (c == 0x9f))

abbrev is_space3 : ℕ → ℕ → ℕ → Bool
is_space3 a b c =
    ((a == 0xe2) && is_general_space b c)
    || ((a == 0xe1) && (b == 0x9a) && (c == 0x80))
    || ((a == 0xe3) && (b == 0x80) && (c == 0x80))

-- `s.trim().is_empty()`
unfoldable pub is_blank : Bytes → Bool
is_blank [] = true
is_blank (a ∷ []) = is_space a
is_blank (a ∷ b ∷ []) = let rest = is_blank (b ∷ []) in if is_space a then rest else is_space2 a b
is_blank (a ∷ b ∷ c ∷ s) =
    let one = is_blank (b ∷ c ∷ s) in
    let two = is_blank (c ∷ s) in
    let three = is_blank s in
    if is_space a
    then one
    else if is_space2 a b
    then two
    else if is_space3 a b c
    then three
    else false

abbrev pub contains : List Bytes → Bytes → Bool
contains [] u = false
contains (a ∷ rest) u = ite (bytes_discrete a u) true (contains rest u)

pub data LoginResponse : Type 0 where
  bad_request not_admin invalid_credentials internal_error : LoginResponse
  logged_in : (session_key : Bytes) (expires_in_minutes : ℕ) → LoginResponse

-- The status codes of the answers without a body of their own.
pub data StatusCode : Type 0 where
  no_content bad_request not_found internal_server_error : StatusCode

-- The statement of `login`: the stored hash and salt of an account.
pub record Sql (D : Type 0) : Type 0 where
  pub select_credentials : D → Bytes → D × Reply (Option (Bytes × Bytes))

module _ {D R : Type 0} (sql : Sql D) (red : Redis R) (c : Crypto) where
  abbrev after_issue : ℕ → D → R × Reply Bytes → (D × R) × LoginResponse
  after_issue minutes d (r, done key) = ((d, r), logged_in key minutes)
  after_issue minutes d (r, failed) = ((d, r), internal_error)

  abbrev after_verify :
      AdminApiConfig → SessionKeyStore → Bytes → Bytes → D → R → Verdict → (D × R) × LoginResponse
  after_verify config store key user_id d r (ok true) =
      after_issue config.session_key_ttl_minutes d (issue red store key r user_id)
  after_verify config store key user_id d r (ok false) = ((d, r), invalid_credentials)
  after_verify config store key user_id d r (err e) = ((d, r), internal_error)

  -- `joins` is false if the blocking task fails.
  abbrev after_select :
      Bool
      → AdminApiConfig
      → SessionKeyStore
      → Bytes
      → Bytes
      → Bytes
      → R
      → D × Reply (Option (Bytes × Bytes))
      → (D × R) × LoginResponse
  after_select true config store key user_id password r (d, done (some (hash, salt))) =
      after_verify config store key user_id d r (verify c (client_hash c password) hash salt)
  after_select false config store key user_id password r (d, done (some row)) =
      ((d, r), internal_error)
  after_select joins config store key user_id password r (d, done none) =
      ((d, r), invalid_credentials)
  after_select joins config store key user_id password r (d, failed) = ((d, r), internal_error)

  unfoldable pub login :
      Bool
      → AdminApiConfig
      → SessionKeyStore
      → Bytes
      → D × R
      → (user_id password : Bytes) → (D × R) × LoginResponse
  unfolding is_blank
  login joins config store key (d, r) user_id password =
      if is_blank user_id || is_empty password
      then ((d, r), bad_request)
      else if not (contains config.admins user_id)
      then ((d, r), not_admin)
      else after_select joins config store key user_id password r (sql.select_credentials d user_id)

abbrev revoked : Reply (Unit {0}) → StatusCode
revoked (done _) = no_content
revoked failed = internal_server_error

unfoldable pub logout : {R : Type 0} → Redis R → SessionKeyStore → R → Header → R × StatusCode
logout red store r absent = (r, no_content)
logout red store r opaque = (r, no_content)
logout red store r (text key) = let (r', reply) = revoke red store r key in (r', revoked reply)

-- `publish` is the publish of the broadcast channel.
unfoldable pub notice :
    {P : Type 0} → (P → Bytes → P × Reply (Unit {0})) → P → Bytes → P × StatusCode
notice publish p message =
    if is_blank message
    then (p, bad_request)
    else (let (p', reply) = publish p message in (p', revoked reply))

pub record HealthDto : Type 0 where
  pub status_ok : Bool
  pub db : Bool
  pub redis : Bool

unfoldable pub health : Bool → Bool → HealthDto
health db_ok redis_ok = record { status_ok = db_ok && redis_ok; db = db_ok; redis = redis_ok }

-- `q.limit.unwrap_or(default).clamp(1, max)` for a `max` of at least 1.
abbrev clamp : ℕ → ℤ → ℕ
clamp max (negsuc n) = 1
clamp max (pos n) = if ltb n 1 then 1 else min n max

abbrev limit_or : ℕ → ℕ → Option ℤ → ℕ
limit_or default max none = clamp max (pos default)
limit_or default max (some n) = clamp max n

unfoldable pub scores_by_account_limit : Option ℤ → ℕ
scores_by_account_limit limit = limit_or 50 200 limit

unfoldable pub scores_top_limit : Option ℤ → ℕ
scores_top_limit limit = limit_or 10 100 limit

pub record SessionDto : Type 0 where
  pub session_id : ℕ
  pub user_id : Option Bytes
  pub world_id : ℕ
  pub is_authenticated : Bool

abbrev pub dto : SessionInfo → SessionDto
dto s = record {
  session_id = s.session_id;
  user_id = s.user_id;
  world_id = 0;
  is_authenticated = is_authenticated s;
}

unfoldable pub sessions : {Token : Type 0} → Registry Token → List SessionDto
sessions r = map dto (Registries.snapshot r)

unfoldable pub disconnect :
    {Token Store : Type 0}
    → Cancellation Token Store
    → Registry Token
    → Store
    → ℕ
    → Store × StatusCode
disconnect can r st session_id =
    let (found, st') = Registries.disconnect can r st session_id in
    (st', if found then no_content else not_found)

-- Without the figures of the process, which the system measures.
pub record StatsDto : Type 0 where
  pub active_sessions : ℕ
  pub packets_received_total : ℕ
  pub packets_sent_total : ℕ

unfoldable pub stats : {Token : Type 0} → Registry Token → Stats → StatsDto
stats r st =
    let (received, sent) = snapshot st in
    record {
      active_sessions = count r;
      packets_received_total = received;
      packets_sent_total = sent;
    }
