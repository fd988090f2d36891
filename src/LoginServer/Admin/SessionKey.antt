-- ===== src/LoginServer/Admin/SessionKey.antt =====
-- crates/login_server/src/admin/session_key.rs: the session keys of operators, which Redis stores,
-- and the middleware that asks for one. The random key is an argument of `issue`.
pub mod Lifecycle
pub mod Gate
use rust_gameserver.Base.{
  ℕ, ◌+◌, ◌*◌, Bool, true, false, ◌||◌, List, [], ◌∷◌, ◌++◌, map, Option, none, some, Bytes,
  bytes_discrete, ite, codes, is_empty, ltb, if◌then◌else◌,
}
use rust_gameserver.Redis.{Reply, done, failed, Redis}

-- `ttl` is in seconds.
pub record SessionKeyStore : Type 0 where
  pub prefix : Bytes
  pub ttl : ℕ

abbrev pub exempt_paths : List Bytes
exempt_paths = codes "/api/health" ∷ codes "/api/auth/login" ∷ []

abbrev pub to_ascii_lowercase : ℕ → ℕ
to_ascii_lowercase c = if ltb c b'A' then c else if ltb b'Z' c then c else c + 32

unfoldable pub eq_ignore_ascii_case : Bytes → Bytes → Bool
eq_ignore_ascii_case a b =
    ite (bytes_discrete (map to_ascii_lowercase a) (map to_ascii_lowercase b)) true false

abbrev any_equal : List Bytes → Bytes → Bool
any_equal [] path = false
any_equal (p ∷ ps) path = eq_ignore_ascii_case p path || any_equal ps path

unfoldable pub is_exempt : Bytes → Bool
is_exempt path = any_equal exempt_paths path

-- `filter(|u| !u.is_empty())`
abbrev pub non_empty : Option Bytes → Option Bytes
non_empty none = none
non_empty (some []) = none
non_empty (some (c ∷ u)) = some (c ∷ u)

abbrev pub replace {ℓ κ} : {A : Type ℓ} → {B : Type κ} → B → Reply A → Reply B
replace b (done _) = done b
replace b failed = failed

-- `X-Session-Key`: absent, not a text, or the text.
pub data Header : Type 0 where
  absent opaque : Header
  text : Bytes → Header

pub data Access : Type 0 where
  runs_next missing_header invalid_key internal_error : Access

module _ {R : Type 0} (red : Redis R) (store : SessionKeyStore) where
  abbrev pub redis_key : Bytes → Bytes
  redis_key key = store.prefix ++ key

  unfoldable pub issue : Bytes → R → Bytes → R × Reply Bytes
  issue key r user_id =
      let (r', reply) = red.set_ex r (redis_key key) user_id store.ttl in (r', replace key reply)

  abbrev after_filter : R → Bytes → Option Bytes → R × Reply (Option Bytes)
  after_filter r key none = (r, done none)
  after_filter r key (some u) =
      let (r', reply) = red.expire r (redis_key key) store.ttl in (r', replace (some u) reply)

  abbrev after_get : R → Bytes → Reply (Option Bytes) → R × Reply (Option Bytes)
  after_get r key (done o) = after_filter r key (non_empty o)
  after_get r key failed = (r, failed)

  unfoldable pub validate : R → Bytes → R × Reply (Option Bytes)
  validate r key =
      if is_empty key then (r, done none) else after_get r key (red.get r (redis_key key))

  unfoldable pub revoke : R → Bytes → R × Reply (Unit {0})
  revoke r key = red.del r (redis_key key)

  abbrev access_of : Reply (Option Bytes) → Access
  access_of (done (some u)) = runs_next
  access_of (done none) = invalid_key
  access_of failed = internal_error

  abbrev check_key : R → Bytes → R × Access
  check_key r key = let (r', reply) = validate r key in (r', access_of reply)

  -- `to_str().unwrap_or_default()`
  abbrev check_header : R → Header → R × Access
  check_header r absent = (r, missing_header)
  check_header r opaque = check_key r []
  check_header r (text key) = check_key r key

  unfoldable pub require_session_key : R → Bytes → Header → R × Access
  unfolding validate
  require_session_key r path header =
      if is_exempt path then (r, runs_next) else check_header r header
