-- ===== src/LoginServer/Session/Context.antt =====
-- `SessionContext` of crates/login_server/src/session.rs.
use rust_gameserver.Base.{ℕ, Option, none, some}
use rust_gameserver.Net.Consts.{keep_alive_timeout as contract_timeout}
use rust_gameserver.Net.Registry.{Registry}
use rust_gameserver.Net.Registry as Registries

pub record SessionContext (B Token : Type 0) : Type 0 where
  pub backend : B
  pub registry : Registry Token
  pub keep_alive_timeout : ℕ
  -- The permits of the semaphore.
  pub hash_limiter : ℕ

-- `available_parallelism().map_or(4, ..)`
abbrev pub permits : Option ℕ → ℕ
permits none = 4
permits (some n) = n

unfoldable pub new : {B Token : Type 0} → B → Option ℕ → SessionContext B Token
new backend parallelism = record {
  backend = backend;
  registry = Registries.default;
  keep_alive_timeout = contract_timeout;
  hash_limiter = permits parallelism;
}

unfoldable pub with_keep_alive_timeout :
    {B Token : Type 0} → SessionContext B Token → ℕ → SessionContext B Token
with_keep_alive_timeout ctx timeout = record ctx { keep_alive_timeout = timeout }
