-- ===== src/LoginServer/Config.antt =====
-- crates/login_server/src/config.rs, and the part of crates/login_server/src/admin/mod.rs that makes
-- the key store of the operators from it.
use rust_gameserver.Base.{ℕ, ◌*◌, ◌%◌, Bool, true, List, [], Bytes, codes}
use rust_gameserver.Net.Consts.{u64_mod}
use rust_gameserver.LoginServer.Admin.SessionKey.{SessionKeyStore}

pub record AdminApiConfig : Type 0 where
  pub enabled : Bool
  pub port : ℕ
  pub admins : List Bytes
  pub session_key_ttl_minutes : ℕ
  pub redis_key_prefix : Bytes
  pub tls_cert_path : Bytes
  pub tls_key_path : Bytes

pub record LoginServerConfig : Type 0 where
  pub port : ℕ
  pub auth_token_prefix : Bytes
  pub auth_token_ttl_seconds : ℕ
  pub admin_api : AdminApiConfig

abbrev pub default_admin_api : AdminApiConfig
default_admin_api = record {
  enabled = true;
  port = 9010;
  admins = [];
  session_key_ttl_minutes = 60;
  redis_key_prefix = codes "admin:session:";
  tls_cert_path = [];
  tls_key_path = [];
}

abbrev pub default : LoginServerConfig
default = record {
  port = 9000;
  auth_token_prefix = codes "auth:token:";
  auth_token_ttl_seconds = 60;
  admin_api = default_admin_api;
}

-- In a build without overflow checks the product wraps.
unfoldable pub key_store : AdminApiConfig → SessionKeyStore
key_store config = record {
  prefix = config.redis_key_prefix;
  ttl = config.session_key_ttl_minutes * 60 % u64_mod;
}
