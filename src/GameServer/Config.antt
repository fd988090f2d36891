-- ===== src/GameServer/Config.antt =====
-- crates/game_server/src/config.rs.
use rust_gameserver.Base.{ℕ, Bytes, codes}

pub record GameServerConfig : Type 0 where
  pub port : ℕ
  pub auth_token_prefix : Bytes

abbrev pub default : GameServerConfig
default = record { port = 9001; auth_token_prefix = codes "auth:token:" }
