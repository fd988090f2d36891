-- ===== src/Proto.antt =====
-- crates/proto/proto/message.proto: the wire messages, with the fields and cases of the generated
-- Rust types. A `string` and a `bytes` field are byte strings; a `float` is its 32-bit pattern.
use rust_gameserver.Base.{ℕ, Bool, Option, Bytes}

-- `negsuc n` is -(n + 1).
pub data ℤ : Type 0 where
  pos : ℕ → ℤ
  negsuc : ℕ → ℤ

pub data Payload : Type 0 where
  connected_response : (index : ℤ) → Payload
  keep_alive_noti : Payload
  keep_alive_request : Payload
  enter_world_request : (world_id : ℕ) → Payload
  enter_world_response : (success : Bool) → Payload
  login_request : (user_id password_hash : Bytes) → Payload
  login_response : (success : Bool) (error_code : ℤ) (auth_token : Bytes) → Payload
  error_response : (error_code : ℤ) → Payload
  game_over_report : (score kill_count survive_seconds : ℤ) → Payload
  game_over_response : (success : Bool) → Payload
  move_request : (x y : ℕ) → Payload
  move_response : (success : Bool) (x y : ℕ) → Payload
  game_connect_request : (auth_token : Bytes) → Payload
  game_connect_response : (success : Bool) (error_code : ℤ) → Payload

pub record MessageWrapper : Type 0 where
  pub message_size : ℤ
  pub payload : Option Payload
