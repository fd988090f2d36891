-- ===== src/Net/Consts.antt =====
-- crates/net/src/consts.rs. Times and durations are numbers of nanoseconds, as in `Duration`.
use rust_gameserver.Base.{ℕ, ◌-◌, ◌*◌, ◌^◌}

abbrev pub from_secs : ℕ → ℕ
from_secs n = n * 1000000000

abbrev pub from_millis : ℕ → ℕ
from_millis n = n * 1000000

abbrev pub u16_mod : ℕ
u16_mod = 2 ^ 16

abbrev pub u32_mod : ℕ
u32_mod = 2 ^ 32

abbrev pub u64_mod : ℕ
u64_mod = 2 ^ 64

abbrev pub max_buffer_size : ℕ
max_buffer_size = 8192

abbrev pub max_message_body_size : ℕ
max_message_body_size = max_buffer_size - 2

abbrev pub max_send_queue_size : ℕ
max_send_queue_size = 200

abbrev pub max_message_channel_capacity : ℕ
max_message_channel_capacity = 1000

abbrev pub flood_window : ℕ
flood_window = from_secs 10

abbrev pub max_connections_per_window : ℕ
max_connections_per_window = 30

abbrev pub ban_duration : ℕ
ban_duration = from_secs (10 * 60)

abbrev pub keep_alive_interval : ℕ
keep_alive_interval = from_secs 3

abbrev pub keep_alive_timeout : ℕ
keep_alive_timeout = from_secs 10
