-- ===== src/Net/Outbox/Handle.antt =====
-- The two handles of a session on its writer task: `spawn` and `Writer::close` of
-- crates/net/src/outbox.rs. tokio's `mpsc::channel` is the parameter `channel`.
use rust_gameserver.Base.{ℕ, Option, none, some, leb, if◌then◌else◌}
use rust_gameserver.Net.Consts.{from_secs, max_send_queue_size}

abbrev pub writer_drain_timeout : ℕ
writer_drain_timeout = from_secs 1

pub record Outbox (C : Type 0) : Type 0 where
  pub session_id : ℕ
  pub tx : C

unfoldable pub spawn : {C : Type 0} → (ℕ → C) → ℕ → Outbox C
spawn channel session_id = record { session_id = session_id; tx = channel max_send_queue_size }

-- The writer has written the whole queue, or is aborted.
pub data Closed : Type 0 where
  drained aborted : Closed

-- `needs` is how long the writer takes from the drop of the outbox to its end, if it ends.
unfoldable pub close : Option ℕ → Closed
close none = aborted
close (some needs) = if leb needs writer_drain_timeout then drained else aborted
