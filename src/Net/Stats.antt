-- ===== src/Net/Stats.antt =====
-- crates/net/src/stats.rs and session_id.rs: the process-wide atomic counters, passed as state.
-- `fetch_add` on an `AtomicU64` wraps.
use rust_gameserver.Base.{ℕ, ◌+◌, ◌%◌}
use rust_gameserver.Net.Consts.{u64_mod}

pub record Stats : Type 0 where
  pub received : ℕ
  pub sent : ℕ

unfoldable pub increment_received : Stats → Stats
increment_received s = record s { received = (s.received + 1) % u64_mod }

unfoldable pub increment_sent : Stats → Stats
increment_sent s = record s { sent = (s.sent + 1) % u64_mod }

unfoldable pub snapshot : Stats → ℕ × ℕ
snapshot s = (s.received, s.sent)

-- The old value of `NEXT_ID` plus one, and the new value of `NEXT_ID`. In a build without overflow
-- checks the sum wraps.
unfoldable pub generate : ℕ → ℕ × ℕ
generate next_id = ((next_id + 1) % u64_mod, (next_id + 1) % u64_mod)
