-- ===== src/Net/Monitor.antt =====
-- crates/net/src/monitor.rs: the figures of the process and the log line every ten seconds. What the
-- sysinfo crate measures comes from the environment; `f64` and its operations are the parameter
-- `Floats`.
pub mod Deltas
use rust_gameserver.Base.{
  ℕ, ◌+◌, ◌-◌, ◌%◌, Bool, true, false, List, [], ◌∷◌, Option, none, some, if◌then◌else◌,
}
use rust_gameserver.Net.Consts.{from_secs, u64_mod}
use rust_gameserver.Net.Stats.{Stats, snapshot}

abbrev pub monitor_interval : ℕ
monitor_interval = from_secs 10

pub record Floats (F : Type 0) : Type 0 where
  pub from_u64 : ℕ → F
  pub as_secs_f64 : ℕ → F
  pub divide : F → F → F
  pub times : F → F → F
  pub is_positive : F → Bool
  pub zero_float : F

-- `Process::accumulated_cpu_time` in milliseconds and `memory` in bytes; `none` without a process.
abbrev pub Refreshed : Type 0
Refreshed = Option (ℕ × ℕ)

pub record ProcessMetrics (F : Type 0) : Type 0 where
  pub cpu_count : F
  pub prev_cpu_ms : ℕ
  pub prev_at : ℕ

module _ {F : Type 0} (fl : Floats F) where
  -- `default`: the first refresh only sets the CPU time.
  abbrev pub first_cpu_ms : Refreshed → ℕ
  first_cpu_ms none = 0
  first_cpu_ms (some (cpu_ms, memory_bytes)) = cpu_ms

  unfoldable pub new : F → ℕ → Refreshed → ProcessMetrics F
  new cpu_count now refreshed = record {
    cpu_count = cpu_count;
    prev_cpu_ms = first_cpu_ms refreshed;
    prev_at = now;
  }

  abbrev pub cpu_percent : ProcessMetrics F → ℕ → ℕ → F
  cpu_percent m now cpu_ms =
      let elapsed = fl.as_secs_f64 (now - m.prev_at) in
      if fl.is_positive elapsed
      then fl.times
          (fl.divide (fl.divide (fl.from_u64 (cpu_ms - m.prev_cpu_ms)) (fl.from_u64 1000))
            (fl.times elapsed m.cpu_count))
          (fl.from_u64 100)
      else fl.zero_float

  -- `saturating_sub` and `duration_since` stop at zero.
  unfoldable pub sample : ProcessMetrics F → ℕ → Refreshed → ProcessMetrics F × F × F
  sample m now none = (m, fl.zero_float, fl.zero_float)
  sample m now (some (cpu_ms, memory_bytes)) = (
    record m { prev_cpu_ms = cpu_ms; prev_at = now },
    cpu_percent m now cpu_ms,
    fl.divide (fl.divide (fl.from_u64 memory_bytes) (fl.from_u64 1024)) (fl.from_u64 1024),
  )

  -- What a tick finds when its ten seconds are over.
  pub record Tick : Type 0 where
    pub now : ℕ
    pub refreshed : Refreshed
    pub counters : Stats
    pub active_sessions : ℕ

  pub record Line : Type 0 where
    pub active : ℕ
    pub cpu : F
    pub memory_mb : F
    pub received : ℕ
    pub sent : ℕ

  -- In a build without overflow checks the difference of two counters wraps.
  abbrev pub since : ℕ → ℕ → ℕ
  since total prev = (total + u64_mod - prev) % u64_mod

  -- The lines that are logged until the shutdown ends the list of ticks.
  unfoldable pub run : ProcessMetrics F → ℕ × ℕ → List Tick → List Line
  unfolding sample
  run m prev [] = []
  run m (prev_recv, prev_sent) (t ∷ ticks) =
      let (m', cpu, memory_mb) = sample m t.now t.refreshed in
      let (recv, sent) = snapshot t.counters in
      record {
        active = t.active_sessions;
        cpu = cpu;
        memory_mb = memory_mb;
        received = since recv prev_recv;
        sent = since sent prev_sent;
      }
      ∷ run m' (recv, sent) ticks
