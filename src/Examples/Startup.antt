-- ===== src/Examples/Startup.antt =====
-- Start-up, the monitor and the connections of the load client at concrete inputs.
use rust_gameserver.Base.{
  ℕ, ◌+◌, ◌≡◌, true, false, not, ◌&&◌, ◌||◌, List, [], ◌∷◌, none, length, arith, ltb,
}
use rust_gameserver.Net.Monitor.{Floats, ProcessMetrics, Tick, run}
use rust_gameserver.Net.Monitor.Deltas.{totals, final, totals-run}
use rust_gameserver.LoginServer.Config.{default_admin_api}
use rust_gameserver.LoginServer.Admin.Start.{start, is_started}
use rust_gameserver.Startup.{
  spawn_server, spawn_admin, join_server, join_admin, join_notice, join_monitor, cancel_shutdown,
  does, IsBefore,
}
use rust_gameserver.Startup.Login.{Host, main, login_main_lem}
use rust_gameserver.DummyClient.Startup.{Attempt, DummyClientConfig, default, connect_all}
use rust_gameserver.DummyClient.Startup.Connects.{
  rounds_through, clients_from, thousands, connect_all_lem,
}

-- Whole numbers in place of floats.
abbrev whole : Floats ℕ
whole = record {
  from_u64 = λ n. n;
  as_secs_f64 = λ n. n;
  divide = λ a b. a;
  times = λ a b. a;
  is_positive = λ a. ltb 0 a;
  zero_float = 0;
}

abbrev metrics : ProcessMetrics ℕ
metrics = record { cpu_count = 1; prev_cpu_ms = 0; prev_at = 0 }

abbrev tick : ℕ → ℕ → Tick whole
tick received sent = record {
  now = 10;
  refreshed = none;
  counters = record { received = received; sent = sent };
  active_sessions = 1;
}

abbrev ticks : List (Tick whole)
ticks = tick 5 3 ∷ tick 9 9 ∷ []

totals-run_example :
    ((totals whole (run whole metrics (2, 1) ticks)).0 + 2 ≡ (final whole (2, 1) ticks).0)
    × ((totals whole (run whole metrics (2, 1) ticks)).1 + 1 ≡ (final whole (2, 1) ticks).1)
    × (length (run whole metrics (2, 1) ticks) ≡ length ticks)
totals-run_example =
    totals-run whole metrics (2, 1) ticks
      (
        omega arith,
        omega arith,
        omega arith,
        omega arith,
        (omega arith, omega arith, omega arith, omega arith, tt),
      )

abbrev target : DummyClientConfig
target = record default { max_client_count = 3 }

-- The third connection fails.
abbrev attempt : ℕ → Attempt
attempt i = record { is_stopped = false; connects = ltb i 2 }

connect_all_lem_example :
    (let n = rounds_through attempt 0 3 in
      connect_all true target attempt
      ≡ record { clients = clients_from true 0 n; pauses = thousands 3 0 n })
connect_all_lem_example = connect_all_lem true target attempt

-- The port of the admin server is taken.
abbrev host : Host
host = record {
  config = true;
  mysql_url = true;
  redis_url = true;
  redis_manager = true;
  listener = true;
  signal = true;
  server_joins = true;
  admin_joins = true;
  notice_joins = true;
  monitor_joins = true;
  admin = record { binds = false; unblocks = true; adopts = true; loads_tls = true };
}

login_main_lem_example :
    (does spawn_server (main default_admin_api host).effects ≡ (
      host.config
      && host.mysql_url
      && host.redis_url
      && host.redis_manager
      && (not default_admin_api.enabled || is_started (start default_admin_api host.admin))
      && host.listener))
    × ((main default_admin_api host).fault ≡ none
        → (does join_server (main default_admin_api host).effects ≡ true)
          × (does join_notice (main default_admin_api host).effects ≡ true)
          × (does join_monitor (main default_admin_api host).effects ≡ true)
          × (does join_admin (main default_admin_api host).effects
              ≡ does spawn_admin (main default_admin_api host).effects))
    × IsBefore cancel_shutdown join_server (main default_admin_api host).effects
login_main_lem_example = login_main_lem default_admin_api host
