-- ===== src/Startup/Game.antt =====
-- crates/game_server/src/main.rs.
use rust_gameserver.Base.{◌≡◌, Bool, true, ◌&&◌, none, arith}
use rust_gameserver.Startup.{
  spawn_notice, spawn_monitor, listen, spawn_server, wait_for_ctrl_c, cancel_shutdown, join_server,
  join_notice, join_monitor, no_config, bad_mysql_url, bad_redis_url, no_redis_manager, no_listener,
  no_signal, server_panicked, notice_panicked, monitor_panicked, Run, finished, then_do, try_step,
  does, IsBefore,
}

-- Which steps succeed.
pub record Host : Type 0 where
  pub config : Bool
  pub mysql_url : Bool
  pub redis_url : Bool
  pub redis_manager : Bool
  pub listener : Bool
  pub signal : Bool
  pub server_joins : Bool
  pub notice_joins : Bool
  pub monitor_joins : Bool

unfoldable pub main : Host → Run
main h = try_step h.config no_config (
    try_step h.mysql_url bad_mysql_url (
      try_step h.redis_url bad_redis_url (
        try_step h.redis_manager no_redis_manager (
          then_do spawn_notice (
            then_do spawn_monitor (
              try_step h.listener no_listener (
                then_do listen (
                  then_do spawn_server (
                    try_step h.signal no_signal (
                      then_do wait_for_ctrl_c (
                        then_do cancel_shutdown (
                          try_step h.server_joins server_panicked (
                            then_do join_server (
                              try_step h.notice_joins notice_panicked (
                                then_do join_notice (
                                  try_step h.monitor_joins monitor_panicked
                                    (then_do join_monitor finished)))))))))))))))))

-- The game server is started exactly if the configuration, both URLs and the port are fine. If `main`
-- returns without an error, it has joined the server, the notices and the monitor, and whatever
-- happens, it never waits for the server before it has cancelled the shutdown token.
pub game_main_lem :
    (h : Host)
    → (does spawn_server (main h).effects
        ≡ (h.config && h.mysql_url && h.redis_url && h.redis_manager && h.listener))
      × ((main h).fault ≡ none
          → (does join_server (main h).effects ≡ true)
            × (does join_notice (main h).effects ≡ true)
            × (does join_monitor (main h).effects ≡ true))
      × IsBefore cancel_shutdown join_server (main h).effects
unfolding main
game_main_lem h = ground arith
