-- ===== src/Startup/Login.antt =====
-- crates/login_server/src/main.rs.
use rust_gameserver.Base.{◌≡◌, Bool, true, not, ◌&&◌, ◌||◌, none, arith, if◌then◌else◌}
use rust_gameserver.LoginServer.Config.{AdminApiConfig}
use rust_gameserver.LoginServer.Admin.Start.{Host as AdminHost, start, is_started}
use rust_gameserver.Startup.{
  spawn_notice, spawn_monitor, spawn_admin, listen, spawn_server, wait_for_ctrl_c, cancel_shutdown,
  join_server, join_admin, join_notice, join_monitor, no_config, bad_mysql_url, bad_redis_url,
  no_redis_manager, no_listener, no_signal, no_admin, admin_failed, server_panicked,
  notice_panicked, monitor_panicked, Run, finished, then_do, try_step, does, IsBefore,
}

-- Which steps succeed. `admin_joins` is `admin.await??`.
pub record Host : Type 0 where
  pub config : Bool
  pub mysql_url : Bool
  pub redis_url : Bool
  pub redis_manager : Bool
  pub listener : Bool
  pub signal : Bool
  pub server_joins : Bool
  pub admin_joins : Bool
  pub notice_joins : Bool
  pub monitor_joins : Bool
  pub admin : AdminHost

-- `if server_config.admin_api.enabled`
abbrev pub start_admin : AdminApiConfig → Host → Run → Run
start_admin config h rest =
    let admin = start config h.admin in
    if config.enabled then try_step (is_started admin) no_admin (then_do spawn_admin rest) else rest

-- `if let Some(admin) = admin`
abbrev pub await_admin : AdminApiConfig → Host → Run → Run
await_admin config h rest =
    if config.enabled then try_step h.admin_joins admin_failed (then_do join_admin rest) else rest

unfoldable pub main : AdminApiConfig → Host → Run
unfolding start
main config h = try_step h.config no_config (
    try_step h.mysql_url bad_mysql_url (
      try_step h.redis_url bad_redis_url (
        try_step h.redis_manager no_redis_manager (
          then_do spawn_notice (
            then_do spawn_monitor (
              start_admin config h (
                try_step h.listener no_listener (
                  then_do listen (
                    then_do spawn_server (
                      try_step h.signal no_signal (
                        then_do wait_for_ctrl_c (
                          then_do cancel_shutdown (
                            try_step h.server_joins server_panicked (
                              then_do join_server (
                                await_admin config h (
                                  try_step h.notice_joins notice_panicked (
                                    then_do join_notice (
                                      try_step h.monitor_joins monitor_panicked
                                        (then_do join_monitor finished)))))))))))))))))))

-- The login server is started exactly if the configuration, both URLs, the Redis manager, the admin
-- server, where it is enabled, and the port are fine. If `main` returns without an error, it has joined the server, the
-- notices, the monitor, and the admin server if that was spawned; and, whatever happens, it never
-- waits for the server before it has cancelled the shutdown token.
pub login_main_lem :
    (config : AdminApiConfig) (h : Host)
    → (does spawn_server (main config h).effects ≡ (
        h.config
        && h.mysql_url
        && h.redis_url
        && h.redis_manager
        && (not config.enabled || is_started (start config h.admin))
        && h.listener))
      × ((main config h).fault ≡ none
          → (does join_server (main config h).effects ≡ true)
            × (does join_notice (main config h).effects ≡ true)
            × (does join_monitor (main config h).effects ≡ true)
            × (does join_admin (main config h).effects ≡ does spawn_admin (main config h).effects))
      × IsBefore cancel_shutdown join_server (main config h).effects
unfolding main
login_main_lem config h = ground arith
