-- ===== src/Startup.antt =====
-- `main` of crates/game_server and crates/login_server: the order of start-up and shutdown, and where
-- `?` leaves it. What the steps do is modelled elsewhere; here they are named.
pub mod Game
pub mod Login
use rust_gameserver.Base.{
  ℕ, ◌≡◌, ◌≢◌, ◌⊎◌, Bool, true, false, ◌||◌, ◌==◌, List, [], ◌∷◌, Option, none, some, if◌then◌else◌,
}

-- What `main` has set going, waited for or told.
pub data Effect : Type 0 where
  spawn_notice spawn_monitor spawn_admin listen spawn_server : Effect
  wait_for_ctrl_c cancel_shutdown : Effect
  join_server join_admin join_notice join_monitor : Effect

-- The step whose error `main` returns.
pub data Fault : Type 0 where
  no_config bad_mysql_url bad_redis_url no_redis_manager no_admin no_listener no_signal : Fault
  server_panicked admin_failed notice_panicked monitor_panicked : Fault

-- The effects, oldest first, and the error, if there is one.
pub record Run : Type 0 where
  pub effects : List Effect
  pub fault : Option Fault

abbrev pub finished : Run
finished = record { effects = []; fault = none }

abbrev pub then_do : Effect → Run → Run
then_do e rest = record rest { effects = e ∷ rest.effects }

-- `step?`
abbrev pub try_step : Bool → Fault → Run → Run
try_step ok f rest = if ok then rest else record { effects = []; fault = some f }

-- `Effect` as a number, to compare.
abbrev rank : Effect → ℕ
rank spawn_notice = 0
rank spawn_monitor = 1
rank spawn_admin = 2
rank listen = 3
rank spawn_server = 4
rank wait_for_ctrl_c = 5
rank cancel_shutdown = 6
rank join_server = 7
rank join_admin = 8
rank join_notice = 9
rank join_monitor = 10

abbrev pub does : Effect → List Effect → Bool
does e [] = false
does e (f ∷ fs) = (rank e == rank f) || does e fs

-- Whether the second effect is there, and only behind the first.
abbrev pub IsBefore : Effect → Effect → List Effect → Type 0
IsBefore e f [] = Unit {0}
IsBefore e f (g ∷ gs) = (rank f ≢ rank g) × ((rank e ≡ rank g) ⊎ IsBefore e f gs)
