-- ===== src/Examples/Serve.antt =====
-- Whole servers at concrete inputs.
use rust_gameserver.Base.{
  ℕ, ◌+◌, ◌≡◌, refl, ◌⊎◌, ◌<◌, Bool, length, false, true, List, [], ◌∷◌, none, some, arith,
  ℕ_discrete, bytes_discrete,
}
use rust_gameserver.Base.Map.{get, insert}
use rust_gameserver.Proto.{
  MessageWrapper, game_connect_request, connected_response, game_connect_response, pos,
}
use rust_gameserver.Redis.{done, failed}
use rust_gameserver.Text.{split_once, parse_u64, scan}
use rust_gameserver.Net.Acceptor.{
  v4, should_block, check_flood, is_flood_detected, prune, sweep_if_due, to_canonical,
  is_allowlisted, ip_discrete,
}
use rust_gameserver.Net.Outbox.{wrap, send, send_flow}
use rust_gameserver.Net.SelectLoop.{pending, received, Frame, turn}
use rust_gameserver.Net.Server.{
  here, next, accepts, begins, passes, delivers, shuts_down, accept, begin, pass, deliver,
  shut_down, is_served,
}
use rust_gameserver.GameServer.Backend.{Backend}
use rust_gameserver.GameServer.Session.{
  Session, perform, on_remote, on_game_connect_request, on_inner, on_authenticated,
}
use rust_gameserver.GameServer.Token.{Account, parse_token_value}
use rust_gameserver.GameServer.Serve.{user_of, backing, greet, pass as pass_game}
use rust_gameserver.Net.Stats.{generate}
use rust_gameserver.Net.Registry.{Entry, register, authenticate, set_user}
use rust_gameserver.Net.Registry.Exclusive.{run as run_ops}
use rust_gameserver.GameServer.Serve.Task.{program}
use rust_gameserver.GameServer.Serve.Sessions.{
  Game, started, Reachable, session_of, game_sessions_exclusive, game_shutdown_drains,
  game_registry_mirrors,
}
use rust_gameserver.Net.Server.Served.{end_all}
use rust_gameserver.Net.Registry.Lookup.{session}
use rust_gameserver.Net.Consts.{u64_mod}
use rust_gameserver.Examples.Params.{queue}
use rust_gameserver.Examples.Tokens.{tree, tree_children, none_cancelled}

-- A backend that finds account 7, user `a`, under every token.
abbrev generous : Backend ℕ
generous = record {
  take_auth_token = λ b token. (b, done (some (55 ∷ 58 ∷ 97 ∷ [])));
  save_score = λ b account_id score kill_count survive_seconds. (b, failed);
  touch_last_login = λ b account_id. (b, done tt);
}

abbrev Server : Type 0
Server = Game tree tree_children queue generous 10

abbrev empty : Server
empty = started tree tree_children queue generous 10 0 none_cancelled 0

abbrev connect : Frame
connect = received (wrap (game_connect_request (116 ∷ [])))

-- A client connects and logs in.
abbrev joined : Server → ℕ → Server
joined s n =
    let g = program tree queue 10 in
    let w = backing generous in
    let a = accept tree tree_children g w s (v4 1) 5 [] in
    let b = begin tree tree_children g w a n 6 in
    let p = pass tree tree_children g w b n 7 connect in
    let d = deliver tree tree_children g w p 0 in pass tree tree_children g w d n 8 pending

abbrev two : Server
two = joined (joined empty 0) 1

abbrev ann : Account
ann = record { account_id = 7; user_id = 97 ∷ [] }

abbrev mine : ℕ → Session (List MessageWrapper)
mine id = record {
  session_id = id;
  outbox = wrap (connected_response (pos 0)) ∷ wrap (game_connect_response true (pos 0)) ∷ [];
  account = some ann;
  last_keep_alive = 8;
  world_id = 0;
  position = (0, 0);
}

two_first : session_of tree tree_children queue generous 10 two 0 ≡ some (1, mine 1)
unfolding accept begin pass deliver generate register should_block check_flood is_flood_detected
    prune sweep_if_due to_canonical is_allowlisted program greet pass_game turn run_ops on_remote
    on_game_connect_request on_inner on_authenticated parse_token_value split_once parse_u64 scan
    perform backing send send_flow authenticate set_user get insert ip_discrete bytes_discrete
    ℕ_discrete
two_first = refl

two_second : session_of tree tree_children queue generous 10 two 1 ≡ some (2, mine 2)
unfolding accept begin pass deliver generate register should_block check_flood is_flood_detected
    prune sweep_if_due to_canonical is_allowlisted program greet pass_game turn run_ops on_remote
    on_game_connect_request on_inner on_authenticated parse_token_value split_once parse_u64 scan
    perform backing send send_flow authenticate set_user get insert ip_discrete bytes_discrete
    ℕ_discrete
two_second = refl

joined_reaches :
    (s : Server) (n : ℕ)
    → tree.is_cancelled s.shutdown s.tokens ≡ false
    → Reachable tree tree_children queue generous 10 0 none_cancelled 0 s
    → Reachable tree tree_children queue generous 10 0 none_cancelled 0 (joined s n)
joined_reaches s n h r =
    next
      (next (next (next (next r (accepts (v4 1) 5 [] h)) (begins n 6)) (passes n 7 connect))
        (delivers 0))
      (passes n 8 pending)

still_open : tree.is_cancelled (joined empty 0).shutdown (joined empty 0).tokens ≡ false
unfolding accept begin pass deliver generate register should_block check_flood is_flood_detected
    prune sweep_if_due to_canonical is_allowlisted program greet pass_game turn run_ops on_remote
    on_game_connect_request on_inner on_authenticated parse_token_value split_once parse_u64 scan
    perform backing send send_flow authenticate set_user get insert ip_discrete bytes_discrete
    ℕ_discrete
still_open = refl

two_reached : Reachable tree tree_children queue generous 10 0 none_cancelled 0 two
two_reached = joined_reaches (joined empty 0) 1 still_open (joined_reaches empty 0 refl here)

two_begun : two.begun < u64_mod
unfolding accept begin pass deliver generate register should_block check_flood is_flood_detected
    prune sweep_if_due to_canonical is_allowlisted program greet pass_game turn run_ops on_remote
    on_game_connect_request on_inner on_authenticated parse_token_value split_once parse_u64 scan
    perform backing send send_flow authenticate set_user get insert ip_discrete bytes_discrete
    ℕ_discrete
two_begun = omega arith

game_sessions_exclusive_example :
    (tree.is_cancelled 1 two.tokens ≡ true) ⊎ (tree.is_cancelled 2 two.tokens ≡ true)
game_sessions_exclusive_example =
    game_sessions_exclusive tree tree_children queue generous 10 0 none_cancelled 0 two two_reached
      two_begun 0 1 1 2 (mine 1) (mine 2) (97 ∷ []) two_first two_second refl refl (omega arith)

abbrev stopped : Server
stopped = shut_down tree tree_children (program tree queue 10) (backing generous) two

stopped_now : tree.is_cancelled stopped.shutdown stopped.tokens ≡ true
unfolding accept begin pass deliver generate register should_block check_flood is_flood_detected
    prune sweep_if_due to_canonical is_allowlisted program greet pass_game turn run_ops on_remote
    on_game_connect_request on_inner on_authenticated parse_token_value split_once parse_u64 scan
    perform backing send send_flow authenticate set_user get insert ip_discrete bytes_discrete
    ℕ_discrete shut_down
stopped_now = refl

stopped_begun : stopped.begun + 2 < u64_mod
unfolding accept begin pass deliver generate register should_block check_flood is_flood_detected
    prune sweep_if_due to_canonical is_allowlisted program greet pass_game turn run_ops on_remote
    on_game_connect_request on_inner on_authenticated parse_token_value split_once parse_u64 scan
    perform backing send send_flow authenticate set_user get insert ip_discrete bytes_discrete
    ℕ_discrete shut_down
stopped_begun = omega arith

stopped_tasks : 2 ≡ length stopped.tasks
unfolding accept begin pass deliver generate register should_block check_flood is_flood_detected
    prune sweep_if_due to_canonical is_allowlisted program greet pass_game turn run_ops on_remote
    on_game_connect_request on_inner on_authenticated parse_token_value split_once parse_u64 scan
    perform backing send send_flow authenticate set_user get insert ip_discrete bytes_discrete
    ℕ_discrete shut_down
stopped_tasks = refl

abbrev drain_polls : List (ℕ × Frame × Bool)
drain_polls = (9, pending, false) ∷ (9, connect, true) ∷ []

game_shutdown_drains_example :
    (let s =
        end_all tree tree_children
          (program tree queue 10)
          (backing generous)
          stopped
          0
          drain_polls in
      (is_served tree tree_children (program tree queue 10) (backing generous) s ≡ true)
      × ((j : ℕ) → session s.registry j ≡ none))
game_shutdown_drains_example =
    game_shutdown_drains tree tree_children queue generous 10 0 none_cancelled 0 stopped drain_polls
      (next two_reached shuts_down) stopped_now stopped_begun stopped_tasks

game_registry_mirrors_example :
    ((n : ℕ) (k : ℕ) (x : Session (List MessageWrapper))
      → session_of tree tree_children queue generous 10 two n ≡ some (k, x)
      → session two.registry x.session_id ≡ some (record { user_id = user_of x.account; kick = k }))
    × ((j : ℕ) (e : Entry ℕ)
        → session two.registry j ≡ some e
        → (n : ℕ) × (k : ℕ) × (x : Session (List MessageWrapper)) × (session_of tree tree_children
              queue generous 10 two n
            ≡ some (k, x))
          × (x.session_id ≡ j))
    × ((m n : ℕ) (k l : ℕ) (x y : Session (List MessageWrapper))
        → session_of tree tree_children queue generous 10 two m ≡ some (k, x)
        → session_of tree tree_children queue generous 10 two n ≡ some (l, y)
        → x.session_id ≡ y.session_id
        → m ≡ n)
game_registry_mirrors_example =
    game_registry_mirrors tree tree_children queue generous 10 0 none_cancelled 0 two two_reached
      two_begun
