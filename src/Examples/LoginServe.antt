-- ===== src/Examples/LoginServe.antt =====
-- The whole login server at concrete inputs.
use rust_gameserver.Base.{
  ℕ, ◌<◌, ◌≡◌, refl, ◌⊎◌, false, true, List, [], ◌∷◌, some, arith, ℕ_discrete, bytes_discrete,
}
use rust_gameserver.Base.Map.{get, insert}
use rust_gameserver.Proto.{MessageWrapper, login_request, connected_response, login_response, pos}
use rust_gameserver.Redis.{done}
use rust_gameserver.Net.Acceptor.{
  v4, should_block, check_flood, is_flood_detected, prune, sweep_if_due, to_canonical,
  is_allowlisted, ip_discrete,
}
use rust_gameserver.Net.Consts.{u64_mod}
use rust_gameserver.Net.Outbox.{wrap, send, send_flow}
use rust_gameserver.Net.Stats.{generate}
use rust_gameserver.Net.Registry.{register, authenticate, set_user, disconnect}
use rust_gameserver.Net.Registry.Exclusive.{run as run_ops}
use rust_gameserver.Net.SelectLoop.{pending, received, Frame, turn}
use rust_gameserver.Net.Server.{
  here, next, accepts, begins, passes, delivers, accept, begin, pass, deliver, init, looping,
  ending, nth, force_disconnect,
}
use rust_gameserver.Db.Password.{verify, derive}
use rust_gameserver.LoginServer.Authenticate.{authenticate as login}
use rust_gameserver.LoginServer.Backend.{Backend, AccountRow}
use rust_gameserver.LoginServer.Session.{
  Session, on_remote, on_login_request, try_consume_login_attempt, on_login_outcome,
}
use rust_gameserver.LoginServer.Serve.{greet, pass as pass_login, perform, backing}
use rust_gameserver.LoginServer.Serve.Task.{program}
use rust_gameserver.LoginServer.Serve.Sessions.{
  Login, Reachable, session_of, login_sessions_exclusive, disconnect_ends_session,
}
use rust_gameserver.Examples.Params.{queue, crypto}
use rust_gameserver.Examples.Tokens.{tree, tree_children, none_cancelled}

-- One account; its password hash is the client's hash followed by the salt.
abbrev row : AccountRow
row = record {
  account_id = 7;
  user_id = 97 ∷ [];
  password_hash = 1 ∷ 2 ∷ [];
  salt = 2 ∷ [];
  status = 0;
}

abbrev stores : Backend ℕ
stores = record {
  find_account = λ b user_id. (b, done (some row));
  touch_last_login = λ b account_id. (b, done tt);
  issue_auth_token = λ b account_id user_id. (b, done (some (5 ∷ [])));
}

abbrev Server : Type 0
Server = Login tree tree_children queue stores crypto (λ b w. true) 10

abbrev empty : Server
empty =
    init tree tree_children (program tree queue 10) (backing stores crypto (λ b w. true)) 0
      none_cancelled 0

abbrev request : Frame
request = received (wrap (login_request (97 ∷ []) (1 ∷ [])))

-- A client connects and logs in.
abbrev joined : Server → ℕ → Server
joined s n =
    let g = program tree queue 10 in
    let w = backing stores crypto (λ b w. true) in
    let a = accept tree tree_children g w s (v4 1) 5 [] in
    let b = begin tree tree_children g w a n 6 in
    let p = pass tree tree_children g w b n 7 request in
    let d = deliver tree tree_children g w p 0 in pass tree tree_children g w d n 8 pending

abbrev two : Server
two = joined (joined empty 0) 1

abbrev mine : ℕ → Session (List MessageWrapper)
mine id = record {
  session_id = id;
  outbox = wrap (connected_response (pos 0)) ∷ wrap (login_response true (pos 0) (5 ∷ [])) ∷ [];
  account = some (record { user_id = 97 ∷ [] });
  last_keep_alive = 8;
  login_window = some 7;
  login_attempts = 1;
}

two_first : nth 0 two.tasks ≡ some (looping 1 (mine 1) [])
unfolding accept begin pass deliver generate register should_block check_flood is_flood_detected
    prune sweep_if_due to_canonical is_allowlisted program greet pass_login turn run_ops on_remote
    on_login_request try_consume_login_attempt on_login_outcome login verify derive perform backing
    send send_flow authenticate set_user get insert ip_discrete bytes_discrete ℕ_discrete
two_first = refl

two_second : nth 1 two.tasks ≡ some (looping 2 (mine 2) [])
unfolding accept begin pass deliver generate register should_block check_flood is_flood_detected
    prune sweep_if_due to_canonical is_allowlisted program greet pass_login turn run_ops on_remote
    on_login_request try_consume_login_attempt on_login_outcome login verify derive perform backing
    send send_flow authenticate set_user get insert ip_discrete bytes_discrete ℕ_discrete
two_second = refl

abbrev Reached : Server → Type 0
Reached s = Reachable tree tree_children queue stores crypto (λ b w. true) 10 0 none_cancelled 0 s

joined_reaches :
    (s : Server) (n : ℕ)
    → tree.is_cancelled s.shutdown s.tokens ≡ false
    → Reached s
    → Reached (joined s n)
joined_reaches s n h r =
    next
      (next (next (next (next r (accepts (v4 1) 5 [] h)) (begins n 6)) (passes n 7 request))
        (delivers 0))
      (passes n 8 pending)

still_open : tree.is_cancelled (joined empty 0).shutdown (joined empty 0).tokens ≡ false
unfolding accept begin pass deliver generate register should_block check_flood is_flood_detected
    prune sweep_if_due to_canonical is_allowlisted program greet pass_login turn run_ops on_remote
    on_login_request try_consume_login_attempt on_login_outcome login verify derive perform backing
    send send_flow authenticate set_user get insert ip_discrete bytes_discrete ℕ_discrete
still_open = refl

two-Reached : Reached two
two-Reached = joined_reaches (joined empty 0) 1 still_open (joined_reaches empty 0 refl here)

two_begun : two.begun < u64_mod
unfolding accept begin pass deliver generate register should_block check_flood is_flood_detected
    prune sweep_if_due to_canonical is_allowlisted program greet pass_login turn run_ops on_remote
    on_login_request try_consume_login_attempt on_login_outcome login verify derive perform backing
    send send_flow authenticate set_user get insert ip_discrete bytes_discrete ℕ_discrete
two_begun = omega arith

first_session :
    session_of tree tree_children queue stores crypto (λ b w. true) 10 two 0 ≡ some (1, mine 1)
first_session = rw two_first refl

second_session :
    session_of tree tree_children queue stores crypto (λ b w. true) 10 two 1 ≡ some (2, mine 2)
second_session = rw two_second refl

login_sessions_exclusive_example :
    (tree.is_cancelled 1 two.tokens ≡ true) ⊎ (tree.is_cancelled 2 two.tokens ≡ true)
login_sessions_exclusive_example =
    login_sessions_exclusive tree tree_children queue stores crypto (λ b w. true) 10 0
      none_cancelled 0 two two-Reached two_begun 0 1 1 2 (mine 1) (mine 2) (97 ∷ []) first_session
      second_session refl refl (omega arith)

disconnect_ends_session_example :
    (let g = program tree queue 10 in
      let w = backing stores crypto (λ b w. true) in
      let s = force_disconnect tree tree_children g w two 2 in
      let p = pass tree tree_children g w s 1 9 request in
      ((disconnect tree two.registry two.tokens 2).0 ≡ true)
      × ((y : Session (List MessageWrapper)) × (nth 1 p.tasks ≡ some (ending 2 y))))
disconnect_ends_session_example =
    disconnect_ends_session tree tree_children queue stores crypto (λ b w. true) 10 0 none_cancelled
      0 two two-Reached two_begun 1 9 2 (mine 2) [] request two_second
