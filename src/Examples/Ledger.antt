-- ===== src/Examples/Ledger.antt =====
-- One stored token and two clients that bring it.
use rust_gameserver.Base.{
  ℕ, zero, suc, ◌≤◌, ◌+◌, Bytes, Option, ◌≡◌, refl, false, [], ◌∷◌, none, some, arith, ℕ_discrete,
  bytes_discrete,
}
use rust_gameserver.Base.Map.{get, insert}
use rust_gameserver.Proto.{game_connect_request}
use rust_gameserver.Redis.{Reply, done, failed}
use rust_gameserver.Text.{split_once, parse_u64, scan}
use rust_gameserver.Net.Acceptor.{
  v4, should_block, check_flood, is_flood_detected, prune, sweep_if_due, to_canonical,
  is_allowlisted, ip_discrete,
}
use rust_gameserver.Net.Outbox.{wrap, send, send_flow}
use rust_gameserver.Net.SelectLoop.{pending, received, Frame, turn}
use rust_gameserver.Net.Server.{
  here, next, accepts, begins, passes, delivers, accept, begin, pass, deliver,
}
use rust_gameserver.GameServer.Backend.{Backend}
use rust_gameserver.GameServer.Session.{
  perform, on_remote, on_game_connect_request, on_inner, on_authenticated,
}
use rust_gameserver.GameServer.Token.{Account, parse_token_value}
use rust_gameserver.GameServer.Serve.{backing, greet, pass as pass_game}
use rust_gameserver.Net.Stats.{generate}
use rust_gameserver.Net.Registry.{register, authenticate, set_user}
use rust_gameserver.Net.Registry.Exclusive.{run as run_ops}
use rust_gameserver.GameServer.Serve.Task.{program}
use rust_gameserver.GameServer.Serve.Tokens.{worth, reply_worth, Ledger}
use rust_gameserver.GameServer.Serve.Tokens.Bound.{sessions_as, tokens_bound_sessions}
use rust_gameserver.GameServer.Serve.Sessions.{Game, started, Reachable}
use rust_gameserver.Examples.Params.{queue}
use rust_gameserver.Examples.Tokens.{tree, tree_children, none_cancelled}

abbrev ann : Account
ann = record { account_id = 7; user_id = 97 ∷ [] }

-- The store is the number of tokens of account 7 that it still holds.
abbrev take : ℕ → Bytes → ℕ × Reply (Option Bytes)
take zero token = (0, done none)
take (suc b) token = (b, done (some (55 ∷ 58 ∷ 97 ∷ [])))

abbrev counted : Backend ℕ
counted = record {
  take_auth_token = take;
  save_score = λ b account_id score kill_count survive_seconds. (b, failed);
  touch_last_login = λ b account_id. (b, done tt);
}

worth_le : (o : Option Account) → worth ann o ≤ 1
worth_le none = omega arith
worth_le (some b) = ground arith

pub take_takes : (b : ℕ) (token : Bytes) → (take b token).0 + reply_worth ann (take b token).1 ≤ b
take_takes zero token = omega arith
take_takes (suc b) token = omega (arith, worth_le (parse_token_value (55 ∷ 58 ∷ 97 ∷ [])))

pub same_le : (b : ℕ) → b ≤ b
same_le b = omega arith

abbrev ledger : Ledger counted ann
ledger = record {
  copies = λ b. b;
  takes = take_takes;
  touches = λ b account_id. same_le b;
  saves = λ b account_id score kill_count survive_seconds. same_le b;
}

abbrev Server : Type 0
Server = Game tree tree_children queue counted 10

abbrev empty : Server
empty = started tree tree_children queue counted 10 0 none_cancelled 1

abbrev connect : Frame
connect = received (wrap (game_connect_request (116 ∷ [])))

-- A client connects and brings the token.
abbrev joined : Server → ℕ → Server
joined s n =
    let g = program tree queue 10 in
    let w = backing counted in
    let a = accept tree tree_children g w s (v4 1) 5 [] in
    let b = begin tree tree_children g w a n 6 in
    let p = pass tree tree_children g w b n 7 connect in
    let d = deliver tree tree_children g w p 0 in pass tree tree_children g w d n 8 pending

abbrev two : Server
two = joined (joined empty 0) 1

joined_reaches :
    (s : Server) (n : ℕ)
    → tree.is_cancelled s.shutdown s.tokens ≡ false
    → Reachable tree tree_children queue counted 10 0 none_cancelled 1 s
    → Reachable tree tree_children queue counted 10 0 none_cancelled 1 (joined s n)
joined_reaches s n h r =
    next
      (next (next (next (next r (accepts (v4 1) 5 [] h)) (begins n 6)) (passes n 7 connect))
        (delivers 0))
      (passes n 8 pending)

still_open : tree.is_cancelled (joined empty 0).shutdown (joined empty 0).tokens ≡ false
unfolding accept begin pass deliver generate register should_block check_flood is_flood_detected
    prune sweep_if_due to_canonical is_allowlisted program greet pass_game turn run_ops on_remote
    on_game_connect_request on_inner on_authenticated parse_token_value split_once parse_u64 scan
    perform backing send send_flow authenticate set_user get insert ip_discrete bytes_discrete
    ℕ_discrete
still_open = refl

one_session : sessions_as tree tree_children queue counted 10 ann ledger two.tasks ≡ 1
unfolding accept begin pass deliver generate register should_block check_flood is_flood_detected
    prune sweep_if_due to_canonical is_allowlisted program greet pass_game turn run_ops on_remote
    on_game_connect_request on_inner on_authenticated parse_token_value split_once parse_u64 scan
    perform backing send send_flow authenticate set_user get insert ip_discrete bytes_discrete
    ℕ_discrete
one_session = refl

tokens_bound_sessions_example :
    sessions_as tree tree_children queue counted 10 ann ledger two.tasks + two.backend ≤ 1
tokens_bound_sessions_example =
    tokens_bound_sessions tree tree_children queue counted 10 ann ledger 0 none_cancelled 1 two
      (joined_reaches (joined empty 0) 1 still_open (joined_reaches empty 0 refl here))
