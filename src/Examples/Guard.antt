-- ===== src/Examples/Guard.antt =====
-- The flood guard of crates/net/src/acceptor.rs at concrete inputs.
use rust_gameserver.Base.{
  ◌≤◌, ◌≡◌, refl, true, false, [], ◌∷◌, some, leb, if◌then◌else◌, replicate, arith,
}
use rust_gameserver.Net.Consts.{max_connections_per_window}
use rust_gameserver.Net.Acceptor.{
  IpAddr, v4, v6, ConnectionGuard, default, to_canonical, is_allowlisted, prune, is_flood_detected,
  should_block, check_flood, sweep_if_due,
}
use rust_gameserver.Net.Acceptor.Prune.{count_recent}
use rust_gameserver.Net.Acceptor.Bans.{run as run_guard, flood_bans_ten_minutes}
use rust_gameserver.Net.Acceptor.Verdict.{is_banned, should_block_verdict}
use rust_gameserver.Net.Acceptor.Limit.{Calls, run as run_history}
use rust_gameserver.Net.Acceptor.Loop.{accepted, failed, accept_loop, times_of, accept_loop_limit}

abbrev peer : IpAddr
peer = v4 0x0a000001

abbrev mapped : IpAddr
mapped = v6 0xffff0a000001

-- Thirty connections of the peer in the last ten seconds.
abbrev busy : ConnectionGuard
busy = record default { timestamps = λ ip. some (replicate 30 1) }

busy_blocks : (should_block busy peer 2).1 ≡ true
unfolding should_block check_flood is_flood_detected prune to_canonical is_allowlisted sweep_if_due
busy_blocks = refl

same_peer : to_canonical mapped ≡ to_canonical peer
unfolding to_canonical
same_peer = refl

flood_bans_ten_minutes_example :
    (should_block (run_guard (should_block busy peer 2).0 ((v4 7, 3) ∷ [])) mapped 4).1 ≡ true
flood_bans_ten_minutes_example =
    flood_bans_ten_minutes busy peer mapped 2 4 ((v4 7, 3) ∷ []) refl busy_blocks same_peer
      (omega arith, tt) (omega arith)

-- The peer connects twice, once in the mapped form, and a third address in between.
abbrev earlier : Calls
earlier = (peer, 5) ∷ (v4 7, 6) ∷ (mapped, 7) ∷ []

should_block_verdict_example :
    (let s = run_history (default, λ j. []) earlier in
      (should_block s.0 peer 8).1 ≡ (
        if is_allowlisted (to_canonical peer)
        then false
        else if is_banned (s.0.banned_until (to_canonical peer)) 8
        then true
        else leb max_connections_per_window (count_recent (s.1 (to_canonical peer)) 8)))
should_block_verdict_example =
    should_block_verdict earlier peer 8 (omega arith, (omega arith, (omega arith, tt)))
      (omega arith)

accept_loop_limit_example :
    count_recent
      (times_of peer
        (accept_loop (default, []) (accepted peer 5 ∷ failed ∷ accepted mapped 7 ∷ [])).1)
      8
    ≤ max_connections_per_window
accept_loop_limit_example =
    accept_loop_limit (accepted peer 5 ∷ failed ∷ accepted mapped 7 ∷ []) peer 8
      (unfold is_allowlisted in refl) (omega arith, (omega arith, tt)) (omega arith)
