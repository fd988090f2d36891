-- ===== src/Net/Acceptor/Verdict.antt =====
-- The verdict of the flood guard of crates/net/src/acceptor.rs by the history of its calls.
use rust_gameserver.Base.{
  ℕ, ◌≤◌, ◌≡◌, [], inl, inr, Bool, true, false, Option, none, some, Bool-cases, leb, ltb,
  if◌then◌else◌,
}
use rust_gameserver.Net.Consts.{max_connections_per_window}
use rust_gameserver.Net.Acceptor.{
  IpAddr, to_canonical, is_allowlisted, ConnectionGuard, default, check_flood, check_ban,
  should_block, update,
}
use rust_gameserver.Net.Acceptor.Prune.{count_recent}
use rust_gameserver.Net.Acceptor.History.{History, Tracks, Tracks-mono, flood-count, Tracks-bans}
use rust_gameserver.Net.Acceptor.Limit.{Calls, run, Rising, last_time, run-Tracks, default-Tracks}

abbrev pub is_banned : Option ℕ → ℕ → Bool
is_banned none now = false
is_banned (some until) now = ltb now until

check_flood-count :
    (g : ConnectionGuard) (h : History) (ip : IpAddr) (now : ℕ)
    → Tracks g h now
    → (check_flood g ip now).1 ≡ leb max_connections_per_window (count_recent (h ip) now)
unfolding check_flood
check_flood-count g h ip now v = flood-count g h ip now v

check_ban-count :
    (g : ConnectionGuard) (h : History) (ip : IpAddr) (now : ℕ) (o : Option ℕ)
    → Tracks g h now
    → (check_ban g ip now o).1
      ≡ (if is_banned o now then true else leb max_connections_per_window (count_recent (h ip) now))
check_ban-count g h ip now none v = check_flood-count g h ip now v
check_ban-count g h ip now (some until) v =
    let lifted = update g.banned_until ip none in
    elim (Bool-cases (ltb now until)) [
      | inl e ↦ rw e
      | inr e ↦ rw e (
          check_flood-count (record g { banned_until = lifted }) h ip now
            (Tracks-bans g h now lifted v))
    ]

-- A single call, by a history that the guard tracks.
should_block-count :
    (g : ConnectionGuard) (h : History) (addr : IpAddr) (now : ℕ)
    → Tracks g h now
    → (should_block g addr now).1 ≡ (
        if is_allowlisted (to_canonical addr)
        then false
        else if is_banned (g.banned_until (to_canonical addr)) now
        then true
        else leb max_connections_per_window (count_recent (h (to_canonical addr)) now))
unfolding should_block
should_block-count g h addr now v =
    let ip = to_canonical addr in
    elim (Bool-cases (is_allowlisted ip)) [
      | inl e ↦ rw e
      | inr e ↦ rw e (check_ban-count g h ip now (g.banned_until ip) v)
    ]

-- The verdict of the guard after any connections, at times that do not fall, by the history of those
-- that it let in: loopback is never blocked, a ban that has not run out always blocks, and otherwise
-- a connection is blocked exactly when 30 or more connections of its canonical address were let in
-- within the ten seconds before it.
pub should_block_verdict :
    (cs : Calls) (addr : IpAddr) (now : ℕ)
    → Rising 0 cs
    → last_time 0 cs ≤ now
    → (let s = run (default, λ j. []) cs in
        (should_block s.0 addr now).1 ≡ (
          if is_allowlisted (to_canonical addr)
          then false
          else if is_banned (s.0.banned_until (to_canonical addr)) now
          then true
          else leb max_connections_per_window (count_recent (s.1 (to_canonical addr)) now)))
should_block_verdict cs addr now r le =
    let s = run (default, λ j. []) cs in
    should_block-count s.0 s.1 addr now (
      Tracks-mono s.0 s.1 (last_time 0 cs) now le
        (run-Tracks cs default (λ j. []) 0 r default-Tracks))
