-- ===== src/Net/Acceptor/Bans.antt =====
-- Bans in crates/net/src/acceptor.rs.
use rust_gameserver.Base.{
  ℕ, ◌+◌, ◌<◌, ◌≡◌, ◌≢◌, true, false, List, [], ◌∷◌, arith, All, Option, none, some,
}
use rust_gameserver.Net.Consts.{ban_duration}
use rust_gameserver.Net.Acceptor.{
  IpAddr, to_canonical, is_allowlisted, ConnectionGuard, is_flood_detected, sweep_if_due,
  check_flood, check_ban, should_block, update, ip_discrete,
}

-- Connections in the order in which they are accepted.
pub run : ConnectionGuard → List (IpAddr × ℕ) → ConnectionGuard
run g [] = g
run g ((ip, now) ∷ cs) = run (should_block g ip now).0 cs

flood-banned_until :
    (g : ConnectionGuard) (ip j : IpAddr) (now : ℕ)
    → (is_flood_detected g ip now).0.banned_until j ≡ g.banned_until j
unfolding is_flood_detected
flood-banned_until g ip j now = ground arith

sweep_keeps :
    (g : ConnectionGuard) (j : IpAddr) (now until : ℕ)
    → now < until
    → g.banned_until j ≡ some until
    → (sweep_if_due g now).banned_until j ≡ some until
unfolding sweep_if_due
sweep_keeps g j now until h e = ground arith

check_flood_keeps :
    (g : ConnectionGuard) (ip j : IpAddr) (now until : ℕ)
    → ip ≢ j
    → now < until
    → g.banned_until j ≡ some until
    → (check_flood g ip now).0.banned_until j ≡ some until
unfolding check_flood
check_flood_keeps g ip j now until ne h e =
    let g' = (is_flood_detected g ip now).0 in
    ground (arith, flood-banned_until g ip j now, sweep_keeps g' j now until)

check_flood_bans :
    (g : ConnectionGuard) (ip : IpAddr) (now : ℕ)
    → (check_flood g ip now).1 ≡ true
    → (check_flood g ip now).0.banned_until ip ≡ some (now + ban_duration)
unfolding check_flood
check_flood_bans g ip now h = ground arith

check_ban_keeps :
    (g : ConnectionGuard) (ip j : IpAddr) (now until : ℕ) (o : Option ℕ)
    → ip ≢ j
    → now < until
    → g.banned_until j ≡ some until
    → (check_ban g ip now o).0.banned_until j ≡ some until
check_ban_keeps g ip j now until none ne h e = check_flood_keeps g ip j now until ne h e
check_ban_keeps g ip j now until (some u) ne h e =
    let lifted = record g { banned_until = update g.banned_until ip none } in
    let same : lifted.banned_until j ≡ some until = ground arith in
    ground (arith, check_flood_keeps lifted ip j now until ne h)

check_ban_holds :
    (g : ConnectionGuard) (ip : IpAddr) (now until : ℕ)
    → now < until
    → check_ban g ip now (some until) ≡ (g, true)
check_ban_holds g ip now until h = ground arith

-- A connection from any address leaves a ban that has not run out as it is.
pub should_block_keeps :
    (g : ConnectionGuard) (addr j : IpAddr) (now until : ℕ)
    → now < until
    → g.banned_until j ≡ some until
    → (should_block g addr now).0.banned_until j ≡ some until
unfolding should_block
should_block_keeps g addr j now until h e =
    let ip = to_canonical addr in
    elim (ip_discrete ip j) [
      | yes p ↦ rw p (rw e (ground arith))
      | no ne ↦ ground (arith, check_ban_keeps g ip j now until (g.banned_until ip) ne h e)
    ]

run_keeps :
    (cs : List (IpAddr × ℕ)) (g : ConnectionGuard) (j : IpAddr) (until : ℕ)
    → All (λ c. c.1 < until) cs
    → g.banned_until j ≡ some until
    → (run g cs).banned_until j ≡ some until
unfolding run
run_keeps [] g j until h e = e
run_keeps ((ip, now) ∷ cs) g j until h e =
    run_keeps cs (should_block g ip now).0 j until h.1 (should_block_keeps g ip j now until h.0 e)

should_block_banned :
    (g : ConnectionGuard) (addr : IpAddr) (now until : ℕ)
    → is_allowlisted (to_canonical addr) ≡ false
    → g.banned_until (to_canonical addr) ≡ some until
    → now < until
    → (should_block g addr now).1 ≡ true
unfolding should_block
should_block_banned g addr now until a e h = rw (a, e) (ground arith)

should_block_bans :
    (g : ConnectionGuard) (addr : IpAddr) (now : ℕ)
    → g.banned_until (to_canonical addr) ≡ none
    → (should_block g addr now).1 ≡ true
    → (is_allowlisted (to_canonical addr) ≡ false)
      × ((should_block g addr now).0.banned_until (to_canonical addr) ≡ some (now + ban_duration))
unfolding should_block
should_block_bans g addr now e h =
    (ground arith, ground (arith, check_flood_bans g (to_canonical addr) now))

-- A flood bans its address for ten minutes: once a connection from an address without a ban is
-- blocked, every connection from the same address, in whichever form it is written, is blocked
-- before ten minutes have passed, whatever other connections are made in that time.
pub flood_bans_ten_minutes :
    (g : ConnectionGuard) (addr again : IpAddr) (now later : ℕ) (cs : List (IpAddr × ℕ))
    → g.banned_until (to_canonical addr) ≡ none
    → (should_block g addr now).1 ≡ true
    → to_canonical again ≡ to_canonical addr
    → All (λ c. c.1 < now + ban_duration) cs
    → later < now + ban_duration
    → (should_block (run (should_block g addr now).0 cs) again later).1 ≡ true
flood_bans_ten_minutes g addr again now later cs e h same before soon =
    let (a, b) = should_block_bans g addr now e h in
    let kept =
      run_keeps cs (should_block g addr now).0 (to_canonical addr) (now + ban_duration) before b in
    should_block_banned (run (should_block g addr now).0 cs) again later (now + ban_duration)
      (rw same a) (rw same kept) soon
