-- ===== src/Net/Acceptor.antt =====
-- crates/net/src/acceptor.rs: the flood guard of the accept loop. The two hash maps are functions;
-- an `Instant` is a number of nanoseconds, and `duration_since` stops at zero, as `-` does.
pub mod Prune
pub mod Bans
pub mod History
pub mod Verdict
pub mod Limit
pub mod Sweep
pub mod Loop
use rust_gameserver.Base.{
  ℕ, ◌+◌, ◌-◌, ◌*◌, ◌/◌, ◌%◌, ◌^◌, ◌≡◌, Bool, true, false, ◌||◌, not, List, [], ◌∷◌, ◌++◌, Option,
  none, some, ite, length, is_empty, ltb, leb, ◌==◌, if◌then◌else◌, ℕ_discrete,
}
use rust_gameserver.Net.Consts.{from_secs, flood_window, max_connections_per_window, ban_duration}

-- The addresses as the numbers that they spell: 32 and 128 bits.
pub data IpAddr : Type 0 where
  v4 : ℕ → IpAddr
  v6 : ℕ → IpAddr

unfoldable pub ip_discrete : Discrete IpAddr
ip_discrete = hlevel ℕ_discrete

-- `IpAddr::to_canonical` of the standard library: `::ffff:a.b.c.d` is `a.b.c.d`.
unfoldable pub to_canonical : IpAddr → IpAddr
to_canonical (v4 a) = v4 a
to_canonical (v6 a) = if a / 2 ^ 32 == 0xffff then v4 (a % 2 ^ 32) else v6 a

abbrev localhost_v4 : ℕ
localhost_v4 = 0x7f000001

abbrev localhost_v6 : ℕ
localhost_v6 = 1

unfoldable pub is_allowlisted : IpAddr → Bool
is_allowlisted (v4 a) = a == localhost_v4
is_allowlisted (v6 a) = a == localhost_v6

abbrev pub sweep_interval : ℕ
sweep_interval = from_secs 60

pub record ConnectionGuard : Type 0 where
  pub timestamps : IpAddr → Option (List ℕ)
  pub banned_until : IpAddr → Option ℕ
  pub last_sweep : Option ℕ

abbrev pub default : ConnectionGuard
default = record { timestamps = λ ip. none; banned_until = λ ip. none; last_sweep = none }

-- `insert` (`some`) and `remove` (`none`) on a map.
abbrev pub update : {V : Type 0} → (IpAddr → Option V) → IpAddr → Option V → IpAddr → Option V
update m ip o j = ite (ip_discrete ip j) o (m j)

-- The front of the queue is the head of the list.
unfoldable pub prune : List ℕ → ℕ → List ℕ
prune [] now = []
prune (t ∷ queue) now =
    let rest = prune queue now in if ltb flood_window (now - t) then rest else t ∷ queue

abbrev pub or_default : Option (List ℕ) → List ℕ
or_default none = []
or_default (some q) = q

unfoldable pub is_flood_detected : ConnectionGuard → IpAddr → ℕ → ConnectionGuard × Bool
is_flood_detected g ip now =
    let queue = prune (or_default (g.timestamps ip)) now in
    if leb max_connections_per_window (length queue)
    then (record g { timestamps = update g.timestamps ip (some queue) }, true)
    else (record g { timestamps = update g.timestamps ip (some (queue ++ now ∷ [])) }, false)

abbrev is_sweep_due : Option ℕ → ℕ → Bool
is_sweep_due none now = true
is_sweep_due (some last) now = not (ltb (now - last) sweep_interval)

abbrev keep_queue : Option (List ℕ) → ℕ → Option (List ℕ)
keep_queue none now = none
keep_queue (some queue) now =
    let rest = prune queue now in if not (is_empty rest) then some rest else none

abbrev keep_ban : Option ℕ → ℕ → Option ℕ
keep_ban none now = none
keep_ban (some until) now = if ltb now until then some until else none

unfoldable pub sweep_if_due : ConnectionGuard → ℕ → ConnectionGuard
sweep_if_due g now =
    if is_sweep_due g.last_sweep now
    then record {
      timestamps = λ ip. keep_queue (g.timestamps ip) now;
      banned_until = λ ip. keep_ban (g.banned_until ip) now;
      last_sweep = some now;
    }
    else g

-- The part of `should_block` behind the test of the ban.
unfoldable pub check_flood : ConnectionGuard → IpAddr → ℕ → ConnectionGuard × Bool
check_flood g ip now =
    let (g', flooded) = is_flood_detected g ip now in
    let swept = sweep_if_due g' now in
    (
      if flooded
          then record swept {
            banned_until = update swept.banned_until ip (some (now + ban_duration));
          }
          else swept,
      flooded,
    )

abbrev check_ban : ConnectionGuard → IpAddr → ℕ → Option ℕ → ConnectionGuard × Bool
check_ban g ip now none = check_flood g ip now
check_ban g ip now (some until) =
    if ltb now until
    then (g, true)
    else check_flood (record g { banned_until = update g.banned_until ip none }) ip now

unfoldable pub should_block : ConnectionGuard → IpAddr → ℕ → ConnectionGuard × Bool
should_block g addr now =
    let ip = to_canonical addr in
    if is_allowlisted ip then (g, false) else check_ban g ip now (g.banned_until ip)
