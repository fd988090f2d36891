-- ===== src/Net/Acceptor/Loop.antt =====
-- The accept loop, `run` of crates/net/src/acceptor.rs, and what it hands on.
use rust_gameserver.Base.{
  ℕ, ◌≤◌, ◌≡◌, refl, Bool, true, false, List, [], ◌∷◌, ◌++◌, ite, arith, if◌then◌else◌,
}
use rust_gameserver.Net.Consts.{max_connections_per_window}
use rust_gameserver.Net.Acceptor.{
  IpAddr, ip_discrete, ConnectionGuard, default, should_block, to_canonical, is_allowlisted,
}
use rust_gameserver.Net.Acceptor.Prune.{count_recent}
use rust_gameserver.Net.Acceptor.History.{History, record_call}
use rust_gameserver.Net.Acceptor.Limit.{run, Calls, Rising, last_time, at_most_thirty_per_window}

-- What `accept` brings; the list ends when the server shuts down. After a failure the loop sleeps.
pub data Accept : Type 0 where
  accepted : (addr : IpAddr) (now : ℕ) → Accept
  failed : Accept

-- The guard and the connections that `on_accepted` was given, oldest first.
unfoldable pub accept_loop : ConnectionGuard × Calls → List Accept → ConnectionGuard × Calls
accept_loop s [] = s
accept_loop (g, handed) (failed ∷ es) = accept_loop (g, handed) es
accept_loop (g, handed) (accepted addr now ∷ es) =
    let (g', blocked) = should_block g addr now in
    accept_loop (g', if blocked then handed else handed ++ (addr, now) ∷ []) es

abbrev pub calls : List Accept → Calls
calls [] = []
calls (failed ∷ es) = calls es
calls (accepted addr now ∷ es) = (addr, now) ∷ calls es

-- The times of the connections of an address.
abbrev pub times_of : IpAddr → Calls → List ℕ
times_of ip [] = []
times_of ip ((addr, now) ∷ cs) =
    ite (ip_discrete (to_canonical addr) ip) (now ∷ times_of ip cs) (times_of ip cs)

times_of-append :
    (ip : IpAddr) (cs : Calls) (addr : IpAddr) (now : ℕ)
    → times_of ip (cs ++ (addr, now) ∷ [])
      ≡ ite (ip_discrete (to_canonical addr) ip) (times_of ip cs ++ now ∷ []) (times_of ip cs)
times_of-append ip [] addr now = ground arith
times_of-append ip ((a, t) ∷ cs) addr now = ground (arith, times_of-append ip cs addr now)

record_call-times :
    (h : History) (handed : Calls) (addr ip : IpAddr) (now : ℕ) (blocked : Bool)
    → is_allowlisted ip ≡ false
    → times_of ip handed ≡ h ip
    → times_of ip (if blocked then handed else handed ++ (addr, now) ∷ [])
      ≡ record_call h addr now blocked ip
record_call-times h handed addr ip now true a e = ground arith
record_call-times h handed addr ip now false a e =
    ground (arith, times_of-append ip handed addr now)

accept_loop-run :
    (es : List Accept) (g : ConnectionGuard) (h : History) (handed : Calls) (ip : IpAddr)
    → is_allowlisted ip ≡ false
    → times_of ip handed ≡ h ip
    → times_of ip (accept_loop (g, handed) es).1 ≡ (run (g, h) (calls es)).1 ip
unfolding accept_loop run
accept_loop-run [] g h handed ip a e = e
accept_loop-run (failed ∷ es) g h handed ip a e = accept_loop-run es g h handed ip a e
accept_loop-run (accepted addr now ∷ es) g h handed ip a e =
    let r = should_block g addr now in
    accept_loop-run es r.0 (record_call h addr now r.1)
      (if r.1 then handed else handed ++ (addr, now) ∷ []) ip a
      (record_call-times h handed addr ip now r.1 a e)

-- Whatever connections arrive, at times that do not fall, the accept loop hands on at most 30
-- connections of one address (other than loopback) within ten seconds, the IPv4 and the mapped IPv6
-- form of an address counted together.
pub accept_loop_limit :
    (es : List Accept) (ip : IpAddr) (now : ℕ)
    → is_allowlisted ip ≡ false
    → Rising 0 (calls es)
    → last_time 0 (calls es) ≤ now
    → count_recent (times_of ip (accept_loop (default, []) es).1) now ≤ max_connections_per_window
accept_loop_limit es ip now a r le =
    rw (accept_loop-run es default (λ j. []) [] ip a refl)
      (at_most_thirty_per_window (calls es) ip now r le)
