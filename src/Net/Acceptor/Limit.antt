-- ===== src/Net/Acceptor/Limit.antt =====
-- Whole runs of the guard of crates/net/src/acceptor.rs.
use rust_gameserver.Base.{ℕ, ◌≤◌, refl, ap, List, [], ◌∷◌, arith, length}
use rust_gameserver.Net.Consts.{max_connections_per_window}
use rust_gameserver.Net.Acceptor.{IpAddr, ConnectionGuard, default, should_block, prune}
use rust_gameserver.Net.Acceptor.Prune.{count_recent, length-prune-le, length-prune}
use rust_gameserver.Net.Acceptor.History.{
  History, Tracks, Tracks-mono, record_call, should_block-Tracks, queue_of,
}

-- The accept loop over the connections in order, with the history that it makes.
abbrev pub Calls : Type 0
Calls = List (IpAddr × ℕ)

unfoldable pub run : ConnectionGuard × History → Calls → ConnectionGuard × History
run s [] = s
run (g, h) ((addr, now) ∷ cs) =
    run ((should_block g addr now).0, record_call h addr now (should_block g addr now).1) cs

-- The clock does not go back: the times do not fall, from `t` on.
abbrev pub Rising : ℕ → Calls → Type 0
Rising t [] = Unit {0}
Rising t ((addr, now) ∷ cs) = (t ≤ now) × Rising now cs

abbrev pub last_time : ℕ → Calls → ℕ
last_time t [] = t
last_time t ((addr, now) ∷ cs) = last_time now cs

pub run-Tracks :
    (cs : Calls) (g : ConnectionGuard) (h : History) (t : ℕ)
    → Rising t cs
    → Tracks g h t
    → Tracks (run (g, h) cs).0 (run (g, h) cs).1 (last_time t cs)
unfolding run
run-Tracks [] g h t r v = v
run-Tracks ((addr, now) ∷ cs) g h t r v =
    run-Tracks cs (should_block g addr now).0 (record_call h addr now (should_block g addr now).1)
      now r.1 (should_block-Tracks g h addr now (Tracks-mono g h t now r.0 v))

pub default-Tracks : Tracks default (λ j. []) 0
unfolding prune
default-Tracks = record {
  same = λ j now le. refl;
  past = λ j. record { ordered = tt; before = tt };
  bounded = λ j. omega arith;
}

-- Whatever connections are made, at times that do not fall, the guard never lets in more than 30
-- connections of one address (other than loopback) within ten seconds.
pub at_most_thirty_per_window :
    (cs : Calls) (ip : IpAddr) (now : ℕ)
    → Rising 0 cs
    → last_time 0 cs ≤ now
    → count_recent ((run (default, λ j. []) cs).1 ip) now ≤ max_connections_per_window
at_most_thirty_per_window cs ip now r le =
    let v = run-Tracks cs default (λ j. []) 0 r default-Tracks in
    let g = (run (default, λ j. []) cs).0 in
    let h = (run (default, λ j. []) cs).1 in
    omega (
      arith,
      length-prune (h ip) now (v.past ip).ordered,
      ap length (v.same ip now le),
      length-prune-le (queue_of g ip) now,
      v.bounded ip,
    )
