-- ===== src/Net/Acceptor/Sweep.antt =====
-- The sweep of crates/net/src/acceptor.rs, which keeps the two maps from growing without bound.
use rust_gameserver.Base.{ℕ, ◌<◌, ◌≡◌, ◌≢◌, refl, true, List, [], Option, none, some, arith}
use rust_gameserver.Net.Acceptor.{
  IpAddr, ConnectionGuard, prune, or_default, keep_queue, keep_ban, is_sweep_due, sweep_if_due,
}
use rust_gameserver.Net.Acceptor.Prune.{prune-prune}

-- An entry has a connection in the flood window, and none before it at its front.
abbrev pub IsLiveQueue : Option (List ℕ) → ℕ → Type 0
IsLiveQueue none now = Unit {0}
IsLiveQueue (some q) now = (q ≢ []) × (prune q now ≡ q)

abbrev pub IsLiveBan : Option ℕ → ℕ → Type 0
IsLiveBan none now = Unit {0}
IsLiveBan (some until) now = now < until

keep_queue-IsLiveQueue : (o : Option (List ℕ)) (now : ℕ) → IsLiveQueue (keep_queue o now) now
keep_queue-IsLiveQueue none now = tt
keep_queue-IsLiveQueue (some q) now = ground (arith, prune-prune q now now)

keep_ban-IsLiveBan : (o : Option ℕ) (now : ℕ) → IsLiveBan (keep_ban o now) now
keep_ban-IsLiveBan none now = tt
keep_ban-IsLiveBan (some until) now = ground arith

keep_queue-prune :
    (o : Option (List ℕ)) (now : ℕ) → or_default (keep_queue o now) ≡ prune (or_default o) now
unfolding prune
keep_queue-prune none now = refl
keep_queue-prune (some q) now = ground arith

-- When a sweep is due, no address keeps an entry without a connection in the flood window or a ban
-- that has run out, the recent connections of every address stay, and the time of the sweep is
-- noted.
pub sweep_leaves_live :
    (g : ConnectionGuard) (now : ℕ) (j : IpAddr)
    → is_sweep_due g.last_sweep now ≡ true
    → IsLiveQueue ((sweep_if_due g now).timestamps j) now
      × IsLiveBan ((sweep_if_due g now).banned_until j) now
      × (or_default ((sweep_if_due g now).timestamps j) ≡ prune (or_default (g.timestamps j)) now)
      × ((sweep_if_due g now).last_sweep ≡ some now)
unfolding sweep_if_due
sweep_leaves_live g now j due = rw due (
  keep_queue-IsLiveQueue (g.timestamps j) now,
  keep_ban-IsLiveBan (g.banned_until j) now,
  keep_queue-prune (g.timestamps j) now,
  refl,
)
