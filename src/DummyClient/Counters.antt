-- ===== src/DummyClient/Counters.antt =====
-- The counters of crates/dummy_client/src/client.rs. An `AtomicI64` is its 64-bit pattern, and
-- `fetch_add` and `fetch_sub` wrap.
use rust_gameserver.Base.{ℕ, suc, ◌+◌, ◌-◌, ◌%◌, ◌≡◌, List, [], ◌∷◌, arith}
use rust_gameserver.Net.Consts.{u64_mod}

pub data Phase : Type 0 where
  login_server game_server : Phase

pub record Counters : Type 0 where
  pub login : ℕ
  pub game : ℕ
  pub disconnected : ℕ

abbrev pub default : Counters
default = record { login = 0; game = 0; disconnected = 0 }

abbrev add_one : ℕ → ℕ
add_one n = (n + 1) % u64_mod

abbrev sub_one : ℕ → ℕ
sub_one n = (n + (u64_mod - 1)) % u64_mod

unfoldable pub snapshot : Counters → ℕ × ℕ × ℕ
snapshot c = (c.login, c.game, c.disconnected)

unfoldable pub on_login_started : Counters → Counters
on_login_started c = record c { login = add_one c.login }

unfoldable pub on_moved_to_game : Counters → Counters
on_moved_to_game c = record c { login = sub_one c.login; game = add_one c.game }

unfoldable pub on_disconnected : Counters → Phase → Counters
on_disconnected c login_server = record c {
  login = sub_one c.login;
  disconnected = add_one c.disconnected;
}
on_disconnected c game_server = record c {
  game = sub_one c.game;
  disconnected = add_one c.disconnected;
}

-- What the clients do with the counters, in the order in which it happens.
pub data Event : Type 0 where
  login_started moved_to_game : Event
  disconnects : Phase → Event

unfoldable pub count : Counters → List Event → Counters
unfolding on_login_started on_moved_to_game on_disconnected
count c [] = c
count c (login_started ∷ es) = count (on_login_started c) es
count c (moved_to_game ∷ es) = count (on_moved_to_game c) es
count c (disconnects p ∷ es) = count (on_disconnected c p) es

abbrev pub started : List Event → ℕ
started [] = 0
started (login_started ∷ es) = suc (started es)
started (moved_to_game ∷ es) = started es
started (disconnects p ∷ es) = started es

abbrev pub total : Counters → ℕ
total c = c.login + c.game + c.disconnected

-- However the events of the clients interleave, the three counters add up to the number of clients
-- that have started, modulo 2^64: a client is never lost and never counted twice.
pub total-count :
    (c : Counters) (es : List Event)
    → total (count c es) % u64_mod ≡ (total c + started es) % u64_mod
unfolding count
total-count c [] = omega arith
total-count c (login_started ∷ es) =
    omega (arith, total-count (record c { login = add_one c.login }) es)
total-count c (moved_to_game ∷ es) =
    omega (arith, total-count (record c { login = sub_one c.login; game = add_one c.game }) es)
total-count c (disconnects login_server ∷ es) = omega (
  arith,
  total-count (record c { login = sub_one c.login; disconnected = add_one c.disconnected }) es,
)
total-count c (disconnects game_server ∷ es) = omega (
  arith,
  total-count (record c { game = sub_one c.game; disconnected = add_one c.disconnected }) es,
)
