-- ===== src/Db/Broadcast.antt =====
-- crates/db/src/broadcast.rs: the subscription to the notice channel, with its reconnects.
pub mod Backoff
use rust_gameserver.Base.{
  ℕ, suc, ◌*◌, ◌^◌, Bool, true, false, List, [], ◌∷◌, ◌++◌, min, Option, none, some, Bytes,
  if◌then◌else◌,
}
use rust_gameserver.Net.Consts.{from_secs}

abbrev pub resubscribe_delay_min : ℕ
resubscribe_delay_min = from_secs 1

abbrev pub resubscribe_delay_max : ℕ
resubscribe_delay_max = from_secs 30

-- What the environment does in one round: whether the subscription succeeds, what then arrives (a
-- message whose payload is no text is `none`), and whether the shutdown token is cancelled before
-- the subscription or the sleep is over. Without a subscription nothing arrives.
pub record Round : Type 0 where
  pub subscribes : Bool
  pub arrives : List (Option Bytes)
  pub stops_session : Bool
  pub stops_sleep : Bool

abbrev pub texts : List (Option Bytes) → List Bytes
texts [] = []
texts (none ∷ ms) = texts ms
texts (some m ∷ ms) = m ∷ texts ms

abbrev pub received_in : Round → List Bytes
received_in r = if r.subscribes then texts r.arrives else []

-- What `on_received` was given, the sleeps that were begun, and whether the loop has returned.
pub record Trace : Type 0 where
  pub received : List Bytes
  pub sleeps : List ℕ
  pub returned : Bool

abbrev after_round : List Bytes → ℕ → Trace → Trace
after_round ms d t = record t { received = ms ++ t.received; sleeps = d ∷ t.sleeps }

unfoldable pub subscribe : ℕ → List Round → Trace
subscribe delay [] = record { received = []; sleeps = []; returned = false }
subscribe delay (r ∷ rounds) =
    let slept = if r.subscribes then resubscribe_delay_min else delay in
    let rest = subscribe (min (slept * 2) resubscribe_delay_max) rounds in
    if r.stops_session
    then record { received = received_in r; sleeps = []; returned = true }
    else if r.stops_sleep
    then record { received = received_in r; sleeps = slept ∷ []; returned = true }
    else after_round (received_in r) slept rest
