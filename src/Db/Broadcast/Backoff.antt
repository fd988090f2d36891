-- ===== src/Db/Broadcast/Backoff.antt =====
-- The delays between the reconnects, and the messages, of crates/db/src/broadcast.rs.
use rust_gameserver.Base.{
  ℕ, suc, ◌*◌, ◌^◌, ◌≡◌, refl, false, List, [], ◌∷◌, ◌++◌, min, Bytes, All, arith, if◌then◌else◌,
  Bool-cases, inl, inr,
}
use rust_gameserver.Db.Broadcast.{
  Round, received_in, subscribe, after_round, resubscribe_delay_min, resubscribe_delay_max,
}

-- The delay after `n` failures in a row.
abbrev pub backoff : ℕ → ℕ
backoff n = min (resubscribe_delay_min * 2 ^ n) resubscribe_delay_max

-- The sleeps of a loop that is not told to stop, after `n` rounds without a subscription.
abbrev pub delays : ℕ → List Round → List ℕ
delays n [] = []
delays n (r ∷ rounds) =
    backoff (if r.subscribes then 0 else n) ∷ delays (if r.subscribes then 1 else suc n) rounds

abbrev pub all_received : List Round → List Bytes
all_received [] = []
all_received (r ∷ rounds) = received_in r ++ all_received rounds

abbrev pub RunsOn : Round → Type 0
RunsOn r = (r.stops_session ≡ false) × (r.stops_sleep ≡ false)

backoff-suc : (n : ℕ) → min (backoff n * 2) resubscribe_delay_max ≡ backoff (suc n)
backoff-suc n = omega arith

subscribe_step :
    (delay : ℕ) (r : Round) (rounds : List Round)
    → RunsOn r
    → (let slept = if r.subscribes then resubscribe_delay_min else delay in
        subscribe delay (r ∷ rounds)
        ≡ after_round
            (received_in r)
            slept
            (subscribe (min (slept * 2) resubscribe_delay_max) rounds))
unfolding subscribe
subscribe_step delay r rounds h = rw (h.0, h.1) refl

-- As long as the server does not shut down, the subscription never ends: every text that arrives is
-- passed on, in order, and a lost connection is tried again after 1, 2, 4, 8 and 16 seconds and then
-- every 30, counting from 1 second again after each connection that was made.
pub subscribe_lem :
    (rounds : List Round) (n : ℕ)
    → All RunsOn rounds
    → subscribe (backoff n) rounds
      ≡ record { received = all_received rounds; sleeps = delays n rounds; returned = false }
unfolding subscribe
subscribe_lem [] n h = refl
subscribe_lem (r ∷ rounds) n h = elim (Bool-cases r.subscribes) [
  | inl e ↦
      rw (subscribe_step (backoff n) r rounds h.0)
        (rw e (ground (arith, subscribe_lem rounds 1 h.1)))
  | inr e ↦
      rw (subscribe_step (backoff n) r rounds h.0)
        (rw (e, backoff-suc n) (ground (arith, subscribe_lem rounds (suc n) h.1)))
]
