-- ===== src/DummyClient/Startup/Connects.antt =====
-- Which clients crates/dummy_client/src/main.rs starts, and when it pauses.
use rust_gameserver.Base.{
  ℕ, zero, suc, ◌+◌, ◌%◌, ◌≡◌, refl, Bool, not, ◌&&◌, List, [], ◌∷◌, ltb, ◌==◌, if◌then◌else◌,
  arith, inl, inr, Bool-cases,
}
use rust_gameserver.DummyClient.Startup.{
  DummyClientConfig, Attempt, Spawned, pauses_after, connect_loop, connect_all,
}

-- The rounds from `i` on that go through: up to the first that finds the shutdown or no server.
abbrev pub rounds_through : (ℕ → Attempt) → ℕ → ℕ → ℕ
rounds_through attempt i zero = 0
rounds_through attempt i (suc left) =
    let rest = rounds_through attempt (i + 1) left in
    if not (attempt i).is_stopped && (attempt i).connects then suc rest else 0

-- `n` clients from account `i + 1` on; only account 1 can be the player.
abbrev pub clients_from : Bool → ℕ → ℕ → List Spawned
clients_from use_keyboard i zero = []
clients_from use_keyboard i (suc n) =
    record { account = i + 1; has_keyboard = (i == 0) && use_keyboard }
    ∷ clients_from use_keyboard (i + 1) n

-- The full thousands among the numbers from `i + 1` to `i + n` that are below the target.
abbrev pub thousands : ℕ → ℕ → ℕ → List ℕ
thousands max i zero = []
thousands max i (suc n) =
    let rest = thousands max (i + 1) n in
    if ((i + 1) % 1000 == 0) && ltb (i + 1) max then (i + 1) ∷ rest else rest

pauses_thousands : (max n : ℕ) → pauses_after max n ≡ ((n % 1000 == 0) && ltb n max)
pauses_thousands max n = ground arith

connect_loop_lem :
    (use_keyboard : Bool) (max : ℕ) (attempt : ℕ → Attempt) (i left : ℕ)
    → connect_loop use_keyboard max attempt i i left ≡ record {
      clients = clients_from use_keyboard i (rounds_through attempt i left);
      pauses = thousands max i (rounds_through attempt i left);
    }
unfolding connect_loop
connect_loop_lem use_keyboard max attempt i zero = refl
connect_loop_lem use_keyboard max attempt i (suc left) =
    let rest = connect_loop_lem use_keyboard max attempt (i + 1) left in
    let p = pauses_thousands max (i + 1) in
    elim (Bool-cases (attempt i).is_stopped) [
      | inl e ↦ rw (e, connect_loop, rounds_through) refl
      | inr e ↦ elim (Bool-cases (attempt i).connects) [
        | inl c ↦ rw (e, c, connect_loop, rounds_through) (rw (rest, p) refl)
        | inr c ↦ rw (e, c, connect_loop, rounds_through) refl
      ]
    ]

-- The load client starts one client for each of the accounts 1, 2, 3 and so on, in this order, until
-- the target is reached, the shutdown comes or a connection fails; only the first can be the player
-- at the keyboard. It pauses after each full thousand of connections, unless that was the last.
pub connect_all_lem :
    (use_keyboard : Bool) (cfg : DummyClientConfig) (attempt : ℕ → Attempt)
    → (let n = rounds_through attempt 0 cfg.max_client_count in
        connect_all use_keyboard cfg attempt ≡ record {
          clients = clients_from use_keyboard 0 n;
          pauses = thousands cfg.max_client_count 0 n;
        })
unfolding connect_all
connect_all_lem use_keyboard cfg attempt =
    connect_loop_lem use_keyboard cfg.max_client_count attempt 0 cfg.max_client_count
