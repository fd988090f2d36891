-- ===== src/Net/Registry/Takeover.antt =====
-- A session that stands for a user, over what other tasks do to crates/net/src/registry.rs.
use rust_gameserver.Base.{
  ℕ, ◌≡◌, ◌≢◌, refl, ◌⊎◌, inl, inr, true, List, [], ◌∷◌, ◌++◌, All, some, Bytes, bytes_discrete,
  arith,
}
use rust_gameserver.Net.Cancellation.{Cancellation}
use rust_gameserver.Net.Registry.{Registry, Entry, register}
use rust_gameserver.Net.Registry.Lookup.{
  session, holder, session-register, session-remove, holder-remove,
}
use rust_gameserver.Net.Registry.Tokens.{authenticate_keeps}
use rust_gameserver.Net.Registry.Exclusive.{
  Op, registers, removes, authenticates, disconnects, step, run, session-authenticate,
  holder-authenticate, authenticate_kicks, disconnect_stays,
}

-- An operation that another task than that of session `id` may do: each task registers, removes and
-- logs in its own session only; the admin API disconnects any.
abbrev pub IsForeign : {Token : Type 0} → ℕ → Op Token → Type 0
IsForeign id (registers j k) = j ≢ id
IsForeign id (removes j) = j ≢ id
IsForeign id (authenticates j u) = j ≢ id
IsForeign id (disconnects j) = Unit {0}

module _ {Token Store : Type 0} (c : Cancellation Token Store) (id : ℕ) (u : Bytes)
    (kick : Token) where
  abbrev IsEnding : Registry Token × Store → Type 0
  IsEnding s = c.is_cancelled kick s.1 ≡ true

  -- The session is registered with its kick token, and stands for the user or has been told to end.
  abbrev pub IsStanding : Registry Token × Store → Type 0
  IsStanding s =
      ((e : Entry Token) × (session s.0 id ≡ some e) × (e.kick ≡ kick))
      × ((holder s.0 u ≡ some id) ⊎ IsEnding s)

  step_ends : (s : Registry Token × Store) (o : Op Token) → IsEnding s → IsEnding (step c s o)
  unfolding step
  step_ends (r, st) (registers j k) h = h
  step_ends (r, st) (removes j) h = h
  step_ends (r, st) (authenticates j v) h =
      authenticate_keeps c (λ o. c.is_cancelled kick o ≡ true) (λ t o. c.stays_cancelled kick t o) r
        st j v h
  step_ends (r, st) (disconnects j) h = disconnect_stays c r st j kick h

  run_ends :
      (s : Registry Token × Store) (os : List (Op Token)) → IsEnding s → IsEnding (run c s os)
  unfolding run
  run_ends s [] h = h
  run_ends s (o ∷ os) h = run_ends (step c s o) os (step_ends s o h)

  registered_step :
      (s : Registry Token × Store) (o : Op Token) (e : Entry Token)
      → IsForeign id o
      → session s.0 id ≡ some e
      → session (step c s o).0 id ≡ some e
  unfolding step
  registered_step (r, st) (registers j k) e f h = ground (arith, session-register r j id k)
  registered_step (r, st) (removes j) e f h = ground (arith, session-remove r j id)
  registered_step (r, st) (authenticates j v) e f h =
      ground (arith, session-authenticate c r st j id v)
  registered_step (r, st) (disconnects j) e f h = h

  -- Another session that logs in as the user ends this one.
  login_ends :
      (s : Registry Token × Store) (j : ℕ)
      → j ≢ id
      → IsStanding s
      → IsEnding (step c s (authenticates j u))
  unfolding step
  login_ends (r, st) j ne ((e, h, k), inl own) =
      rw k at (authenticate_kicks c r st j id u e own h ne)
  login_ends (r, st) j ne (v, inr ends) = step_ends (r, st) (authenticates j u) ends

  standing_step :
      (s : Registry Token × Store) (o : Op Token)
      → IsForeign id o
      → holder s.0 u ≡ some id
      → (holder (step c s o).0 u ≡ some id) ⊎ ((j : ℕ) × (o ≡ authenticates j u) × (j ≢ id))
  unfolding step
  standing_step (r, st) (registers j k) f h = inl (unfold register in h)
  standing_step (r, st) (removes j) f h = ground (arith, holder-remove r j u)
  standing_step (r, st) (authenticates j v) f h = elim (bytes_discrete v u) [
    | yes e ↦ inr (j, rw e refl, f)
    | no n ↦ inl (ground (arith, holder-authenticate c r st j v u))
  ]
  standing_step (r, st) (disconnects j) f h = inl h

  step-IsStanding :
      (s : Registry Token × Store) (o : Op Token)
      → IsForeign id o
      → IsStanding s
      → IsStanding (step c s o)
  step-IsStanding s o f ((e, h, k), inr ends) =
      ((e, registered_step s o e f h, k), inr (step_ends s o ends))
  step-IsStanding s o f ((e, h, k), inl own) = (
    (e, registered_step s o e f h, k),
    elim (standing_step s o f own) [
      | inl still ↦ inl still
      | inr (j, same, ne) ↦ inr (rw same (login_ends s j ne ((e, h, k), inl own)))
    ],
  )

  -- Whatever other tasks have done in between, a login of another session as the user ends this one.
  pub run_takeover :
      (s : Registry Token × Store) (before after : List (Op Token)) (j : ℕ)
      → IsStanding s
      → All (IsForeign id) before
      → j ≢ id
      → IsEnding (run c s (before ++ authenticates j u ∷ after))
  unfolding run
  run_takeover s [] after j v f ne =
      run_ends (step c s (authenticates j u)) after (login_ends s j ne v)
  run_takeover s (o ∷ os) after j v f ne =
      run_takeover (step c s o) os after j (step-IsStanding s o f.0 v) f.1 ne
