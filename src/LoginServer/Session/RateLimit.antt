-- ===== src/LoginServer/Session/RateLimit.antt =====
-- The limit on login attempts of crates/login_server/src/session.rs.
use rust_gameserver.Base.{
  ℕ, suc, ◌+◌, ◌-◌, ◌<◌, ◌≡◌, refl, true, List, [], ◌∷◌, min, some, arith, length, leb,
  if◌then◌else◌, All,
}
use rust_gameserver.Net.Consts.{u32_mod}
use rust_gameserver.LoginServer.Session.{
  Session, try_consume_login_attempt, login_attempts_per_window, login_attempt_window, window_over,
}

-- How many of the attempts at these times are within the limit.
pub allowed : {C : Type 0} → Session C → List ℕ → ℕ
allowed s [] = 0
allowed s (now ∷ times) =
    let r = try_consume_login_attempt now s in (if r.1 then 1 else 0) + allowed r.0 times

module _ {C : Type 0} where
  in_window :
      (s : Session C) (now start : ℕ)
      → s.login_window ≡ some start
      → now - start < login_attempt_window
      → s.login_attempts + 1 < u32_mod
      → try_consume_login_attempt now s ≡ (
        record s { login_attempts = s.login_attempts + 1 },
        leb (s.login_attempts + 1) login_attempts_per_window,
      )
  unfolding try_consume_login_attempt
  in_window s now start e w a = ground arith

  new_window :
      (s : Session C) (now : ℕ)
      → window_over s.login_window now ≡ true
      → try_consume_login_attempt now s
        ≡ (record s { login_window = some now; login_attempts = 1 }, true)
  unfolding try_consume_login_attempt
  new_window s now e = rw e

  allowed-in_window :
      (times : List ℕ) (s : Session C) (start : ℕ)
      → s.login_window ≡ some start
      → All (λ now. now - start < login_attempt_window) times
      → s.login_attempts + length times < u32_mod
      → allowed s times ≡ min (login_attempts_per_window - s.login_attempts) (length times)
  unfolding allowed
  allowed-in_window [] s start e w a = omega arith
  allowed-in_window (now ∷ times) s start e w a =
      let s' = record s { login_attempts = s.login_attempts + 1 } in
      let ih = allowed-in_window times s' start e w.1 (omega arith) in
      rw (in_window s now start e w.0 (omega arith)) (ground (arith, ih))

  -- From an attempt that opens a window, of all the attempts in the sixty seconds that follow, that
  -- one included, exactly the first five are within the limit, as long as there are fewer than 2^32
  -- of them.
  pub five_attempts_per_window :
      (s : Session C) (first : ℕ) (times : List ℕ)
      → window_over s.login_window first ≡ true
      → All (λ now. now - first < login_attempt_window) times
      → suc (length times) < u32_mod
      → allowed s (first ∷ times) ≡ min login_attempts_per_window (length (first ∷ times))
  unfolding allowed
  five_attempts_per_window s first times e w a =
      let s' = record s { login_window = some first; login_attempts = 1 } in
      rw (new_window s first e)
        (ground (arith, allowed-in_window times s' first refl w (omega arith)))
