-- ===== src/GameServer/Logout.antt =====
-- `record_logout` of crates/game_server/src/session.rs: the retry loop around the last database
-- write of a session.
use rust_gameserver.Base.{
  ℕ, zero, suc, ◌+◌, ◌*◌, ◌%◌, ◌^◌, ◌<◌, ◌≡◌, refl, Bool, true, false, List, [], ◌∷◌, ◌++◌, min,
  arith, ltb, replicate, not, ◌||◌, if◌then◌else◌,
}
use rust_gameserver.Net.Consts.{from_secs, from_millis, u32_mod}

abbrev pub logout_retry_base_delay : ℕ
logout_retry_base_delay = from_millis 500

abbrev pub logout_retry_max_delay : ℕ
logout_retry_max_delay = from_secs 30

-- `(BASE * (1 << attempt.min(10))).min(MAX)`
unfoldable pub retry_delay : ℕ → ℕ
retry_delay attempt = min (logout_retry_base_delay * (2 ^ min attempt 10)) logout_retry_max_delay

-- What the environment does in one round: whether the write fails, and whether `select!` then sees
-- the shutdown token cancelled, before the delay is over.
pub record Round : Type 0 where
  pub fails : Bool
  pub shutdown : Bool

pub data Ended : Type 0 where
  recorded stopped waiting : Ended

-- How the loop ends, the number of writes it made and the delays that it waited out. `waiting` is a
-- loop that is still running after the rounds given.
pub record Trace : Type 0 where
  pub ended : Ended
  pub calls : ℕ
  pub delays : List ℕ

abbrev after_delay : ℕ → Trace → Trace
after_delay d t = record t { calls = suc t.calls; delays = d ∷ t.delays }

-- In a build without overflow checks the counter wraps.
unfoldable pub record_logout : ℕ → List Round → Trace
record_logout attempt [] = record { ended = waiting; calls = 0; delays = [] }
record_logout attempt (r ∷ rounds) =
    let rest = record_logout ((attempt + 1) % u32_mod) rounds in
    if r.fails
    then if r.shutdown
      then record { ended = stopped; calls = 1; delays = [] }
      else after_delay (retry_delay attempt) rest
    else record { ended = recorded; calls = 1; delays = [] }

-- The delays are 0.5, 1, 2, 4, 8 and 16 seconds, and 30 seconds from the seventh on.
pub retry_delay_lem :
    (attempt : ℕ)
    → retry_delay attempt
      ≡ (if ltb attempt 6 then logout_retry_base_delay * 2 ^ attempt else logout_retry_max_delay)
unfolding retry_delay
retry_delay_lem zero = refl
retry_delay_lem (suc zero) = refl
retry_delay_lem (suc (suc zero)) = refl
retry_delay_lem (suc (suc (suc zero))) = refl
retry_delay_lem (suc (suc (suc (suc zero)))) = refl
retry_delay_lem (suc (suc (suc (suc (suc zero))))) = refl
retry_delay_lem (suc (suc (suc (suc (suc (suc zero)))))) = refl
retry_delay_lem (suc (suc (suc (suc (suc (suc (suc zero))))))) = refl
retry_delay_lem (suc (suc (suc (suc (suc (suc (suc (suc zero)))))))) = refl
retry_delay_lem (suc (suc (suc (suc (suc (suc (suc (suc (suc zero))))))))) = refl
retry_delay_lem (suc (suc (suc (suc (suc (suc (suc (suc (suc (suc n)))))))))) =
    let capped : min (suc (suc (suc (suc (suc (suc (suc (suc (suc (suc n)))))))))) 10 ≡ 10 =
      omega arith in
    rw capped (ground arith)

-- The delay doubles from one attempt to the next until it reaches thirty seconds, and stays there.
pub retry_delay_doubles :
    (attempt : ℕ) → retry_delay (suc attempt) ≡ min (2 * retry_delay attempt) logout_retry_max_delay
unfolding retry_delay
retry_delay_doubles zero = refl
retry_delay_doubles (suc zero) = refl
retry_delay_doubles (suc (suc zero)) = refl
retry_delay_doubles (suc (suc (suc zero))) = refl
retry_delay_doubles (suc (suc (suc (suc zero)))) = refl
retry_delay_doubles (suc (suc (suc (suc (suc zero))))) = refl
retry_delay_doubles (suc (suc (suc (suc (suc (suc n)))))) =
    let m = suc (suc (suc (suc (suc (suc n))))) in
    rw (retry_delay_lem (suc m), retry_delay_lem m) (ground arith)

abbrev pub failing : Round
failing = record { fails = true; shutdown = false }

-- A round after which the loop returns.
abbrev pub is_last : Round → Bool
is_last r = not r.fails || r.shutdown

-- The pause after a failed write, as the schedule has it: half a second doubled with each failure up
-- to sixteen seconds, and thirty seconds after that.
abbrev pub backoff : ℕ → ℕ
backoff attempt = if ltb attempt 6 then from_millis 500 * 2 ^ attempt else from_secs 30

abbrev pub backoffs : ℕ → ℕ → List ℕ
backoffs attempt zero = []
backoffs attempt (suc k) = backoff attempt ∷ backoffs (attempt + 1) k

-- If the write fails `k` times with no shutdown during the delays, and then either succeeds or fails
-- while the server shuts down, the loop ends with that attempt: it has written `k + 1` times, and
-- has waited, between the writes, 0.5, 1, 2, 4, 8 and 16 seconds and then 30 seconds each time
-- (counted on from `attempt`). So it never stops while it can still go on, and once it takes the
-- shutdown behind a failed write it does not write again.
pub record_logout_lem :
    (k attempt : ℕ) (r : Round) (rest : List Round)
    → attempt + k < u32_mod
    → is_last r ≡ true
    → record_logout attempt (replicate k failing ++ r ∷ rest) ≡ record {
      ended = if r.fails then stopped else recorded;
      calls = suc k;
      delays = backoffs attempt k;
    }
unfolding record_logout
record_logout_lem zero attempt r rest lt h = ground arith
record_logout_lem (suc k) attempt r rest lt h =
    let e : (attempt + 1) % u32_mod ≡ attempt + 1 = omega arith in
    rw (e, retry_delay_lem attempt)
      (ground (arith, record_logout_lem k (attempt + 1) r rest (omega arith) h))
