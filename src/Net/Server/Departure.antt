-- ===== src/Net/Server/Departure.antt =====
-- The end of `session::run` (crates/game_server/src/session.rs, crates/login_server/src/session.rs)
-- behind the registry: the writer, and the logout with its repeats.
use rust_gameserver.Base.{
  ℕ, ◌≡◌, ◌≢◌, refl, ◌⊎◌, inl, inr, Bool, true, false, Option, none, some, Bool-cases, Option-cases,
  arith,
}
use rust_gameserver.Net.Cancellation.{Cancellation, Children}
use rust_gameserver.Net.Server.{
  Task, Leaving, spawned, looping, ending, left, closing, writing, waiting, over, State, nth,
  leaving, leave_with,
}
use rust_gameserver.Net.Server.Interface.{Program, Backing}
use rust_gameserver.Net.Server.Roster.{IsMirrored-same}
use rust_gameserver.Net.Server.Steps.{nth-set, IsWell, roster}

module _ {Token Store B C X W M : Type 0} (can : Cancellation Token Store) (kids : Children can)
    (prog : Program can C X W M) (backing : Backing B X W M) where
  abbrev S : Type 0
  S = State can kids prog backing

  pub leave_with-IsWell :
      (s : S) (n : ℕ) (fires : Bool) (o : Option (Task Token C X M))
      → nth n s.tasks ≡ o
      → IsWell can kids prog backing s
      → IsWell can kids prog backing (leave_with can kids prog backing s n fires o)
  leave_with-IsWell s n fires none h v = v
  leave_with-IsWell s n fires (some (spawned c)) h v = v
  leave_with-IsWell s n fires (some (looping k x inbox)) h v = v
  leave_with-IsWell s n fires (some (ending k x)) h v = v
  leave_with-IsWell s n fires (some (left p)) h v =
      let q =
        (leaving can kids prog backing s.backend (can.is_cancelled s.shutdown s.tokens) fires
          p).1 in
      (
        v.0,
        IsMirrored-same can kids prog s.shutdown s.begun (roster can kids prog backing s) _
            s.registry s.tokens (λ m. ground (arith, nth-set m n (left q) (left p) s.tasks h)) v.1,
      )

  -- There is no task, or one behind the registry of which `P` holds.
  abbrev pub IsLeft : (Leaving X → Type 0) → Option (Task Token C X M) → Type 0
  IsLeft P o = (o ≡ none) ⊎ ((p : Leaving X) × (o ≡ some (left p)) × P p)

  pub leave-IsLeft :
      (P Q : Leaving X → Type 0) (s : S) (n : ℕ) (fires : Bool) (o : Option (Task Token C X M))
      → ((b : B) (p : Leaving X)
          → P p
          → Q (leaving can kids prog backing b (can.is_cancelled s.shutdown s.tokens) fires p).1)
      → nth n s.tasks ≡ o
      → IsLeft P o
      → IsLeft Q (nth n (leave_with can kids prog backing s n fires o).tasks)
  leave-IsLeft P Q s n fires o step h (inl e) = rw e (inl (rw e at h))
  leave-IsLeft P Q s n fires o step h (inr (p, e, v)) = rw e (
      let q =
        (leaving can kids prog backing s.backend (can.is_cancelled s.shutdown s.tokens) fires
          p).1 in
      inr
        (q, ground (arith, nth-set n n (left q) (left p) s.tasks (rw e at h)), step s.backend p v))

  pub leave-other :
      (s : S) (n m : ℕ) (fires : Bool) (o : Option (Task Token C X M))
      → nth n s.tasks ≡ o
      → n ≢ m
      → nth m (leave_with can kids prog backing s n fires o).tasks ≡ nth m s.tasks
  leave-other s n m fires none h ne = refl
  leave-other s n m fires (some (spawned c)) h ne = refl
  leave-other s n m fires (some (looping k x i)) h ne = refl
  leave-other s n m fires (some (ending k x)) h ne = refl
  leave-other s n m fires (some (left p)) h ne =
      let q =
        (leaving can kids prog backing s.backend (can.is_cancelled s.shutdown s.tokens) fires
          p).1 in
      ground (arith, nth-set m n (left q) (left p) s.tasks h)

  pub leave-still :
      (s : S) (n : ℕ) (fires : Bool) (o : Option (Task Token C X M))
      → (let t = leave_with can kids prog backing s n fires o in
          (t.tokens ≡ s.tokens) × (t.shutdown ≡ s.shutdown) × (t.begun ≡ s.begun))
  leave-still s n fires none = (refl, refl, refl)
  leave-still s n fires (some (spawned c)) = (refl, refl, refl)
  leave-still s n fires (some (looping k x i)) = (refl, refl, refl)
  leave-still s n fires (some (ending k x)) = (refl, refl, refl)
  leave-still s n fires (some (left p)) = (refl, refl, refl)

  -- The writer has been closed.
  abbrev pub IsClosed : Leaving X → Type 0
  IsClosed (closing x) = ⊥
  IsClosed p = Unit {0}

  -- And no write is under way.
  abbrev pub IsIdle : Leaving X → Type 0
  IsIdle (closing x) = ⊥
  IsIdle (writing x a) = ⊥
  IsIdle p = Unit {0}

  pub leaving-IsClosed :
      (b : B) (stopped fires : Bool) (p : Leaving X)
      → IsClosed (leaving can kids prog backing b stopped fires p).1
  unfolding leaving
  leaving-IsClosed b stopped fires (closing x) = elim (Option-cases (backing.logout x)) [
    | inl e ↦ rw (e, IsClosed) tt
    | inr (w, e) ↦ rw (e, IsClosed) tt
  ]
  leaving-IsClosed b stopped fires (writing x a) = elim (Option-cases (backing.logout x)) [
    | inl e ↦ rw (e, IsClosed) tt
    | inr (w, e) ↦
        rw (e, IsClosed)
          (elim (Bool-cases (w b).1) [ inl f ↦ rw (f, IsClosed) tt | inr f ↦ rw (f, IsClosed) tt ])
  ]
  leaving-IsClosed b stopped true (waiting x a) = tt
  leaving-IsClosed b true false (waiting x a) = tt
  leaving-IsClosed b false false (waiting x a) = tt
  leaving-IsClosed b stopped fires over = tt

  -- Without a delay that runs out no further write begins.
  pub leaving-IsIdle :
      (b : B) (stopped : Bool) (p : Leaving X)
      → IsClosed p
      → IsIdle (leaving can kids prog backing b stopped false p).1
  unfolding leaving
  leaving-IsIdle b stopped (closing x) v = absurd v
  leaving-IsIdle b stopped (writing x a) v = elim (Option-cases (backing.logout x)) [
    | inl e ↦ rw (e, IsIdle) tt
    | inr (w, e) ↦
        rw (e, IsIdle)
          (elim (Bool-cases (w b).1) [ inl f ↦ rw (f, IsIdle) tt | inr f ↦ rw (f, IsIdle) tt ])
  ]
  leaving-IsIdle b true (waiting x a) v = tt
  leaving-IsIdle b false (waiting x a) v = tt
  leaving-IsIdle b stopped over v = tt

  -- A shutdown ends the wait between two writes.
  pub leaving_over :
      (b : B) (p : Leaving X) → IsIdle p → (leaving can kids prog backing b true false p).1 ≡ over
  unfolding leaving
  leaving_over b (closing x) v = absurd v
  leaving_over b (writing x a) v = absurd v
  leaving_over b (waiting x a) v = refl
  leaving_over b over v = refl
