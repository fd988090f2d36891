-- ===== src/GameServer/Serve/Logout.antt =====
-- The logout of a task as Net.Server steps through it against `record_logout` of
-- crates/game_server/src/session.rs as one loop.
use rust_gameserver.Base.{
  ℕ, ◌+◌, ◌%◌, ◌≡◌, refl, ap, ◌∙◌, if◌then◌else◌, Bool, true, false, not, List, [], ◌∷◌, some,
}
use rust_gameserver.Net.Consts.{u32_mod}
use rust_gameserver.Net.Cancellation.{Cancellation, Children}
use rust_gameserver.Net.Server.{Leaving, writing, waiting, over, leaving}
use rust_gameserver.Net.Server.Interface.{Program, Backing}
use rust_gameserver.GameServer.Logout.{
  Round, Ended, recorded, stopped, waiting as still_waiting, record_logout,
}

abbrev pub has_ended : Ended → Bool
has_ended recorded = true
has_ended stopped = true
has_ended still_waiting = false

abbrev pub is_over : {X : Type 0} → Leaving X → Bool
is_over over = true
is_over p = false

module _ {Token Store B C X W M : Type 0} (can : Cancellation Token Store) (kids : Children can)
    (prog : Program can C X W M) (backing : Backing B X W M) where
  -- Two steps of the task for each round: the write, and what `select!` takes behind it.
  unfoldable pub follow : B → Leaving X → List Round → B × Leaving X
  unfolding leaving
  follow b p [] = (b, p)
  follow b p (r ∷ rounds) =
      let (b1, p1) = leaving can kids prog backing b r.shutdown false p in
      let (b2, p2) = leaving can kids prog backing b1 r.shutdown (not r.shutdown) p1 in
      follow b2 p2 rounds

  -- The rounds say which writes fail.
  abbrev pub Agrees : (B → B × Bool) → B → List Round → Type 0
  Agrees write b [] = Unit {0}
  Agrees write b (r ∷ rounds) = ((write b).1 ≡ not r.fails) × Agrees write (write b).0 rounds

  follow_over : (b : B) (rounds : List Round) → is_over (follow b over rounds).1 ≡ true
  unfolding follow leaving
  follow_over b [] = refl
  follow_over b (r ∷ rounds) = follow_over b rounds

  follow-cons :
      (b b1 b2 : B) (p p1 p2 : Leaving X) (r : Round) (rounds : List Round)
      → leaving can kids prog backing b r.shutdown false p ≡ (b1, p1)
      → leaving can kids prog backing b1 r.shutdown (not r.shutdown) p1 ≡ (b2, p2)
      → follow b p (r ∷ rounds) ≡ follow b2 p2 rounds
  unfolding follow
  follow-cons b b1 b2 p p1 p2 r rounds e f =
      ap
        (λ q.
          let z = leaving can kids prog backing q.0 r.shutdown (not r.shutdown) q.1 in
          follow z.0 z.1 rounds)
        e
      ∙ ap (λ q. follow q.0 q.1 rounds) f

  leaving-writing :
      (b : B) (x : X) (write : B → B × Bool) (attempt : ℕ) (shutdown fires fine : Bool)
      → backing.logout x ≡ some write
      → (write b).1 ≡ fine
      → leaving can kids prog backing b shutdown fires (writing x attempt)
        ≡ ((write b).0, if fine then over else waiting x attempt)
  unfolding leaving
  leaving-writing b x write attempt shutdown fires fine e w = rw (e, w, leaving) refl

  -- One round, by what happens in it, if the rest agrees.
  round_lem :
      (b : B) (x : X) (write : B → B × Bool) (attempt : ℕ) (rounds : List Round)
      (fails shutdown : Bool)
      → backing.logout x ≡ some write
      → (write b).1 ≡ not fails
      → is_over (follow (write b).0 (writing x ((attempt + 1) % u32_mod)) rounds).1
        ≡ has_ended (record_logout ((attempt + 1) % u32_mod) rounds).ended
      → (let r : Round = record { fails = fails; shutdown = shutdown } in
          is_over (follow b (writing x attempt) (r ∷ rounds)).1
          ≡ has_ended (record_logout attempt (r ∷ rounds)).ended)
  unfolding leaving record_logout
  round_lem b x write attempt rounds false s e w rest =
      let o = (write b).0 in
      rw
        (follow-cons b o o (writing x attempt) over over (record { fails = false; shutdown = s })
          rounds (leaving-writing b x write attempt s false true e w) refl)
        (follow_over o rounds)
  round_lem b x write attempt rounds true true e w rest =
      let o = (write b).0 in
      rw
        (follow-cons b o o (writing x attempt) (waiting x attempt) over
          (record { fails = true; shutdown = true }) rounds
          (leaving-writing b x write attempt true false false e w) refl)
        (follow_over o rounds)
  round_lem b x write attempt rounds true false e w rest =
      let o = (write b).0 in
      rw
        (follow-cons b o o (writing x attempt) (waiting x attempt)
          (writing x ((attempt + 1) % u32_mod)) (record { fails = true; shutdown = false }) rounds
          (leaving-writing b x write attempt false false false e w) refl)
        rest

  -- The task is over after exactly the rounds after which the loop has ended.
  pub follow-record_logout :
      (b : B) (x : X) (write : B → B × Bool) (attempt : ℕ) (rounds : List Round)
      → backing.logout x ≡ some write
      → Agrees write b rounds
      → is_over (follow b (writing x attempt) rounds).1
        ≡ has_ended (record_logout attempt rounds).ended
  follow-record_logout b x write attempt [] e v = unfold follow record_logout in refl
  follow-record_logout b x write attempt (r ∷ rounds) e (w, v) =
      round_lem b x write attempt rounds r.fails r.shutdown e w
        (follow-record_logout (write b).0 x write ((attempt + 1) % u32_mod) rounds e v)
