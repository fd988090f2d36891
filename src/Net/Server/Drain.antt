-- ===== src/Net/Server/Drain.antt =====
-- The end of `serve` (crates/game_server/src/lib.rs, crates/login_server/src/lib.rs): after `shutdown`
-- is cancelled.
use rust_gameserver.Base.{
  ℕ, ◌+◌, ◌<◌, ◌≤◌, ◌≡◌, ◌≢◌, refl, ◌∙◌, inl, inr, true, List, [], Option, none, some, Bytes, arith,
}
use rust_gameserver.Net.Cancellation.{Cancellation, Children}
use rust_gameserver.Net.Consts.{u64_mod}
use rust_gameserver.Net.Outbox.{ControlFlow, continue, break}
use rust_gameserver.Net.Registry.{Registry}
use rust_gameserver.Net.Registry.Exclusive.{Op}
use rust_gameserver.Net.Registry.Tokens.{authenticate_keeps}
use rust_gameserver.Net.SelectLoop.{Frame, Poll}
use rust_gameserver.Net.Server.{
  Task, spawned, looping, ending, left, closing, State, nth, set, first, begin, begin_with, greeted,
  pass, pass_with, finish, finish_with,
}
use rust_gameserver.Net.Server.Interface.{Program, Effect, Backing}
use rust_gameserver.Net.Server.Departure.{IsLeft}
use rust_gameserver.Net.Server.Steps.{
  nth-set, IsWell, begin_with-IsWell, pass_with-IsWell, finish_with-IsWell,
}

module _ {Token Store B C X W M : Type 0} (can : Cancellation Token Store) (kids : Children can)
    (prog : Program can C X W M) (backing : Backing B X W M) where
  abbrev S : Type 0
  S = State can kids prog backing

  -- Task `n` leaves its loop and the registry, whatever frame is there.
  unfoldable pub end_loop : S → ℕ → ℕ → Frame → S
  unfolding begin pass finish
  end_loop s n now frame =
      finish can kids prog backing
        (pass can kids prog backing (begin can kids prog backing s n now) n now frame) n

  abbrev pub IsStopped : S → Type 0
  IsStopped s = can.is_cancelled s.shutdown s.tokens ≡ true

  nth-set_self :
      (n : ℕ) (t u : Task Token C X M) (ts : List (Task Token C X M))
      → nth n ts ≡ some u
      → nth n (set n t ts) ≡ some t
  nth-set_self n t u ts h = ground (arith, nth-set n n t u ts h)

  nth-set_other :
      (n m : ℕ) (t u : Task Token C X M) (ts : List (Task Token C X M))
      → nth n ts ≡ some u
      → n ≢ m
      → nth m (set n t ts) ≡ nth m ts
  nth-set_other n m t u ts h ne = ground (arith, nth-set m n t u ts h)

  -- Other tasks than the one that is polled stay as they are.
  begin-other :
      (s : S) (n now m : ℕ) (o : Option (Task Token C X M))
      → nth n s.tasks ≡ o
      → n ≢ m
      → nth m (begin_with can kids prog backing s n now o).tasks ≡ nth m s.tasks
  begin-other s n now m none h ne = refl
  begin-other s n now m (some (left p)) h ne = refl
  begin-other s n now m (some (looping k x i)) h ne = refl
  begin-other s n now m (some (ending k x)) h ne = refl
  begin-other s n now m (some (spawned c)) h ne = nth-set_other n m _ (spawned c) s.tasks h ne

  pass-other :
      (s : S) (n now m : ℕ) (f : Frame) (o : Option (Task Token C X M))
      → nth n s.tasks ≡ o
      → n ≢ m
      → nth m (pass_with can kids prog backing s n now f o).tasks ≡ nth m s.tasks
  pass-other s n now m f none h ne = refl
  pass-other s n now m f (some (left p)) h ne = refl
  pass-other s n now m f (some (spawned c)) h ne = refl
  pass-other s n now m f (some (ending k x)) h ne = refl
  pass-other s n now m f (some (looping k x i)) h ne =
      nth-set_other n m _ (looping k x i) s.tasks h ne

  finish-other :
      (s : S) (n m : ℕ) (o : Option (Task Token C X M))
      → nth n s.tasks ≡ o
      → n ≢ m
      → nth m (finish_with can kids prog backing s n o).tasks ≡ nth m s.tasks
  finish-other s n m none h ne = refl
  finish-other s n m (some (left p)) h ne = refl
  finish-other s n m (some (spawned c)) h ne = refl
  finish-other s n m (some (looping k x i)) h ne = refl
  finish-other s n m (some (ending k x)) h ne =
      nth-set_other n m (left (closing x)) (ending k x) s.tasks h ne

  abbrev IsBegun : Option (Task Token C X M) → Type 0
  IsBegun (some (spawned c)) = ⊥
  IsBegun o = Unit {0}

  abbrev IsEnded : Option (Task Token C X M) → Type 0
  IsEnded (some (spawned c)) = ⊥
  IsEnded (some (looping k x i)) = ⊥
  IsEnded o = Unit {0}

  greeted-IsBegun :
      (k : Token) (r : X × ControlFlow) → IsBegun (some (greeted can kids prog backing k r))
  greeted-IsBegun k (x, continue) = tt
  greeted-IsBegun k (x, break) = tt

  begin-IsBegun :
      (s : S) (n now : ℕ) (o : Option (Task Token C X M))
      → nth n s.tasks ≡ o
      → IsBegun (nth n (begin_with can kids prog backing s n now o).tasks)
  begin-IsBegun s n now none h = rw h tt
  begin-IsBegun s n now (some (left p)) h = rw h tt
  begin-IsBegun s n now (some (looping k x i)) h = rw h tt
  begin-IsBegun s n now (some (ending k x)) h = rw h tt
  begin-IsBegun s n now (some (spawned c)) h =
      rw (nth-set_self n _ (spawned c) s.tasks h) (greeted-IsBegun _ _)

  pass-IsEnded :
      (s : S) (n now : ℕ) (f : Frame) (o : Option (Task Token C X M))
      → nth n s.tasks ≡ o
      → IsStopped s
      → IsWell can kids prog backing s
      → IsBegun o
      → IsEnded (nth n (pass_with can kids prog backing s n now f o).tasks)
  pass-IsEnded s n now f none h c v b = rw h tt
  pass-IsEnded s n now f (some (left p)) h c v b = rw h tt
  pass-IsEnded s n now f (some (spawned o)) h c v b = absurd b
  pass-IsEnded s n now f (some (ending k x)) h c v b = rw h tt
  pass-IsEnded s n now f (some (looping k x i)) h c v b =
      let kicked =
        kids.ends_with_parent k s.shutdown s.tokens (v.1.children n k x (ground arith)) c in
      let stops =
        prog.pass_kicked k s.registry s.tokens x
          (record { now = now; others = []; frame = f; inner = first i }) refl kicked in
      rw (nth-set_self n _ (looping k x i) s.tasks h) (rw stops tt)

  finish-IsLeft :
      (s : S) (n : ℕ) (o : Option (Task Token C X M))
      → nth n s.tasks ≡ o
      → IsEnded o
      → IsLeft can kids prog backing
          (λ p. Unit {0})
          (nth n (finish_with can kids prog backing s n o).tasks)
  finish-IsLeft s n none h e = inl h
  finish-IsLeft s n (some (left p)) h e = inr (p, h, tt)
  finish-IsLeft s n (some (spawned c)) h e = absurd e
  finish-IsLeft s n (some (looping k x i)) h e = absurd e
  finish-IsLeft s n (some (ending k x)) h e =
      inr (closing x, nth-set_self n (left (closing x)) (ending k x) s.tasks h, tt)

  begin-IsStopped :
      (s : S) (n now : ℕ) (o : Option (Task Token C X M))
      → IsStopped s
      → IsStopped (begin_with can kids prog backing s n now o)
  begin-IsStopped s n now o c =
      ground (arith, kids.child_keeps_cancelled s.shutdown s.shutdown s.tokens)

  Effect-cancelled :
      (t : Token) (id : ℕ) (r r' : Registry Token) (st st' : Store) (u u' : Option Bytes)
      → Effect can id r st u r' st' u'
      → can.is_cancelled t st ≡ true
      → can.is_cancelled t st' ≡ true
  Effect-cancelled t id r r' st st' u u' (inl (p, q, e)) c = rw q c
  Effect-cancelled t id r r' st st' u u' (inr (v, p, q, e)) c = rw q (
      authenticate_keeps can (λ o. can.is_cancelled t o ≡ true) (λ j o. can.stays_cancelled t j o) r
        st id v c)

  pass-IsStopped :
      (s : S) (n now : ℕ) (f : Frame) (o : Option (Task Token C X M))
      → IsStopped s
      → IsStopped (pass_with can kids prog backing s n now f o)
  pass-IsStopped s n now f none c = c
  pass-IsStopped s n now f (some (left p)) c = c
  pass-IsStopped s n now f (some (spawned o)) c = c
  pass-IsStopped s n now f (some (ending k x)) c = c
  pass-IsStopped s n now f (some (looping k x i)) c =
      let p : Poll M (Op Token) = record { now = now; others = []; frame = f; inner = first i } in
      let q = prog.pass k s.registry s.tokens x p in
      Effect-cancelled s.shutdown (prog.id x) s.registry q.registry s.tokens q.tokens (prog.user x)
        (prog.user q.own) (prog.pass_effect k s.registry s.tokens x p refl) c

  finish-IsStopped :
      (s : S) (n : ℕ) (o : Option (Task Token C X M))
      → IsStopped s
      → IsStopped (finish_with can kids prog backing s n o)
  finish-IsStopped s n o c = ground arith

  begun-begin :
      (s : S) (n now : ℕ) (o : Option (Task Token C X M))
      → (begin_with can kids prog backing s n now o).begun ≤ s.begun + 1
  begun-begin s n now o = ground arith

  begun-pass :
      (s : S) (n now : ℕ) (f : Frame) (o : Option (Task Token C X M))
      → (pass_with can kids prog backing s n now f o).begun ≡ s.begun
  begun-pass s n now f o = ground arith

  begun-finish :
      (s : S) (n : ℕ) (o : Option (Task Token C X M))
      → (finish_with can kids prog backing s n o).begun ≡ s.begun
  begun-finish s n o = ground arith

  module _ (s : S) (n now : ℕ) (f : Frame) where
    abbrev after_begin : S
    after_begin = begin can kids prog backing s n now

    abbrev after_pass : S
    after_pass = pass can kids prog backing after_begin n now f

    -- What ending task `n` keeps: the other tasks, the shutdown and the invariant.
    abbrev pub IsKept : S → Type 0
    IsKept t =
        ((m : ℕ) → n ≢ m → nth m t.tasks ≡ nth m s.tasks)
        × IsStopped t
        × IsWell can kids prog backing t
        × (t.begun ≤ s.begun + 1)

    pub end_loop_lem :
        IsStopped s
        → IsWell can kids prog backing s
        → s.begun + 1 < u64_mod
        → IsLeft can kids prog backing (λ p. Unit {0}) (nth n (end_loop s n now f).tasks)
          × IsKept (end_loop s n now f)
    unfolding end_loop begin pass finish
    end_loop_lem c v b =
        let o = nth n s.tasks in
        let p = nth n after_begin.tasks in
        let q = nth n after_pass.tasks in
        let c1 = begin-IsStopped s n now o c in
        let c2 = pass-IsStopped after_begin n now f p c1 in
        let b1 : after_begin.begun ≤ s.begun + 1 = begun-begin s n now o in
        let v1 = begin_with-IsWell can kids prog backing s n now o refl (omega (arith, b1)) v in
        let v2 = pass_with-IsWell can kids prog backing after_begin n now f p refl v1 in
        let ended = pass-IsEnded after_begin n now f p refl c1 v1 (begin-IsBegun s n now o refl) in
        (
          finish-IsLeft after_pass n q refl ended,
          (
            λ m ne.
                finish-other after_pass n m q refl ne
                ∙ pass-other after_begin n now m f p refl ne
                ∙ begin-other s n now m o refl ne,
            finish-IsStopped after_pass n q c2,
            finish_with-IsWell can kids prog backing after_pass n q refl v2,
            omega (arith, begun-finish after_pass n q, begun-pass after_begin n now f p, b1),
          ),
        )
