-- ===== src/Net/Server/Steps.antt =====
-- The invariant of `serve` (crates/game_server/src/lib.rs, crates/login_server/src/lib.rs) through
-- its steps.
use rust_gameserver.Base.{
  ℕ, zero, suc, ◌+◌, ◌<◌, ◌≡◌, refl, ◌∙◌, inl, inr, true, List, [], ◌∷◌, ◌++◌, Option, none, some,
  ℕ_discrete, ite, arith, Bool-cases,
}
use rust_gameserver.Net.Cancellation.{Cancellation, Children}
use rust_gameserver.Net.Consts.{u64_mod}
use rust_gameserver.Net.Stats.{generate}
use rust_gameserver.Net.Acceptor.{IpAddr, should_block}
use rust_gameserver.Net.Registry.{Registry}
use rust_gameserver.Net.Registry.Exclusive.{Op}
use rust_gameserver.Net.Registry.Tokens.{authenticate_keeps}
use rust_gameserver.Net.Outbox.{ControlFlow, continue, break}
use rust_gameserver.Net.SelectLoop.{Frame, Poll}
use rust_gameserver.Net.Server.{
  Task, spawned, looping, ending, left, State, nth, set, first, accept, greeted, begin_with, passed,
  pass_with, unread, finish_with, closing, post, deliver_with,
}
use rust_gameserver.Net.Server.Interface.{Program, Effect, Backing}
use rust_gameserver.Net.Server.Roster.{
  IsMirrored, IsMirrored-same, IsMirrored-tokens, IsMirrored-finish, IsMirrored-begin,
  IsMirrored-still, IsMirrored-logged_in,
}

module _ {A : Type 0} where
  pub nth-set :
      (m n : ℕ) (a b : A) (xs : List A)
      → nth n xs ≡ some b
      → nth m (set n a xs) ≡ ite (ℕ_discrete n m) (some a) (nth m xs)
  nth-set m n a b [] h = cc
  nth-set zero zero a b (x ∷ xs) h = ground arith
  nth-set zero (suc n) a b (x ∷ xs) h = ground arith
  nth-set (suc m) zero a b (x ∷ xs) h = ground arith
  nth-set (suc m) (suc n) a b (x ∷ xs) h = ground (arith, nth-set m n a b xs h)

module _ {Token C X M : Type 0} where
  -- The kick token and the state of a task that has a session.
  abbrev pub live : Option (Task Token C X M) → Option (Token × X)
  live (some (looping k x inbox)) = some (k, x)
  live (some (ending k x)) = some (k, x)
  live (some (spawned c)) = none
  live (some (left p)) = none
  live none = none

  live-append :
      (m : ℕ) (c : C) (ts : List (Task Token C X M))
      → live (nth m (ts ++ spawned c ∷ [])) ≡ live (nth m ts)
  live-append zero c [] = refl
  live-append (suc m) c [] = refl
  live-append zero c (t ∷ ts) = refl
  live-append (suc m) c (t ∷ ts) = live-append m c ts

module _ {Token Store B C X W M : Type 0} (can : Cancellation Token Store) (kids : Children can)
    (prog : Program can C X W M) (backing : Backing B X W M) where
  abbrev S : Type 0
  S = State can kids prog backing

  abbrev pub roster : S → ℕ → Option (Token × X)
  roster s n = live (nth n s.tasks)

  abbrev pub IsWell : S → Type 0
  IsWell s =
      (s.next_id ≡ s.begun)
      × IsMirrored can kids prog s.shutdown s.begun (roster s) s.registry s.tokens

  live-greeted :
      (k : Token) (r : X × ControlFlow)
      → live (some (greeted can kids prog backing k r)) ≡ some (k, r.0)
  live-greeted k (x, continue) = refl
  live-greeted k (x, break) = refl

  live-passed :
      (k : Token) (x : X) (ms : List M) (f : ControlFlow)
      → live (some (passed can kids prog backing k x ms f)) ≡ some (k, x)
  live-passed k x ms continue = refl
  live-passed k x ms break = refl

  pub accept-IsWell :
      (s : S) (addr : IpAddr) (now : ℕ) (c : C)
      → IsWell s
      → IsWell (accept can kids prog backing s addr now c)
  unfolding accept
  accept-IsWell s addr now c v = elim (Bool-cases (should_block s.guard addr now).1) [
    | inl e ↦ rw e v
    | inr e ↦ rw e (
      v.0,
      IsMirrored-same can kids prog s.shutdown s.begun (roster s) _ s.registry s.tokens
          (λ m. live-append m c s.tasks) v.1,
    )
  ]

  -- How a step that puts a task in place of another changes the roster.
  roster-set :
      (s : S) (n m : ℕ) (t u : Task Token C X M) (o : Option (Token × X))
      → nth n s.tasks ≡ some u
      → live (some t) ≡ o
      → live (nth m (set n t s.tasks)) ≡ ite (ℕ_discrete n m) o (roster s m)
  roster-set s n m t u o h e = ground (arith, nth-set m n t u s.tasks h)

  pub finish_with-IsWell :
      (s : S) (n : ℕ) (o : Option (Task Token C X M))
      → nth n s.tasks ≡ o
      → IsWell s
      → IsWell (finish_with can kids prog backing s n o)
  finish_with-IsWell s n none h v = v
  finish_with-IsWell s n (some (spawned c)) h v = v
  finish_with-IsWell s n (some (looping k x inbox)) h v = v
  finish_with-IsWell s n (some (left p)) h v = v
  finish_with-IsWell s n (some (ending k x)) h v = (
    v.0,
    IsMirrored-finish can kids prog s.shutdown s.begun (roster s) _ s.registry s.tokens n k x
        (ground arith) (λ m. roster-set s n m (left (closing x)) (ending k x) none h refl) v.1,
  )

  pub begin_with-IsWell :
      (s : S) (n now : ℕ) (o : Option (Task Token C X M))
      → nth n s.tasks ≡ o
      → (begin_with can kids prog backing s n now o).begun < u64_mod
      → IsWell s
      → IsWell (begin_with can kids prog backing s n now o)
  unfolding generate
  begin_with-IsWell s n now none h b v = v
  begin_with-IsWell s n now (some (left p)) h b v = v
  begin_with-IsWell s n now (some (looping k x inbox)) h b v = v
  begin_with-IsWell s n now (some (ending k x)) h b v = v
  begin_with-IsWell s n now (some (spawned c)) h b v =
      let id = (generate s.next_id).0 in
      let fresh : id ≡ s.begun + 1 = omega (arith, v.0, b) in
      let made = kids.child_token s.shutdown s.tokens in
      let k = made.0 in
      let r = prog.greet (prog.begin id now c) in
      let own : prog.id r.0 ≡ id = prog.greet_id (prog.begin id now c) ∙ prog.begin_id id now c in
      let w =
        IsMirrored-begin can kids prog s.shutdown s.begun (roster s) _ s.registry s.tokens n k r.0
          made.1 (ground arith)
          (λ m.
            roster-set s n m (greeted can kids prog backing k r) (spawned c) (some (k, r.0)) h
              (live-greeted k r))
          (own ∙ fresh) (prog.greet_user (prog.begin id now c) ∙ prog.begin_user id now c)
          (λ t. kids.child_keeps_cancelled t s.shutdown s.tokens)
          (λ t. kids.child_keeps_child t s.shutdown s.shutdown s.tokens)
          (kids.made s.shutdown s.tokens) v.1 in
      (fresh, rw own at w)

  pass-Effect-IsWell :
      (s : S) (n : ℕ) (k : Token) (x x' : X) (t : Task Token C X M) (inbox : List M)
      (r' : Registry Token) (st' : Store)
      → nth n s.tasks ≡ some (looping k x inbox)
      → live (some t) ≡ some (k, x')
      → prog.id x' ≡ prog.id x
      → Effect can (prog.id x) s.registry s.tokens (prog.user x) r' st' (prog.user x')
      → IsWell s
      → IsMirrored can kids prog s.shutdown s.begun (λ m. live (nth m (set n t s.tasks))) r' st'
  pass-Effect-IsWell s n k x x' t inbox r' st' h e i (inl (p, q, u)) v =
      rw (p, q)
        (IsMirrored-still can kids prog s.shutdown s.begun (roster s) _ s.registry s.tokens n k x x'
          (ground arith) i (λ m. roster-set s n m t (looping k x inbox) (some (k, x')) h e) u v.1)
  pass-Effect-IsWell s n k x x' t inbox r' st' h e i (inr (w, p, q, u)) v =
      rw (p, q)
        (IsMirrored-logged_in can kids prog s.shutdown s.begun (roster s) _ s.registry s.tokens n k
          x x' (ground arith) i (λ m. roster-set s n m t (looping k x inbox) (some (k, x')) h e) w u
          v.1
          (λ j.
            authenticate_keeps can (λ st. can.is_cancelled j st ≡ true)
              (λ o st. can.stays_cancelled j o st) s.registry s.tokens (prog.id x) w)
          (λ j.
            authenticate_keeps can (λ st. kids.is_child j s.shutdown st ≡ true)
              (λ o st. kids.cancel_keeps_child j s.shutdown o st) s.registry s.tokens (prog.id x)
              w))

  pub pass_with-IsWell :
      (s : S) (n now : ℕ) (frame : Frame) (o : Option (Task Token C X M))
      → nth n s.tasks ≡ o
      → IsWell s
      → IsWell (pass_with can kids prog backing s n now frame o)
  pass_with-IsWell s n now frame none h v = v
  pass_with-IsWell s n now frame (some (spawned c)) h v = v
  pass_with-IsWell s n now frame (some (left p)) h v = v
  pass_with-IsWell s n now frame (some (ending k x)) h v = v
  pass_with-IsWell s n now frame (some (looping k x inbox)) h v =
      let p : Poll M (Op Token) = record {
        now = now;
        others = [];
        frame = frame;
        inner = first inbox;
      } in
      let q = prog.pass k s.registry s.tokens x p in
      let ms = unread can kids prog backing frame inbox in
      (
        v.0,
        pass-Effect-IsWell s n k x q.own (passed can kids prog backing k q.own ms q.flow) inbox
            q.registry q.tokens h (live-passed k q.own ms q.flow)
            (prog.pass_id k s.registry s.tokens x p refl)
            (prog.pass_effect k s.registry s.tokens x p refl) v,
      )

  live-post :
      (m : ℕ) (msg : M) (o : Option (Task Token C X M)) (n : ℕ) (ts : List (Task Token C X M))
      → nth n ts ≡ o
      → live (nth m (post can kids prog backing msg o n ts)) ≡ live (nth m ts)
  live-post m msg none n ts h = refl
  live-post m msg (some (spawned c)) n ts h = refl
  live-post m msg (some (left p)) n ts h = refl
  live-post m msg (some (ending k x)) n ts h = refl
  live-post m msg (some (looping k x inbox)) n ts h =
      ground (arith, nth-set m n (looping k x (inbox ++ msg ∷ [])) (looping k x inbox) ts h)

  pub deliver_with-IsWell :
      (s : S) (i : ℕ) (o : Option (ℕ × W))
      → IsWell s
      → IsWell (deliver_with can kids prog backing s i o)
  deliver_with-IsWell s i none v = v
  deliver_with-IsWell s i (some (n, w)) v = (
    v.0,
    IsMirrored-same can kids prog s.shutdown s.begun (roster s) _ s.registry s.tokens
        (λ m. live-post m (backing.perform s.backend w).1 (nth n s.tasks) n s.tasks refl) v.1,
  )

  pub tokens-IsWell :
      (s : S) (st : Store)
      → ((P : Store → Type 0)
          → ((t : Token) (o : Store) → P o → P (can.cancel t o))
          → P s.tokens
          → P st)
      → IsWell s
      → IsWell (record s { tokens = st })
  tokens-IsWell s st only v = (
    v.0,
    IsMirrored-tokens can kids prog s.shutdown s.begun (roster s) (roster s) s.registry s.tokens st
        (λ j. only (λ o. can.is_cancelled j o ≡ true) (λ t o. can.stays_cancelled j t o))
        (λ j.
          only (λ o. kids.is_child j s.shutdown o ≡ true)
            (λ t o. kids.cancel_keeps_child j s.shutdown t o))
        v.1,
  )
