-- ===== src/GameServer/Serve/Tokens/Bound.antt =====
-- How many sessions of an account the tokens allow, over the steps of the game server
-- (crates/game_server/src/lib.rs).
use rust_gameserver.Base.{
  ℕ, ◌+◌, ◌≤◌, ◌≡◌, refl, inl, inr, List, [], ◌∷◌, ◌++◌, Option, none, some, arith, Bool,
  Bool-cases,
}
use rust_gameserver.Net.Acceptor.{IpAddr, should_block}
use rust_gameserver.Net.Cancellation.{Cancellation, Children}
use rust_gameserver.Net.Outbox.{Channel, ControlFlow, continue, break}
use rust_gameserver.Net.SelectLoop.{Frame, Poll}
use rust_gameserver.Net.Registry.Exclusive.{Op}
use rust_gameserver.Net.Stats.{generate}
use rust_gameserver.Net.Server.{
  Task, spawned, looping, ending, left, closing, nth, first, accept, greeted, begin, begin_with,
  passed, pass, pass_with, finish, finish_with, leaving, leave, leave_with, leaves, fail_write,
  fail_write_with, fails_write, post, deliver, deliver_with, force_disconnect, shut_down, Step,
  accepts, begins, passes, finishes, delivers, disconnects, shuts_down, Reach, here, next,
}
use rust_gameserver.GameServer.Backend.{Backend}
use rust_gameserver.GameServer.Token.{Account}
use rust_gameserver.GameServer.Session.{Session, InnerMessage, Work, perform}
use rust_gameserver.GameServer.Serve.{backing}
use rust_gameserver.GameServer.Session.Loop.{new_session}
use rust_gameserver.GameServer.Serve.{greet, pass as pass_game}
use rust_gameserver.GameServer.Serve.Task.{program}
use rust_gameserver.GameServer.Serve.Sessions.{Game, Reachable, started}
use rust_gameserver.GameServer.Serve.Tokens.{
  worth, message_worth, inbox_worth, Ledger, task_worth, tasks_worth, tasks_worth-set,
  tasks_worth-append, inbox_worth-append, perform_worth,
}
use rust_gameserver.GameServer.Serve.Tokens.Departure.{leaving_copies}
use rust_gameserver.GameServer.Serve.Tokens.Passes.{remaining, pass_worth}

module _ {Token Store B C : Type 0} (can : Cancellation Token Store) (kids : Children can)
    (ch : Channel C) (backend : Backend B) (timeout : ℕ) (a : Account) (l : Ledger backend a) where
  abbrev S : Type 0
  S = Game can kids ch backend timeout

  abbrev T : Type 0
  T = Task Token C (Session C) InnerMessage

  -- The tokens of the account that are stored, and what they have become.
  abbrev pub outstanding : S → ℕ
  outstanding s = l.copies s.backend + tasks_worth a s.tasks

  accept_bound :
      (s : S) (addr : IpAddr) (now : ℕ) (c : C)
      → outstanding (accept can kids (program can ch timeout) (backing backend) s addr now c)
        ≤ outstanding s
  unfolding accept
  accept_bound s addr now c = elim (Bool-cases (should_block s.guard addr now).1) [
    | inl e ↦ rw e (omega arith)
    | inr e ↦ rw e (omega (arith, tasks_worth-append a s.tasks c))
  ]

  greeted_worth :
      (k : Token) (r : Session C × ControlFlow)
      → r.0.account ≡ none
      → task_worth a (greeted can kids (program can ch timeout) (backing backend) k r) ≡ 0
  greeted_worth k (x, continue) e = rw e refl
  greeted_worth k (x, break) e = rw e refl

  worth-passed :
      (k : Token) (x : Session C) (ms : List InnerMessage) (f : ControlFlow)
      → task_worth a (passed can kids (program can ch timeout) (backing backend) k x ms f)
        ≤ worth a x.account + inbox_worth a ms
  worth-passed k x ms continue = omega arith
  worth-passed k x ms break = omega arith

  begin_bound :
      (s : S) (n now : ℕ) (o : Option T)
      → nth n s.tasks ≡ o
      → outstanding (begin_with can kids (program can ch timeout) (backing backend) s n now o)
        ≤ outstanding s
  unfolding program greet
  begin_bound s n now none h = omega arith
  begin_bound s n now (some (left p)) h = omega arith
  begin_bound s n now (some (looping k x i)) h = omega arith
  begin_bound s n now (some (ending k x)) h = omega arith
  begin_bound s n now (some (spawned c)) h =
      let k = (kids.child_token s.shutdown s.tokens).0 in
      let r = greet can ch (new_session can ch (generate s.next_id).0 now c) in
      let t = greeted can kids (program can ch timeout) (backing backend) k r in
      let w = greeted_worth k r refl in
      omega (arith, tasks_worth-set a n t (spawned c) s.tasks h, w)

  pass_bound :
      (s : S) (n now : ℕ) (f : Frame) (o : Option T)
      → nth n s.tasks ≡ o
      → outstanding (pass_with can kids (program can ch timeout) (backing backend) s n now f o)
        ≤ outstanding s
  unfolding program
  pass_bound s n now f none h = omega arith
  pass_bound s n now f (some (left p)) h = omega arith
  pass_bound s n now f (some (spawned c)) h = omega arith
  pass_bound s n now f (some (ending k x)) h = omega arith
  pass_bound s n now f (some (looping k x i)) h =
      let p : Poll InnerMessage (Op Token) = record {
        now = now;
        others = [];
        frame = f;
        inner = first i;
      } in
      let q = pass_game can ch timeout k s.registry s.tokens x p in
      let ms = remaining can ch a kids backend timeout f i in
      let t = passed can kids (program can ch timeout) (backing backend) k q.own ms q.flow in
      omega (
        arith,
        tasks_worth-set a n t (looping k x i) s.tasks h,
        worth-passed k q.own ms q.flow,
        pass_worth can ch a kids backend timeout k s.registry s.tokens x now f i,
      )

  finish_bound :
      (s : S) (n : ℕ) (o : Option T)
      → nth n s.tasks ≡ o
      → outstanding (finish_with can kids (program can ch timeout) (backing backend) s n o)
        ≤ outstanding s
  finish_bound s n none h = omega arith
  finish_bound s n (some (left p)) h = omega arith
  finish_bound s n (some (spawned c)) h = omega arith
  finish_bound s n (some (looping k x i)) h = omega arith
  finish_bound s n (some (ending k x)) h =
      omega (arith, tasks_worth-set a n (left (closing x)) (ending k x) s.tasks h)

  leave_bound :
      (s : S) (n : ℕ) (fires : Bool) (o : Option T)
      → nth n s.tasks ≡ o
      → outstanding (leave_with can kids (program can ch timeout) (backing backend) s n fires o)
        ≤ outstanding s
  leave_bound s n fires none h = omega arith
  leave_bound s n fires (some (spawned c)) h = omega arith
  leave_bound s n fires (some (looping k x i)) h = omega arith
  leave_bound s n fires (some (ending k x)) h = omega arith
  leave_bound s n fires (some (left p)) h =
      let stopped = can.is_cancelled s.shutdown s.tokens in
      let q =
        leaving can kids (program can ch timeout) (backing backend) s.backend stopped fires p in
      omega (
        arith,
        leaving_copies can kids ch backend timeout a l s.backend stopped fires p,
        tasks_worth-set a n (left q.1) (left p) s.tasks h,
      )

  fail_write_bound :
      (s : S) (o : Option T)
      → outstanding (fail_write_with can kids (program can ch timeout) (backing backend) s o)
        ≤ outstanding s
  fail_write_bound s none = omega arith
  fail_write_bound s (some (left p)) = omega arith
  fail_write_bound s (some (spawned c)) = omega arith
  fail_write_bound s (some (ending k x)) = omega arith
  fail_write_bound s (some (looping k x i)) = omega arith

  post_bound :
      (m : InnerMessage) (o : Option T) (n : ℕ) (ts : List T)
      → nth n ts ≡ o
      → tasks_worth a (post can kids (program can ch timeout) (backing backend) m o n ts)
        ≤ tasks_worth a ts + message_worth a m
  post_bound m none n ts h = omega arith
  post_bound m (some (left p)) n ts h = omega arith
  post_bound m (some (spawned c)) n ts h = omega arith
  post_bound m (some (ending k x)) n ts h = omega arith
  post_bound m (some (looping k x i)) n ts h = omega (
    arith,
    tasks_worth-set a n (looping k x (i ++ m ∷ [])) (looping k x i) ts h,
    inbox_worth-append a i m,
  )

  deliver_bound :
      (s : S) (i : ℕ) (o : Option (ℕ × Work))
      → outstanding (deliver_with can kids (program can ch timeout) (backing backend) s i o)
        ≤ outstanding s
  unfolding backing
  deliver_bound s i none = omega arith
  deliver_bound s i (some (n, w)) =
      let m = (perform backend s.backend w).1 in
      omega
        (arith, perform_worth backend a l s.backend w, post_bound m (nth n s.tasks) n s.tasks refl)

  Step-bound :
      (s t : S)
      → Step can kids (program can ch timeout) (backing backend) s t
      → outstanding t ≤ outstanding s
  unfolding begin pass finish leave fail_write deliver force_disconnect shut_down
  Step-bound s t (accepts addr now c h) = accept_bound s addr now c
  Step-bound s t (begins n now) = begin_bound s n now (nth n s.tasks) refl
  Step-bound s t (passes n now f) = pass_bound s n now f (nth n s.tasks) refl
  Step-bound s t (finishes n) = finish_bound s n (nth n s.tasks) refl
  Step-bound s t (leaves n fires) = leave_bound s n fires (nth n s.tasks) refl
  Step-bound s t (fails_write n) = fail_write_bound s (nth n s.tasks)
  Step-bound s t (delivers i) = deliver_bound s i (nth i s.work)
  Step-bound s t (disconnects id) = omega arith
  Step-bound s t shuts_down = omega arith

  Reach-bound :
      (s t : S)
      → Reach can kids (program can ch timeout) (backing backend) s t
      → outstanding t ≤ outstanding s
  Reach-bound s t here = omega arith
  Reach-bound s t (next {t = u} r st) = omega (arith, Reach-bound s u r, Step-bound u t st)

  -- The sessions that are authenticated as the account.
  abbrev session_worth : T → ℕ
  session_worth (spawned c) = 0
  session_worth (looping k x inbox) = worth a x.account
  session_worth (ending k x) = worth a x.account
  session_worth (left p) = 0

  abbrev pub sessions_as : List T → ℕ
  sessions_as [] = 0
  sessions_as (t ∷ ts) = session_worth t + sessions_as ts

  session_worth_le : (t : T) → session_worth t ≤ task_worth a t
  session_worth_le (spawned c) = omega arith
  session_worth_le (looping k x inbox) = omega arith
  session_worth_le (ending k x) = omega arith
  session_worth_le (left p) = omega arith

  sessions_as_le : (ts : List T) → sessions_as ts ≤ tasks_worth a ts
  sessions_as_le [] = omega arith
  sessions_as_le (t ∷ ts) = omega (arith, session_worth_le t, sessions_as_le ts)

  -- Tokens are not multiplied: in every state that the game server reaches, the sessions that are
  -- authenticated as an account, together with the tokens of the account that are still stored, are
  -- no more than the tokens that were stored when it started (if each take that answers removes the
  -- token, and no new one is stored meanwhile).
  pub tokens_bound_sessions :
      (shutdown : Token) (tokens : Store) (b : B) (t : S)
      → Reachable can kids ch backend timeout shutdown tokens b t
      → sessions_as t.tasks + l.copies t.backend ≤ l.copies b
  tokens_bound_sessions shutdown tokens b t r = omega (
    arith,
    Reach-bound (started can kids ch backend timeout shutdown tokens b) t r,
    sessions_as_le t.tasks,
  )
