-- ===== src/LoginServer/Serve/Task.antt =====
-- The session task of crates/login_server/src/session.rs as `serve` sees it.
use rust_gameserver.Base.{ℕ, ◌≡◌, refl, inl, inr, true, [], Option, ap, subst, sym}
use rust_gameserver.Proto.{Payload}
use rust_gameserver.Net.Cancellation.{Cancellation}
use rust_gameserver.Net.Registry.{Registry}
use rust_gameserver.Net.Registry.Exclusive.{Op, run as run_ops}
use rust_gameserver.Net.Outbox.{Channel, break}
use rust_gameserver.Net.SelectLoop.{Poll}
use rust_gameserver.Net.SelectLoop.Rules.{turn_any, turn_kicked}
use rust_gameserver.Net.Server.Interface.{Effect, Program}
use rust_gameserver.LoginServer.Authenticate.{LoginOutcome, logged_in, failure, db_error}
use rust_gameserver.LoginServer.Session.{State, Session, Work, on_remote, on_login_outcome}
use rust_gameserver.LoginServer.Session.Loop.{handlers, shared, new_session}
use rust_gameserver.LoginServer.Session.Task.{on_remote-Untouched}
use rust_gameserver.LoginServer.Serve.{user_of, greet, pass}

module _ {Token Store C : Type 0} (can : Cancellation Token Store) (ch : Channel C) where
  abbrev IsEffect : State Token Store C → State Token Store C → Type 0
  IsEffect s s' =
      Effect can s.session_id s.registry s.tokens (user_of s.account) s'.registry s'.tokens
        (user_of s'.account)

  on_remote-IsEffect :
      (now : ℕ) (s : State Token Store C) (p : Option Payload)
      → IsEffect s (on_remote can ch now s p).0
  on_remote-IsEffect now s p =
      let (r, t, _, e) = on_remote-Untouched can ch now s p in inl (r, t, ap user_of e)

  on_login_outcome-IsEffect :
      (now : ℕ) (s : State Token Store C) (m : LoginOutcome)
      → IsEffect s (on_login_outcome can ch now s m).0
  unfolding on_login_outcome
  on_login_outcome-IsEffect now s (logged_in a token) = inr (a.user_id, refl, refl, refl)
  on_login_outcome-IsEffect now s (failure code) = inl (refl, refl, refl)
  on_login_outcome-IsEffect now s db_error = inl (refl, refl, refl)

  on_remote_id :
      (now : ℕ) (s : State Token Store C) (p : Option Payload)
      → (on_remote can ch now s p).0.session_id ≡ s.session_id
  on_remote_id now s p = let (_, _, i, _) = on_remote-Untouched can ch now s p in i

  on_login_outcome_id :
      (now : ℕ) (s : State Token Store C) (m : LoginOutcome)
      → (on_login_outcome can ch now s m).0.session_id ≡ s.session_id
  unfolding on_login_outcome
  on_login_outcome_id now s (logged_in a token) = refl
  on_login_outcome_id now s (failure code) = refl
  on_login_outcome_id now s db_error = refl

  module _ (timeout : ℕ) (kick : Token) (r : Registry Token) (st : Store) (x : Session C)
      (p : Poll LoginOutcome (Op Token)) (alone : p.others ≡ []) where
    abbrev pub before : State Token Store C
    before = record { session = x; registry = r; tokens = st; spawned = [] }

    -- Between the polls of other tasks nothing happens to the shared state.
    shared_alone : shared can ch before p.others ≡ before
    unfolding run_ops
    shared_alone = rw alone refl

    seen : (Q : State Token Store C → Type 0) → Q before → Q (shared can ch before p.others)
    seen Q q = subst Q (sym shared_alone) q

    pub pass-Effect :
        (let q = pass can ch timeout kick r st x p in
          Effect can x.session_id r st
            (user_of x.account)
            q.registry
            q.tokens
            (user_of q.own.account))
    unfolding pass
    pass-Effect =
        turn_any (handlers can ch kick timeout) (IsEffect before) before p
          (seen (IsEffect before) (inl (refl, refl, refl)))
          (λ now q.
            seen (λ s. IsEffect before (on_remote can ch now s q).0)
              (on_remote-IsEffect now before q))
          (λ now m.
            seen (λ s. IsEffect before (on_login_outcome can ch now s m).0)
              (on_login_outcome-IsEffect now before m))

    pub pass_kicked :
        can.is_cancelled kick st ≡ true → (pass can ch timeout kick r st x p).flow ≡ break
    unfolding pass
    pass_kicked h =
        ap (λ t. t.1)
          (turn_kicked (handlers can ch kick timeout) before p
            (seen (λ s. can.is_cancelled kick s.tokens ≡ true) h))

    pub pass_id : (pass can ch timeout kick r st x p).own.session_id ≡ x.session_id
    unfolding pass
    pass_id =
        turn_any (handlers can ch kick timeout) (λ s. s.session_id ≡ x.session_id) before p
          (seen (λ s. s.session_id ≡ x.session_id) refl)
          (λ now q.
            seen (λ s. (on_remote can ch now s q).0.session_id ≡ x.session_id)
              (on_remote_id now before q))
          (λ now m.
            seen (λ s. (on_login_outcome can ch now s m).0.session_id ≡ x.session_id)
              (on_login_outcome_id now before m))

  unfoldable pub program : ℕ → Program can C (Session C) Work LoginOutcome
  unfolding greet pass
  program timeout = record {
    begin = new_session can ch;
    greet = greet can ch;
    pass = pass can ch timeout;
    id = λ x. x.session_id;
    user = λ x. user_of x.account;
    begin_id = λ n now c. refl;
    begin_user = λ n now c. refl;
    greet_id = λ x. refl;
    greet_user = λ x. refl;
    pass_id = pass_id timeout;
    pass_effect = pass-Effect timeout;
    pass_kicked = pass_kicked timeout;
  }
