-- ===== src/LoginServer/Session/Task.antt =====
-- The whole task of a connection, `run` of crates/login_server/src/session.rs, and how its session
-- becomes authenticated.
use rust_gameserver.Base.{
  ℕ, ◌≡◌, refl, ◌∙◌, Bool, true, false, List, Option, none, some, Bytes, arith, subst, subst₂, sym,
}
use rust_gameserver.Proto.{Payload, keep_alive_request, login_request}
use rust_gameserver.Net.Cancellation.{Cancellation}
use rust_gameserver.Net.Registry.{Registry, remove}
use rust_gameserver.Net.Registry.Lookup.{session, session-remove}
use rust_gameserver.Net.Registry.Exclusive.{
  Op, IsExclusive, register-IsExclusive, remove-IsExclusive, authenticate-IsExclusive,
  run-IsExclusive,
}
use rust_gameserver.Net.Outbox.{Channel}
use rust_gameserver.Net.SelectLoop.{Poll, event_loop}
use rust_gameserver.Net.SelectLoop.Rules.{
  Keeps, event_loop_keeps, Delivered, All-Delivered, All-any,
}
use rust_gameserver.LoginServer.Authenticate.{Account, LoginOutcome, logged_in, failure, db_error}
use rust_gameserver.LoginServer.Session.{State, on_remote, on_login_outcome}
use rust_gameserver.LoginServer.Session.Loop.{handlers, start, run, finish}

module _ {Token Store C : Type 0} (can : Cancellation Token Store) (ch : Channel C) where
  -- What a message leaves of the login table, the kick tokens, the id and the account.
  abbrev pub Untouched : State Token Store C → State Token Store C → Type 0
  Untouched s s' =
      (s'.registry ≡ s.registry)
      × (s'.tokens ≡ s.tokens)
      × (s'.session_id ≡ s.session_id)
      × (s'.account ≡ s.account)

  pub on_remote-Untouched :
      (now : ℕ) (s : State Token Store C) (p : Option Payload)
      → Untouched s (on_remote can ch now s p).0
  unfolding on_remote
  on_remote-Untouched now s (some (login_request u p)) = ground arith
  on_remote-Untouched now s (some keep_alive_request) = ground arith
  on_remote-Untouched now s p = ground arith

  abbrev Safe : ℕ → State Token Store C → Type 0
  Safe id s = IsExclusive can s.registry s.tokens × (s.session_id ≡ id)

  Safe-same : (id : ℕ) (s s' : State Token Store C) → Untouched s s' → Safe id s → Safe id s'
  Safe-same id s s' (r, t, i, _) v = (subst₂ (IsExclusive can) (sym r) (sym t) v.0, i ∙ v.1)

  on_login_outcome-Safe :
      (id now : ℕ) (s : State Token Store C) (m : LoginOutcome)
      → Safe id s
      → Safe id (on_login_outcome can ch now s m).0
  unfolding on_login_outcome
  on_login_outcome-Safe id now s (logged_in a token) v =
      (authenticate-IsExclusive can s.registry s.tokens s.session_id a.user_id v.0, v.1)
  on_login_outcome-Safe id now s (failure code) v = v
  on_login_outcome-Safe id now s db_error v = v

  module _ (kick : Token) (timeout : ℕ) where
    Safe-Keeps : (id : ℕ) → Keeps (handlers can ch kick timeout) (Safe id) (λ m. Unit {0})
    Safe-Keeps id = record {
      shared_keeps = λ s ops v. (run-IsExclusive can (s.registry, s.tokens) ops v.0, v.1);
      connected_keeps = λ s v. v;
      remote_keeps =
          λ now s p v. Safe-same id s (on_remote can ch now s p).0 (on_remote-Untouched now s p) v;
      inner_keeps = λ now s m _ v. on_login_outcome-Safe id now s m v;
    }

    finish-inv :
        (r : State Token Store C × Bool) (l : State Token Store C)
        → finish can ch r ≡ some l
        → l ≡ record r.0 { registry = remove r.0.registry r.0.session_id }
    finish-inv (s, false) l h = cc
    finish-inv (s, true) l h = ground arith

    -- When a task of the login server is over its session is no longer registered, and the registry
    -- still has at most one session of each user that has not been kicked, whatever the other tasks
    -- did in the meantime.
    pub login_task_is_removed :
        (session_id now : ℕ) (outbox : C) (r : Registry Token) (st : Store)
        (ps : List (Poll LoginOutcome (Op Token))) (l : State Token Store C)
        → IsExclusive can r st
        → run can ch session_id kick timeout now outbox r st ps ≡ some l
        → (session l.registry session_id ≡ none) × IsExclusive can l.registry l.tokens
    unfolding run
    login_task_is_removed session_id now outbox r st ps l v h =
        let s = start can ch session_id kick now outbox r st in
        let begun : Safe session_id s =
          unfold start in (register-IsExclusive can r st session_id kick v, refl) in
        let e = event_loop (handlers can ch kick timeout) s ps in
        let (safe, id) =
          event_loop_keeps (handlers can ch kick timeout) (Safe-Keeps session_id) s ps
            (All-any (handlers can ch kick timeout) ps) begun in
        rw (finish-inv e l h) (
          rw id (rw (session-remove e.0.registry session_id session_id) (ground arith)),
          remove-IsExclusive can e.0.registry e.0.tokens e.0.session_id safe,
        )

    -- An outcome that logs the account in is among the inner messages of the polls.
    abbrev pub ByLogin : List (Poll LoginOutcome (Op Token)) → Account → Type 0
    ByLogin ps a = (token : Bytes) × Delivered (handlers can ch kick timeout) (logged_in a token) ps

    abbrev AccountBy : List (Poll LoginOutcome (Op Token)) → Option Account → Type 0
    AccountBy ps none = Unit {0}
    AccountBy ps (some a) = ByLogin ps a

    on_login_outcome-AccountBy :
        (ps : List (Poll LoginOutcome (Op Token))) (now : ℕ) (s : State Token Store C)
        (m : LoginOutcome)
        → Delivered (handlers can ch kick timeout) m ps
        → AccountBy ps s.account
        → AccountBy ps (on_login_outcome can ch now s m).0.account
    unfolding on_login_outcome
    on_login_outcome-AccountBy ps now s (logged_in a token) d v = (token, d)
    on_login_outcome-AccountBy ps now s (failure code) d v = v
    on_login_outcome-AccountBy ps now s db_error d v = v

    account-Keeps :
        (ps : List (Poll LoginOutcome (Op Token)))
        → Keeps
            (handlers can ch kick timeout)
            (λ s. AccountBy ps s.account)
            (λ m. Delivered (handlers can ch kick timeout) m ps)
    account-Keeps ps = record {
      shared_keeps = λ s ops g. g;
      connected_keeps = λ s g. g;
      remote_keeps = λ now s p g.
          let (_, _, _, e) = on_remote-Untouched now s p in subst (AccountBy ps) (sym e) g;
      inner_keeps = λ now s m d g. on_login_outcome-AccountBy ps now s m d g;
    }

    -- A session of the login server whose loop leaves it authenticated has been delivered the
    -- outcome of a login task that logs in this account.
    pub authenticated-ByLogin :
        (session_id now : ℕ) (outbox : C) (r : Registry Token) (st : Store)
        (ps : List (Poll LoginOutcome (Op Token))) (a : Account)
        → (event_loop
            (handlers can ch kick timeout)
            (start can ch session_id kick now outbox r st)
            ps).0.account
          ≡ some a
        → ByLogin ps a
    authenticated-ByLogin session_id now outbox r st ps a h = subst (AccountBy ps) h (
        event_loop_keeps (handlers can ch kick timeout) (account-Keeps ps)
          (start can ch session_id kick now outbox r st) ps
          (All-Delivered (handlers can ch kick timeout) ps) (unfold start in tt))
