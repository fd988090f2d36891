-- ===== src/GameServer/Serve/Tokens.antt =====
-- Tokens and sessions over the whole game server (crates/game_server/src/lib.rs): from the take of a
-- token (backend.rs) through the inbox to the account of a session (session.rs). Everything that can
-- still make a session of one account is counted.
pub mod Passes
pub mod Departure
pub mod Bound
pub mod Store
use rust_gameserver.Base.{
  ℕ, zero, suc, ◌+◌, ◌≤◌, ◌≡◌, refl, ◌⊎◌, inl, inr, List, [], ◌∷◌, ◌++◌, Option, none, some, Bytes,
  ite, arith, ℕ_discrete, bytes_discrete, Bool-cases, Option-cases,
}
use rust_gameserver.Proto.{ℤ}
use rust_gameserver.Redis.{Reply, done, failed}
use rust_gameserver.Net.Cancellation.{Cancellation, Children}
use rust_gameserver.Net.Outbox.{Channel, ControlFlow, continue, break}
use rust_gameserver.Net.Registry.{Registry}
use rust_gameserver.Net.Registry.Exclusive.{Op}
use rust_gameserver.Net.SelectLoop.{
  Poll, Frame, pending, received, receive_error, closed, turn, on_ready, sleep_until_opt,
}
use rust_gameserver.Net.Server.{Task, spawned, looping, ending, left, nth, set, first, unread}
use rust_gameserver.GameServer.Backend.{Backend}
use rust_gameserver.GameServer.Token.{Account, parse_token_value}
use rust_gameserver.GameServer.Session.{
  State, Session, InnerMessage, token_taken, score_saved, db_error, Work, take_token, save, perform,
  on_inner, on_remote,
}
use rust_gameserver.GameServer.Session.Loop.{handlers}
use rust_gameserver.GameServer.Session.Gate.{on_remote_account}

-- 1 for the account `a` and 0 for every other.
abbrev pub worth : Account → Option Account → ℕ
worth a none = 0
worth a (some b) =
    ite (ℕ_discrete b.account_id a.account_id) (ite (bytes_discrete b.user_id a.user_id) 1 0) 0

abbrev pub value_worth : Account → Option Bytes → ℕ
value_worth a none = 0
value_worth a (some value) = worth a (parse_token_value value)

abbrev pub message_worth : Account → InnerMessage → ℕ
message_worth a (token_taken value) = value_worth a value
message_worth a score_saved = 0
message_worth a db_error = 0

abbrev pub inbox_worth : Account → List InnerMessage → ℕ
inbox_worth a [] = 0
inbox_worth a (m ∷ ms) = message_worth a m + inbox_worth a ms

abbrev pub reply_worth : Account → Reply (Option Bytes) → ℕ
reply_worth a (done value) = value_worth a value
reply_worth a failed = 0

-- How many tokens of the account the store holds: a take that answers with the value of one leaves
-- one less, and nothing else that the game server does adds any.
pub record Ledger {B : Type 0} (backend : Backend B) (a : Account) : Type 0 where
  pub copies : B → ℕ
  pub takes :
      (b : B) (token : Bytes)
      → (let r = backend.take_auth_token b token in copies r.0 + reply_worth a r.1 ≤ copies b)
  pub touches :
      (b : B) (account_id : ℕ) → copies (backend.touch_last_login b account_id).0 ≤ copies b
  pub saves :
      (b : B) (account_id : ℕ) (score kill_count survive_seconds : ℤ)
      → copies (backend.save_score b account_id score kill_count survive_seconds).0 ≤ copies b

module _ {Token C : Type 0} (a : Account) where
  abbrev pub task_worth : Task Token C (Session C) InnerMessage → ℕ
  task_worth (spawned c) = 0
  task_worth (looping k x inbox) = worth a x.account + inbox_worth a inbox
  task_worth (ending k x) = worth a x.account
  task_worth (left p) = 0

  abbrev pub tasks_worth : List (Task Token C (Session C) InnerMessage) → ℕ
  tasks_worth [] = 0
  tasks_worth (t ∷ ts) = task_worth t + tasks_worth ts

  pub tasks_worth-set :
      (n : ℕ) (t u : Task Token C (Session C) InnerMessage)
      (ts : List (Task Token C (Session C) InnerMessage))
      → nth n ts ≡ some u
      → tasks_worth (set n t ts) + task_worth u ≡ tasks_worth ts + task_worth t
  tasks_worth-set n t u [] h = cc
  tasks_worth-set zero t u (v ∷ ts) h = let e : v ≡ u = ground arith in rw e (omega arith)
  tasks_worth-set (suc n) t u (v ∷ ts) h = omega (arith, tasks_worth-set n t u ts h)

  pub tasks_worth-append :
      (ts : List (Task Token C (Session C) InnerMessage)) (c : C)
      → tasks_worth (ts ++ spawned c ∷ []) ≡ tasks_worth ts
  tasks_worth-append [] c = omega arith
  tasks_worth-append (t ∷ ts) c = omega (arith, tasks_worth-append ts c)

pub inbox_worth-append :
    (a : Account) (ms : List InnerMessage) (m : InnerMessage)
    → inbox_worth a (ms ++ m ∷ []) ≡ inbox_worth a ms + message_worth a m
inbox_worth-append a [] m = omega arith
inbox_worth-append a (n ∷ ms) m = omega (arith, inbox_worth-append a ms m)

pub Reply-cases {ℓ} : {A : Type ℓ} (r : Reply A) → ((x : A) × (r ≡ done x)) ⊎ (r ≡ failed)
Reply-cases (done x) = inl (x, refl)
Reply-cases failed = inr refl

-- A piece of work turns a token into at most one message.
pub perform_worth :
    {B : Type 0} (backend : Backend B) (a : Account) (l : Ledger backend a) (b : B) (w : Work)
    → l.copies (perform backend b w).0 + message_worth a (perform backend b w).1 ≤ l.copies b
unfolding perform
perform_worth backend a l b (take_token token) =
    let h = l.takes b token in
    elim (Reply-cases (backend.take_auth_token b token).1) [
      | inl (v, e) ↦ rw e (rw e at h)
      | inr e ↦ rw e (omega (arith, h))
    ]
perform_worth backend a l b (save account_id score kills seconds) =
    let h = l.saves b account_id score kills seconds in
    elim (Reply-cases (backend.save_score b account_id score kills seconds).1) [
      | inl (v, e) ↦ rw e (omega (arith, h))
      | inr e ↦ rw e (omega (arith, h))
    ]
