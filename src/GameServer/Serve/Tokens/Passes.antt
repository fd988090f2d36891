-- ===== src/GameServer/Serve/Tokens/Passes.antt =====
-- What one pass of a session's loop makes of its inbox: crates/game_server/src/session.rs.
use rust_gameserver.Base.{
  ℕ, ◌+◌, ◌≤◌, inl, inr, List, [], ◌∷◌, none, some, arith, Bool-cases, Option-cases,
}
use rust_gameserver.Net.Cancellation.{Cancellation, Children}
use rust_gameserver.Net.Outbox.{Channel}
use rust_gameserver.Net.Registry.{Registry}
use rust_gameserver.Net.Registry.Exclusive.{run as run_ops}
use rust_gameserver.Net.SelectLoop.{
  Frame, pending, received, receive_error, closed, turn, on_ready, sleep_until_opt,
}
use rust_gameserver.Net.Server.{first, unread}
use rust_gameserver.GameServer.Backend.{Backend}
use rust_gameserver.GameServer.Token.{Account, parse_token_value}
use rust_gameserver.GameServer.Session.{
  State, Session, InnerMessage, token_taken, score_saved, db_error, on_inner,
}
use rust_gameserver.GameServer.Session.Loop.{handlers}
use rust_gameserver.GameServer.Session.Gate.{on_remote_account}
use rust_gameserver.GameServer.Serve.{pass, backing}
use rust_gameserver.GameServer.Serve.Task.{program}
use rust_gameserver.GameServer.Serve.Tokens.{worth, message_worth, inbox_worth}

module _ {Token Store C : Type 0} (can : Cancellation Token Store) (ch : Channel C)
    (a : Account) where
  -- An inner message adds at most what it is worth.
  on_inner_worth :
      (now : ℕ) (s : State Token Store C) (m : InnerMessage)
      → worth a (on_inner can ch now s m).0.account ≤ worth a s.account + message_worth a m
  unfolding on_inner
  on_inner_worth now s (token_taken none) = omega arith
  on_inner_worth now s (token_taken (some v)) = elim (Option-cases (parse_token_value v)) [
    | inl e ↦ rw e (omega arith)
    | inr (b, e) ↦ rw e (omega arith)
  ]
  on_inner_worth now s score_saved = omega arith
  on_inner_worth now s db_error = omega arith

  module _ {B : Type 0} (kids : Children can) (backend : Backend B) (timeout : ℕ) where
    abbrev pub remaining : Frame → List InnerMessage → List InnerMessage
    remaining = unread can kids (program can ch timeout) (backing backend)

    remaining_worth :
        (f : Frame) (ms : List InnerMessage) → inbox_worth a (remaining f ms) ≤ inbox_worth a ms
    remaining_worth pending [] = omega arith
    remaining_worth pending (m ∷ ms) = omega arith
    remaining_worth (received m) ms = omega arith
    remaining_worth receive_error ms = omega arith
    remaining_worth closed ms = omega arith

    module _ (kick : Token) where
      worth-on_ready :
          (now : ℕ) (s : State Token Store C) (f : Frame) (ms : List InnerMessage)
          → worth a (on_ready (handlers can ch kick timeout) now s f (first ms)).0.account
              + inbox_worth a (remaining f ms)
            ≤ worth a s.account + inbox_worth a ms
      worth-on_ready now s (received m) ms =
          rw (on_remote_account can ch now s m.payload) (omega arith)
      worth-on_ready now s receive_error ms = omega arith
      worth-on_ready now s closed ms = omega arith
      worth-on_ready now s pending (m ∷ ms) = omega (arith, on_inner_worth now s m)
      worth-on_ready now s pending [] =
          let h = handlers can ch kick timeout in
          elim (Bool-cases (sleep_until_opt (h.keep_alive_deadline s) now)) [
            | inl e ↦ rw e (omega arith)
            | inr e ↦ rw e (omega arith)
          ]

      -- What a pass leaves of the session and of its inbox is worth no more than both were.
      pub pass_worth :
          (r : Registry Token) (st : Store) (x : Session C) (now : ℕ) (f : Frame)
          (ms : List InnerMessage)
          → worth a
                (pass can ch timeout kick r st x
                  (record { now = now; others = []; frame = f; inner = first ms })).own.account
              + inbox_worth a (remaining f ms)
            ≤ worth a x.account + inbox_worth a ms
      unfolding pass turn run_ops
      pass_worth r st x now f ms =
          let s : State Token Store C = record {
            session = x;
            registry = r;
            tokens = st;
            spawned = [];
          } in
          elim (Bool-cases (can.is_cancelled kick st)) [
            | inl e ↦ rw e (omega (arith, remaining_worth f ms))
            | inr e ↦ rw e (worth-on_ready now s f ms)
          ]
