-- ===== src/GameServer/Serve/Tokens/Departure.antt =====
-- The logout of a session (crates/game_server/src/session.rs) makes no tokens.
use rust_gameserver.Base.{ℕ, ◌≤◌, inl, inr, arith, Bool, Option-cases}
use rust_gameserver.Net.Cancellation.{Cancellation, Children}
use rust_gameserver.Net.Outbox.{Channel}
use rust_gameserver.Net.Server.{Leaving, closing, writing, waiting, over, leaving}
use rust_gameserver.GameServer.Backend.{Backend}
use rust_gameserver.GameServer.Token.{Account}
use rust_gameserver.GameServer.Session.{Session}
use rust_gameserver.GameServer.Serve.{backing}
use rust_gameserver.GameServer.Serve.Task.{program}
use rust_gameserver.GameServer.Serve.Tokens.{Ledger}

module _ {Token Store B C : Type 0} (can : Cancellation Token Store) (kids : Children can)
    (ch : Channel C) (backend : Backend B) (timeout : ℕ) (a : Account) (l : Ledger backend a) where
  pub leaving_copies :
      (b : B) (stopped fires : Bool) (p : Leaving (Session C))
      → l.copies (leaving can kids (program can ch timeout) (backing backend) b stopped fires p).0
        ≤ l.copies b
  unfolding leaving backing
  leaving_copies b stopped fires (closing x) = elim (Option-cases x.account) [
    | inl e ↦ rw e (omega arith)
    | inr (o, e) ↦ rw e (omega arith)
  ]
  leaving_copies b stopped fires (writing x attempt) = elim (Option-cases x.account) [
    | inl e ↦ rw e (omega arith)
    | inr (o, e) ↦ rw e (l.touches b o.account_id)
  ]
  leaving_copies b stopped fires (waiting x attempt) = omega arith
  leaving_copies b stopped fires over = omega arith
