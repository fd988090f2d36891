-- ===== src/GameServer/Session/Spawn.antt =====
-- The work that a session hands to the stores: crates/game_server/src/session.rs.
use rust_gameserver.Base.{ℕ, ◌≡◌, refl, List, [], ◌∷◌, ◌++◌, Option, none, some, arith, append-nil}
use rust_gameserver.Proto.{Payload, keep_alive_request, game_over_report, game_connect_request}
use rust_gameserver.Net.Cancellation.{Cancellation}
use rust_gameserver.Net.Outbox.{Channel}
use rust_gameserver.GameServer.Token.{Account}
use rust_gameserver.GameServer.Session.{State, Work, take_token, save, on_remote}

-- The work that a message starts, by whether the session has an account.
abbrev pub work_of : Option Account → Option Payload → List Work
work_of none (some (game_connect_request [])) = []
work_of none (some (game_connect_request (c ∷ t))) = take_token (c ∷ t) ∷ []
work_of (some a) (some (game_over_report score kills seconds)) =
    save a.account_id score kills seconds ∷ []
work_of o p = []

module _ {Token Store C : Type 0} (can : Cancellation Token Store) (ch : Channel C) where
  on_remote-work :
      (now : ℕ) (s : State Token Store C) (p : Option Payload) (o : Option Account)
      → s.account ≡ o
      → (on_remote can ch now s p).0.spawned ≡ s.spawned ++ work_of o p
  unfolding on_remote
  on_remote-work now s (some (game_connect_request [])) none e =
      ground (arith, append-nil s.spawned)
  on_remote-work now s (some (game_connect_request (c ∷ t))) none e = ground arith
  on_remote-work now s (some (game_connect_request t)) (some a) e =
      ground (arith, append-nil s.spawned)
  on_remote-work now s (some keep_alive_request) o e = ground (arith, append-nil s.spawned)
  on_remote-work now s (some (game_over_report score kills seconds)) (some a) e = ground arith
  on_remote-work now s p none e = ground (arith, append-nil s.spawned)
  on_remote-work now s p (some a) e = ground (arith, append-nil s.spawned)

  -- A message starts at most one piece of work: a token lookup for a request with a token before
  -- authentication, and a score, under the account of the session, for a report after it. No other
  -- message reaches the stores.
  pub on_remote_starts :
      (now : ℕ) (s : State Token Store C) (p : Option Payload)
      → (on_remote can ch now s p).0.spawned ≡ s.spawned ++ work_of s.account p
  on_remote_starts now s p = on_remote-work now s p s.account refl
