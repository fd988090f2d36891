-- ===== src/GameServer/Session/Turn.antt =====
-- The priorities of `select!`, kicks, the keep-alive timer and the registry around one session:
-- crates/game_server/src/session.rs.
use rust_gameserver.Base.{
  ℕ, ◌+◌, ◌++◌, List, All, ◌≡◌, ◌≢◌, refl, inl, inr, true, false, ◌∷◌, Option, none, some, Bytes,
  arith, is_some, Option-cases, if◌then◌else◌, leb, ◌&&◌, subst₂, sym, ◌∙◌,
}
use rust_gameserver.Proto.{Payload, keep_alive_request, game_connect_request}
use rust_gameserver.Net.Cancellation.{Cancellation}
use rust_gameserver.Net.Registry.{Entry}
use rust_gameserver.Net.Registry.Lookup.{session, holder}
use rust_gameserver.Net.Registry.Exclusive.{
  Op, authenticates, IsExclusive, run-IsExclusive, authenticate-IsExclusive,
}
use rust_gameserver.Net.Registry.Takeover.{IsForeign, run_takeover}
use rust_gameserver.Net.Outbox.{Channel, continue, break}
use rust_gameserver.GameServer.Token.{parse_token_value}
use rust_gameserver.GameServer.Session.{
  State, InnerMessage, token_taken, score_saved, db_error, on_remote, on_inner,
}
use rust_gameserver.Net.SelectLoop.{Poll, pending, turn}
use rust_gameserver.Net.SelectLoop.Rules.{Keeps, turn_kicked, turn_idle}
use rust_gameserver.GameServer.Session.Loop.{handlers, shared}

module _ {Token Store C : Type 0} (can : Cancellation Token Store) (ch : Channel C) where
  -- The login table and the kick tokens.
  abbrev pub IsSafe : State Token Store C → Type 0
  IsSafe s = IsExclusive can s.registry s.tokens

  pub on_remote_shared :
      (now : ℕ) (s : State Token Store C) (p : Option Payload)
      → ((on_remote can ch now s p).0.registry ≡ s.registry)
        × ((on_remote can ch now s p).0.tokens ≡ s.tokens)
  unfolding on_remote
  on_remote_shared now s (some (game_connect_request t)) = ground arith
  on_remote_shared now s (some keep_alive_request) = ground arith
  on_remote_shared now s p = ground arith

  IsSafe-same :
      (s s' : State Token Store C)
      → (s'.registry ≡ s.registry) × (s'.tokens ≡ s.tokens)
      → IsSafe s
      → IsSafe s'
  IsSafe-same s s' e v = subst₂ (IsExclusive can) (sym e.0) (sym e.1) v

  on_inner-IsSafe :
      (now : ℕ) (s : State Token Store C) (m : InnerMessage)
      → IsSafe s
      → IsSafe (on_inner can ch now s m).0
  unfolding on_inner
  on_inner-IsSafe now s (token_taken none) v = v
  on_inner-IsSafe now s (token_taken (some x)) v = elim (Option-cases (parse_token_value x)) [
    | inl e ↦ rw e v
    | inr (a, e) ↦ rw e (authenticate-IsExclusive can s.registry s.tokens s.session_id a.user_id v)
  ]
  on_inner-IsSafe now s score_saved v = v
  on_inner-IsSafe now s db_error v = v

  pub on_remote_id :
      (now : ℕ) (s : State Token Store C) (p : Option Payload)
      → (on_remote can ch now s p).0.session_id ≡ s.session_id
  unfolding on_remote
  on_remote_id now s (some (game_connect_request t)) = ground arith
  on_remote_id now s (some keep_alive_request) = refl
  on_remote_id now s p = ground arith

  pub on_inner_id :
      (now : ℕ) (s : State Token Store C) (m : InnerMessage)
      → (on_inner can ch now s m).0.session_id ≡ s.session_id
  unfolding on_inner
  on_inner_id now s (token_taken none) = refl
  on_inner_id now s (token_taken (some v)) = ground arith
  on_inner_id now s score_saved = refl
  on_inner_id now s db_error = refl

  module _ (kick : Token) (timeout : ℕ) where
    -- The loop keeps the exclusion of the registry, and the session its id.
    pub IsSafe-Keeps :
        (id : ℕ)
        → Keeps (handlers can ch kick timeout) (λ s. IsSafe s × (s.session_id ≡ id)) (λ m. Unit {0})
    IsSafe-Keeps id = record {
      shared_keeps = λ s ops v. (run-IsExclusive can (s.registry, s.tokens) ops v.0, v.1);
      connected_keeps = λ s v. v;
      remote_keeps = λ now s p v. (
        IsSafe-same s (on_remote can ch now s p).0 (on_remote_shared now s p) v.0,
        on_remote_id now s p ∙ v.1,
      );
      inner_keeps = λ now s m _ v. (on_inner-IsSafe now s m v.0, on_inner_id now s m ∙ v.1);
    }

    -- The session that stands for a user ends at the first pass after another session has logged in
    -- as that user, whatever is ready then, and whatever other tasks have done to the registry
    -- before and after that login.
    pub duplicate_login_ends_session :
        (s : State Token Store C) (p : Poll InnerMessage (Op Token)) (id : ℕ) (u : Bytes)
        (e : Entry Token) (before after : List (Op Token))
        → session s.registry s.session_id ≡ some e
        → e.kick ≡ kick
        → holder s.registry u ≡ some s.session_id
        → id ≢ s.session_id
        → p.others ≡ before ++ authenticates id u ∷ after
        → All (IsForeign s.session_id) before
        → (turn (handlers can ch kick timeout) s p).1 ≡ break
    duplicate_login_ends_session s p id u e before after here k h ne o foreign =
        let cancelled =
          run_takeover can s.session_id u kick (s.registry, s.tokens) before after id
            ((e, here, k), inl h) foreign ne in
        let seen : can.is_cancelled kick (shared can ch s p.others).tokens ≡ true =
          rw o cancelled in
        rw (turn_kicked (handlers can ch kick timeout) s p seen)

    -- When neither a kick nor a frame nor an inner message is there, the session changes nothing,
    -- and it ends exactly if it is authenticated and the time of its last keep-alive lies at least
    -- the timeout back.
    pub idle_turn :
        (s : State Token Store C) (p : Poll InnerMessage (Op Token))
        → can.is_cancelled kick (shared can ch s p.others).tokens ≡ false
        → p.frame ≡ pending
        → p.inner ≡ none
        → turn (handlers can ch kick timeout) s p ≡ (
          shared can ch s p.others,
          if is_some s.account && leb (s.last_keep_alive + timeout) p.now then break else continue,
        )
    idle_turn s p h f i = turn_idle (handlers can ch kick timeout) s p h f i ∙ ground arith
