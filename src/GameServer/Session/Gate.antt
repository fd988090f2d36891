-- ===== src/GameServer/Session/Gate.antt =====
-- What a session can do before it is authenticated, and how it becomes so:
-- crates/game_server/src/session.rs.
use rust_gameserver.Base.{
  ℕ, ◌≡◌, refl, ◌⊎◌, inl, inr, List, Option, none, some, Bytes, arith, Option-cases, ◌∙◌, subst,
  sym,
}
use rust_gameserver.Proto.{
  Payload, connected_response, keep_alive_request, game_connect_request, pos,
}
use rust_gameserver.Net.Cancellation.{Cancellation}
use rust_gameserver.Net.Registry.{Registry}
use rust_gameserver.Net.Outbox.{Channel}
use rust_gameserver.GameServer.Token.{Account, parse_token_value}
use rust_gameserver.GameServer.Session.{
  State, Session, InnerMessage, token_taken, score_saved, db_error, on_remote, on_inner, send,
}
use rust_gameserver.Net.Registry.Exclusive.{Op}
use rust_gameserver.Net.SelectLoop.{Poll, event_loop}
use rust_gameserver.Net.SelectLoop.Rules.{
  Keeps, event_loop_keeps, Delivered, All-Delivered, All-any,
}
use rust_gameserver.GameServer.Session.Loop.{handlers, start}

-- Without an account a session is in the lobby, at the origin.
abbrev pub IsGated : {C : Type 0} → Option Account → Session C → Type 0
IsGated none s = (s.world_id ≡ 0) × (s.position ≡ (0, 0))
IsGated (some a) s = Unit {0}

-- The account is the old one, or the one that a token value of the poll spells.
abbrev pub CameBy : Option InnerMessage → Option Account → Option Account → Type 0
CameBy i old new =
    (new ≡ old)
    ⊎ ((v : Bytes) × (a : Account) × (i ≡ some (token_taken (some v)))
        × (parse_token_value v ≡ some a)
        × (new ≡ some a))

module _ {Token Store C : Type 0} (can : Cancellation Token Store) (ch : Channel C) where
  pub on_remote_account :
      (now : ℕ) (s : State Token Store C) (p : Option Payload)
      → (on_remote can ch now s p).0.account ≡ s.account
  unfolding on_remote
  on_remote_account now s (some (game_connect_request t)) = ground arith
  on_remote_account now s (some keep_alive_request) = refl
  on_remote_account now s p = ground arith

  on_remote_gated :
      (now : ℕ) (s : State Token Store C) (p : Option Payload)
      → s.account ≡ none
      → ((on_remote can ch now s p).0.world_id ≡ s.world_id)
        × ((on_remote can ch now s p).0.position ≡ s.position)
  unfolding on_remote
  on_remote_gated now s (some (game_connect_request t)) h = ground arith
  on_remote_gated now s (some keep_alive_request) h = ground arith
  on_remote_gated now s p h = ground arith

  on_inner_account :
      (now : ℕ) (s : State Token Store C) (m : InnerMessage)
      → CameBy (some m) s.account (on_inner can ch now s m).0.account
  unfolding on_inner
  on_inner_account now s (token_taken none) = inl refl
  on_inner_account now s (token_taken (some v)) = elim (Option-cases (parse_token_value v)) [
    | inl e ↦ inl (ground arith)
    | inr (a, e) ↦ inr (v, a, refl, e, ground arith)
  ]
  on_inner_account now s score_saved = inl refl
  on_inner_account now s db_error = inl refl

  on_inner_place :
      (now : ℕ) (s : State Token Store C) (m : InnerMessage)
      → ((on_inner can ch now s m).0.world_id ≡ s.world_id)
        × ((on_inner can ch now s m).0.position ≡ s.position)
  unfolding on_inner
  on_inner_place now s (token_taken none) = ground arith
  on_inner_place now s (token_taken (some v)) = ground arith
  on_inner_place now s score_saved = ground arith
  on_inner_place now s db_error = ground arith

  gated_none :
      (s : State Token Store C)
      → IsGated s.account s.session
      → s.account ≡ none
      → (s.world_id ≡ 0) × (s.position ≡ (0, 0))
  gated_none s g h = let k : IsGated none s.session = subst (λ o. IsGated o s.session) h g in k

  IsGated-after :
      (i : Option InnerMessage) (old new : Option Account) (s s' : Session C)
      → CameBy i old new
      → IsGated old s
      → (old ≡ none → (s'.world_id ≡ s.world_id) × (s'.position ≡ s.position))
      → IsGated new s'
  IsGated-after i none none s s' c g same = let (w, q) = same refl in (w ∙ g.0, q ∙ g.1)
  IsGated-after i (some a) none s s' (inl e) g same = absurd (cc)
  IsGated-after i (some a) none s s' (inr (v, b, _, _, e)) g same = absurd (cc)
  IsGated-after i old (some a) s s' c g same = tt

  abbrev Polls : Type 0
  Polls = List (Poll InnerMessage (Op Token))

  module _ (kick : Token) (timeout : ℕ) where
    IsGated-Keeps :
        Keeps (handlers can ch kick timeout) (λ s. IsGated s.account s.session) (λ m. Unit {0})
    IsGated-Keeps = record {
      shared_keeps = λ s ops g. g;
      connected_keeps = λ s g.
          IsGated-after none s.account s.account s.session
            (send can ch s (connected_response (pos 0))).0.session (inl refl) g (λ _. (refl, refl));
      remote_keeps = λ now s p g.
          let s' = (on_remote can ch now s p).0 in
          IsGated-after none s.account s'.account s.session s'.session
            (inl (on_remote_account now s p)) g (on_remote_gated now s p);
      inner_keeps = λ now s m _ g.
          let s' = (on_inner can ch now s m).0 in
          IsGated-after (some m) s.account s'.account s.session s'.session
            (on_inner_account now s m) g (λ _. on_inner_place now s m);
    }

    -- A token value that spells the account is among the inner messages of the polls.
    abbrev pub ByToken : Polls → Account → Type 0
    ByToken ps a =
        (v : Bytes) × Delivered (handlers can ch kick timeout) (token_taken (some v)) ps
        × (parse_token_value v ≡ some a)

    abbrev AccountBy : Polls → Option Account → Type 0
    AccountBy ps none = Unit {0}
    AccountBy ps (some a) = ByToken ps a

    account_after :
        (ps : Polls) (m : InnerMessage) (old new : Option Account)
        → CameBy (some m) old new
        → Delivered (handlers can ch kick timeout) m ps
        → AccountBy ps old
        → AccountBy ps new
    account_after ps m old new (inl e) d v = subst (AccountBy ps) (sym e) v
    account_after ps m old new (inr (v, a, i, p, e)) d _ =
        subst (AccountBy ps) (sym e) (v, ground (arith, d), p)

    account-Keeps :
        (ps : Polls)
        → Keeps
            (handlers can ch kick timeout)
            (λ s. AccountBy ps s.account)
            (λ m. Delivered (handlers can ch kick timeout) m ps)
    account-Keeps ps = record {
      shared_keeps = λ s ops g. g;
      connected_keeps = λ s g. g;
      remote_keeps = λ now s p g. subst (AccountBy ps) (sym (on_remote_account now s p)) g;
      inner_keeps = λ now s m d g.
          account_after ps m s.account (on_inner can ch now s m).0.account
            (on_inner_account now s m) d g;
    }

    module _ (session_id now : ℕ) (outbox : C) (r : Registry Token) (st : Store) (ps : Polls) where
      -- The state when the loop has gone through the polls, or has ended.
      abbrev pub played : State Token Store C
      played =
          (event_loop (handlers can ch kick timeout) (start can ch session_id kick now outbox r st)
            ps).0

      -- Whatever arrives in whichever order, a session that is not authenticated is still in the
      -- lobby, at the origin.
      pub unauthenticated_stays_in_lobby :
          played.account ≡ none → (played.world_id ≡ 0) × (played.position ≡ (0, 0))
      unauthenticated_stays_in_lobby h =
          gated_none played
            (event_loop_keeps (handlers can ch kick timeout) IsGated-Keeps
              (start can ch session_id kick now outbox r st) ps
              (All-any (handlers can ch kick timeout) ps) (unfold start in (refl, refl)))
            h

      -- A session that is authenticated has been delivered a token value that spells its account:
      -- the decimal id, a colon and the user id.
      pub authenticated-ByToken : (a : Account) → played.account ≡ some a → ByToken ps a
      authenticated-ByToken a h = subst (AccountBy ps) h (
          event_loop_keeps (handlers can ch kick timeout) (account-Keeps ps)
            (start can ch session_id kick now outbox r st) ps
            (All-Delivered (handlers can ch kick timeout) ps) (unfold start in tt))
