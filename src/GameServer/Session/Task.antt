-- ===== src/GameServer/Session/Task.antt =====
-- The whole task of a connection, `run` of crates/game_server/src/session.rs.
use rust_gameserver.Base.{ℕ, ◌≡◌, refl, Bool, true, false, List, none, some, arith}
use rust_gameserver.Net.Cancellation.{Cancellation}
use rust_gameserver.Net.Registry.{Registry, remove}
use rust_gameserver.Net.Registry.Lookup.{session, session-remove}
use rust_gameserver.Net.Registry.Exclusive.{IsExclusive, register-IsExclusive, remove-IsExclusive}
use rust_gameserver.Net.Outbox.{Channel}
use rust_gameserver.GameServer.Logout.{Round}
use rust_gameserver.GameServer.Session.{State, InnerMessage}
use rust_gameserver.Net.Registry.Exclusive.{Op}
use rust_gameserver.Net.SelectLoop.{Poll, event_loop}
use rust_gameserver.Net.SelectLoop.Rules.{event_loop_keeps, All-any}
use rust_gameserver.GameServer.Session.Loop.{handlers, start, run, Left, finish}
use rust_gameserver.GameServer.Session.Turn.{IsSafe, IsSafe-Keeps}

module _ {Token Store C : Type 0} (can : Cancellation Token Store) (ch : Channel C) where
  module _ (kick : Token) (timeout : ℕ) where
    finish-inv :
        (r : State Token Store C × Bool) (rounds : List Round) (l : Left can ch)
        → finish can ch r rounds ≡ some l
        → l.state ≡ record r.0 { registry = remove r.0.registry r.0.session_id }
    finish-inv (s, false) rounds l h = cc
    finish-inv (s, true) rounds l h = ground arith

    -- When a task is over its session is no longer registered, and the registry that it leaves still
    -- has at most one session of each user that has not been kicked, whatever the other tasks did in
    -- the meantime.
    pub finished_task_is_removed :
        (session_id now : ℕ) (outbox : C) (r : Registry Token) (st : Store)
        (ps : List (Poll InnerMessage (Op Token))) (rounds : List Round) (l : Left can ch)
        → IsExclusive can r st
        → run can ch session_id kick timeout now outbox r st ps rounds ≡ some l
        → (session l.state.registry session_id ≡ none)
          × IsExclusive can l.state.registry l.state.tokens
    unfolding run
    finished_task_is_removed session_id now outbox r st ps rounds l v h =
        let s = start can ch session_id kick now outbox r st in
        let begun : IsSafe can ch s × (s.session_id ≡ session_id) =
          unfold start in (register-IsExclusive can r st session_id kick v, refl) in
        let e = event_loop (handlers can ch kick timeout) s ps in
        let (safe, id) =
          event_loop_keeps (handlers can ch kick timeout)
            (IsSafe-Keeps can ch kick timeout session_id) s ps
            (All-any (handlers can ch kick timeout) ps) begun in
        rw (finish-inv e rounds l h) (
          rw id (rw (session-remove e.0.registry session_id session_id) (ground arith)),
          remove-IsExclusive can e.0.registry e.0.tokens e.0.session_id safe,
        )
