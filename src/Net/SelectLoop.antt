-- ===== src/Net/SelectLoop.antt =====
-- The event loop that the sessions of both servers have in common, `Session::event_loop` of
-- crates/game_server/src/session.rs and crates/login_server/src/session.rs: one state machine over
-- the handlers of a server. One `Poll` is one pass through `select!`: the time, what other tasks did
-- to the shared state before it, and what is ready.
pub mod Rules
use rust_gameserver.Base.{
  ℕ, Bool, true, false, List, [], ◌∷◌, Option, none, some, leb, if◌then◌else◌,
}
use rust_gameserver.Proto.{Payload, MessageWrapper}
use rust_gameserver.Net.Outbox.{ControlFlow, continue, break}

-- `S` is the state of a session with what it shares, `M` its inner messages, and `O` the operations
-- of other tasks.
pub record Handlers (S M O : Type 0) : Type 0 where
  pub shared : S → List O → S
  pub kicked : S → Bool
  pub send_connected : S → S × ControlFlow
  pub on_remote : ℕ → S → Option Payload → S × ControlFlow
  pub on_inner : ℕ → S → M → S × ControlFlow
  pub keep_alive_deadline : S → Option ℕ

-- `reader.next()`.
pub data Frame : Type 0 where
  pending : Frame
  received : MessageWrapper → Frame
  receive_error : Frame
  closed : Frame

pub record Poll (M O : Type 0) : Type 0 where
  pub now : ℕ
  pub others : List O
  pub frame : Frame
  pub inner : Option M

-- Whether the future is ready; without a deadline it never is.
abbrev pub sleep_until_opt : Option ℕ → ℕ → Bool
sleep_until_opt none now = false
sleep_until_opt (some deadline) now = leb deadline now

module _ {S M O : Type 0} (h : Handlers S M O) where
  abbrev pub on_timer : ℕ → S → S × ControlFlow
  on_timer now s =
      if sleep_until_opt (h.keep_alive_deadline s) now then (s, break) else (s, continue)

  abbrev pub on_ready : ℕ → S → Frame → Option M → S × ControlFlow
  on_ready now s (received message) inner = h.on_remote now s message.payload
  on_ready now s receive_error inner = (s, break)
  on_ready now s closed inner = (s, break)
  on_ready now s pending (some message) = h.on_inner now s message
  on_ready now s pending none = on_timer now s

  -- `biased`: the kick, a frame, an inner message and the timer, in this order. If nothing is ready
  -- the loop waits, which changes nothing.
  unfoldable pub turn : S → Poll M O → S × ControlFlow
  turn before p =
      let s = h.shared before p.others in
      if h.kicked s then (s, break) else on_ready p.now s p.frame p.inner

  -- The state, and whether the loop has ended.
  unfoldable pub turns : S → List (Poll M O) → S × Bool
  turns s [] = (s, false)
  turns s (p ∷ ps) = let r = turn s p in elim r.1 [ break ↦ (r.0, true) | continue ↦ turns r.0 ps ]

  unfoldable pub event_loop : S → List (Poll M O) → S × Bool
  event_loop s ps =
      let r = h.send_connected s in elim r.1 [ break ↦ (r.0, true) | continue ↦ turns r.0 ps ]
