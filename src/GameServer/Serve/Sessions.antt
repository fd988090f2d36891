-- ===== src/GameServer/Serve/Sessions.antt =====
-- The whole game server, `serve` of crates/game_server/src/lib.rs: its sessions in every state that
-- it can reach.
use rust_gameserver.Base.{
  ℕ, ◌+◌, ◌<◌, ◌≡◌, ◌≢◌, ◌⊎◌, Bool, true, List, Option, none, some, Bytes, arith, length,
}
use rust_gameserver.Net.Cancellation.{Cancellation, Children}
use rust_gameserver.Net.Consts.{u64_mod}
use rust_gameserver.Net.Outbox.{Channel}
use rust_gameserver.Net.Registry.{Entry}
use rust_gameserver.Net.Registry.Lookup.{session}
use rust_gameserver.Net.SelectLoop.{Frame}
use rust_gameserver.Net.Server.{State, init, nth, Reach, is_served}
use rust_gameserver.Net.Server.Steps.{live, IsWell}
use rust_gameserver.Net.Server.Roster.{mirrored_exclusive}
use rust_gameserver.Net.Server.Reachable.{init-IsWell, Reach-IsWell}
use rust_gameserver.Net.Server.Served.{end_all, drained}
use rust_gameserver.GameServer.Backend.{Backend}
use rust_gameserver.GameServer.Session.{Session}
use rust_gameserver.GameServer.Serve.{user_of, backing}
use rust_gameserver.GameServer.Serve.Task.{program}

module _ {Token Store B C : Type 0} (can : Cancellation Token Store) (kids : Children can)
    (ch : Channel C) (backend : Backend B) (timeout : ℕ) where
  abbrev pub Game : Type 0
  Game = State can kids (program can ch timeout) (backing backend)

  -- The server with no connection yet.
  abbrev pub started : Token → Store → B → Game
  started shutdown tokens b =
      init can kids (program can ch timeout) (backing backend) shutdown tokens b

  abbrev pub Reachable : Token → Store → B → Game → Type 0
  Reachable shutdown tokens b t =
      Reach can kids (program can ch timeout) (backing backend) (started shutdown tokens b) t

  -- The kick token and the session of the `n`-th task, while it has one.
  abbrev pub session_of : Game → ℕ → Option (Token × Session C)
  session_of t n = live (nth n t.tasks)

  Reachable-IsWell :
      (shutdown : Token) (tokens : Store) (b : B) (t : Game)
      → Reachable shutdown tokens b t
      → t.begun < u64_mod
      → IsWell can kids (program can ch timeout) (backing backend) t
  Reachable-IsWell shutdown tokens b t r bound =
      Reach-IsWell can kids (program can ch timeout) (backing backend) (started shutdown tokens b) t
        r bound (init-IsWell can kids (program can ch timeout) (backing backend) shutdown tokens b)

  -- In every state that the game server reaches, whatever the interleaving of connections, polls,
  -- finished work and disconnects, and as long as fewer than 2^64 session ids were drawn: of two
  -- tasks whose sessions are authenticated as the same user one has been told to end.
  pub game_sessions_exclusive :
      (shutdown : Token) (tokens : Store) (b : B) (t : Game)
      → Reachable shutdown tokens b t
      → t.begun < u64_mod
      → (m n : ℕ) (k l : Token) (x y : Session C) (u : Bytes) → session_of t m ≡ some (k, x)
      → session_of t n ≡ some (l, y)
      → user_of x.account ≡ some u
      → user_of y.account ≡ some u
      → m ≢ n
      → (can.is_cancelled k t.tokens ≡ true) ⊎ (can.is_cancelled l t.tokens ≡ true)
  unfolding program
  game_sessions_exclusive shutdown tokens b t r bound =
      let v = Reachable-IsWell shutdown tokens b t r bound in
      mirrored_exclusive can kids (program can ch timeout) t.shutdown t.begun (session_of t)
        t.registry t.tokens v.1

  -- In every state that the game server reaches with fewer than 2^64 session ids drawn, the registry
  -- lists the sessions of its tasks and no others: each under its own id, with its kick token, and
  -- with the user that it is authenticated as; and the ids of two tasks differ.
  pub game_registry_mirrors :
      (shutdown : Token) (tokens : Store) (b : B) (t : Game)
      → Reachable shutdown tokens b t
      → t.begun < u64_mod
      → ((n : ℕ) (k : Token) (x : Session C)
          → session_of t n ≡ some (k, x)
          → session t.registry x.session_id
            ≡ some (record { user_id = user_of x.account; kick = k }))
        × ((j : ℕ) (e : Entry Token)
            → session t.registry j ≡ some e
            → (n : ℕ) × (k : Token) × (x : Session C) × (session_of t n ≡ some (k, x))
              × (x.session_id ≡ j))
        × ((m n : ℕ) (k l : Token) (x y : Session C)
            → session_of t m ≡ some (k, x)
            → session_of t n ≡ some (l, y)
            → x.session_id ≡ y.session_id
            → m ≡ n)
  unfolding program
  game_registry_mirrors shutdown tokens b t r bound =
      let v = (Reachable-IsWell shutdown tokens b t r bound).1 in (v.listed, v.owned, v.distinct)

  -- Once `shutdown` is cancelled, polling every task of a reachable state until it ends, at any
  -- times and whatever the clients send, lets `serve` return: no task is left, and no session is
  -- registered. A task is polled through its loop, its writer, at most one attempt to write its
  -- logout (two, if it waits to repeat the write and the flag says that its delay is over) and the
  -- wait behind an attempt that failed, whose delay is not over yet. (With fewer than 2^64 session
  -- ids drawn by then.)
  pub game_shutdown_drains :
      (shutdown : Token) (tokens : Store) (b : B) (t : Game) (polls : List (ℕ × Frame × Bool))
      → Reachable shutdown tokens b t
      → can.is_cancelled t.shutdown t.tokens ≡ true
      → t.begun + length polls < u64_mod
      → length polls ≡ length t.tasks
      → (let s = end_all can kids (program can ch timeout) (backing backend) t 0 polls in
          (is_served can kids (program can ch timeout) (backing backend) s ≡ true)
          × ((j : ℕ) → session s.registry j ≡ none))
  game_shutdown_drains shutdown tokens b t polls r c bound e =
      drained can kids (program can ch timeout) (backing backend) t polls c
        (Reachable-IsWell shutdown tokens b t r (omega arith)) bound e
