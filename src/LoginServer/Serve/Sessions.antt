-- ===== src/LoginServer/Serve/Sessions.antt =====
-- The whole login server, `serve` of crates/login_server/src/lib.rs with the forced disconnect of
-- crates/login_server/src/admin/handlers.rs: its sessions in every state that it can reach.
use rust_gameserver.Base.{ℕ, ◌<◌, ◌≡◌, ◌≢◌, ◌⊎◌, true, Bool, List, Option, some, Bytes, arith}
use rust_gameserver.Net.Cancellation.{Cancellation, Children}
use rust_gameserver.Net.Consts.{u64_mod}
use rust_gameserver.Net.Outbox.{Channel}
use rust_gameserver.Net.Registry.{disconnect}
use rust_gameserver.Net.SelectLoop.{Frame}
use rust_gameserver.Net.Server.{State, init, nth, Reach, looping, ending, pass, force_disconnect}
use rust_gameserver.Net.Server.Steps.{live, IsWell}
use rust_gameserver.Net.Server.Kicks.{pass-ending, force_disconnect_lem}
use rust_gameserver.Net.Server.Roster.{mirrored_exclusive}
use rust_gameserver.Net.Server.Reachable.{init-IsWell, Reach-IsWell}
use rust_gameserver.Db.Password.{Crypto}
use rust_gameserver.LoginServer.Authenticate.{LoginOutcome}
use rust_gameserver.LoginServer.Backend.{Backend}
use rust_gameserver.LoginServer.Session.{Session, Work}
use rust_gameserver.LoginServer.Serve.{user_of, backing}
use rust_gameserver.LoginServer.Serve.Task.{program}

module _ {Token Store B C : Type 0} (can : Cancellation Token Store) (kids : Children can)
    (ch : Channel C) (backend : Backend B) (c : Crypto) (joins : B → Work → Bool)
    (timeout : ℕ) where
  abbrev pub Login : Type 0
  Login = State can kids (program can ch timeout) (backing backend c joins)

  -- The states that follow the server with no connection yet.
  abbrev pub Reachable : Token → Store → B → Login → Type 0
  Reachable shutdown tokens b t =
      Reach can kids (program can ch timeout) (backing backend c joins)
        (init can kids (program can ch timeout) (backing backend c joins) shutdown tokens b) t

  -- The kick token and the session of the `n`-th task, while it has one.
  abbrev pub session_of : Login → ℕ → Option (Token × Session C)
  session_of t n = live (nth n t.tasks)

  Reachable-IsWell :
      (shutdown : Token) (tokens : Store) (b : B) (t : Login)
      → Reachable shutdown tokens b t
      → t.begun < u64_mod
      → IsWell can kids (program can ch timeout) (backing backend c joins) t
  Reachable-IsWell shutdown tokens b t r bound =
      Reach-IsWell can kids (program can ch timeout) (backing backend c joins)
        (init can kids (program can ch timeout) (backing backend c joins) shutdown tokens b) t r
        bound
        (init-IsWell can kids (program can ch timeout) (backing backend c joins) shutdown tokens b)

  -- In every state that the login server reaches with fewer than 2^64 session ids drawn: of two
  -- tasks whose sessions are logged in as the same user one has been told to end.
  pub login_sessions_exclusive :
      (shutdown : Token) (tokens : Store) (b : B) (t : Login)
      → Reachable shutdown tokens b t
      → t.begun < u64_mod
      → (m n : ℕ) (k l : Token) (x y : Session C) (u : Bytes) → session_of t m ≡ some (k, x)
      → session_of t n ≡ some (l, y)
      → user_of x.account ≡ some u
      → user_of y.account ≡ some u
      → m ≢ n
      → (can.is_cancelled k t.tokens ≡ true) ⊎ (can.is_cancelled l t.tokens ≡ true)
  unfolding program
  login_sessions_exclusive shutdown tokens b t r bound =
      let v = Reachable-IsWell shutdown tokens b t r bound in
      mirrored_exclusive can kids (program can ch timeout) t.shutdown t.begun (session_of t)
        t.registry t.tokens v.1

  -- The admin API's forced disconnect reaches the task: in a reachable state (fewer than 2^64
  -- session ids drawn), disconnecting the id of a session that is in its loop is answered with
  -- true, and at its next pass the task leaves the loop, whatever is ready for it then.
  pub disconnect_ends_session :
      (shutdown : Token) (tokens : Store) (b : B) (t : Login)
      → Reachable shutdown tokens b t
      → t.begun < u64_mod
      → (n now : ℕ) (k : Token) (x : Session C) (inbox : List LoginOutcome) (frame : Frame)
      → nth n t.tasks ≡ some (looping k x inbox)
      → (let s =
            force_disconnect can kids
              (program can ch timeout)
              (backing backend c joins)
              t
              x.session_id in
          let p = pass can kids (program can ch timeout) (backing backend c joins) s n now frame in
          ((disconnect can t.registry t.tokens x.session_id).0 ≡ true)
          × ((y : Session C) × (nth n p.tasks ≡ some (ending k y))))
  unfolding program force_disconnect
  disconnect_ends_session shutdown tokens b t r bound n now k x inbox frame h =
      let s =
        force_disconnect can kids (program can ch timeout) (backing backend c joins) t
          x.session_id in
      let v = Reachable-IsWell shutdown tokens b t r bound in
      let (answer, cancelled) =
        force_disconnect_lem can kids (program can ch timeout) (backing backend c joins) t n k x v
          (ground arith) in
      (
        answer,
        pass-ending can kids (program can ch timeout) (backing backend c joins) s n k x now frame
            inbox h cancelled,
      )
