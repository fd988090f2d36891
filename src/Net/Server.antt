-- ===== src/Net/Server.antt =====
-- `serve` of crates/game_server/src/lib.rs and crates/login_server/src/lib.rs: the accept loop, the
-- session tasks that it spawns, the work that these spawn, and the forced disconnects of the admin
-- API, over one registry. The tasks interleave: a step takes one task from one `await` to the next.
pub mod Interface
pub mod Roster
pub mod Steps
pub mod Reachable
pub mod Kicks
pub mod Departure
pub mod Drain
pub mod Endings
pub mod Served
use rust_gameserver.Base.{
  ℕ, zero, suc, ◌+◌, ◌%◌, ◌≡◌, Bool, true, false, ◌&&◌, List, [], ◌∷◌, ◌++◌, map, Option, none,
  some, length, if◌then◌else◌,
}
use rust_gameserver.Net.Cancellation.{Cancellation, Children}
use rust_gameserver.Net.Consts.{u32_mod}
use rust_gameserver.Net.Stats.{generate}
use rust_gameserver.Net.Acceptor.{IpAddr, ConnectionGuard, default, should_block}
use rust_gameserver.Net.Registry.{Registry, register, remove, disconnect}
use rust_gameserver.Net.Registry as Registries
use rust_gameserver.Net.Outbox.{ControlFlow, continue, break}
use rust_gameserver.Net.SelectLoop.{Frame, pending, received, receive_error, closed, Poll}
use rust_gameserver.Net.Server.Interface.{Program, Passed, Backing}

-- A task whose session has left the registry: it waits for the writer to empty the queue or to be
-- aborted; it is about to write the logout, after some failed attempts; it waits after a failed one;
-- it is over.
pub data Leaving (X : Type 0) : Type 0 where
  closing : X → Leaving X
  writing : X → (attempt : ℕ) → Leaving X
  waiting : X → (attempt : ℕ) → Leaving X
  over : Leaving X

-- A task of the tracker: not yet polled; in its event loop, with the messages that wait for it (those
-- in the channel, then those whose senders wait for room); behind the loop; behind the registry.
pub data Task (Token C X M : Type 0) : Type 0 where
  spawned : C → Task Token C X M
  looping : Token → X → List M → Task Token C X M
  ending : Token → X → Task Token C X M
  left : Leaving X → Task Token C X M

-- `begun` counts the tasks that have drawn a session id; the source has only `next_id`, which wraps.
pub record Server (Token Store B C X W M : Type 0) : Type 0 where
  pub shutdown : Token
  pub guard : ConnectionGuard
  pub next_id : ℕ
  pub begun : ℕ
  pub tasks : List (Task Token C X M)
  pub registry : Registry Token
  pub tokens : Store
  pub work : List (ℕ × W)
  pub backend : B

module _ {A : Type 0} where
  abbrev pub nth : ℕ → List A → Option A
  nth n [] = none
  nth zero (x ∷ xs) = some x
  nth (suc n) (x ∷ xs) = nth n xs

  abbrev pub set : ℕ → A → List A → List A
  set n a [] = []
  set zero a (x ∷ xs) = a ∷ xs
  set (suc n) a (x ∷ xs) = x ∷ set n a xs

  abbrev pub drop_at : ℕ → List A → List A
  drop_at n [] = []
  drop_at zero (x ∷ xs) = xs
  drop_at (suc n) (x ∷ xs) = x ∷ drop_at n xs

  abbrev pub first : List A → Option A
  first [] = none
  first (x ∷ xs) = some x

  abbrev pub rest : List A → List A
  rest [] = []
  rest (x ∷ xs) = xs

module _ {Token Store B C X W M : Type 0} (can : Cancellation Token Store) (kids : Children can)
    (prog : Program can C X W M) (backing : Backing B X W M) where
  abbrev pub State : Type 0
  State = Server Token Store B C X W M

  abbrev pub init : Token → Store → B → State
  init shutdown tokens backend = record {
    shutdown = shutdown;
    guard = default;
    next_id = 0;
    begun = 0;
    tasks = [];
    registry = Registries.default;
    tokens = tokens;
    work = [];
    backend = backend;
  }

  -- The guard, and for a connection that it lets through a new task.
  unfoldable pub accept : State → IpAddr → ℕ → C → State
  accept s addr now c =
      let (guard, blocked) = should_block s.guard addr now in
      record s { guard = guard; tasks = if blocked then s.tasks else s.tasks ++ spawned c ∷ [] }

  abbrev pub greeted : Token → X × ControlFlow → Task Token C X M
  greeted kick (x, continue) = looping kick x []
  greeted kick (x, break) = ending kick x

  abbrev pub begin_with : State → ℕ → ℕ → Option (Task Token C X M) → State
  begin_with s n now (some (spawned c)) =
      let (id, next_id) = generate s.next_id in
      let (kick, tokens) = kids.child_token s.shutdown s.tokens in
      record s {
        next_id = next_id;
        begun = s.begun + 1;
        tasks = set n (greeted kick (prog.greet (prog.begin id now c))) s.tasks;
        registry = register s.registry id kick;
        tokens = tokens;
      }
  begin_with s n now other = s

  -- The first poll of a task: its id, its kick token, its place in the registry, the greeting.
  unfoldable pub begin : State → ℕ → ℕ → State
  begin s n now = begin_with s n now (nth n s.tasks)

  -- `select!` takes an inner message only if no frame is there.
  abbrev pub unread : Frame → List M → List M
  unread pending inbox = rest inbox
  unread (received m) inbox = inbox
  unread receive_error inbox = inbox
  unread closed inbox = inbox

  abbrev pub passed : Token → X → List M → ControlFlow → Task Token C X M
  passed kick x inbox continue = looping kick x inbox
  passed kick x inbox break = ending kick x

  abbrev pub pass_with : State → ℕ → ℕ → Frame → Option (Task Token C X M) → State
  pass_with s n now frame (some (looping kick x inbox)) =
      let q =
        prog.pass kick s.registry s.tokens x
          (record { now = now; others = []; frame = frame; inner = first inbox }) in
      record s {
        tasks = set n (passed kick q.own (unread frame inbox) q.flow) s.tasks;
        registry = q.registry;
        tokens = q.tokens;
        work = s.work ++ map (λ w. (n, w)) q.work;
      }
  pass_with s n now frame other = s

  -- One pass of a task's loop.
  unfoldable pub pass : State → ℕ → ℕ → Frame → State
  pass s n now frame = pass_with s n now frame (nth n s.tasks)

  abbrev pub finish_with : State → ℕ → Option (Task Token C X M) → State
  finish_with s n (some (ending kick x)) = record s {
    tasks = set n (left (closing x)) s.tasks;
    registry = remove s.registry (prog.id x);
  }
  finish_with s n other = s

  -- The session leaves the registry behind its loop.
  unfoldable pub finish : State → ℕ → State
  finish s n = finish_with s n (nth n s.tasks)

  -- One step of a task behind the registry, from one `await` to the next. `writer.close` waits for a
  -- second at most, so it always comes back. `stopped` tells whether the shutdown token is cancelled,
  -- and `fires` whether the delay after a failed write is over, which `select!` may take although the
  -- token is cancelled too.
  unfoldable pub leaving : B → (stopped fires : Bool) → Leaving X → B × Leaving X
  leaving b stopped fires (closing x) = elim (backing.logout x) [
    | none ↦ (b, over)
    | some write ↦ (b, writing x 0)
  ]
  leaving b stopped fires (writing x attempt) = elim (backing.logout x) [
    | none ↦ (b, over)
    | some write ↦ let (b', fine) = write b in (b', if fine then over else waiting x attempt)
  ]
  leaving b stopped fires (waiting x attempt) = (
    b,
    if fires
        then writing x ((attempt + 1) % u32_mod)
        else if stopped
        then over
        else waiting x attempt,
  )
  leaving b stopped fires over = (b, over)

  abbrev pub leave_with : State → ℕ → Bool → Option (Task Token C X M) → State
  leave_with s n fires (some (left p)) =
      let (b, p') = leaving s.backend (can.is_cancelled s.shutdown s.tokens) fires p in
      record s { tasks = set n (left p') s.tasks; backend = b }
  leave_with s n fires other = s

  -- What `run` does behind the registry.
  unfoldable pub leave : State → ℕ → Bool → State
  unfolding leaving
  leave s n fires = leave_with s n fires (nth n s.tasks)

  -- The writer of a task fails to send, and cancels the kick token. (Behind the loop nobody looks at
  -- the token.)
  abbrev pub fail_write_with : State → Option (Task Token C X M) → State
  fail_write_with s (some (looping kick x inbox)) = record s { tokens = can.cancel kick s.tokens }
  fail_write_with s other = s

  unfoldable pub fail_write : State → ℕ → State
  fail_write s n = fail_write_with s (nth n s.tasks)

  -- To a task whose loop has ended the message is lost.
  abbrev pub post :
      M → Option (Task Token C X M) → ℕ → List (Task Token C X M) → List (Task Token C X M)
  post m (some (looping kick x inbox)) n tasks = set n (looping kick x (inbox ++ m ∷ [])) tasks
  post m other n tasks = tasks

  abbrev pub deliver_with : State → ℕ → Option (ℕ × W) → State
  deliver_with s i none = s
  deliver_with s i (some (n, w)) =
      let (b, m) = backing.perform s.backend w in
      record s { backend = b; work = drop_at i s.work; tasks = post m (nth n s.tasks) n s.tasks }

  -- A future that a session spawned is done, and its result is sent to the session.
  unfoldable pub deliver : State → ℕ → State
  deliver s i = deliver_with s i (nth i s.work)

  unfoldable pub force_disconnect : State → ℕ → State
  force_disconnect s id = record s { tokens = (disconnect can s.registry s.tokens id).1 }

  unfoldable pub shut_down : State → State
  shut_down s = record s { tokens = can.cancel s.shutdown s.tokens }

  -- The accept loop ends when `shutdown` is cancelled.
  pub data Step (s : State) : State → Type 0 where
    accepts :
        (addr : IpAddr) (now : ℕ) (c : C)
        → can.is_cancelled s.shutdown s.tokens ≡ false
        → Step s (accept s addr now c)
    begins : (n now : ℕ) → Step s (begin s n now)
    passes : (n now : ℕ) (frame : Frame) → Step s (pass s n now frame)
    finishes : (n : ℕ) → Step s (finish s n)
    leaves : (n : ℕ) (fires : Bool) → Step s (leave s n fires)
    fails_write : (n : ℕ) → Step s (fail_write s n)
    delivers : (i : ℕ) → Step s (deliver s i)
    disconnects : (id : ℕ) → Step s (force_disconnect s id)
    shuts_down : Step s (shut_down s)

  pub data Reach (s : State) : State → Type 0 where
    here : Reach s s
    next : {t u : State} → Reach s t → Step t u → Reach s u

  abbrev pub is_gone : Task Token C X M → Bool
  is_gone (left over) = true
  is_gone other = false

  abbrev pub all_gone : List (Task Token C X M) → Bool
  all_gone [] = true
  all_gone (t ∷ ts) = is_gone t && all_gone ts

  -- `serve` returns when the accept loop has ended and no task is left.
  unfoldable pub is_served : State → Bool
  is_served s = can.is_cancelled s.shutdown s.tokens && all_gone s.tasks
