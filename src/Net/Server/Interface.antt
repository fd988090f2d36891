-- ===== src/Net/Server/Interface.antt =====
-- What `serve` needs of the session task of a server: `session::run` of crates/game_server and
-- crates/login_server, from one `await` to the next. `X` is what a task owns, `W` the work that it
-- spawns and `M` the inner messages.
use rust_gameserver.Base.{ℕ, ◌≡◌, ◌⊎◌, Bool, true, [], List, Option, none, some, Bytes}
use rust_gameserver.Net.Cancellation.{Cancellation}
use rust_gameserver.Net.Registry.{Registry, authenticate}
use rust_gameserver.Net.Registry.Exclusive.{Op}
use rust_gameserver.Net.Outbox.{ControlFlow, break}
use rust_gameserver.Net.SelectLoop.{Poll}

-- One pass through `select!`: what the task owns then, the registry and the kick tokens, the work
-- that it spawned, and whether its loop goes on.
pub record Passed (Token Store X W : Type 0) : Type 0 where
  pub own : X
  pub registry : Registry Token
  pub tokens : Store
  pub work : List W
  pub flow : ControlFlow

-- What the tasks of a server do to its stores: the work that a session spawns, and the write behind
-- its loop, which tells whether it succeeded; `none` is a session that writes nothing then.
pub record Backing (B X W M : Type 0) : Type 0 where
  pub perform : B → W → B × M
  pub logout : X → Option (B → B × Bool)

module _ {Token Store : Type 0} (can : Cancellation Token Store) where
  -- A pass leaves the registry and the tokens, and the user of the session; or it logs its own
  -- session in.
  abbrev pub Effect :
      ℕ → Registry Token → Store → Option Bytes → Registry Token → Store → Option Bytes → Type 0
  Effect id r st u r' st' u' =
      ((r' ≡ r) × (st' ≡ st) × (u' ≡ u))
      ⊎ ((v : Bytes) × (r' ≡ (authenticate can r st id v).0)
          × (st' ≡ (authenticate can r st id v).1)
          × (u' ≡ some v))

  pub record Program (C X W M : Type 0) : Type 0 where
    pub begin : ℕ → ℕ → C → X
    pub greet : X → X × ControlFlow
    pub pass : Token → Registry Token → Store → X → Poll M (Op Token) → Passed Token Store X W
    pub id : X → ℕ
    pub user : X → Option Bytes
    pub begin_id : (n now : ℕ) (c : C) → id (begin n now c) ≡ n
    pub begin_user : (n now : ℕ) (c : C) → user (begin n now c) ≡ none
    pub greet_id : (x : X) → id (greet x).0 ≡ id x
    pub greet_user : (x : X) → user (greet x).0 ≡ user x
    pub pass_id :
        (kick : Token) (r : Registry Token) (st : Store) (x : X) (p : Poll M (Op Token))
        → p.others ≡ []
        → id (pass kick r st x p).own ≡ id x
    pub pass_effect :
        (kick : Token) (r : Registry Token) (st : Store) (x : X) (p : Poll M (Op Token))
        → p.others ≡ []
        → (let q = pass kick r st x p in
            Effect (id x) r st (user x) q.registry q.tokens (user q.own))
    pub pass_kicked :
        (kick : Token) (r : Registry Token) (st : Store) (x : X) (p : Poll M (Op Token))
        → p.others ≡ []
        → can.is_cancelled kick st ≡ true
        → (pass kick r st x p).flow ≡ break
