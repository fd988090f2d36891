-- ===== src/Net/Server/Reachable.antt =====
-- What holds in every state that `serve` (crates/game_server/src/lib.rs, crates/login_server/src/lib.rs)
-- can reach.
use rust_gameserver.Base.{ℕ, ◌<◌, ◌≤◌, ◌≡◌, refl, Bool, Option, none, some, arith}
use rust_gameserver.Net.Cancellation.{Cancellation, Children}
use rust_gameserver.Net.Consts.{u64_mod}
use rust_gameserver.Net.Registry.{disconnect}
use rust_gameserver.Base.Map.{get}
use rust_gameserver.Net.Registry.Exclusive.{default-IsExclusive}
use rust_gameserver.Net.Registry.Tokens.{disconnect_keeps}
use rust_gameserver.Net.SelectLoop.{Frame}
use rust_gameserver.Net.Server.{
  Task, State, init, nth, accept, begin, begin_with, pass, pass_with, finish, finish_with, leave,
  leave_with, fail_write, fail_write_with, leaves, fails_write, looping, spawned, ending, left,
  deliver, deliver_with, force_disconnect, shut_down, Step, accepts, begins, passes, finishes,
  delivers, disconnects, shuts_down, Reach, here, next,
}
use rust_gameserver.Net.Server.Interface.{Program, Backing}
use rust_gameserver.Net.Server.Departure.{leave_with-IsWell}
use rust_gameserver.Net.Server.Steps.{
  IsWell, accept-IsWell, finish_with-IsWell, begin_with-IsWell, pass_with-IsWell,
  deliver_with-IsWell, tokens-IsWell,
}

module _ {Token Store B C X W M : Type 0} (can : Cancellation Token Store) (kids : Children can)
    (prog : Program can C X W M) (backing : Backing B X W M) where
  abbrev S : Type 0
  S = State can kids prog backing

  fail_write_with-IsWell :
      (s : S) (o : Option (Task Token C X M))
      → IsWell can kids prog backing s
      → IsWell can kids prog backing (fail_write_with can kids prog backing s o)
  fail_write_with-IsWell s none v = v
  fail_write_with-IsWell s (some (left p)) v = v
  fail_write_with-IsWell s (some (spawned c)) v = v
  fail_write_with-IsWell s (some (ending k x)) v = v
  fail_write_with-IsWell s (some (looping k x i)) v =
      tokens-IsWell can kids prog backing s (can.cancel k s.tokens) (λ P keeps. keeps k s.tokens) v

  pub Step-IsWell :
      (s t : S)
      → Step can kids prog backing s t
      → t.begun < u64_mod
      → IsWell can kids prog backing s
      → IsWell can kids prog backing t
  unfolding begin pass finish leave fail_write deliver force_disconnect shut_down
  Step-IsWell s t (accepts addr now c h) b v = accept-IsWell can kids prog backing s addr now c v
  Step-IsWell s t (begins n now) b v =
      begin_with-IsWell can kids prog backing s n now (nth n s.tasks) refl b v
  Step-IsWell s t (passes n now frame) b v =
      pass_with-IsWell can kids prog backing s n now frame (nth n s.tasks) refl v
  Step-IsWell s t (finishes n) b v =
      finish_with-IsWell can kids prog backing s n (nth n s.tasks) refl v
  Step-IsWell s t (leaves n fires) b v =
      leave_with-IsWell can kids prog backing s n fires (nth n s.tasks) refl v
  Step-IsWell s t (fails_write n) b v = fail_write_with-IsWell s (nth n s.tasks) v
  Step-IsWell s t (delivers i) b v = deliver_with-IsWell can kids prog backing s i (nth i s.work) v
  Step-IsWell s t (disconnects id) b v =
      tokens-IsWell can kids prog backing s (disconnect can s.registry s.tokens id).1
        (λ P keeps. disconnect_keeps can P keeps s.registry s.tokens id) v
  Step-IsWell s t shuts_down b v =
      tokens-IsWell can kids prog backing s (can.cancel s.shutdown s.tokens)
        (λ P keeps. keeps s.shutdown s.tokens) v

  begun-begin :
      (s : S) (n now : ℕ) (o : Option (Task Token C X M))
      → s.begun ≤ (begin_with can kids prog backing s n now o).begun
  begun-begin s n now o = ground arith

  begun-pass :
      (s : S) (n now : ℕ) (frame : Frame) (o : Option (Task Token C X M))
      → s.begun ≤ (pass_with can kids prog backing s n now frame o).begun
  begun-pass s n now frame o = ground arith

  begun-finish :
      (s : S) (n : ℕ) (o : Option (Task Token C X M))
      → s.begun ≤ (finish_with can kids prog backing s n o).begun
  begun-finish s n o = ground arith

  begun-leave :
      (s : S) (n : ℕ) (fires : Bool) (o : Option (Task Token C X M))
      → s.begun ≤ (leave_with can kids prog backing s n fires o).begun
  begun-leave s n fires o = ground arith

  begun-fail_write :
      (s : S) (o : Option (Task Token C X M))
      → s.begun ≤ (fail_write_with can kids prog backing s o).begun
  begun-fail_write s o = ground arith

  begun-deliver :
      (s : S) (i : ℕ) (o : Option (ℕ × W))
      → s.begun ≤ (deliver_with can kids prog backing s i o).begun
  begun-deliver s i o = ground arith

  Step-begun : (s t : S) → Step can kids prog backing s t → s.begun ≤ t.begun
  unfolding accept begin pass finish leave fail_write deliver force_disconnect shut_down
  Step-begun s t (accepts addr now c h) = omega arith
  Step-begun s t (begins n now) = begun-begin s n now (nth n s.tasks)
  Step-begun s t (passes n now frame) = begun-pass s n now frame (nth n s.tasks)
  Step-begun s t (finishes n) = begun-finish s n (nth n s.tasks)
  Step-begun s t (leaves n fires) = begun-leave s n fires (nth n s.tasks)
  Step-begun s t (fails_write n) = begun-fail_write s (nth n s.tasks)
  Step-begun s t (delivers i) = begun-deliver s i (nth i s.work)
  Step-begun s t (disconnects id) = omega arith
  Step-begun s t shuts_down = omega arith

  Step-shutdown : (s t : S) → Step can kids prog backing s t → t.shutdown ≡ s.shutdown
  unfolding accept begin pass finish leave fail_write deliver force_disconnect shut_down
  Step-shutdown s t (accepts addr now c h) = refl
  Step-shutdown s t (begins n now) = ground arith
  Step-shutdown s t (passes n now frame) = ground arith
  Step-shutdown s t (finishes n) = ground arith
  Step-shutdown s t (leaves n fires) = ground arith
  Step-shutdown s t (fails_write n) = ground arith
  Step-shutdown s t (delivers i) = ground arith
  Step-shutdown s t (disconnects id) = refl
  Step-shutdown s t shuts_down = refl

  pub init-IsWell :
      (shutdown : Token) (tokens : Store) (b : B)
      → IsWell can kids prog backing (init can kids prog backing shutdown tokens b)
  unfolding get
  init-IsWell shutdown tokens b = (
    refl,
    record {
      bounded = λ n k x h. cc;
      distinct = λ m n k l x y h g e. cc;
      listed = λ n k x h. cc;
      owned = λ j e h. cc;
      exclusive = default-IsExclusive can tokens;
      children = λ n k x h. cc;
    },
  )

  pub Reach-IsWell :
      (s t : S)
      → Reach can kids prog backing s t
      → t.begun < u64_mod
      → IsWell can kids prog backing s
      → IsWell can kids prog backing t
  Reach-IsWell s t here b v = v
  Reach-IsWell s t (next {t = u} r st) b v =
      let le = Step-begun u t st in Step-IsWell u t st b (Reach-IsWell s u r (omega arith) v)
