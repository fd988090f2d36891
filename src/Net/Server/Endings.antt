-- ===== src/Net/Server/Endings.antt =====
-- A task polled until it ends (crates/game_server/src/session.rs, crates/login_server/src/session.rs):
-- its loop, its writer and its logout.
use rust_gameserver.Base.{ℕ, ◌+◌, ◌<◌, ◌≡◌, refl, ◌∙◌, Bool, false, Option}
use rust_gameserver.Net.Cancellation.{Cancellation, Children}
use rust_gameserver.Net.Consts.{u64_mod}
use rust_gameserver.Net.SelectLoop.{Frame}
use rust_gameserver.Net.Server.{Task, over, State, nth, leave}
use rust_gameserver.Net.Server.Interface.{Program, Backing}
use rust_gameserver.Net.Server.Departure.{
  leave_with-IsWell, IsLeft, leave-IsLeft, leave-other, leave-still, IsClosed, IsIdle,
  leaving-IsClosed, leaving-IsIdle, leaving_over,
}
use rust_gameserver.Net.Server.Drain.{IsStopped, end_loop, end_loop_lem, IsKept}
use rust_gameserver.Net.Server.Steps.{IsWell}

module _ {Token Store B C X W M : Type 0} (can : Cancellation Token Store) (kids : Children can)
    (prog : Program can C X W M) (backing : Backing B X W M) where
  abbrev S : Type 0
  S = State can kids prog backing

  -- Task `n` is polled until it ends: its loop, the writer, one write of the logout, and the wait
  -- behind a write that failed. `fires` is for a task that waits already and whose delay is over: it
  -- may write once more. The delay behind that write lasts half a second at least.
  unfoldable pub end_task : S → ℕ → ℕ → Frame → Bool → S
  unfolding end_loop leave
  end_task s n now frame fires =
      leave can kids prog backing
        (leave can kids prog backing
          (leave can kids prog backing (end_loop can kids prog backing s n now frame) n fires) n
          false)
        n false

  abbrev pub IsDone : Option (Task Token C X M) → Type 0
  IsDone = IsLeft can kids prog backing (λ p. p ≡ over)

  module _ (s : S) (n now : ℕ) (f : Frame) where
    leave-IsKept :
        (t : S) (fires : Bool)
        → IsKept can kids prog backing s n now f t
        → IsKept can kids prog backing s n now f (leave can kids prog backing t n fires)
    unfolding leave
    leave-IsKept t fires (others, c, v, b) =
        let o = nth n t.tasks in
        let (tokens, shutdown, begun) = leave-still can kids prog backing t n fires o in
        (
          λ m ne. leave-other can kids prog backing t n m fires o refl ne ∙ others m ne,
          rw (tokens, shutdown) c,
          leave_with-IsWell can kids prog backing t n fires o refl v,
          rw begun b,
        )

    -- A task that is polled until it ends is over; the others stay, and so does the rest.
    pub end_task_lem :
        (fires : Bool)
        → IsStopped can kids prog backing s
        → IsWell can kids prog backing s
        → s.begun + 1 < u64_mod
        → IsDone (nth n (end_task s n now f fires).tasks)
          × IsKept can kids prog backing s n now f (end_task s n now f fires)
    unfolding end_task leave
    end_task_lem fires c v b =
        let (l0, k0) = end_loop_lem can kids prog backing s n now f c v b in
        let s0 = end_loop can kids prog backing s n now f in
        let s1 = leave can kids prog backing s0 n fires in
        let s2 = leave can kids prog backing s1 n false in
        let k1 = leave-IsKept s0 fires k0 in
        let k2 = leave-IsKept s1 false k1 in
        let l1 =
          leave-IsLeft can kids prog backing (λ p. Unit {0}) (IsClosed can kids prog backing) s0 n
            fires (nth n s0.tasks) (λ o p _. leaving-IsClosed can kids prog backing o _ fires p)
            refl l0 in
        let l2 =
          leave-IsLeft can kids prog backing (IsClosed can kids prog backing)
            (IsIdle can kids prog backing) s1 n false (nth n s1.tasks)
            (λ o p w. leaving-IsIdle can kids prog backing o _ p w) refl l1 in
        let l3 =
          leave-IsLeft can kids prog backing (IsIdle can kids prog backing) (λ p. p ≡ over) s2 n
            false (nth n s2.tasks) (λ o p w. rw k2.1 (leaving_over can kids prog backing o p w))
            refl l2 in
        (l3, leave-IsKept s2 false k2)
