-- ===== src/Net/Server/Kicks.antt =====
-- A forced disconnect against the task that it is for: `disconnect` of crates/net/src/registry.rs and
-- the kick token in `session::run`.
use rust_gameserver.Base.{ℕ, ◌≡◌, refl, inl, inr, true, List, [], some, arith}
use rust_gameserver.Net.Cancellation.{Cancellation, Children}
use rust_gameserver.Net.Registry.{disconnect}
use rust_gameserver.Net.Registry.Exclusive.{Op, disconnect_lem}
use rust_gameserver.Net.SelectLoop.{Frame, Poll}
use rust_gameserver.Net.Server.{
  State, nth, first, looping, ending, pass, pass_with, passed, unread, force_disconnect,
}
use rust_gameserver.Net.Server.Interface.{Program, Backing}
use rust_gameserver.Net.Server.Steps.{nth-set, roster, IsWell}

module _ {Token Store B C X W M : Type 0} (can : Cancellation Token Store) (kids : Children can)
    (prog : Program can C X W M) (backing : Backing B X W M) where
  abbrev S : Type 0
  S = State can kids prog backing

  module _ (s : S) (n : ℕ) (k : Token) (x : X) where
    pass_with-ending :
        (now : ℕ) (f : Frame) (inbox : List M)
        → nth n s.tasks ≡ some (looping k x inbox)
        → can.is_cancelled k s.tokens ≡ true
        → (y : X) × (nth n
              (pass_with can kids prog backing s n now f (some (looping k x inbox))).tasks
            ≡ some (ending k y))
    pass_with-ending now f inbox h c =
        let p : Poll M (Op Token) = record {
          now = now;
          others = [];
          frame = f;
          inner = first inbox;
        } in
        let q = prog.pass k s.registry s.tokens x p in
        let stops = prog.pass_kicked k s.registry s.tokens x p refl c in
        let t =
          passed can kids prog backing k q.own (unread can kids prog backing f inbox) q.flow in
        (q.own, ground (arith, nth-set n n t (looping k x inbox) s.tasks h))

    -- A task whose kick token is cancelled leaves its loop at the next pass.
    pub pass-ending :
        (now : ℕ) (f : Frame) (inbox : List M)
        → nth n s.tasks ≡ some (looping k x inbox)
        → can.is_cancelled k s.tokens ≡ true
        → (y : X) × (nth n (pass can kids prog backing s n now f).tasks ≡ some (ending k y))
    unfolding pass
    pass-ending now f inbox h c = rw h (pass_with-ending now f inbox h c)

    -- A forced disconnect of a live session is answered with true and cancels its kick token.
    pub force_disconnect_lem :
        IsWell can kids prog backing s
        → roster can kids prog backing s n ≡ some (k, x)
        → ((disconnect can s.registry s.tokens (prog.id x)).0 ≡ true)
          × (can.is_cancelled k (force_disconnect can kids prog backing s (prog.id x)).tokens
              ≡ true)
    unfolding force_disconnect
    force_disconnect_lem v h =
        let here = v.1.listed n k x h in
        elim (disconnect_lem can s.registry s.tokens (prog.id x)) [
          | inl (e, missing) ↦ absurd (cc)
          | inr (e, at, answer, cancelled) ↦ (answer, ground arith)
        ]
