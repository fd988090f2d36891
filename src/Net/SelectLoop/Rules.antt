-- ===== src/Net/SelectLoop/Rules.antt =====
-- Invariants of the event loop, the priority of kicks and the timer.
use rust_gameserver.Base.{
  ℕ, ◌≡◌, refl, ◌⊎◌, inl, inr, true, false, List, [], ◌∷◌, Option, none, some, All, arith,
  Bool-cases, if◌then◌else◌,
}
use rust_gameserver.Proto.{Payload}
use rust_gameserver.Net.Outbox.{continue, break, flow-cases}
use rust_gameserver.Net.SelectLoop.{
  Handlers, Frame, pending, received, receive_error, closed, Poll, sleep_until_opt, on_ready, turn,
  turns, event_loop,
}

-- The inner message of a poll, if there is one, is in `G`.
abbrev pub Offers : {M : Type 0} → (M → Type 0) → Option M → Type 0
Offers G none = Unit {0}
Offers G (some m) = G m

module _ {S M O : Type 0} (h : Handlers S M O) where
  -- `P` holds across every step of the loop whose inner messages are in `G`.
  pub record Keeps (P : S → Type 0) (G : M → Type 0) : Type 0 where
    pub shared_keeps : (s : S) (ops : List O) → P s → P (h.shared s ops)
    pub connected_keeps : (s : S) → P s → P (h.send_connected s).0
    pub remote_keeps : (now : ℕ) (s : S) (p : Option Payload) → P s → P (h.on_remote now s p).0
    pub inner_keeps : (now : ℕ) (s : S) (m : M) → G m → P s → P (h.on_inner now s m).0

  module _ {P : S → Type 0} {G : M → Type 0} (k : Keeps P G) where
    on_ready_keeps :
        (now : ℕ) (s : S) (f : Frame) (i : Option M) → Offers G i → P s → P (on_ready h now s f i).0
    on_ready_keeps now s (received m) i g v = k.remote_keeps now s m.payload v
    on_ready_keeps now s receive_error i g v = v
    on_ready_keeps now s closed i g v = v
    on_ready_keeps now s pending (some m) g v = k.inner_keeps now s m g v
    on_ready_keeps now s pending none g v =
        elim (Bool-cases (sleep_until_opt (h.keep_alive_deadline s) now)) [
          | inl e ↦ rw e v
          | inr e ↦ rw e v
        ]

    pub turn_keeps : (s : S) (p : Poll M O) → Offers G p.inner → P s → P (turn h s p).0
    unfolding turn
    turn_keeps s p g v =
        let seen = h.shared s p.others in
        let w = k.shared_keeps s p.others v in
        elim (Bool-cases (h.kicked seen)) [
          | inl e ↦ rw e w
          | inr e ↦ rw e (on_ready_keeps p.now seen p.frame p.inner g w)
        ]

    pub turns_keep :
        (s : S) (ps : List (Poll M O)) → All (λ p. Offers G p.inner) ps → P s → P (turns h s ps).0
    unfolding turns
    turns_keep s [] g v = v
    turns_keep s (p ∷ ps) g v =
        let w = turn_keeps s p g.0 v in
        elim (flow-cases (turn h s p).1) [
          | inl e ↦ rw (e, turns) (turns_keep (turn h s p).0 ps g.1 w)
          | inr e ↦ rw (e, turns) w
        ]

    pub event_loop_keeps :
        (s : S) (ps : List (Poll M O))
        → All (λ p. Offers G p.inner) ps
        → P s
        → P (event_loop h s ps).0
    unfolding event_loop
    event_loop_keeps s ps g v =
        let w = k.connected_keeps s v in
        elim (flow-cases (h.send_connected s).1) [
          | inl e ↦ rw (e, event_loop) (turns_keep (h.send_connected s).0 ps g w)
          | inr e ↦ rw (e, event_loop) w
        ]

  -- The inner message of some poll.
  abbrev pub Delivered : M → List (Poll M O) → Type 0
  Delivered m [] = ⊥
  Delivered m (p ∷ ps) = (p.inner ≡ some m) ⊎ Delivered m ps

  Offers-mono :
      {G G' : M → Type 0} (i : Option M) → ((m : M) → G m → G' m) → Offers G i → Offers G' i
  Offers-mono none f o = tt
  Offers-mono (some m) f o = f m o

  All-Offers-mono :
      {G G' : M → Type 0} (ps : List (Poll M O))
      → ((m : M) → G m → G' m)
      → All (λ p. Offers G p.inner) ps
      → All (λ p. Offers G' p.inner) ps
  All-Offers-mono [] f o = tt
  All-Offers-mono (p ∷ ps) f o = (Offers-mono p.inner f o.0, All-Offers-mono ps f o.1)

  Offers-self : (i : Option M) → Offers (λ m. i ≡ some m) i
  Offers-self none = tt
  Offers-self (some m) = refl

  pub All-Delivered : (ps : List (Poll M O)) → All (λ p. Offers (λ m. Delivered m ps) p.inner) ps
  All-Delivered [] = tt
  All-Delivered (p ∷ ps) = (
    Offers-mono p.inner (λ m e. inl e) (Offers-self p.inner),
    All-Offers-mono ps (λ m d. inr d) (All-Delivered ps),
  )

  Offers-any : (i : Option M) → Offers (λ m. Unit {0}) i
  Offers-any none = tt
  Offers-any (some m) = tt

  pub All-any : (ps : List (Poll M O)) → All (λ p. Offers (λ m. Unit {0}) p.inner) ps
  All-any [] = tt
  All-any (p ∷ ps) = (Offers-any p.inner, All-any ps)

  on_ready_any :
      (P : S → Type 0) (now : ℕ) (s : S) (f : Frame) (i : Option M)
      → P s
      → ((t : ℕ) (p : Option Payload) → P (h.on_remote t s p).0)
      → ((t : ℕ) (m : M) → P (h.on_inner t s m).0)
      → P (on_ready h now s f i).0
  on_ready_any P now s (received m) i v r n = r now m.payload
  on_ready_any P now s receive_error i v r n = v
  on_ready_any P now s closed i v r n = v
  on_ready_any P now s pending (some m) v r n = n now m
  on_ready_any P now s pending none v r n =
      elim (Bool-cases (sleep_until_opt (h.keep_alive_deadline s) now)) [
        | inl e ↦ rw e v
        | inr e ↦ rw e v
      ]

  -- One pass runs at most one handler.
  pub turn_any :
      (P : S → Type 0) (s : S) (p : Poll M O)
      → P (h.shared s p.others)
      → ((t : ℕ) (q : Option Payload) → P (h.on_remote t (h.shared s p.others) q).0)
      → ((t : ℕ) (m : M) → P (h.on_inner t (h.shared s p.others) m).0)
      → P (turn h s p).0
  unfolding turn
  turn_any P s p v r n = elim (Bool-cases (h.kicked (h.shared s p.others))) [
    | inl e ↦ rw e v
    | inr e ↦ rw e (on_ready_any P p.now (h.shared s p.others) p.frame p.inner v r n)
  ]

  -- A kick ends the loop before anything else that is ready is looked at.
  pub turn_kicked :
      (s : S) (p : Poll M O)
      → h.kicked (h.shared s p.others) ≡ true
      → turn h s p ≡ (h.shared s p.others, break)
  unfolding turn
  turn_kicked s p e = rw e

  -- With nothing ready but the timer the loop changes nothing, and ends if the deadline has passed.
  pub turn_idle :
      (s : S) (p : Poll M O)
      → h.kicked (h.shared s p.others) ≡ false
      → p.frame ≡ pending
      → p.inner ≡ none
      → turn h s p ≡ (
        h.shared s p.others,
        if sleep_until_opt (h.keep_alive_deadline (h.shared s p.others)) p.now
            then break
            else continue,
      )
  unfolding turn
  turn_idle s p e f i = rw (e, f, i) (ground arith)
