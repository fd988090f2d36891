-- ===== src/Net/Server/Served.antt =====
-- When `serve` (crates/game_server/src/lib.rs, crates/login_server/src/lib.rs) returns.
use rust_gameserver.Base.{
  ℕ, zero, suc, ◌+◌, ◌<◌, ◌≤◌, ◌≡◌, refl, ◌∙◌, inl, inr, subst, sym, Bool, true, List, [], ◌∷◌,
  Option, none, length, ℕ_discrete, dec_lt, arith, Option-cases,
}
use rust_gameserver.Net.Cancellation.{Cancellation, Children}
use rust_gameserver.Net.Consts.{u64_mod}
use rust_gameserver.Net.Registry.Lookup.{session}
use rust_gameserver.Net.SelectLoop.{Frame}
use rust_gameserver.Net.Server.{Task, State, nth, is_served, all_gone}
use rust_gameserver.Net.Server.Interface.{Program, Backing}
use rust_gameserver.Net.Server.Drain.{IsStopped}
use rust_gameserver.Net.Server.Endings.{IsDone, end_task, end_task_lem}
use rust_gameserver.Net.Server.Steps.{live, IsWell}

module _ {Token Store B C X W M : Type 0} (can : Cancellation Token Store) (kids : Children can)
    (prog : Program can C X W M) (backing : Backing B X W M) where
  abbrev S : Type 0
  S = State can kids prog backing

  -- Every task from the `n`-th on is polled until it ends, at the times and with the frames given;
  -- the flag is for a task that waits to repeat its logout (see `end_task`).
  unfoldable pub end_all : S → ℕ → List (ℕ × Frame × Bool) → S
  unfolding end_task
  end_all s n [] = s
  end_all s n ((now, f, fires) ∷ polls) =
      end_all (end_task can kids prog backing s n now f fires) (suc n) polls

  end_all_lem :
      (s : S) (n : ℕ) (polls : List (ℕ × Frame × Bool))
      → IsStopped can kids prog backing s
      → IsWell can kids prog backing s
      → s.begun + length polls < u64_mod
      → ((m : ℕ) → m < n → IsDone can kids prog backing (nth m s.tasks))
      → ((m : ℕ) → n + length polls ≤ m → nth m s.tasks ≡ none)
      → ((m : ℕ) → IsDone can kids prog backing (nth m (end_all s n polls).tasks))
        × IsStopped can kids prog backing (end_all s n polls)
        × IsWell can kids prog backing (end_all s n polls)
  unfolding end_all
  end_all_lem s n [] c v b done out =
      (λ m. elim (dec_lt m n) [ yes p ↦ done m p | no p ↦ inl (out m (omega arith)) ], c, v)
  end_all_lem s n ((now, f, fires) ∷ polls) c v b done out =
      let (mine, (others, c', v', b')) =
        end_task_lem can kids prog backing s n now f fires c v (omega arith) in
      end_all_lem (end_task can kids prog backing s n now f fires) (suc n) polls c' v'
        (omega (arith, b'))
        (λ m le. elim (ℕ_discrete n m) [
          | yes e ↦
              subst
                (λ k.
                  IsDone can kids prog backing
                    (nth k (end_task can kids prog backing s n now f fires).tasks))
                e mine
          | no ne ↦ subst (IsDone can kids prog backing) (sym (others m ne)) (done m (omega arith))
        ])
        (λ m le. others m (omega arith) ∙ out m (omega arith))

  all_gone-IsDone :
      (ts : List (Task Token C X M))
      → ((m : ℕ) → IsDone can kids prog backing (nth m ts))
      → all_gone can kids prog backing ts ≡ true
  all_gone-IsDone [] h = refl
  all_gone-IsDone (t ∷ ts) h = ground (arith, h zero, all_gone-IsDone ts (λ m. h (suc m)))

  nth-past : (ts : List (Task Token C X M)) (m : ℕ) → length ts ≤ m → nth m ts ≡ none
  nth-past [] m h = refl
  nth-past (t ∷ ts) zero h = absurd (omega arith)
  nth-past (t ∷ ts) (suc m) h = nth-past ts m (omega arith)

  live-IsDone : (o : Option (Task Token C X M)) → IsDone can kids prog backing o → live o ≡ none
  live-IsDone o (inl e) = rw e refl
  live-IsDone o (inr (p, e, v)) = rw e refl

  -- Once all tasks are done `serve` returns, and no session is registered.
  pub drained :
      (s : S) (polls : List (ℕ × Frame × Bool))
      → IsStopped can kids prog backing s
      → IsWell can kids prog backing s
      → s.begun + length polls < u64_mod
      → length polls ≡ length s.tasks
      → (is_served can kids prog backing (end_all s 0 polls) ≡ true)
        × ((j : ℕ) → session (end_all s 0 polls).registry j ≡ none)
  unfolding is_served
  drained s polls c v b e =
      let (done, c', v') =
        end_all_lem s 0 polls c v b (λ m l. absurd (omega arith))
          (λ m l. nth-past s.tasks m (omega arith)) in
      let t = end_all s 0 polls in
      (
        ground (arith, all_gone-IsDone t.tasks done, c'),
        λ j. elim (Option-cases (session t.registry j)) [
          | inl h ↦ h
          | inr (d, h) ↦
              let (n, k, x, at, q) = v'.1.owned j d h in
              let no = live-IsDone (nth n t.tasks) (done n) in absurd (cc)
        ],
      )
