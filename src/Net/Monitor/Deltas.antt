-- ===== src/Net/Monitor/Deltas.antt =====
-- The packets that the monitor of crates/net/src/monitor.rs reports.
use rust_gameserver.Base.{ℕ, ◌+◌, ◌≤◌, ◌<◌, ◌≡◌, refl, List, [], ◌∷◌, length, arith}
use rust_gameserver.Net.Consts.{u64_mod}
use rust_gameserver.Net.Stats.{snapshot}
use rust_gameserver.Net.Monitor.{Floats, ProcessMetrics, Tick, Line, run, since, sample}

module _ {F : Type 0} (fl : Floats F) where
  -- The packets received and sent of all lines.
  abbrev pub totals : List (Line fl) → ℕ × ℕ
  totals [] = (0, 0)
  totals (l ∷ lines) = (l.received + (totals lines).0, l.sent + (totals lines).1)

  -- The counters at the last tick.
  abbrev pub final : ℕ × ℕ → List (Tick fl) → ℕ × ℕ
  final prev [] = prev
  final prev (t ∷ ticks) = final (t.counters.received, t.counters.sent) ticks

  -- Neither counter falls from one tick to the next, nor passes 2^64.
  abbrev pub IsGrowing : ℕ × ℕ → List (Tick fl) → Type 0
  IsGrowing prev [] = Unit {0}
  IsGrowing prev (t ∷ ticks) =
      (prev.0 ≤ t.counters.received)
      × (prev.1 ≤ t.counters.sent)
      × (t.counters.received < u64_mod)
      × (t.counters.sent < u64_mod)
      × IsGrowing (t.counters.received, t.counters.sent) ticks

  since_lem : (total prev : ℕ) → prev ≤ total → total < u64_mod → since fl total prev + prev ≡ total
  since_lem total prev h l = omega arith

  -- As long as the counters do not wrap, no packet is lost between two lines: the packets of all
  -- lines together are those counted from the start of the monitor to its last tick; and there is
  -- one line for each tick.
  pub totals-run :
      (m : ProcessMetrics F) (prev : ℕ × ℕ) (ticks : List (Tick fl))
      → IsGrowing prev ticks
      → ((totals (run fl m prev ticks)).0 + prev.0 ≡ (final prev ticks).0)
        × ((totals (run fl m prev ticks)).1 + prev.1 ≡ (final prev ticks).1)
        × (length (run fl m prev ticks) ≡ length ticks)
  unfolding run snapshot
  totals-run m prev [] h = (omega arith, omega arith, refl)
  totals-run m (a, b) (t ∷ ticks) (h, k, l, n, g) =
      let (p, q, e) =
        totals-run (sample fl m t.now t.refreshed).0 (t.counters.received, t.counters.sent) ticks
          g in
      let r = since_lem t.counters.received a h l in
      let w = since_lem t.counters.sent b k n in
      (omega (arith, p, r), omega (arith, q, w), omega (arith, e))
