-- ===== src/Net/Acceptor/History.antt =====
-- crates/net/src/acceptor.rs against the history of what it has let in.
use rust_gameserver.Base.{
  ℕ, ◌+◌, ◌≤◌, ◌≡◌, refl, inl, inr, Bool, true, false, List, [], ◌∷◌, ◌++◌, arith, Option, none,
  some, Bool-cases, ite, leb, ltb, length, if◌then◌else◌, length-append, if_pos, if_neg,
}
use rust_gameserver.Net.Consts.{ban_duration, max_connections_per_window}
use rust_gameserver.Net.Acceptor.{
  IpAddr, to_canonical, is_allowlisted, ConnectionGuard, is_flood_detected, sweep_if_due,
  check_flood, check_ban, should_block, update, ip_discrete, prune, or_default, keep_queue,
}
use rust_gameserver.Net.Acceptor.Prune.{
  count_recent, length-prune-le, prune-prune, prune-append, length-prune, IsPast, IsPast-mono,
  IsPast-append,
}

-- The times at which connections were let in, for each canonical address, oldest first. Connections
-- from loopback are not counted.
abbrev pub History : Type 0
History = IpAddr → List ℕ

-- A connection that is let in joins the history of its address.
abbrev pub admit : History → IpAddr → ℕ → Bool → History
admit h ip now true = h
admit h ip now false = λ j. ite (ip_discrete ip j) (h j ++ now ∷ []) (h j)

abbrev pub queue_of : ConnectionGuard → IpAddr → List ℕ
queue_of g j = or_default (g.timestamps j)

-- From time `t` on, the queues hold what matters of the history, and never more than the limit.
pub record Tracks (g : ConnectionGuard) (h : History) (t : ℕ) : Type 0 where
  pub same : (j : IpAddr) (now : ℕ) → t ≤ now → prune (queue_of g j) now ≡ prune (h j) now
  pub past : (j : IpAddr) → IsPast (h j) t
  pub bounded : (j : IpAddr) → length (queue_of g j) ≤ max_connections_per_window

prune-keep_queue :
    (o : Option (List ℕ)) (s now : ℕ)
    → s ≤ now
    → prune (or_default (keep_queue o s)) now ≡ prune (or_default o) now
unfolding prune
prune-keep_queue none s now h = refl
prune-keep_queue (some q) s now h = ground (arith, prune-prune q s now h)

length-keep_queue :
    (o : Option (List ℕ)) (s : ℕ) → length (or_default (keep_queue o s)) ≤ length (or_default o)
length-keep_queue none s = omega arith
length-keep_queue (some q) s = ground (arith, length-prune-le q s)

sweep-Tracks :
    (g : ConnectionGuard) (h : History) (now : ℕ)
    → Tracks g h now
    → Tracks (sweep_if_due g now) h now
unfolding sweep_if_due
sweep-Tracks g h now v = record {
  same = λ j later le.
      ground (arith, prune-keep_queue (g.timestamps j) now later le, v.same j later le);
  past = v.past;
  bounded = λ j. ground (arith, length-keep_queue (g.timestamps j) now, v.bounded j);
}

-- The verdict of `is_flood_detected`, by the history.
pub flood-count :
    (g : ConnectionGuard) (h : History) (ip : IpAddr) (now : ℕ)
    → Tracks g h now
    → (is_flood_detected g ip now).1 ≡ leb max_connections_per_window (count_recent (h ip) now)
unfolding is_flood_detected
flood-count g h ip now v =
    ground (arith, v.same ip now, length-prune (h ip) now, (v.past ip).ordered)

module _ (g : ConnectionGuard) (h : History) (ip : IpAddr) (now : ℕ) (v : Tracks g h now) where
  flood-same :
      (j : IpAddr) (later : ℕ)
      → now ≤ later
      → prune (queue_of (is_flood_detected g ip now).0 j) later
        ≡ prune (admit h ip now (is_flood_detected g ip now).1 j) later
  unfolding is_flood_detected
  flood-same j later le =
      let queue = prune (queue_of g ip) now in
      ground (
        arith,
        v.same j later le,
        v.same ip later le,
        prune-prune (queue_of g ip) now later le,
        prune-append queue (h ip) (now ∷ []) later,
      )

  flood-IsPast : (j : IpAddr) → IsPast (admit h ip now (is_flood_detected g ip now).1 j) now
  flood-IsPast j = elim (Bool-cases (is_flood_detected g ip now).1) [
    | inl e ↦ rw e (v.past j)
    | inr e ↦ rw e (elim (ip_discrete ip j) [
      | yes p ↦ rw (if_pos _ p) (IsPast-append (h j) now (v.past j))
      | no q ↦ rw (if_neg _ q) (v.past j)
    ])
  ]

  flood-bounded :
      (j : IpAddr) → length (queue_of (is_flood_detected g ip now).0 j) ≤ max_connections_per_window
  unfolding is_flood_detected
  flood-bounded j =
      let queue = prune (queue_of g ip) now in
      ground (
        arith,
        v.bounded j,
        v.bounded ip,
        length-prune-le (queue_of g ip) now,
        length-append queue (now ∷ []),
      )

  flood-Tracks :
      Tracks (is_flood_detected g ip now).0 (admit h ip now (is_flood_detected g ip now).1) now
  flood-Tracks = record { same = flood-same; past = flood-IsPast; bounded = flood-bounded }

pub Tracks-mono :
    (g : ConnectionGuard) (h : History) (s t : ℕ) → s ≤ t → Tracks g h s → Tracks g h t
Tracks-mono g h s t le v = record {
  same = λ j now le'. v.same j now (omega arith);
  past = λ j. IsPast-mono (h j) s t le (v.past j);
  bounded = v.bounded;
}

-- The bans do not matter to the queues.
pub Tracks-bans :
    (g : ConnectionGuard) (h : History) (t : ℕ) (bans : IpAddr → Option ℕ)
    → Tracks g h t
    → Tracks (record g { banned_until = bans }) h t
Tracks-bans g h t bans v = record { same = v.same; past = v.past; bounded = v.bounded }

check_flood-Tracks :
    (g : ConnectionGuard) (h : History) (ip : IpAddr) (now : ℕ)
    → Tracks g h now
    → Tracks (check_flood g ip now).0 (admit h ip now (check_flood g ip now).1) now
unfolding check_flood
check_flood-Tracks g h ip now v =
    let g' = (is_flood_detected g ip now).0 in
    let flooded = (is_flood_detected g ip now).1 in
    let swept = sweep-Tracks g' (admit h ip now flooded) now (flood-Tracks g h ip now v) in
    elim (Bool-cases flooded) [
      | inl e ↦ rw e (
          Tracks-bans (sweep_if_due g' now) h now
            (update (sweep_if_due g' now).banned_until ip (some (now + ban_duration)))
            (rw e at swept))
      | inr e ↦ rw e (rw e at swept)
    ]

check_ban-Tracks :
    (g : ConnectionGuard) (h : History) (ip : IpAddr) (now : ℕ) (o : Option ℕ)
    → Tracks g h now
    → Tracks (check_ban g ip now o).0 (admit h ip now (check_ban g ip now o).1) now
check_ban-Tracks g h ip now none v = check_flood-Tracks g h ip now v
check_ban-Tracks g h ip now (some until) v =
    let lifted = update g.banned_until ip none in
    elim (Bool-cases (ltb now until)) [
      | inl e ↦ rw e v
      | inr e ↦ rw e (
          check_flood-Tracks (record g { banned_until = lifted }) h ip now
            (Tracks-bans g h now lifted v))
    ]

-- The history after a connection and the verdict on it.
abbrev pub record_call : History → IpAddr → ℕ → Bool → History
record_call h addr now blocked =
    if is_allowlisted (to_canonical addr) then h else admit h (to_canonical addr) now blocked

pub should_block-Tracks :
    (g : ConnectionGuard) (h : History) (addr : IpAddr) (now : ℕ)
    → Tracks g h now
    → Tracks (should_block g addr now).0 (record_call h addr now (should_block g addr now).1) now
unfolding should_block
should_block-Tracks g h addr now v =
    let ip = to_canonical addr in
    elim (Bool-cases (is_allowlisted ip)) [
      | inl e ↦ rw e v
      | inr e ↦ rw e (check_ban-Tracks g h ip now (g.banned_until ip) v)
    ]
