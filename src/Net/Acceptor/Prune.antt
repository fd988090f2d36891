-- ===== src/Net/Acceptor/Prune.antt =====
-- `prune` of crates/net/src/acceptor.rs against the count of the recent times of a list.
use rust_gameserver.Base.{
  ℕ, suc, ◌-◌, ◌≤◌, ◌≡◌, ◌≢◌, refl, ◌⊎◌, inl, List, [], ◌∷◌, ◌++◌, arith, All, All-append, length,
  ltb, if◌then◌else◌,
}
use rust_gameserver.Net.Consts.{flood_window}
use rust_gameserver.Net.Acceptor.{prune}

-- How many of the times lie within the flood window that ends now.
pub count_recent : List ℕ → ℕ → ℕ
count_recent [] now = 0
count_recent (t ∷ ts) now =
    if ltb flood_window (now - t) then count_recent ts now else suc (count_recent ts now)

abbrev pub Ordered : List ℕ → Type 0
Ordered [] = Unit {0}
Ordered (t ∷ ts) = All (λ u. t ≤ u) ts × Ordered ts

pub length-prune-le : (q : List ℕ) (now : ℕ) → length (prune q now) ≤ length q
unfolding prune
length-prune-le [] now = omega arith
length-prune-le (t ∷ q) now = ground (arith, length-prune-le q now)

-- Pruning again later is pruning once, later.
pub prune-prune : (q : List ℕ) (s now : ℕ) → s ≤ now → prune (prune q s) now ≡ prune q now
unfolding prune
prune-prune [] s now h = refl
prune-prune (t ∷ q) s now h = ground (arith, prune-prune q s now)

split_prune :
    (xs zs : List ℕ) (now : ℕ)
    → ((prune xs now ≡ []) × (prune (xs ++ zs) now ≡ prune zs now))
      ⊎ ((prune xs now ≢ []) × (prune (xs ++ zs) now ≡ prune xs now ++ zs))
unfolding prune
split_prune [] zs now = inl (refl, refl)
split_prune (t ∷ xs) zs now = ground (arith, split_prune xs zs now)

-- What is left of a queue after later arrivals depends only on what is left of it before them.
pub prune-append :
    (xs ys zs : List ℕ) (now : ℕ)
    → prune xs now ≡ prune ys now
    → prune (xs ++ zs) now ≡ prune (ys ++ zs) now
prune-append xs ys zs now e = ground (arith, split_prune xs zs now, split_prune ys zs now)

count_recent-late :
    (t : ℕ) (ts : List ℕ) (now : ℕ)
    → now - t ≤ flood_window
    → All (λ u. t ≤ u) ts
    → count_recent ts now ≡ length ts
unfolding count_recent
count_recent-late t [] now h a = refl
count_recent-late t (u ∷ ts) now h a = ground (arith, count_recent-late t ts now h a.1)

-- On times in order, pruning leaves exactly the recent ones.
pub length-prune :
    (ts : List ℕ) (now : ℕ) → Ordered ts → length (prune ts now) ≡ count_recent ts now
unfolding prune count_recent
length-prune [] now o = refl
length-prune (t ∷ ts) now o = ground (arith, length-prune ts now o.1, count_recent-late t ts now)

All-mono : (s t : ℕ) (ts : List ℕ) → s ≤ t → All (λ u. u ≤ s) ts → All (λ u. u ≤ t) ts
All-mono s t [] h a = tt
All-mono s t (u ∷ ts) h a = (omega arith, All-mono s t ts h a.1)

-- Times in order, none after `now`.
pub record IsPast (ts : List ℕ) (now : ℕ) : Type 0 where
  pub ordered : Ordered ts
  pub before : All (λ u. u ≤ now) ts

pub IsPast-mono : (ts : List ℕ) (s t : ℕ) → s ≤ t → IsPast ts s → IsPast ts t
IsPast-mono ts s t h p = record { ordered = p.ordered; before = All-mono s t ts h p.before }

Ordered-append :
    (ts : List ℕ) (now : ℕ) → Ordered ts → All (λ u. u ≤ now) ts → Ordered (ts ++ now ∷ [])
Ordered-append [] now o b = (tt, tt)
Ordered-append (t ∷ ts) now o b =
    (All-append (λ u. t ≤ u) ts (now ∷ []) o.0 (b.0, tt), Ordered-append ts now o.1 b.1)

pub IsPast-append : (ts : List ℕ) (now : ℕ) → IsPast ts now → IsPast (ts ++ now ∷ []) now
IsPast-append ts now p = record {
  ordered = Ordered-append ts now p.ordered p.before;
  before = All-append (λ u. u ≤ now) ts (now ∷ []) p.before (omega arith, tt);
}
