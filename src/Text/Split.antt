-- ===== src/Text/Split.antt =====
-- Where `str::split_once` splits.
use rust_gameserver.Base.{ℕ, ◌≡◌, ◌≢◌, [], ◌∷◌, ◌++◌, Option, none, some, Bytes, All, arith}
use rust_gameserver.Text.{split_once, cons_left}

pub split_once-append :
    (sep : ℕ) (a b : Bytes) → All (λ c. c ≢ sep) a → split_once sep (a ++ sep ∷ b) ≡ some (a, b)
unfolding split_once
split_once-append sep [] b h = ground arith
split_once-append sep (c ∷ a) b h = ground (arith, split_once-append sep a b h.1)

cons_left-inv :
    (c : ℕ) (o : Option (Bytes × Bytes)) (a b : Bytes)
    → cons_left c o ≡ some (a, b)
    → (a' : Bytes) × (o ≡ some (a', b)) × (a ≡ c ∷ a')
cons_left-inv c none a b h = cc
cons_left-inv c (some (a', b')) a b h = (a', ground arith, ground arith)

-- A split is at the first separator.
pub split_once_sound :
    (sep : ℕ) (s a b : Bytes)
    → split_once sep s ≡ some (a, b)
    → (s ≡ a ++ sep ∷ b) × All (λ c. c ≢ sep) a
unfolding split_once
split_once_sound sep [] a b h = cc
split_once_sound sep (c ∷ s) [] b h = ground (arith, cons_left-inv c (split_once sep s) [] b)
split_once_sound sep (c ∷ s) (x ∷ a) b h =
    ground (arith, cons_left-inv c (split_once sep s) (x ∷ a) b, split_once_sound sep s a b)
