-- ===== src/Examples/Tokens.antt =====
-- Cancellation tokens with children, as concrete functions: token 0 is the root, and every other token
-- is its child.
use rust_gameserver.Base.{
  ℕ, ◌+◌, ◌≡◌, Bool, true, false, ◌||◌, List, [], ◌∷◌, ◌==◌, if◌then◌else◌, arith,
}
use rust_gameserver.Net.Cancellation.{Cancellation, Children}

pub record Flags : Type 0 where
  pub made : ℕ
  pub cancelled : List ℕ

abbrev pub none_cancelled : Flags
none_cancelled = record { made = 0; cancelled = [] }

abbrev has : ℕ → List ℕ → Bool
has t [] = false
has t (u ∷ us) = (u == t) || has t us

abbrev pub is_cancelled : ℕ → Flags → Bool
is_cancelled t s = has 0 s.cancelled || has t s.cancelled

abbrev pub cancel : ℕ → Flags → Flags
cancel t s = record s { cancelled = t ∷ s.cancelled }

pub cancel_self : (t : ℕ) (s : Flags) → is_cancelled t (cancel t s) ≡ true
cancel_self t s = ground arith

pub cancel_stays :
    (t u : ℕ) (s : Flags) → is_cancelled t s ≡ true → is_cancelled t (cancel u s) ≡ true
cancel_stays t u s h = ground arith

abbrev pub tree : Cancellation ℕ Flags
tree = record {
  cancel = cancel;
  is_cancelled = is_cancelled;
  cancelled_self = cancel_self;
  stays_cancelled = cancel_stays;
}

-- A child of another token than the root is that token itself.
abbrev pub child_token : ℕ → Flags → ℕ × Flags
child_token p s =
    (if p == 0 then s.made + 1 else p, if p == 0 then record s { made = s.made + 1 } else s)

abbrev pub is_child : ℕ → ℕ → Flags → Bool
is_child t p s = (p == 0) || (t == p)

pub child_made : (p : ℕ) (s : Flags) → is_child (child_token p s).0 p (child_token p s).1 ≡ true
child_made p s = ground arith

pub child_ends :
    (t p : ℕ) (s : Flags)
    → is_child t p s ≡ true
    → is_cancelled p s ≡ true
    → is_cancelled t s ≡ true
child_ends t p s c h = ground arith

pub child_keeps :
    (t q : ℕ) (s : Flags) → is_cancelled t s ≡ true → is_cancelled t (child_token q s).1 ≡ true
child_keeps t q s h = ground arith

abbrev pub tree_children : Children tree
tree_children = record {
  child_token = child_token;
  is_child = is_child;
  made = child_made;
  ends_with_parent = child_ends;
  cancel_keeps_child = λ t p u s h. h;
  child_keeps_child = λ t p q s h. h;
  child_keeps_cancelled = child_keeps;
}
