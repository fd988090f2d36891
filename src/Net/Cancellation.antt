-- ===== src/Net/Cancellation.antt =====
-- `tokio_util::sync::CancellationToken`, a parameter of the model: handles to flags that are only
-- ever raised. `Store` is the state that the tokens share.
use rust_gameserver.Base.{Bool, true, ◌≡◌}

pub record Cancellation (Token Store : Type 0) : Type 0 where
  pub cancel : Token → Store → Store
  pub is_cancelled : Token → Store → Bool
  pub cancelled_self : (t : Token) (s : Store) → is_cancelled t (cancel t s) ≡ true
  pub stays_cancelled :
      (t u : Token) (s : Store) → is_cancelled t s ≡ true → is_cancelled t (cancel u s) ≡ true

-- `child_token`: a new token that is cancelled whenever its parent is.
pub record Children {Token Store : Type 0} (c : Cancellation Token Store) : Type 0 where
  pub child_token : Token → Store → Token × Store
  pub is_child : Token → Token → Store → Bool
  pub made : (p : Token) (s : Store) → is_child (child_token p s).0 p (child_token p s).1 ≡ true
  pub ends_with_parent :
      (t p : Token) (s : Store)
      → is_child t p s ≡ true
      → c.is_cancelled p s ≡ true
      → c.is_cancelled t s ≡ true
  pub cancel_keeps_child :
      (t p u : Token) (s : Store) → is_child t p s ≡ true → is_child t p (c.cancel u s) ≡ true
  pub child_keeps_child :
      (t p q : Token) (s : Store) → is_child t p s ≡ true → is_child t p (child_token q s).1 ≡ true
  pub child_keeps_cancelled :
      (t q : Token) (s : Store)
      → c.is_cancelled t s ≡ true
      → c.is_cancelled t (child_token q s).1 ≡ true
