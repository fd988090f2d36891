-- ===== src/GameServer/Token.antt =====
-- `parse_token_value` of crates/game_server/src/session.rs: the value that the login server stores
-- under an authentication token.
use rust_gameserver.Base.{ℕ, ◌≤◌, ◌≡◌, ◌≢◌, ◌∷◌, ◌++◌, Option, none, some, Bytes, All, arith}
use rust_gameserver.Text.{max_u64, split_once, parse_u64}
use rust_gameserver.Text.Split.{split_once_sound}
use rust_gameserver.Text.Decimal.{parse_u64_bound}

pub record Account : Type 0 where
  pub account_id : ℕ
  pub user_id : Bytes

abbrev pub parse_parts : Option (Bytes × Bytes) → Option Account
parse_parts none = none
parse_parts (some (account_id, user_id)) = elim (parse_u64 account_id) [
  | none ↦ none
  | some id ↦ some (record { account_id = id; user_id = user_id })
]

unfoldable pub parse_token_value : Bytes → Option Account
parse_token_value value = parse_parts (split_once b':' value)

parse_parts_sound :
    (o : Option (Bytes × Bytes)) (a : Account)
    → parse_parts o ≡ some a
    → (digits : Bytes) × (o ≡ some (digits, a.user_id)) × (parse_u64 digits ≡ some a.account_id)
parse_parts_sound none a h = cc
parse_parts_sound (some (id, u)) a h = (id, ground arith, ground arith)

-- An accepted value is a decimal `u64`, a colon and the user id: the split is at the first colon, so
-- the number holds none and the user id may hold any.
pub parse_token_value_sound :
    (value : Bytes) (a : Account)
    → parse_token_value value ≡ some a
    → (digits : Bytes) × (value ≡ digits ++ b':' ∷ a.user_id)
      × All (λ c. c ≢ b':') digits
      × (parse_u64 digits ≡ some a.account_id)
      × (a.account_id ≤ max_u64)
unfolding parse_token_value
parse_token_value_sound value a h =
    let (digits, e, p) = parse_parts_sound (split_once b':' value) a h in
    let (spelled, free) = split_once_sound b':' value digits a.user_id e in
    (digits, spelled, free, p, parse_u64_bound digits a.account_id p)
