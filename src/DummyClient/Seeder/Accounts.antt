-- ===== src/DummyClient/Seeder/Accounts.antt =====
-- The user ids of crates/dummy_client/src/client.rs as text.
use rust_gameserver.Base.{
  ℕ, zero, suc, ◌-◌, ◌≤◌, ◌≡◌, ◌≢◌, refl, sym, ◌∙◌, [], ◌∷◌, ◌++◌, append-nil, some, Bytes, All,
  All-append, length, replicate, drop, arith, ap,
}
use rust_gameserver.Text.{display, digits, scan, parse_u64, max_u64}
use rust_gameserver.Text.Decimal.{
  IsDigit, digits-IsDigit, digits-ne-nil, scan-digits, parse_u64-scan, scan-nil,
}
use rust_gameserver.DummyClient.Seeder.{user_id}

replicate-IsDigit : (k : ℕ) → All IsDigit (replicate k b'0')
replicate-IsDigit zero = tt
replicate-IsDigit (suc k) = (omega arith, replicate-IsDigit k)

scan-zeros : (k : ℕ) (s : Bytes) → scan (replicate k b'0' ++ s) 0 ≡ scan s 0
unfolding scan
scan-zeros zero s = refl
scan-zeros (suc k) s = ground (arith, scan-zeros k s)

append-ne-nil : (a b : Bytes) → b ≢ [] → a ++ b ≢ []
append-ne-nil [] b n = n
append-ne-nil (x ∷ a) b n = λ e. cc

padded : (k n : ℕ) → n ≤ max_u64 → parse_u64 (replicate k b'0' ++ display n) ≡ some n
unfolding display
padded k n h =
    parse_u64-scan (replicate k b'0' ++ digits (suc n) n)
      (append-ne-nil (replicate k b'0') (digits (suc n) n) (digits-ne-nil n n))
      (All-append IsDigit (replicate k b'0') (digits (suc n) n) (replicate-IsDigit k)
        (digits-IsDigit (suc n) n))
    ∙ scan-zeros k (digits (suc n) n)
    ∙ rw append-nil at (scan-digits (suc n) n [] (omega arith) h)
    ∙ scan-nil n

-- The number of an account can be read back from its user id, behind the five letters of `user_`.
pub parse_u64-user_id : (n : ℕ) → n ≤ max_u64 → parse_u64 (drop 5 (user_id n)) ≡ some n
unfolding user_id
parse_u64-user_id n h = padded (5 - length (display n)) n h

-- Two accounts never share a user id, however many digits their numbers have.
pub user_id-injective : (m n : ℕ) → m ≤ max_u64 → n ≤ max_u64 → user_id m ≡ user_id n → m ≡ n
user_id-injective m n h i e =
    let same : some m ≡ some n =
      sym (parse_u64-user_id m h) ∙ ap (λ u. parse_u64 (drop 5 u)) e ∙ parse_u64-user_id n i in
    ground arith
