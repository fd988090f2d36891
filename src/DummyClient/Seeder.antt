-- ===== src/DummyClient/Seeder.antt =====
-- crates/dummy_client/src/seeder.rs, with `user_id` of client.rs: the test accounts. The database is
-- a parameter; the random salts are a function of the account's number.
pub mod Accounts
pub mod Batches
pub mod Inserts
use rust_gameserver.Base.{
  ℕ, zero, suc, ◌+◌, ◌-◌, ◌/◌, ◌%◌, ◌≡◌, List, [], ◌∷◌, ◌++◌, map, min, Bytes, codes, length,
  replicate, ltb, if◌then◌else◌,
}
use rust_gameserver.Text.{display}
use rust_gameserver.Redis.{Reply, done, failed}
use rust_gameserver.Net.Consts.{u64_mod}
use rust_gameserver.Db.Password.{Crypto, client_hash, generate_stored_hash}

abbrev pub seed_batch_size : ℕ
seed_batch_size = 1000

-- `format!("user_{account_index:05}")`
unfoldable pub user_id : ℕ → Bytes
user_id account_index =
    codes "user_" ++ (replicate (5 - length (display account_index)) b'0' ++ display account_index)

-- `(start..stop).step_by(chunk)` with the length of each piece, on fuel: a number of rounds above
-- `stop - start` is enough.
unfoldable pub pieces : ℕ → ℕ → ℕ → ℕ → List (ℕ × ℕ)
pieces zero chunk start stop = []
pieces (suc fuel) chunk start stop =
    let rest = pieces fuel chunk (start + chunk) stop in
    if ltb start stop then (start, min chunk (stop - start)) ∷ rest else []

abbrev pub range : ℕ → ℕ → List ℕ
range start zero = []
range start (suc n) = start ∷ range (suc start) n

abbrev pub flatten : List (ℕ × ℕ) → List ℕ
flatten [] = []
flatten ((start, len) ∷ ps) = range start len ++ flatten ps

abbrev pub ceil_div : ℕ → ℕ → ℕ
ceil_div a b = (a + (b - 1)) / b

abbrev pub at_least_one : ℕ → ℕ
at_least_one n = if ltb n 1 then 1 else n

module _ (c : Crypto) (salt : ℕ → Bytes) where
  -- Each thread makes one piece; the pieces are joined in order.
  unfoldable pub generate_hashes : ℕ → Bytes → ℕ → ℕ → List (Bytes × Bytes)
  unfolding pieces
  generate_hashes threads h first count =
      let chunk = at_least_one (ceil_div count threads) in
      map (λ i. generate_stored_hash c h (salt (first + i)))
        (flatten (pieces (suc count) chunk 0 count))

-- The two statements of the seeder. `insert_ignore` tells the number of rows that are new.
pub record Sql (D : Type 0) : Type 0 where
  pub create_accounts : D → D × Reply (Unit {0})
  pub insert_ignore : D → (user_id hash salt : Bytes) → D × Reply ℕ

module _ {D : Type 0} (sql : Sql D) where
  abbrev insert_next : (D → ℕ → D × Reply ℕ) → ℕ → D × Reply ℕ → D × Reply ℕ
  insert_next rest inserted (d, done n) = rest d ((inserted + n) % u64_mod)
  insert_next rest inserted (d, failed) = (d, failed)

  -- The accounts from number `n` on.
  unfoldable pub insert_batch : ℕ → List (Bytes × Bytes) → D → ℕ → D × Reply ℕ
  insert_batch n [] d inserted = (d, done inserted)
  insert_batch n ((hash, salt) ∷ rows) d inserted =
      insert_next (insert_batch (suc n) rows) inserted (sql.insert_ignore d (user_id n) hash salt)

  abbrev then_batch : (D → ℕ → D × Reply ℕ) → D × Reply ℕ → D × Reply ℕ
  then_batch rest (d, done inserted) = rest d inserted
  then_batch rest (d, failed) = (d, failed)

  module _ (c : Crypto) (salt : ℕ → Bytes) (threads : ℕ) where
    unfoldable pub insert_batches : Bytes → List (ℕ × ℕ) → D → ℕ → D × Reply ℕ
    unfolding insert_batch generate_hashes
    insert_batches h [] d inserted = (d, done inserted)
    insert_batches h ((start, len) ∷ batches) d inserted =
        then_batch (insert_batches h batches)
          (insert_batch start (generate_hashes c salt threads h start len) d inserted)

    abbrev pub after_create : (D → D × Reply ℕ) → D × Reply (Unit {0}) → D × Reply ℕ
    after_create rest (d, done _) = rest d
    after_create rest (d, failed) = (d, failed)

    unfoldable pub seed : Bytes → ℕ → D → D × Reply ℕ
    unfolding pieces insert_batches
    seed password account_count d =
        let h = client_hash c password in
        let batches = pieces (suc account_count) seed_batch_size 1 (account_count + 1) in
        after_create (λ d'. insert_batches h batches d' 0) (sql.create_accounts d)
