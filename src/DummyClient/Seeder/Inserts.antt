-- ===== src/DummyClient/Seeder/Inserts.antt =====
-- The seeder of crates/dummy_client/src/seeder.rs against one loop over all accounts.
use rust_gameserver.Base.{
  ℕ, zero, suc, ◌+◌, ◌-◌, ◌≤◌, ◌<◌, ◌≡◌, refl, sym, ◌∙◌, ◌⊎◌, inl, inr, List, [], ◌∷◌, ◌++◌, length,
  ◌%◌, min, Bytes, arith, ap, ltb, Bool-cases,
}
use rust_gameserver.Redis.{Reply, done, failed}
use rust_gameserver.Net.Consts.{u64_mod}
use rust_gameserver.Db.Password.{Crypto, client_hash}
use rust_gameserver.DummyClient.Seeder.{
  seed_batch_size, pieces, range, Sql, user_id, insert_batch, insert_next, then_batch,
  insert_batches, after_create, seed,
}
use rust_gameserver.DummyClient.Seeder.Batches.{
  pieces-end, pieces-next, range-piece, rows, length-rows, rows-append, hashes-rows,
}

module _ {D : Type 0} (sql : Sql D) where
  insert_next-then :
      (rest more : D → ℕ → D × Reply ℕ) (ys : D → ℕ → D × Reply ℕ) (inserted : ℕ) (r : D × Reply ℕ)
      → ((d : D) (k : ℕ) → more d k ≡ then_batch sql ys (rest d k))
      → insert_next sql more inserted r ≡ then_batch sql ys (insert_next sql rest inserted r)
  insert_next-then rest more ys inserted (d, done n) h = h d ((inserted + n) % u64_mod)
  insert_next-then rest more ys inserted (d, failed) h = refl

  insert_batch-append :
      (n m : ℕ) (xs ys : List (Bytes × Bytes)) (d : D) (inserted : ℕ)
      → (ys ≡ []) ⊎ (m ≡ n + length xs)
      → insert_batch sql n (xs ++ ys) d inserted
        ≡ then_batch sql (insert_batch sql m ys) (insert_batch sql n xs d inserted)
  unfolding insert_batch
  insert_batch-append n m [] ys d inserted (inl e) = rw e refl
  insert_batch-append n m [] ys d inserted (inr e) = let i : m ≡ n = omega arith in rw i refl
  insert_batch-append n m ((hash, salt) ∷ xs) ys d inserted e =
      insert_next-then (insert_batch sql (suc n) xs) (insert_batch sql (suc n) (xs ++ ys))
        (insert_batch sql m ys) inserted (sql.insert_ignore d (user_id n) hash salt)
        (λ d' k. insert_batch-append (suc n) m xs ys d' k (shifted e))
    where
      shifted :
          (ys ≡ []) ⊎ (m ≡ n + length ((hash, salt) ∷ xs)) → (ys ≡ []) ⊎ (m ≡ suc n + length xs)
      shifted (inl e) = inl e
      shifted (inr e) = inr (omega arith)

  then_batch_ext :
      (f g : D → ℕ → D × Reply ℕ) (r : D × Reply ℕ)
      → ((d : D) (n : ℕ) → f d n ≡ g d n)
      → then_batch sql f r ≡ then_batch sql g r
  then_batch_ext f g (d, done n) h = h d n
  then_batch_ext f g (d, failed) h = refl

  module _ (c : Crypto) (salt : ℕ → Bytes) (threads : ℕ) where
    rest_fits :
        (h : Bytes) (chunk start stop : ℕ)
        → (rows c salt h (range (start + chunk) (stop - (start + chunk))) ≡ [])
          ⊎ (start + chunk
              ≡ start + length (rows c salt h (range start (min chunk (stop - start)))))
    rest_fits h chunk start stop = elim (Bool-cases (ltb (stop - start) chunk)) [
      | inl e ↦ let none_left : stop - (start + chunk) ≡ 0 = ground arith in inl (rw none_left refl)
      | inr e ↦ inr (rw (length-rows c salt h start (min chunk (stop - start))) (ground arith))
    ]

    insert_batches-pieces :
        (h : Bytes) (fuel chunk start stop : ℕ) (d : D) (inserted : ℕ)
        → 1 ≤ chunk
        → stop - start < fuel
        → insert_batches sql c salt threads h (pieces fuel chunk start stop) d inserted
          ≡ insert_batch sql start (rows c salt h (range start (stop - start))) d inserted
    unfolding insert_batches
    insert_batches-pieces h zero chunk start stop d inserted l f = absurd (omega arith)
    insert_batches-pieces h (suc fuel) chunk start stop d inserted l f =
        elim (Bool-cases (ltb start stop)) [
          | inl e ↦
              let len : ℕ = min chunk (stop - start) in
              let tail = range (start + chunk) (stop - (start + chunk)) in
              let more = pieces fuel chunk (start + chunk) stop in
              rw (pieces-next fuel chunk start stop (ground arith)) (
                ap
                  (λ q.
                    then_batch sql (insert_batches sql c salt threads h more)
                      (insert_batch sql start q d inserted))
                  (hashes-rows c salt threads h start len)
                ∙ then_batch_ext (insert_batches sql c salt threads h more)
                    (insert_batch sql (start + chunk) (rows c salt h tail))
                    (insert_batch sql start (rows c salt h (range start len)) d inserted)
                    (λ d' k.
                      insert_batches-pieces h fuel chunk (start + chunk) stop d' k l (ground arith))
                ∙ sym (
                    insert_batch-append start (start + chunk) (rows c salt h (range start len))
                      (rows c salt h tail) d inserted (rest_fits h chunk start stop))
                ∙ ap (λ q. insert_batch sql start q d inserted)
                    (sym (rows-append c salt h (range start len) tail)
                      ∙ ap (rows c salt h) (range-piece chunk start stop)))
          | inr e ↦
              let none_left : stop - start ≡ 0 = ground arith in
              rw (pieces-end (suc fuel) chunk start stop (ground arith), none_left)
                (unfold insert_batch in refl)
        ]

    after_create_ext :
        (f g : D → D × Reply ℕ) (r : D × Reply (Unit {0}))
        → ((d : D) → f d ≡ g d)
        → after_create sql c salt threads f r ≡ after_create sql c salt threads g r
    after_create_ext f g (d, done u) h = h d
    after_create_ext f g (d, failed) h = refl

    -- The batches of a thousand and the threads change nothing: the seeder does what one loop over
    -- the accounts 1 to the configured number does, each inserted once, in order, with a hash of the
    -- password under a salt of its own, until a statement fails.
    pub seed_lem :
        (password : Bytes) (n : ℕ) (d : D)
        → seed sql c salt threads password n d
          ≡ after_create sql c salt threads
              (λ d'. insert_batch sql 1 (rows c salt (client_hash c password) (range 1 n)) d' 0)
              (sql.create_accounts d)
    unfolding seed
    seed_lem password n d =
        let h = client_hash c password in
        let all : n + 1 - 1 ≡ n = omega arith in
        after_create_ext
          (λ d'.
            insert_batches sql c salt threads h (pieces (suc n) seed_batch_size 1 (n + 1)) d' 0)
          (λ d'. insert_batch sql 1 (rows c salt h (range 1 n)) d' 0) (sql.create_accounts d)
          (λ d'.
            insert_batches-pieces h (suc n) seed_batch_size 1 (n + 1) d' 0 (omega arith)
              (omega arith)
            ∙ rw all refl)
