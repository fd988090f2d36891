-- ===== src/DummyClient/Seeder/Batches.antt =====
-- The batches and the threads of crates/dummy_client/src/seeder.rs as pieces of a range.
use rust_gameserver.Base.{
  ℕ, zero, suc, ◌+◌, ◌-◌, ◌≤◌, ◌<◌, ◌≡◌, refl, sym, ◌∙◌, inl, inr, List, [], ◌∷◌, ◌++◌, append-nil,
  length, map, min, Bytes, arith, ap, ltb, Bool-cases,
}
use rust_gameserver.Db.Password.{Crypto, generate_stored_hash}
use rust_gameserver.DummyClient.Seeder.{
  pieces, range, flatten, ceil_div, at_least_one, generate_hashes,
}

range-append : (a m n k b : ℕ) → k ≡ m + n → b ≡ a + m → range a k ≡ range a m ++ range b n
range-append a zero n k b e f =
    let i : k ≡ n = omega arith in let j : b ≡ a = omega arith in rw (i, j) refl
range-append a (suc m) n k b e f =
    let i : k ≡ suc (m + n) = omega arith in
    rw i (ap (λ q. a ∷ q) (range-append (suc a) m n (m + n) b refl (omega arith)))

pub pieces-end : (fuel chunk start stop : ℕ) → stop ≤ start → pieces fuel chunk start stop ≡ []
unfolding pieces
pieces-end zero chunk start stop h = refl
pieces-end (suc fuel) chunk start stop h = ground arith

pub pieces-next :
    (fuel chunk start stop : ℕ)
    → start < stop
    → pieces (suc fuel) chunk start stop
      ≡ (start, min chunk (stop - start)) ∷ pieces fuel chunk (start + chunk) stop
unfolding pieces
pieces-next fuel chunk start stop h = ground arith

-- One piece and the range behind it.
pub range-piece :
    (chunk start stop : ℕ)
    → range start (min chunk (stop - start)) ++ range (start + chunk) (stop - (start + chunk))
      ≡ range start (stop - start)
range-piece chunk start stop = elim (Bool-cases (ltb (stop - start) chunk)) [
  | inl e ↦
      let i : min chunk (stop - start) ≡ stop - start = ground arith in
      let j : stop - (start + chunk) ≡ 0 = ground arith in
      rw (i, j) (append-nil (range start (stop - start)))
  | inr e ↦
      let i : min chunk (stop - start) ≡ chunk = ground arith in
      rw i (
        sym (
          range-append start chunk (stop - (start + chunk)) (stop - start) (start + chunk)
            (ground arith) refl))
]

flatten-pieces :
    (fuel chunk start stop : ℕ)
    → 1 ≤ chunk
    → stop - start < fuel
    → flatten (pieces fuel chunk start stop) ≡ range start (stop - start)
flatten-pieces zero chunk start stop c h = absurd (omega arith)
flatten-pieces (suc fuel) chunk start stop c h = elim (Bool-cases (ltb start stop)) [
  | inl e ↦
      let ih = flatten-pieces fuel chunk (start + chunk) stop c (ground arith) in
      rw (pieces-next fuel chunk start stop (ground arith)) (rw ih (range-piece chunk start stop))
  | inr e ↦
      let none_left : stop - start ≡ 0 = ground arith in
      rw (pieces-end (suc fuel) chunk start stop (ground arith), none_left) refl
]

module _ (c : Crypto) (salt : ℕ → Bytes) where
  -- Whatever the number of threads, the hashes are those of one after the other: one for each
  -- account, in the order of the accounts.
  pub generate_hashes_lem :
      (threads : ℕ) (h : Bytes) (first n : ℕ)
      → generate_hashes c salt threads h first n
        ≡ map (λ i. generate_stored_hash c h (salt (first + i))) (range 0 n)
  unfolding generate_hashes
  generate_hashes_lem threads h first n =
      let chunk = at_least_one (ceil_div n threads) in
      let all : n - 0 ≡ n = omega arith in
      ap (map (λ i. generate_stored_hash c h (salt (first + i))))
        (flatten-pieces (suc n) chunk 0 n (ground arith) (omega arith) ∙ rw all refl)

  -- The rows of the accounts with these numbers.
  abbrev pub rows : Bytes → List ℕ → List (Bytes × Bytes)
  rows h ns = map (λ i. generate_stored_hash c h (salt i)) ns

  rows-shift :
      (h : Bytes) (first k n : ℕ)
      → map (λ i. generate_stored_hash c h (salt (first + i))) (range k n)
        ≡ rows h (range (first + k) n)
  rows-shift h first k zero = refl
  rows-shift h first k (suc n) =
      let e : first + suc k ≡ suc (first + k) = omega arith in
      ap (λ q. generate_stored_hash c h (salt (first + k)) ∷ q)
        (rows-shift h first (suc k) n ∙ rw e refl)

  pub hashes-rows :
      (threads : ℕ) (h : Bytes) (first n : ℕ)
      → generate_hashes c salt threads h first n ≡ rows h (range first n)
  hashes-rows threads h first n =
      let e : first + 0 ≡ first = omega arith in
      generate_hashes_lem threads h first n ∙ rows-shift h first 0 n ∙ rw e refl

  pub length-rows : (h : Bytes) (k n : ℕ) → length (rows h (range k n)) ≡ n
  length-rows h k zero = refl
  length-rows h k (suc n) = ap suc (length-rows h (suc k) n)

  pub rows-append : (h : Bytes) (ms ns : List ℕ) → rows h (ms ++ ns) ≡ rows h ms ++ rows h ns
  rows-append h [] ns = refl
  rows-append h (m ∷ ms) ns = ap (λ q. generate_stored_hash c h (salt m) ∷ q) (rows-append h ms ns)
