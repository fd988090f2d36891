-- ===== src/Redis.antt =====
-- The Redis server and the SQL database behind crates/db, parameters of the model.
use rust_gameserver.Base.{ℕ, ◌<◌, ◌^◌, ◌≡◌, ◌≢◌, ◌⊎◌, Bool, true, Option, none, some, Bytes}

-- The outcome of a call that may fail: `Result<A, BackendError>`.
pub data Reply {ℓ} (A : Type ℓ) : Type ℓ where
  done : A → Reply A
  failed : Reply A

-- Redis refuses other lifetimes of an entry; `i64` has them all.
abbrev pub IsLifetime : ℕ → Type 0
IsLifetime ttl = (0 < ttl) × (ttl < 2 ^ 63)

-- String keys, as Redis documents them. `stored` is what a key holds now; an entry that expires is
-- a change that the environment makes between two calls. `set_ex` tells whether Redis answers `OK`.
pub record Redis (R : Type 0) : Type 0 where
  pub stored : R → Bytes → Option Bytes
  pub get : R → Bytes → Reply (Option Bytes)
  pub del : R → Bytes → R × Reply (Unit {0})
  pub expire : R → Bytes → ℕ → R × Reply (Unit {0})
  pub set_ex : R → Bytes → Bytes → ℕ → R × Reply Bool
  pub get_stored : (r : R) (k : Bytes) (v : Option Bytes) → get r k ≡ done v → v ≡ stored r k
  pub set_stores :
      (r : R) (k v : Bytes) (ttl : ℕ)
      → (set_ex r k v ttl).1 ≡ done true
      → stored (set_ex r k v ttl).0 k ≡ some v
  pub del_removes : (r : R) (k : Bytes) → (del r k).1 ≡ done tt → stored (del r k).0 k ≡ none
  pub del_only :
      (r : R) (k j : Bytes) → (stored (del r k).0 j ≡ none) ⊎ (stored (del r k).0 j ≡ stored r j)
  pub set_only :
      (r : R) (k v : Bytes) (ttl : ℕ) (j : Bytes)
      → k ≢ j
      → stored (set_ex r k v ttl).0 j ≡ stored r j
  pub set_lives :
      (r : R) (k v : Bytes) (ttl : ℕ) → (set_ex r k v ttl).1 ≡ done true → IsLifetime ttl
  pub expire_keeps :
      (r : R) (k : Bytes) (ttl : ℕ) (j : Bytes)
      → IsLifetime ttl
      → stored (expire r k ttl).0 j ≡ stored r j
