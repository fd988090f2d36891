-- ===== src/GameServer/Backend/Take.antt =====
-- What `take_auth_token` of crates/game_server/src/backend.rs answers and leaves in Redis.
pub mod Once
use rust_gameserver.Base.{◌≡◌, refl, ◌∙◌, ◌⊎◌, inl, inr, ◌++◌, Option, none, some, Bytes, arith, ap}
use rust_gameserver.Redis.{Reply, done, failed, Redis}
use rust_gameserver.GameServer.Backend.{Sql, MySqlRedisBackend, take_auth_token, get_del, del_found}

pub Reply-cases : {A : Type 0} (r : Reply A) → ((a : A) × (r ≡ done a)) ⊎ (r ≡ failed)
Reply-cases (done a) = inl (a, refl)
Reply-cases failed = inr refl

module _ {E R : Type 0} (sql : Sql E) (red : Redis R) where
  del_found_takes :
      (r : R) (key : Bytes) (o v : Option Bytes)
      → o ≡ red.stored r key
      → (del_found sql red r key o).1 ≡ done v
      → (v ≡ o) × (red.stored (del_found sql red r key o).0 key ≡ none)
  del_found_takes r key none v s h = ground (arith)
  del_found_takes r key (some w) v s h = elim (Reply-cases (red.del r key).1) [
    | inl (u, e) ↦ (ground arith, red.del_removes r key e)
    | inr e ↦ absurd (cc)
  ]

  get_del_found :
      (r : R) (key : Bytes) (o : Option Bytes)
      → red.get r key ≡ done o
      → get_del sql red r key ≡ del_found sql red r key o
  unfolding get_del
  get_del_found r key o e = rw (e, get_del) refl

  get_del_failed :
      (r : R) (key : Bytes) → red.get r key ≡ failed → (get_del sql red r key).1 ≡ failed
  unfolding get_del
  get_del_failed r key e = rw (e, get_del) refl

  get_del_takes :
      (r : R) (key : Bytes) (v : Option Bytes)
      → (get_del sql red r key).1 ≡ done v
      → (v ≡ red.stored r key) × (red.stored (get_del sql red r key).0 key ≡ none)
  get_del_takes r key v h = elim (Reply-cases (red.get r key)) [
    | inl (o, e) ↦
        let same = red.get_stored r key o e in
        let found = get_del_found r key o e in
        let (i, j) = del_found_takes r key o v same (rw found at h) in (i ∙ same, rw found j)
    | inr e ↦ let no = get_del_failed r key e in absurd (cc)
  ]

  -- A take that does not fail answers what Redis holds under the token, and leaves nothing there.
  pub take_auth_token_takes :
      (b : MySqlRedisBackend E R) (token : Bytes) (v : Option Bytes)
      → (take_auth_token sql red b token).1 ≡ done v
      → (v ≡ red.stored b.redis (b.auth_token_prefix ++ token))
        × (red.stored (take_auth_token sql red b token).0.redis (b.auth_token_prefix ++ token)
            ≡ none)
  unfolding take_auth_token
  take_auth_token_takes b token v h = get_del_takes b.redis (b.auth_token_prefix ++ token) v h
