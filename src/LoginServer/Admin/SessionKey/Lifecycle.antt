-- ===== src/LoginServer/Admin/SessionKey/Lifecycle.antt =====
-- A session key from its issue to its end: crates/login_server/src/admin/session_key.rs.
use rust_gameserver.Base.{
  ◌≡◌, ◌≢◌, refl, ◌∙◌, ◌⊎◌, inl, inr, true, [], ◌∷◌, Option, none, some, Bytes, arith, ap, is_empty,
  if◌then◌else◌,
}
use rust_gameserver.Redis.{Reply, done, failed, Redis, IsLifetime}
use rust_gameserver.LoginServer.Admin.SessionKey.{
  SessionKeyStore, issue, validate, revoke, redis_key, non_empty, after_get, after_filter,
}

Reply-cases : {A : Type 0} (r : Reply A) → ((a : A) × (r ≡ done a)) ⊎ (r ≡ failed)
Reply-cases (done a) = inl (a, refl)
Reply-cases failed = inr refl

module _ {R : Type 0} (red : Redis R) (store : SessionKeyStore) where
  after_filter-done :
      (r : R) (key : Bytes) (o v : Option Bytes)
      → (after_filter red store r key o).1 ≡ done v
      → v ≡ o
  after_filter-done r key none v h = ground arith
  after_filter-done r key (some u) v h =
      elim (Reply-cases (red.expire r (redis_key red store key) store.ttl).1) [
        | inl (t, e) ↦ ground arith
        | inr e ↦ absurd (ground arith)
      ]

  after_filter-keeps :
      (r : R) (key : Bytes) (o : Option Bytes) (j : Bytes)
      → IsLifetime store.ttl
      → red.stored (after_filter red store r key o).0 j ≡ red.stored r j
  after_filter-keeps r key none j l = refl
  after_filter-keeps r key (some u) j l = red.expire_keeps r (redis_key red store key) store.ttl j l

  after_get-done :
      (r : R) (key : Bytes) (v : Option Bytes) (g : Reply (Option Bytes))
      → red.get r (redis_key red store key) ≡ g
      → (after_get red store r key g).1 ≡ done v
      → v ≡ non_empty (red.stored r (redis_key red store key))
  after_get-done r key v (done o) e h =
      after_filter-done r key (non_empty o) v h
      ∙ ap non_empty (red.get_stored r (redis_key red store key) o e)
  after_get-done r key v failed e h = cc

  after_get-keeps :
      (r : R) (key : Bytes) (g : Reply (Option Bytes)) (j : Bytes)
      → IsLifetime store.ttl
      → red.stored (after_get red store r key g).0 j ≡ red.stored r j
  after_get-keeps r key (done o) j l = after_filter-keeps r key (non_empty o) j l
  after_get-keeps r key failed j l = refl

  -- A check of a key that does not fail answers the user that Redis holds under the key, if there is
  -- one and its name is not empty, and no user for the empty key. It changes no entry of Redis but
  -- for the time that it lives.
  pub validate_lem :
      (r : R) (key : Bytes) (v : Option Bytes)
      → (validate red store r key).1 ≡ done v
      → (v ≡ (if is_empty key then none else non_empty (red.stored r (redis_key red store key))))
        × ((j : Bytes)
            → IsLifetime store.ttl
            → red.stored (validate red store r key).0 j ≡ red.stored r j)
  unfolding validate
  validate_lem r [] v h = (ground arith, λ j l. refl)
  validate_lem r (c ∷ key) v h =
      let g = red.get r (redis_key red store (c ∷ key)) in
      (after_get-done r (c ∷ key) v g refl h, after_get-keeps r (c ∷ key) g)

  -- A key that has been issued is accepted for its user, also a second time: if Redis confirms the
  -- entry, neither the key nor the user id is empty, and no check fails, both checks answer the user.
  pub validate-issue :
      (r : R) (key user : Bytes) (v w : Option Bytes)
      → key ≢ []
      → user ≢ []
      → (red.set_ex r (redis_key red store key) user store.ttl).1 ≡ done true
      → (validate red store (issue red store key r user).0 key).1 ≡ done v
      → (validate red store (validate red store (issue red store key r user).0 key).0 key).1
        ≡ done w
      → (v ≡ some user) × (w ≡ some user)
  unfolding issue
  validate-issue r [] user v w k u ok h i = absurd (k refl)
  validate-issue r (c ∷ key) [] v w k u ok h i = absurd (u refl)
  validate-issue r (c ∷ key) (d ∷ user) v w k u ok h i =
      let r' = (issue red store (c ∷ key) r (d ∷ user)).0 in
      let put = red.set_stores r (redis_key red store (c ∷ key)) (d ∷ user) store.ttl ok in
      let lives = red.set_lives r (redis_key red store (c ∷ key)) (d ∷ user) store.ttl ok in
      let (first, kept) = validate_lem r' (c ∷ key) v h in
      let (second, _) = validate_lem (validate red store r' (c ∷ key)).0 (c ∷ key) w i in
      (
        first ∙ ap non_empty put,
        second ∙ ap non_empty (kept (redis_key red store (c ∷ key)) lives ∙ put),
      )

  -- After a logout that Redis confirms, a check of the key that does not fail finds no user.
  pub validate-revoke :
      (r : R) (key : Bytes) (v : Option Bytes)
      → (revoke red store r key).1 ≡ done tt
      → (validate red store (revoke red store r key).0 key).1 ≡ done v
      → v ≡ none
  unfolding revoke
  validate-revoke r key v d h =
      let gone = red.del_removes r (redis_key red store key) d in
      let (e, _) = validate_lem (revoke red store r key).0 key v h in ground arith
