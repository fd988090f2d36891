-- ===== src/LoginServer/Admin/SessionKey/Gate.antt =====
-- Which requests pass the middleware of crates/login_server/src/admin/session_key.rs.
use rust_gameserver.Base.{
  ◌≡◌, ◌≢◌, refl, sym, ◌∙◌, ap, ◌⊎◌, inl, inr, ◌↔◌, true, [], ◌∷◌, map, codes, Option, none, some,
  Bytes, Bool-cases, arith,
}
use rust_gameserver.Redis.{Reply, done, failed, Redis}
use rust_gameserver.LoginServer.Admin.SessionKey.{
  SessionKeyStore, Header, absent, opaque, text, runs_next, is_exempt, validate,
  require_session_key, check_header, access_of, after_filter, non_empty, redis_key,
  to_ascii_lowercase, eq_ignore_ascii_case,
}

Reply-cases : {A : Type 0} (r : Reply A) → ((a : A) × (r ≡ done a)) ⊎ (r ≡ failed)
Reply-cases (done a) = inl (a, refl)
Reply-cases failed = inr refl

module _ {R : Type 0} (red : Redis R) (store : SessionKeyStore) where
  -- The header is a key of some user.
  abbrev pub HasKey : R → Header → Type 0
  HasKey r header =
      (key : Bytes) × (user : Bytes) × (header ≡ text key)
      × ((validate red store r key).1 ≡ done (some user))

  access_of-runs :
      (a : Reply (Option Bytes))
      → access_of red store a ≡ runs_next
      → (u : Bytes) × (a ≡ done (some u))
  access_of-runs (done (some u)) h = (u, refl)
  access_of-runs (done none) h = cc
  access_of-runs failed h = cc

  check_header-HasKey :
      (r : R) (header : Header) → (check_header red store r header).1 ≡ runs_next → HasKey r header
  check_header-HasKey r absent h = cc
  check_header-HasKey r opaque h = unfold validate in (cc)
  check_header-HasKey r (text key) h =
      let (u, e) = access_of-runs (validate red store r key).1 h in (key, u, refl, e)

  require_session_key_sound :
      (r : R) (path : Bytes) (header : Header)
      → (require_session_key red store r path header).1 ≡ runs_next
      → (is_exempt path ≡ true) ⊎ HasKey r header
  unfolding require_session_key
  require_session_key_sound r path header h = elim (Bool-cases (is_exempt path)) [
    | inl e ↦ inl e
    | inr e ↦ inr (check_header-HasKey r header (rw e at h))
  ]

  require_session_key_complete :
      (r : R) (path : Bytes) (header : Header)
      → (is_exempt path ≡ true) ⊎ HasKey r header
      → (require_session_key red store r path header).1 ≡ runs_next
  unfolding require_session_key
  require_session_key_complete r path header (inl e) = rw e refl
  require_session_key_complete r path header (inr (key, u, e, v)) =
      elim (Bool-cases (is_exempt path)) [ inl x ↦ rw x refl | inr x ↦ rw (x, e) (rw v refl) ]

  pub require_session_key-HasKey :
      (r : R) (path : Bytes) (header : Header)
      → ((require_session_key red store r path header).1 ≡ runs_next)
        ↔ ((is_exempt path ≡ true) ⊎ HasKey r header)
  require_session_key-HasKey r path header =
      (require_session_key_sound r path header, require_session_key_complete r path header)

  -- The header is a key, not empty, under which Redis answers with a user that is not empty, and
  -- Redis has renewed its lifetime.
  abbrev pub HasLiveKey : R → Header → Type 0
  HasLiveKey r header =
      (key : Bytes) × (user : Bytes) × (header ≡ text key)
      × (key ≢ [])
      × (user ≢ [])
      × (red.get r (redis_key red store key) ≡ done (some user))
      × ((red.expire r (redis_key red store key) store.ttl).1 ≡ done tt)

  after_filter-live :
      (r : R) (key user : Bytes) (o : Option Bytes)
      → (after_filter red store r key (non_empty o)).1 ≡ done (some user)
      → (user ≢ [])
        × (o ≡ some user)
        × ((red.expire r (redis_key red store key) store.ttl).1 ≡ done tt)
  after_filter-live r key user none h = cc
  after_filter-live r key user (some []) h = cc
  after_filter-live r key user (some (c ∷ u)) h =
      elim (Reply-cases (red.expire r (redis_key red store key) store.ttl).1) [
        | inl (t, e) ↦ ground (arith)
        | inr e ↦ absurd (ground arith)
      ]

  validate-live :
      (r : R) (key user : Bytes)
      → (validate red store r key).1 ≡ done (some user)
      → (key ≢ [])
        × (user ≢ [])
        × (red.get r (redis_key red store key) ≡ done (some user))
        × ((red.expire r (redis_key red store key) store.ttl).1 ≡ done tt)
  unfolding validate
  validate-live r [] user h = cc
  validate-live r (c ∷ key) user h =
      elim (Reply-cases (red.get r (redis_key red store (c ∷ key)))) [
        | inl (o, e) ↦
            let (u, s, x) = after_filter-live r (c ∷ key) user o (rw e at h) in
            (ground arith, u, e ∙ ap done s, x)
        | inr e ↦ absurd (ground arith)
      ]

  live-validate :
      (r : R) (key user : Bytes)
      → key ≢ []
      → user ≢ []
      → red.get r (redis_key red store key) ≡ done (some user)
      → (red.expire r (redis_key red store key) store.ttl).1 ≡ done tt
      → (validate red store r key).1 ≡ done (some user)
  unfolding validate
  live-validate r [] user k u g x = absurd (k refl)
  live-validate r (c ∷ key) [] k u g x = absurd (u refl)
  live-validate r (c ∷ key) (d ∷ user) k u g x = rw g (rw x refl)

  eq_ignore_ascii_case_lem :
      (a b : Bytes)
      → (eq_ignore_ascii_case a b ≡ true) ↔ (map to_ascii_lowercase a ≡ map to_ascii_lowercase b)
  unfolding eq_ignore_ascii_case
  eq_ignore_ascii_case_lem a b = (λ h. ground arith, λ e. ground arith)

  -- The path is one of the two open ones, in any case of its letters.
  abbrev pub IsOpen : Bytes → Type 0
  IsOpen path =
      (map to_ascii_lowercase path ≡ codes "/api/health")
      ⊎ (map to_ascii_lowercase path ≡ codes "/api/auth/login")

  is_exempt-IsOpen : (path : Bytes) → (is_exempt path ≡ true) ↔ IsOpen path
  unfolding is_exempt
  is_exempt-IsOpen path =
      let health = eq_ignore_ascii_case_lem (codes "/api/health") path in
      let login = eq_ignore_ascii_case_lem (codes "/api/auth/login") path in
      (
        λ h. elim (Bool-cases (eq_ignore_ascii_case (codes "/api/health") path)) [
          | inl e ↦ inl (sym (health.0 e))
          | inr e ↦ inr (sym (login.0 (ground arith)))
        ],
        λ h. elim h [
          | inl e ↦ let x = health.1 (sym e) in ground arith
          | inr e ↦ let x = login.1 (sym e) in ground arith
        ],
      )

  -- A request reaches its handler exactly if its path is one of the two open ones, in any case of its
  -- letters, or its header is a key, not empty, under which Redis answers with a user that is not
  -- empty and whose lifetime Redis then renews.
  pub require_session_key_iff :
      (r : R) (path : Bytes) (header : Header)
      → ((require_session_key red store r path header).1 ≡ runs_next)
        ↔ (IsOpen path ⊎ HasLiveKey r header)
  require_session_key_iff r path header =
      let (open_if, if_open) = is_exempt-IsOpen path in
      (
        λ h. elim ((require_session_key-HasKey r path header).0 h) [
          | inl e ↦ inl (open_if e)
          | inr (key, user, t, v) ↦
              let (k, u, g, x) = validate-live r key user v in inr (key, user, t, k, u, g, x)
        ],
        λ h. elim h [
          | inl o ↦ (require_session_key-HasKey r path header).1 (inl (if_open o))
          | inr (key, user, t, k, u, g, x) ↦
              (require_session_key-HasKey r path header).1
                (inr (key, user, t, live-validate r key user k u g x))
        ],
      )
