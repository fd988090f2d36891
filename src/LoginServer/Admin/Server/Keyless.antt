-- ===== src/LoginServer/Admin/Server/Keyless.antt =====
-- What a request without a session key can do to the HTTP interface of crates/login_server/src/admin.
use rust_gameserver.Base.{◌≡◌, refl, inl, inr, Bool, true, Bool-cases, Option, none, some, Bytes}
use rust_gameserver.Net.Cancellation.{Cancellation}
use rust_gameserver.Db.Password.{Crypto}
use rust_gameserver.LoginServer.Admin.SessionKey.{
  Access, runs_next, missing_header, invalid_key, internal_error, require_session_key, is_exempt,
}
use rust_gameserver.LoginServer.Admin.SessionKey.Gate.{HasKey, require_session_key-HasKey}
use rust_gameserver.LoginServer.Admin.Router.{Endpoint, route, takes}
use rust_gameserver.LoginServer.Admin.Router.Paths.{IsOpen, route-IsOpen}
use rust_gameserver.LoginServer.Admin.Server.{
  Request, Extractors, Response, logged_in_or_not, status_only, health_json, scores_json,
  sessions_json, stats_json, missing_key, invalid_session_key, internal_server_error, rejected,
  path_not_found, method_not_allowed, Stores, State, on_login, handle, dispatch_to, respond,
  serve_request,
}

-- An answer that tells nothing of the sessions, the scores or the server, and confirms no operation.
abbrev pub IsPublic : Response → Type 0
IsPublic (logged_in_or_not answer) = Unit {0}
IsPublic (status_only status) = ⊥
IsPublic (health_json dto) = Unit {0}
IsPublic (scores_json scores) = ⊥
IsPublic (sessions_json sessions) = ⊥
IsPublic (stats_json stats) = ⊥
IsPublic missing_key = Unit {0}
IsPublic invalid_session_key = Unit {0}
IsPublic internal_server_error = Unit {0}
IsPublic rejected = Unit {0}
IsPublic path_not_found = Unit {0}
IsPublic method_not_allowed = Unit {0}

module _ {D R Token Store : Type 0} (stores : Stores D R) (c : Crypto)
    (can : Cancellation Token Store) (ex : Extractors) where
  abbrev S : Type 0
  S = State stores c can ex

  -- The answer is public, and the sessions are as before.
  abbrev pub IsHarmless : S → S × Response → Type 0
  IsHarmless s r = IsPublic r.1 × (r.0.registry ≡ s.registry) × (r.0.tokens ≡ s.tokens)

  module _ (joins : Bool) (new_key : Bytes) (s : S) (q : Request) where
    login-IsHarmless :
        (o : Option (Bytes × Bytes)) → IsHarmless s (on_login stores c can ex joins new_key s o)
    login-IsHarmless none = (tt, refl, refl)
    login-IsHarmless (some (u, p)) = (tt, refl, refl)

    handle-IsHarmless :
        (e : Endpoint) → IsOpen e → IsHarmless s (handle stores c can ex joins new_key s q e)
    handle-IsHarmless e (inl p) = rw p (login-IsHarmless (ex.login_request q.body))
    handle-IsHarmless e (inr p) = rw p (tt, refl, refl)

    dispatch-IsHarmless :
        (o : Option Endpoint)
        → ((e : Endpoint) → o ≡ some e → IsOpen e)
        → IsHarmless s (dispatch_to stores c can ex joins new_key s q o)
    dispatch-IsHarmless none h = (tt, refl, refl)
    dispatch-IsHarmless (some e) h = elim (Bool-cases (takes e q.method)) [
      | inl t ↦ rw t (handle-IsHarmless e (h e refl))
      | inr t ↦ rw t (tt, refl, refl)
    ]

    respond-IsHarmless :
        (a : Access)
        → (a ≡ runs_next → is_exempt q.path ≡ true)
        → IsHarmless s (respond stores c can ex joins new_key s q a)
    respond-IsHarmless runs_next h =
        dispatch-IsHarmless (route q.path) (λ e r. route-IsOpen q.path e (h refl) r)
    respond-IsHarmless missing_header h = (tt, refl, refl)
    respond-IsHarmless invalid_key h = (tt, refl, refl)
    respond-IsHarmless internal_error h = (tt, refl, refl)

  -- A request that brings no valid session key disconnects nobody and changes nothing of the
  -- sessions, whatever its method, path and body, and its answer shows no session, score or
  -- statistics and confirms no notice, logout or disconnect: it is a login's or a health check's
  -- own answer, or a refusal.
  pub keyless-IsHarmless :
      (joins : Bool) (new_key : Bytes) (s : S) (q : Request)
      → ¬ HasKey stores.red s.keys s.redis q.key
      → IsHarmless s (serve_request stores c can ex joins new_key s q)
  unfolding serve_request
  keyless-IsHarmless joins new_key s q without =
      let x = require_session_key stores.red s.keys s.redis q.path q.key in
      respond-IsHarmless joins new_key (record s { redis = x.0 }) q x.1
        (λ h. elim ((require_session_key-HasKey stores.red s.keys s.redis q.path q.key).0 h) [
          | inl e ↦ e
          | inr k ↦ absurd (without k)
        ])
