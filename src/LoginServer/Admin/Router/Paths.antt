-- ===== src/LoginServer/Admin/Router/Paths.antt =====
-- The open paths of crates/login_server/src/admin/session_key.rs among the routes of
-- crates/login_server/src/admin/mod.rs.
use rust_gameserver.Base.{
  ◌≡◌, refl, ◌⊎◌, inl, inr, true, false, Bool-cases, [], ◌∷◌, ◌++◌, Option, none, some, Bytes,
  bytes_discrete, ℕ_discrete, codes, arith, subst, ◌==◌,
}
use rust_gameserver.LoginServer.Admin.SessionKey.{is_exempt, eq_ignore_ascii_case}
use rust_gameserver.LoginServer.Admin.Router.{
  Endpoint, auth_login, auth_logout, health_check, send_notice, account_scores, top_scores,
  list_sessions, server_stats, strip_prefix, after_sessions, is_path, route,
}

strip_prefix_sound : (p s t : Bytes) → strip_prefix p s ≡ some t → s ≡ p ++ t
strip_prefix_sound [] s t h = ground arith
strip_prefix_sound (c ∷ p) [] t h = cc
strip_prefix_sound (c ∷ p) (d ∷ s) t h = elim (Bool-cases (c == d)) [
  | inl e ↦
      let q : strip_prefix p s ≡ some t = ground arith in ground (arith, strip_prefix_sound p s t q)
  | inr e ↦ absurd (ground arith)
]

-- The paths that need a key.
abbrev IsClosed : Bytes → Type 0
IsClosed path = is_exempt path ≡ false

sessions-IsClosed : (tail : Bytes) → IsClosed (codes "/api/sessions/" ++ tail)
unfolding is_exempt eq_ignore_ascii_case bytes_discrete ℕ_discrete
sessions-IsClosed tail = refl

logout-IsClosed : IsClosed (codes "/api/auth/logout")
unfolding is_exempt eq_ignore_ascii_case bytes_discrete ℕ_discrete
logout-IsClosed = refl

notice-IsClosed : IsClosed (codes "/api/notice")
unfolding is_exempt eq_ignore_ascii_case bytes_discrete ℕ_discrete
notice-IsClosed = refl

scores-IsClosed : IsClosed (codes "/api/scores")
unfolding is_exempt eq_ignore_ascii_case bytes_discrete ℕ_discrete
scores-IsClosed = refl

top-IsClosed : IsClosed (codes "/api/scores/top")
unfolding is_exempt eq_ignore_ascii_case bytes_discrete ℕ_discrete
top-IsClosed = refl

list-IsClosed : IsClosed (codes "/api/sessions")
unfolding is_exempt eq_ignore_ascii_case bytes_discrete ℕ_discrete
list-IsClosed = refl

stats-IsClosed : IsClosed (codes "/api/stats")
unfolding is_exempt eq_ignore_ascii_case bytes_discrete ℕ_discrete
stats-IsClosed = refl

is_path-inv :
    (pattern path : Bytes) (e f : Endpoint) (rest : Option Endpoint)
    → is_path pattern path e rest ≡ some f
    → ((path ≡ pattern) × (f ≡ e)) ⊎ (rest ≡ some f)
is_path-inv pattern path e f rest h = elim (bytes_discrete path pattern) [
  | yes p ↦ inl (p, ground arith)
  | no q ↦ inr (ground arith)
]

-- An open path is not one that needs a key.
is_path_skip :
    (pattern path : Bytes) (e f : Endpoint) (rest : Option Endpoint)
    → IsClosed pattern
    → is_exempt path ≡ true
    → is_path pattern path e rest ≡ some f
    → rest ≡ some f
is_path_skip pattern path e f rest c x h = elim (is_path-inv pattern path e f rest h) [
  | inl (p, q) ↦ absurd (let w = subst (λ t. is_exempt t ≡ true) p x in (cc))
  | inr r ↦ r
]

after_sessions_skip :
    (path : Bytes) (f : Endpoint) (o : Option Bytes)
    → strip_prefix (codes "/api/sessions/") path ≡ o
    → is_exempt path ≡ true
    → after_sessions o ≡ some f
    → ⊥
after_sessions_skip path f none e x h = cc
after_sessions_skip path f (some tail) e x h =
    let p = strip_prefix_sound (codes "/api/sessions/") path tail e in
    let w = subst (λ t. is_exempt t ≡ true) p x in let v = sessions-IsClosed tail in (cc)

-- The endpoints that a request without a key can reach.
abbrev pub IsOpen : Endpoint → Type 0
IsOpen e = (e ≡ auth_login) ⊎ (e ≡ health_check)

pub route-IsOpen :
    (path : Bytes) (e : Endpoint) → is_exempt path ≡ true → route path ≡ some e → IsOpen e
unfolding route
route-IsOpen path e x h = elim (is_path-inv (codes "/api/auth/login") path auth_login e _ h) [
  | inl (p, q) ↦ inl q
  | inr h1 ↦
      let h2 = is_path_skip (codes "/api/auth/logout") path auth_logout e _ logout-IsClosed x h1 in
      elim (is_path-inv (codes "/api/health") path health_check e _ h2) [
        | inl (p, q) ↦ inr q
        | inr h3 ↦
            let h4 = is_path_skip (codes "/api/notice") path send_notice e _ notice-IsClosed x h3 in
            let h5 =
              is_path_skip (codes "/api/scores") path account_scores e _ scores-IsClosed x h4 in
            let h6 = is_path_skip (codes "/api/scores/top") path top_scores e _ top-IsClosed x h5 in
            let h7 =
              is_path_skip (codes "/api/sessions") path list_sessions e _ list-IsClosed x h6 in
            let h8 = is_path_skip (codes "/api/stats") path server_stats e _ stats-IsClosed x h7 in
            absurd (after_sessions_skip path e _ refl x h8)
      ]
]
