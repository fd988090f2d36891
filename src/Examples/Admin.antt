-- ===== src/Examples/Admin.antt =====
-- crates/login_server/src/admin, the writer of crates/net/src/outbox.rs and crates/db/src/broadcast.rs
-- at concrete inputs.
use rust_gameserver.Base.{
  ◌≡◌, refl, ◌⊎◌, inl, inr, ◌↔◌, Bool, true, false, List, [], ◌∷◌, ◌++◌, Option, none, some, Bytes,
  codes, ℕ_discrete, ltb, length, if◌then◌else◌, arith, Option-cases, bytes_discrete,
}
use rust_gameserver.Proto.{MessageWrapper}
use rust_gameserver.Redis.{done}
use rust_gameserver.Net.Outbox.Writer.{Sink, Batch}
use rust_gameserver.Db.Broadcast.{Round, subscribe}
use rust_gameserver.Db.Broadcast.Backoff.{backoff, delays, all_received, subscribe_lem}
use rust_gameserver.Db.Password.{verify, client_hash, derive}
use rust_gameserver.LoginServer.Config.{AdminApiConfig, default_admin_api, key_store}
use rust_gameserver.LoginServer.Admin.SessionKey.{
  SessionKeyStore, text, runs_next, issue, validate, revoke, require_session_key, redis_key,
  non_empty,
}
use rust_gameserver.LoginServer.Admin.SessionKey.Lifecycle.{validate-issue}
use rust_gameserver.LoginServer.Admin.SessionKey.Gate.{IsOpen, HasLiveKey, require_session_key_iff}
use rust_gameserver.LoginServer.Admin.Handlers.{Sql, login, logged_in}
use rust_gameserver.LoginServer.Admin.Handlers.Login.{Passed, login-Passed}
use rust_gameserver.Examples.Params.{ping, notice, store, crypto}

abbrev keys : SessionKeyStore
keys = key_store default_admin_api

require_session_key_iff_example :
    ((require_session_key store keys [] (codes "/api/stats") (text (5 ∷ []))).1 ≡ runs_next)
    ↔ (IsOpen store keys (codes "/api/stats") ⊎ HasLiveKey store keys [] (text (5 ∷ [])))
require_session_key_iff_example =
    require_session_key_iff store keys [] (codes "/api/stats") (text (5 ∷ []))

-- The check of a key against this Redis always answers.
abbrev held : List (Bytes × Bytes) → Option Bytes
held r = non_empty (store.stored r (redis_key store keys (5 ∷ [])))

answers : (r : List (Bytes × Bytes)) → (validate store keys r (5 ∷ [])).1 ≡ done (held r)
unfolding validate
answers r = elim (Option-cases (held r)) [ inl e ↦ rw e refl | inr (v, e) ↦ rw e refl ]

abbrev after_issue : List (Bytes × Bytes)
after_issue = (issue store keys (5 ∷ []) [] (97 ∷ [])).0

abbrev after_check : List (Bytes × Bytes)
after_check = (validate store keys after_issue (5 ∷ [])).0

confirms : (store.set_ex [] (redis_key store keys (5 ∷ [])) (97 ∷ []) keys.ttl).1 ≡ done true
unfolding key_store
confirms = refl

validate-issue_example : (held after_issue ≡ some (97 ∷ [])) × (held after_check ≡ some (97 ∷ []))
validate-issue_example =
    validate-issue store keys [] (5 ∷ []) (97 ∷ []) (held after_issue) (held after_check) (λ e. cc)
      (λ e. cc) confirms (answers after_issue) (answers after_check)

abbrev after_revoke : List (Bytes × Bytes)
after_revoke = (revoke store keys after_issue (5 ∷ [])).0

revokes : (revoke store keys after_issue (5 ∷ [])).1 ≡ done tt
unfolding revoke
revokes = refl

abbrev config : AdminApiConfig
config = record default_admin_api { admins = (97 ∷ []) ∷ [] }

abbrev db : Sql (Unit {0})
db = record { select_credentials = λ d u. (d, done (some (1 ∷ 2 ∷ [], 2 ∷ []))) }

logs_in :
    (login db store crypto true config keys (5 ∷ []) (tt, []) (97 ∷ []) (1 ∷ [])).1
    ≡ logged_in (5 ∷ []) 60
unfolding login issue verify client_hash derive bytes_discrete ℕ_discrete key_store
logs_in = refl

login-Passed_example :
    Passed db store crypto config keys (5 ∷ []) true (tt, []) (97 ∷ []) (1 ∷ []) (5 ∷ []) 60
login-Passed_example =
    login-Passed db store crypto config keys (5 ∷ []) true (tt, []) (97 ∷ []) (1 ∷ []) (5 ∷ []) 60
      logs_in

-- A socket that fails after two messages.
abbrev feed : List MessageWrapper → MessageWrapper → List MessageWrapper × Bool
feed k m = if ltb (length k) 2 then (k ++ m ∷ [], true) else (k, false)

pub feeds :
    (k : List MessageWrapper) (m : MessageWrapper)
    → (feed k m).1 ≡ true
    → (feed k m).0 ≡ k ++ m ∷ []
feeds k m h = ground arith

pub rejects :
    (k : List MessageWrapper) (m : MessageWrapper) → (feed k m).1 ≡ false → (feed k m).0 ≡ k
rejects k m h = ground arith

abbrev socket : Sink (List MessageWrapper)
socket = record {
  feed = feed;
  flush = λ k. (k, true);
  fed = λ k. k;
  feeds = feeds;
  rejects = rejects;
  flush_keeps = λ k. refl;
}

abbrev batches : List Batch
batches = record { first = ping; more = notice ∷ ping ∷ [] } ∷ []

abbrev lost : Round
lost = record { subscribes = false; arrives = []; stops_session = false; stops_sleep = false }

abbrev joined : Round
joined = record {
  subscribes = true;
  arrives = some (7 ∷ []) ∷ none ∷ some (8 ∷ []) ∷ [];
  stops_session = false;
  stops_sleep = false;
}

subscribe_lem_example : subscribe (backoff 0) (lost ∷ lost ∷ joined ∷ lost ∷ []) ≡ record {
  received = all_received (lost ∷ lost ∷ joined ∷ lost ∷ []);
  sleeps = delays 0 (lost ∷ lost ∷ joined ∷ lost ∷ []);
  returned = false;
}
subscribe_lem_example =
    subscribe_lem (lost ∷ lost ∷ joined ∷ lost ∷ []) 0
      ((refl, refl), ((refl, refl), ((refl, refl), ((refl, refl), tt))))
