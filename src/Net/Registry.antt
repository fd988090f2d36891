-- ===== src/Net/Registry.antt =====
-- crates/net/src/registry.rs: the live sessions, and the session of each authenticated user.
-- Every method holds the mutex from start to end, so it is one function from state to state; the
-- kick tokens are shared with the session tasks, so their state is passed beside the registry's.
pub mod Lookup
pub mod Exclusive
pub mod Linked
pub mod Tokens
pub mod Spec
pub mod Takeover
pub mod Listing
use rust_gameserver.Base.{
  ℕ, Bool, true, false, not, List, [], ◌∷◌, Option, none, some, Bytes, bytes_discrete, ℕ_discrete,
  length, map, is_some, ◌==◌, if◌then◌else◌,
}
use rust_gameserver.Base.Map.{get, insert, remove as delete}
use rust_gameserver.Net.Cancellation.{Cancellation}

pub record SessionInfo : Type 0 where
  pub session_id : ℕ
  pub user_id : Option Bytes

unfoldable pub is_authenticated : SessionInfo → Bool
is_authenticated s = is_some s.user_id

pub record Entry (Token : Type 0) : Type 0 where
  pub user_id : Option Bytes
  pub kick : Token

pub record Registry (Token : Type 0) : Type 0 where
  pub sessions : List (ℕ × Entry Token)
  pub authenticated : List (Bytes × ℕ)

abbrev pub default : {Token : Type 0} → Registry Token
default = record { sessions = []; authenticated = [] }

module _ {Token : Type 0} where
  unfoldable pub register : Registry Token → ℕ → Token → Registry Token
  register r session_id kick = record r {
    sessions = insert ℕ_discrete session_id (record { user_id = none; kick = kick }) r.sessions;
  }

  abbrev unlink : Registry Token → ℕ → Option Bytes → Registry Token
  unlink r session_id none = r
  unlink r session_id (some u) = elim (get bytes_discrete u r.authenticated) [
    | none ↦ r
    | some id ↦
        if id == session_id
        then record r { authenticated = delete bytes_discrete u r.authenticated }
        else r
  ]

  unfoldable pub remove : Registry Token → ℕ → Registry Token
  remove r session_id = elim (get ℕ_discrete session_id r.sessions) [
    | none ↦ r
    | some entry ↦
        unlink (record r { sessions = delete ℕ_discrete session_id r.sessions }) session_id
          entry.user_id
  ]

  -- `if let Some(entry) = inner.sessions.get_mut(&session_id)`
  unfoldable pub set_user : ℕ → Bytes → List (ℕ × Entry Token) → List (ℕ × Entry Token)
  set_user session_id u sessions = elim (get ℕ_discrete session_id sessions) [
    | none ↦ sessions
    | some entry ↦ insert ℕ_discrete session_id (record entry { user_id = some u }) sessions
  ]

  unfoldable pub count : Registry Token → ℕ
  count r = length r.sessions

  unfoldable pub snapshot : Registry Token → List SessionInfo
  snapshot r = map (λ e. record { session_id = e.0; user_id = e.1.user_id }) r.sessions

module _ {Token Store : Type 0} (c : Cancellation Token Store) where
  -- `old` is what `authenticated.insert` returns: the session that the user had before.
  abbrev kick_old : Option ℕ → ℕ → List (ℕ × Entry Token) → Store → Store
  kick_old none session_id sessions st = st
  kick_old (some old_id) session_id sessions st =
      if not (old_id == session_id)
      then elim (get ℕ_discrete old_id sessions) [
        | none ↦ st
        | some old_entry ↦ c.cancel old_entry.kick st
      ]
      else st

  unfoldable pub authenticate : Registry Token → Store → ℕ → Bytes → Registry Token × Store
  unfolding set_user
  authenticate r st session_id u =
      let sessions = set_user session_id u r.sessions in
      let old = get bytes_discrete u r.authenticated in
      (
        record {
          sessions = sessions;
          authenticated = insert bytes_discrete u session_id r.authenticated;
        },
        kick_old old session_id sessions st,
      )

  unfoldable pub disconnect : Registry Token → Store → ℕ → Bool × Store
  disconnect r st session_id = elim (get ℕ_discrete session_id r.sessions) [
    | some entry ↦ (true, c.cancel entry.kick st)
    | none ↦ (false, st)
  ]
