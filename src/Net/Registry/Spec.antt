-- ===== src/Net/Registry/Spec.antt =====
-- What crates/net/src/registry.rs promises, without its two hash maps: a function from session ids to
-- entries and one from users to session ids.
use rust_gameserver.Base.{
  ℕ, ◌≡◌, refl, Bool, false, ◌==◌, inl, inr, List, [], ◌∷◌, Option, none, some, Bytes,
  bytes_discrete, ℕ_discrete, ite, arith, Option-cases, if◌then◌else◌, ap, ◌∙◌,
}
use rust_gameserver.Base.Map.{get-remove, remove as delete}
use rust_gameserver.Net.Cancellation.{Cancellation}
use rust_gameserver.Net.Registry.{
  Registry, Entry, register, remove, unlink, set_user, kick_old, authenticate, disconnect,
}
use rust_gameserver.Net.Registry.Lookup.{
  session, holder, with_user, session-register, get-set_user, session-remove,
}
use rust_gameserver.Net.Registry.Exclusive.{
  Op, registers, removes, authenticates, disconnects, step, run, holder-authenticate,
  session-authenticate,
}

pub record Live (Token : Type 0) : Type 0 where
  pub entry : ℕ → Option (Entry Token)
  pub owner : Bytes → Option ℕ

-- The representation is forgotten.
abbrev pub view : {Token : Type 0} → Registry Token → Live Token
view r = record { entry = session r; owner = holder r }

abbrev points_at : ℕ → Option ℕ → Bool
points_at id none = false
points_at id (some j) = j == id

-- The owner of `v` when a session that carried `carried` has left.
abbrev release : ℕ → Option Bytes → Bytes → Option ℕ → Option ℕ
release id none v o = o
release id (some u) v o = ite (bytes_discrete u v) (if points_at id o then none else o) o

module _ {Token : Type 0} where
  abbrev leave : ℕ → Option (Entry Token) → Bytes → Option ℕ → Option ℕ
  leave id none v o = o
  leave id (some e) v o = release id e.user_id v o

  abbrev arrives : Live Token → ℕ → Token → Live Token
  arrives l id kick = record l {
    entry = λ j. ite (ℕ_discrete id j) (some (record { user_id = none; kick = kick })) (l.entry j);
  }

  abbrev leaves : Live Token → ℕ → Live Token
  leaves l id = record {
    entry = λ j. ite (ℕ_discrete id j) none (l.entry j);
    owner = λ v. leave id (l.entry id) v (l.owner v);
  }

  abbrev logs_in : Live Token → ℕ → Bytes → Live Token
  logs_in l id u = record {
    entry = λ j. ite (ℕ_discrete id j) (with_user u (l.entry id)) (l.entry j);
    owner = λ v. ite (bytes_discrete u v) (some id) (l.owner v);
  }

  live_ext :
      (l k : Live Token)
      → ((j : ℕ) → l.entry j ≡ k.entry j)
      → ((v : Bytes) → l.owner v ≡ k.owner v)
      → l ≡ k
  live_ext l k e o = λ i. record { entry = λ j. e j i; owner = λ v. o v i }

  view-register :
      (r : Registry Token) (id : ℕ) (kick : Token)
      → view (register r id kick) ≡ arrives (view r) id kick
  view-register r id kick =
      live_ext _ _ (λ j. session-register r id j kick) (λ v. unfold register in refl)

  holder-unlink :
      (r : Registry Token) (id : ℕ) (o : Option Bytes) (v : Bytes)
      → holder (unlink r id o) v ≡ release id o v (holder r v)
  holder-unlink r id none v = refl
  holder-unlink r id (some u) v = ground (arith, get-remove bytes_discrete v u r.authenticated)

  holder-remove :
      (r : Registry Token) (id : ℕ) (v : Bytes)
      → holder (remove r id) v ≡ leave id (session r id) v (holder r v)
  unfolding remove
  holder-remove r id v = elim (Option-cases (session r id)) [
    | inl e ↦ rw (e, remove) refl
    | inr (x, e) ↦
        rw (e, remove)
          (holder-unlink (record r { sessions = delete ℕ_discrete id r.sessions }) id x.user_id v)
  ]

  view-remove : (r : Registry Token) (id : ℕ) → view (remove r id) ≡ leaves (view r) id
  view-remove r id = live_ext _ _ (session-remove r id) (holder-remove r id)

module _ {Token Store : Type 0} (c : Cancellation Token Store) where
  -- The entry of a session that is told to end.
  abbrev kick_entry : Option (Entry Token) → Store → Store
  kick_entry none st = st
  kick_entry (some e) st = c.cancel e.kick st

  -- The user's earlier session is told to end, unless it is the one that logs in.
  abbrev kick_owner : Live Token → Option ℕ → ℕ → Store → Store
  kick_owner l none id st = st
  kick_owner l (some old) id st = if old == id then st else kick_entry (l.entry old) st

  abbrev spec_step : Live Token × Store → Op Token → Live Token × Store
  spec_step (l, st) (registers id kick) = (arrives l id kick, st)
  spec_step (l, st) (removes id) = (leaves l id, st)
  spec_step (l, st) (authenticates id u) = (logs_in l id u, kick_owner l (l.owner u) id st)
  spec_step (l, st) (disconnects id) = (l, kick_entry (l.entry id) st)

  unfoldable pub replay : Live Token × Store → List (Op Token) → Live Token × Store
  replay s [] = s
  replay s (o ∷ os) = replay (spec_step s o) os

  view-authenticate :
      (r : Registry Token) (st : Store) (id : ℕ) (u : Bytes)
      → view (authenticate c r st id u).0 ≡ logs_in (view r) id u
  view-authenticate r st id u =
      live_ext _ _ (λ j. session-authenticate c r st id j u) (holder-authenticate c r st id u)

  kick_old-owner :
      (r : Registry Token) (st : Store) (id : ℕ) (u : Bytes) (o : Option ℕ)
      → kick_old c o id (set_user id u r.sessions) st ≡ kick_owner (view r) o id st
  kick_old-owner r st id u none = refl
  kick_old-owner r st id u (some old) = ground (arith, get-set_user id old u r.sessions)

  tokens-authenticate :
      (r : Registry Token) (st : Store) (id : ℕ) (u : Bytes)
      → (authenticate c r st id u).1 ≡ kick_owner (view r) (holder r u) id st
  unfolding authenticate set_user
  tokens-authenticate r st id u = kick_old-owner r st id u (holder r u)

  tokens-disconnect :
      (r : Registry Token) (st : Store) (id : ℕ)
      → (disconnect c r st id).1 ≡ kick_entry (session r id) st
  unfolding disconnect
  tokens-disconnect r st id = ground arith

  -- One operation.
  step_refines :
      (s : Registry Token × Store) (o : Op Token)
      → (view (step c s o).0, (step c s o).1) ≡ spec_step (view s.0, s.1) o
  unfolding step
  step_refines (r, st) (registers id kick) = ap (λ l. (l, st)) (view-register r id kick)
  step_refines (r, st) (removes id) = ap (λ l. (l, st)) (view-remove r id)
  step_refines (r, st) (authenticates id u) =
      λ i. (view-authenticate r st id u i, tokens-authenticate r st id u i)
  step_refines (r, st) (disconnects id) = ap (λ t. (view r, t)) (tokens-disconnect r st id)

  -- Through any sequence of registrations, removals, logins and forced disconnects the two hash maps
  -- read as the two functions of the abstract registry, and the same kick tokens are cancelled: a
  -- login makes its session the owner of the user and cancels the earlier owner's token, and a
  -- removal frees the user that the session carries only while the session owns it.
  pub run_refines :
      (s : Registry Token × Store) (os : List (Op Token))
      → (view (run c s os).0, (run c s os).1) ≡ replay (view s.0, s.1) os
  unfolding run replay
  run_refines s [] = refl
  run_refines s (o ∷ os) = run_refines (step c s o) os ∙ ap (λ t. replay t os) (step_refines s o)
