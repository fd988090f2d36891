-- ===== src/Net/Registry/Lookup.antt =====
-- What a lookup in the registry finds after each operation of crates/net/src/registry.rs.
use rust_gameserver.Base.{
  ℕ, ◌≡◌, refl, ◌⊎◌, inl, inr, List, Option, none, some, Bytes, bytes_discrete, ℕ_discrete, ite,
  arith, Option-cases, ◌≢◌,
}
use rust_gameserver.Base.Map.{get, remove as delete, get-insert, get-remove}
use rust_gameserver.Net.Registry.{Registry, Entry, register, remove, unlink, set_user}

module _ {Token : Type 0} where
  -- The entry of a session.
  abbrev pub session : Registry Token → ℕ → Option (Entry Token)
  session r id = get ℕ_discrete id r.sessions

  -- The session that stands for a user.
  abbrev pub holder : Registry Token → Bytes → Option ℕ
  holder r u = get bytes_discrete u r.authenticated

  abbrev pub with_user : Bytes → Option (Entry Token) → Option (Entry Token)
  with_user u none = none
  with_user u (some e) = some (record e { user_id = some u })

  pub session-register :
      (r : Registry Token) (id j : ℕ) (kick : Token)
      → session (register r id kick) j
        ≡ ite (ℕ_discrete id j) (some (record { user_id = none; kick = kick })) (session r j)
  unfolding register
  session-register r id j kick = get-insert ℕ_discrete j id _ r.sessions

  pub get-set_user :
      (id j : ℕ) (u : Bytes) (ss : List (ℕ × Entry Token))
      → get ℕ_discrete j (set_user id u ss)
        ≡ ite (ℕ_discrete id j) (with_user u (get ℕ_discrete id ss)) (get ℕ_discrete j ss)
  unfolding set_user
  get-set_user id j u ss = elim (Option-cases (get ℕ_discrete id ss)) [
    | inl e ↦ rw (e, set_user) (ground arith)
    | inr (x, e) ↦ rw (e, set_user) (get-insert ℕ_discrete j id (record x { user_id = some u }) ss)
  ]

  unlink-sessions :
      (r : Registry Token) (id : ℕ) (o : Option Bytes) → (unlink r id o).sessions ≡ r.sessions
  unlink-sessions r id none = refl
  unlink-sessions r id (some u) = ground arith

  pub session-remove :
      (r : Registry Token) (id j : ℕ)
      → session (remove r id) j ≡ ite (ℕ_discrete id j) none (session r j)
  unfolding remove
  session-remove r id j = elim (Option-cases (session r id)) [
    | inl e ↦ rw (e, remove) (ground arith)
    | inr (x, e) ↦
        rw
          (
            e,
            remove,
            unlink-sessions (record r { sessions = delete ℕ_discrete id r.sessions }) id x.user_id,
          )
          (get-remove ℕ_discrete j id r.sessions)
  ]

  holder-unlink :
      (r : Registry Token) (id : ℕ) (o : Option Bytes) (v : Bytes)
      → (holder (unlink r id o) v ≡ holder r v)
        ⊎ ((holder (unlink r id o) v ≡ none) × (holder r v ≡ some id) × (o ≡ some v))
  holder-unlink r id none v = inl refl
  holder-unlink r id (some u) v = ground (arith, get-remove bytes_discrete v u r.authenticated)

  -- Removing a session forgets a user only if the session stood for that user.
  pub holder-remove :
      (r : Registry Token) (id : ℕ) (v : Bytes)
      → (holder (remove r id) v ≡ holder r v)
        ⊎ ((holder (remove r id) v ≡ none) × (holder r v ≡ some id))
  unfolding remove
  holder-remove r id v = elim (Option-cases (session r id)) [
    | inl e ↦ rw (e, remove) (inl refl)
    | inr (x, e) ↦
        rw (e, remove)
          (ground (
            arith,
            holder-unlink (record r { sessions = delete ℕ_discrete id r.sessions }) id x.user_id v,
          ))
  ]

  holder-unlink_self :
      (r : Registry Token) (id : ℕ) (u : Bytes) → holder (unlink r id (some u)) u ≢ some id
  holder-unlink_self r id u = ground (arith, get-remove bytes_discrete u u r.authenticated)

  -- A session that is removed no longer stands for the user that it carried.
  pub holder-remove_self :
      (r : Registry Token) (id : ℕ) (e : Entry Token) (u : Bytes)
      → session r id ≡ some e
      → e.user_id ≡ some u
      → holder (remove r id) u ≢ some id
  unfolding remove
  holder-remove_self r id e u s w =
      rw (s, remove, w)
        (holder-unlink_self (record r { sessions = delete ℕ_discrete id r.sessions }) id u)

  -- Other users than the one that the session carries keep what they have.
  pub holder-remove_other :
      (r : Registry Token) (id : ℕ) (e : Entry Token) (u v : Bytes)
      → session r id ≡ some e
      → e.user_id ≡ some v
      → u ≢ v
      → holder (remove r id) u ≡ holder r u
  unfolding remove
  holder-remove_other r id e u v s w ne =
      rw (s, remove)
        (ground (
          arith,
          holder-unlink (record r { sessions = delete ℕ_discrete id r.sessions }) id e.user_id u,
        ))
