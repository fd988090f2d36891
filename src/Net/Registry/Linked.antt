-- ===== src/Net/Registry/Linked.antt =====
-- The user table of crates/net/src/registry.rs against its session table.
use rust_gameserver.Base.{ℕ, ◌≡◌, ◌≢◌, refl, ◌∙◌, ◌⊎◌, none, some, Bytes, bytes_discrete, arith}
use rust_gameserver.Net.Cancellation.{Cancellation}
use rust_gameserver.Net.Registry.{Registry, Entry, register, remove, authenticate}
use rust_gameserver.Net.Registry.Lookup.{
  session, holder, session-register, session-remove, holder-remove, holder-remove_self,
  holder-remove_other,
}
use rust_gameserver.Net.Registry.Exclusive.{holder-authenticate, session-authenticate}

module _ {Token : Type 0} where
  -- Every user in the table is held by a live session of that user.
  abbrev pub IsLinked : Registry Token → Type 0
  IsLinked r =
      (v : Bytes) (j : ℕ)
      → holder r v ≡ some j
      → (e : Entry Token) × (session r j ≡ some e) × (e.user_id ≡ some v)

  pub register-IsLinked :
      (r : Registry Token) (id : ℕ) (kick : Token)
      → session r id ≡ none
      → IsLinked r
      → IsLinked (register r id kick)
  register-IsLinked r id kick fresh inv v j h =
      let (e, s, u) = inv v j (unfold register in h) in
      (e, ground (arith, session-register r id j kick), u)

  -- Removing a session leaves no user with a dead session.
  pub remove-IsLinked : (r : Registry Token) (id : ℕ) → IsLinked r → IsLinked (remove r id)
  remove-IsLinked r id inv v j h =
      let before : holder r v ≡ some j = ground (arith, holder-remove r id v) in
      let (e, s, u) = inv v j before in
      (e, ground (arith, session-remove r id j, holder-remove_self r id e v), u)

module _ {Token Store : Type 0} (c : Cancellation Token Store) where
  -- So does a login of a live session that carries no user yet, or the same user.
  pub authenticate-IsLinked :
      (r : Registry Token) (st : Store) (id : ℕ) (u : Bytes) (d : Entry Token)
      → session r id ≡ some d
      → (d.user_id ≡ none) ⊎ (d.user_id ≡ some u)
      → IsLinked r
      → IsLinked (authenticate c r st id u).0
  authenticate-IsLinked r st id u d s w inv v j h = elim (bytes_discrete u v) [
    | yes p ↦ (
      record d { user_id = some u },
      ground (arith, session-authenticate c r st id j u, holder-authenticate c r st id u v),
      ground arith,
    )
    | no q ↦
        let before : holder r v ≡ some j = ground (arith, holder-authenticate c r st id u v) in
        let (e, s', u') = inv v j before in
        (e, ground (arith, session-authenticate c r st id j u), u')
  ]

  -- A session that authenticates as one user and then as another leaves the first behind: when the
  -- session is removed, the user table still names it for the first user, though it is gone.
  pub remove_leaves_user :
      (r : Registry Token) (st : Store) (id : ℕ) (u v : Bytes) (d : Entry Token)
      → session r id ≡ some d
      → u ≢ v
      → (let first = authenticate c r st id u in
          let second = authenticate c first.0 first.1 id v in
          (holder (remove second.0 id) u ≡ some id) × (session (remove second.0 id) id ≡ none))
  remove_leaves_user r st id u v d s ne =
      let first = authenticate c r st id u in
      let second = authenticate c first.0 first.1 id v in
      (
        holder-remove_other second.0 id (record d { user_id = some v }) u v
              (ground (
                arith,
                session-authenticate c r st id id u,
                session-authenticate c first.0 first.1 id id v,
              ))
              refl ne
            ∙ ground (
              arith,
              holder-authenticate c r st id u u,
              holder-authenticate c first.0 first.1 id v u,
            ),
        ground (arith, session-remove second.0 id id),
      )
