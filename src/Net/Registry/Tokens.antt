-- ===== src/Net/Registry/Tokens.antt =====
-- What crates/net/src/registry.rs does to the kick tokens: it only cancels some.
use rust_gameserver.Base.{
  ℕ, inl, inr, Bool-cases, List, Option, none, some, Bytes, bytes_discrete, ℕ_discrete,
  Option-cases, ◌==◌,
}
use rust_gameserver.Base.Map.{get}
use rust_gameserver.Net.Cancellation.{Cancellation}
use rust_gameserver.Net.Registry.{Registry, Entry, set_user, kick_old, authenticate, disconnect}
use rust_gameserver.Net.Registry.Lookup.{session}

module _ {Token Store : Type 0} (c : Cancellation Token Store) (P : Store → Type 0)
    (keeps : (t : Token) (st : Store) → P st → P (c.cancel t st)) where
  kick_old_keeps :
      (o : Option ℕ) (id : ℕ) (ss : List (ℕ × Entry Token)) (st : Store)
      → P st
      → P (kick_old c o id ss st)
  kick_old_keeps none id ss st h = h
  kick_old_keeps (some old) id ss st h = elim (Bool-cases (old == id)) [
    | inl e ↦ rw e h
    | inr e ↦ rw e (elim (Option-cases (get ℕ_discrete old ss)) [
      | inl g ↦ rw g h
      | inr (x, g) ↦ rw g (keeps x.kick st h)
    ])
  ]

  pub authenticate_keeps :
      (r : Registry Token) (st : Store) (id : ℕ) (u : Bytes) → P st → P (authenticate c r st id u).1
  unfolding authenticate
  authenticate_keeps r st id u h =
      kick_old_keeps (get bytes_discrete u r.authenticated) id (set_user id u r.sessions) st h

  pub disconnect_keeps :
      (r : Registry Token) (st : Store) (id : ℕ) → P st → P (disconnect c r st id).1
  unfolding disconnect
  disconnect_keeps r st id h = elim (Option-cases (session r id)) [
    | inl x ↦ rw (x, disconnect) h
    | inr (e, x) ↦ rw (x, disconnect) (keeps e.kick st h)
  ]
