-- ===== src/Net/Registry/Exclusive.antt =====
-- Duplicate logins over sequences of the operations of crates/net/src/registry.rs.
use rust_gameserver.Base.{
  ℕ, ◌≡◌, ◌≢◌, refl, ◌⊎◌, inl, inr, true, false, List, [], ◌∷◌, Option, none, some, Bytes,
  bytes_discrete, ℕ_discrete, ite, arith, Option-cases,
}
use rust_gameserver.Base.Map.{get, get-insert}
use rust_gameserver.Net.Cancellation.{Cancellation}
use rust_gameserver.Net.Registry.{
  Registry, Entry, default, register, remove, set_user, kick_old, authenticate, disconnect,
}
use rust_gameserver.Net.Registry.Lookup.{
  session, holder, with_user, session-register, get-set_user, session-remove, holder-remove,
}

pub data Op (Token : Type 0) : Type 0 where
  registers : ℕ → Token → Op Token
  removes : ℕ → Op Token
  authenticates : ℕ → Bytes → Op Token
  disconnects : ℕ → Op Token

module _ {Token Store : Type 0} (c : Cancellation Token Store) where
  -- Every session of a user either stands for that user or has been told to end.
  abbrev pub IsExclusive : Registry Token → Store → Type 0
  IsExclusive r st =
      (j : ℕ) (e : Entry Token) (v : Bytes)
      → session r j ≡ some e
      → e.user_id ≡ some v
      → (holder r v ≡ some j) ⊎ (c.is_cancelled e.kick st ≡ true)

  unfoldable pub step : Registry Token × Store → Op Token → Registry Token × Store
  step (r, st) (registers id kick) = (register r id kick, st)
  step (r, st) (removes id) = (remove r id, st)
  step (r, st) (authenticates id u) = authenticate c r st id u
  step (r, st) (disconnects id) = (r, (disconnect c r st id).1)

  unfoldable pub run : Registry Token × Store → List (Op Token) → Registry Token × Store
  run s [] = s
  run s (o ∷ os) = run (step s o) os

  pub register-IsExclusive :
      (r : Registry Token) (st : Store) (id : ℕ) (kick : Token)
      → IsExclusive r st
      → IsExclusive (register r id kick) st
  register-IsExclusive r st id kick inv j e v s u =
      ground (arith, session-register r id j kick, inv j e v, holder_same)
    where
      holder_same : holder (register r id kick) v ≡ holder r v
      holder_same = unfold register in refl

  pub remove-IsExclusive :
      (r : Registry Token) (st : Store) (id : ℕ) → IsExclusive r st → IsExclusive (remove r id) st
  remove-IsExclusive r st id inv j e v s u =
      ground (arith, session-remove r id j, inv j e v, holder-remove r id v)

  kick_old_stays :
      (o : Option ℕ) (id : ℕ) (ss : List (ℕ × Entry Token)) (st : Store) (t : Token)
      → c.is_cancelled t st ≡ true
      → c.is_cancelled t (kick_old c o id ss st) ≡ true
  kick_old_stays none id ss st t h = h
  kick_old_stays (some old) id ss st t h = elim (Option-cases (get ℕ_discrete old ss)) [
    | inl e ↦ ground arith
    | inr (x, e) ↦ ground (arith, c.stays_cancelled t x.kick st)
  ]

  kick_old_kicks :
      (o : Option ℕ) (id j : ℕ) (ss : List (ℕ × Entry Token)) (st : Store) (e : Entry Token)
      → o ≡ some j
      → id ≢ j
      → get ℕ_discrete j ss ≡ some e
      → c.is_cancelled e.kick (kick_old c o id ss st) ≡ true
  kick_old_kicks o id j ss st e h d g = rw h (ground (arith, c.cancelled_self e.kick st))

  pub holder-authenticate :
      (r : Registry Token) (st : Store) (id : ℕ) (u v : Bytes)
      → holder (authenticate c r st id u).0 v ≡ ite (bytes_discrete u v) (some id) (holder r v)
  unfolding authenticate
  holder-authenticate r st id u v = get-insert bytes_discrete v u id r.authenticated

  pub session-authenticate :
      (r : Registry Token) (st : Store) (id j : ℕ) (u : Bytes)
      → session (authenticate c r st id u).0 j
        ≡ ite (ℕ_discrete id j) (with_user u (session r id)) (session r j)
  unfolding authenticate
  session-authenticate r st id j u = get-set_user id j u r.sessions

  tokens-authenticate :
      (r : Registry Token) (st : Store) (id : ℕ) (u : Bytes)
      → (authenticate c r st id u).1 ≡ kick_old c (holder r u) id (set_user id u r.sessions) st
  unfolding authenticate
  tokens-authenticate r st id u = refl

  -- A login of a user kicks the session that stood for the user before.
  pub authenticate_kicks :
      (r : Registry Token) (st : Store) (id j : ℕ) (u : Bytes) (e : Entry Token)
      → holder r u ≡ some j
      → session r j ≡ some e
      → id ≢ j
      → c.is_cancelled e.kick (authenticate c r st id u).1 ≡ true
  authenticate_kicks r st id j u e h s ne =
      let ss = set_user id u r.sessions in
      rw (tokens-authenticate r st id u) (
        kick_old_kicks (holder r u) id j ss st e h ne
          (ground (arith, get-set_user id j u r.sessions)))

  pub authenticate-IsExclusive :
      (r : Registry Token) (st : Store) (id : ℕ) (u : Bytes)
      → IsExclusive r st
      → IsExclusive (authenticate c r st id u).0 (authenticate c r st id u).1
  authenticate-IsExclusive r st id u inv j e v s w =
      let after = get-set_user id j u r.sessions in
      let ss = set_user id u r.sessions in
      rw (tokens-authenticate r st id u) (
        ground (
          arith,
          holder-authenticate r st id u v,
          session-authenticate r st id j u,
          after,
          inv j e v,
          kick_old_stays (holder r u) id ss st e.kick,
          kick_old_kicks (holder r u) id j ss st e,
        ))

  pub disconnect_stays :
      (r : Registry Token) (st : Store) (id : ℕ) (t : Token)
      → c.is_cancelled t st ≡ true
      → c.is_cancelled t (disconnect c r st id).1 ≡ true
  unfolding disconnect
  disconnect_stays r st id t h = elim (Option-cases (session r id)) [
    | inl x ↦ rw (x, disconnect) h
    | inr (old, x) ↦ rw (x, disconnect) (c.stays_cancelled t old.kick st h)
  ]

  -- A forced disconnect reports whether the session is there, and if so the session is told to end.
  pub disconnect_lem :
      (r : Registry Token) (st : Store) (id : ℕ)
      → ((disconnect c r st id ≡ (false, st)) × (session r id ≡ none))
        ⊎ ((e : Entry Token) × (session r id ≡ some e)
            × ((disconnect c r st id).0 ≡ true)
            × (c.is_cancelled e.kick (disconnect c r st id).1 ≡ true))
  unfolding disconnect
  disconnect_lem r st id = elim (Option-cases (session r id)) [
    | inl x ↦ rw (x, disconnect) (inl (refl, refl))
    | inr (e, x) ↦ rw (x, disconnect) (inr (e, refl, refl, c.cancelled_self e.kick st))
  ]

  pub step-IsExclusive :
      (s : Registry Token × Store) (o : Op Token)
      → IsExclusive s.0 s.1
      → IsExclusive (step s o).0 (step s o).1
  unfolding step
  step-IsExclusive (r, st) (registers id kick) inv = register-IsExclusive r st id kick inv
  step-IsExclusive (r, st) (removes id) inv = remove-IsExclusive r st id inv
  step-IsExclusive (r, st) (authenticates id u) inv = authenticate-IsExclusive r st id u inv
  step-IsExclusive (r, st) (disconnects id) inv = λ j e v s w. elim (inv j e v s w) [
    | inl here ↦ inl here
    | inr gone ↦ inr (disconnect_stays r st id e.kick gone)
  ]

  pub run-IsExclusive :
      (s : Registry Token × Store) (os : List (Op Token))
      → IsExclusive s.0 s.1
      → IsExclusive (run s os).0 (run s os).1
  unfolding run
  run-IsExclusive s [] inv = inv
  run-IsExclusive s (o ∷ os) inv = run-IsExclusive (step s o) os (step-IsExclusive s o inv)

  pub default-IsExclusive : (st : Store) → IsExclusive default st
  unfolding get
  default-IsExclusive st j e v s w = cc

  -- After any sequence of registrations, removals, logins and forced disconnects, whatever their
  -- order and their session ids, two different sessions of one user are never both left running:
  -- the kick token of one of them has been cancelled.
  pub one_session_per_user :
      (st : Store) (os : List (Op Token)) (i j : ℕ) (d e : Entry Token) (u : Bytes)
      → session (run (default, st) os).0 i ≡ some d
      → session (run (default, st) os).0 j ≡ some e
      → d.user_id ≡ some u
      → e.user_id ≡ some u
      → i ≢ j
      → (c.is_cancelled d.kick (run (default, st) os).1 ≡ true)
        ⊎ (c.is_cancelled e.kick (run (default, st) os).1 ≡ true)
  one_session_per_user st os i j d e u si sj di ej ne =
      let inv = run-IsExclusive (default, st) os (default-IsExclusive st) in
      ground (arith, inv i d u si di, inv j e u sj ej)
