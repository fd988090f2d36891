-- ===== src/Net/Registry/Listing.antt =====
-- `snapshot` and `count` of crates/net/src/registry.rs against the lookups.
use rust_gameserver.Base.{
  ℕ, ◌≡◌, refl, subst, suc, inl, inr, List, [], ◌∷◌, map, Option, none, some, Bytes, ℕ_discrete,
  ite, arith, Option-cases, is_some, if◌then◌else◌, length,
}
use rust_gameserver.Base.Map.{get, insert, remove as delete, get-insert, get-remove}
use rust_gameserver.Net.Cancellation.{Cancellation}
use rust_gameserver.Net.Registry.{
  Registry, Entry, SessionInfo, default, register, remove, unlink, set_user, authenticate, count,
  snapshot,
}
use rust_gameserver.Net.Registry.Lookup.{session}
use rust_gameserver.Net.Registry.Exclusive.{
  Op, registers, removes, authenticates, disconnects, step, run,
}

module _ {V : Type 0} where
  -- No key twice.
  abbrev IsUnique : List (ℕ × V) → Type 0
  IsUnique [] = Unit {0}
  IsUnique ((k, v) ∷ m) = (get ℕ_discrete k m ≡ none) × IsUnique m

  ite-IsUnique :
      {P : Type 0} (d : Dec P) (xs ys : List (ℕ × V))
      → (P → IsUnique xs)
      → (¬ P → IsUnique ys)
      → IsUnique (ite d xs ys)
  ite-IsUnique (yes p) xs ys f g = f p
  ite-IsUnique (no q) xs ys f g = g q

  insert-IsUnique :
      (k : ℕ) (v : V) (m : List (ℕ × V)) → IsUnique m → IsUnique (insert ℕ_discrete k v m)
  unfolding insert get
  insert-IsUnique k v [] u = (refl, tt)
  insert-IsUnique k v ((j, w) ∷ m) (h, u) =
      ite-IsUnique (ℕ_discrete j k) _ _ (λ e. (subst (λ i. get ℕ_discrete i m ≡ none) e h, u))
        (λ ne. (ground (arith, get-insert ℕ_discrete j k v m), insert-IsUnique k v m u))

  delete-IsUnique : (k : ℕ) (m : List (ℕ × V)) → IsUnique m → IsUnique (delete ℕ_discrete k m)
  unfolding delete get
  delete-IsUnique k [] u = tt
  delete-IsUnique k ((j, w) ∷ m) (h, u) =
      ite-IsUnique (ℕ_discrete j k) _ _ (λ e. delete-IsUnique k m u)
        (λ ne. (ground (arith, get-remove ℕ_discrete j k m), delete-IsUnique k m u))

module _ {Token : Type 0} where
  set_user-IsUnique :
      (id : ℕ) (u : Bytes) (ss : List (ℕ × Entry Token)) → IsUnique ss → IsUnique (set_user id u ss)
  unfolding set_user
  set_user-IsUnique id u ss h = elim (Option-cases (get ℕ_discrete id ss)) [
    | inl e ↦ rw (e, set_user) h
    | inr (x, e) ↦ rw (e, set_user) (insert-IsUnique id (record x { user_id = some u }) ss h)
  ]

  unlink_sessions :
      (r : Registry Token) (id : ℕ) (o : Option Bytes) → (unlink r id o).sessions ≡ r.sessions
  unlink_sessions r id none = refl
  unlink_sessions r id (some u) = ground arith

  remove-IsUnique :
      (r : Registry Token) (id : ℕ) → IsUnique r.sessions → IsUnique (remove r id).sessions
  unfolding remove
  remove-IsUnique r id h = elim (Option-cases (session r id)) [
    | inl e ↦ rw (e, remove) h
    | inr (x, e) ↦
        rw
          (
            e,
            remove,
            unlink_sessions (record r { sessions = delete ℕ_discrete id r.sessions }) id x.user_id,
          )
          (delete-IsUnique id r.sessions h)
  ]

module _ {Token Store : Type 0} (c : Cancellation Token Store) where
  step-IsUnique :
      (s : Registry Token × Store) (o : Op Token)
      → IsUnique s.0.sessions
      → IsUnique (step c s o).0.sessions
  unfolding step register authenticate
  step-IsUnique (r, st) (registers id kick) h = insert-IsUnique id _ r.sessions h
  step-IsUnique (r, st) (removes id) h = remove-IsUnique r id h
  step-IsUnique (r, st) (authenticates id u) h = set_user-IsUnique id u r.sessions h
  step-IsUnique (r, st) (disconnects id) h = h

  run-IsUnique :
      (s : Registry Token × Store) (os : List (Op Token))
      → IsUnique s.0.sessions
      → IsUnique (run c s os).0.sessions
  unfolding run
  run-IsUnique s [] h = h
  run-IsUnique s (o ∷ os) h = run-IsUnique (step c s o) os (step-IsUnique s o h)

-- How often a list of sessions names an id.
abbrev pub mentions : ℕ → List SessionInfo → ℕ
mentions id [] = 0
mentions id (i ∷ infos) =
    let rest = mentions id infos in ite (ℕ_discrete i.session_id id) (suc rest) rest

-- The user that a list of sessions gives for an id, if it names it.
abbrev pub user_in : ℕ → List SessionInfo → Option (Option Bytes)
user_in id [] = none
user_in id (i ∷ infos) = ite (ℕ_discrete i.session_id id) (some i.user_id) (user_in id infos)

module _ {Token : Type 0} where
  abbrev infos : List (ℕ × Entry Token) → List SessionInfo
  infos ss = map (λ e. record { session_id = e.0; user_id = e.1.user_id }) ss

  abbrev pub user_of_entry : Option (Entry Token) → Option (Option Bytes)
  user_of_entry none = none
  user_of_entry (some e) = some e.user_id

  user_in-infos :
      (id : ℕ) (ss : List (ℕ × Entry Token))
      → user_in id (infos ss) ≡ user_of_entry (get ℕ_discrete id ss)
  unfolding get
  user_in-infos id [] = refl
  user_in-infos id ((j, e) ∷ ss) = ground (arith, user_in-infos id ss)

  mentions-infos :
      (id : ℕ) (ss : List (ℕ × Entry Token))
      → IsUnique ss
      → mentions id (infos ss) ≡ (if is_some (get ℕ_discrete id ss) then 1 else 0)
  unfolding get
  mentions-infos id [] h = refl
  mentions-infos id ((j, e) ∷ ss) (n, h) = elim (ℕ_discrete j id) [
    | yes p ↦ ground (arith, mentions-infos id ss h, n)
    | no q ↦ ground (arith, mentions-infos id ss h)
  ]

  length-infos : (ss : List (ℕ × Entry Token)) → length (infos ss) ≡ length ss
  length-infos [] = refl
  length-infos (e ∷ ss) = omega (arith, length-infos ss)

-- After any sequence of operations the snapshot names each registered session exactly once, with the
-- user that it carries, and no other; and it has as many entries as `count` says.
pub snapshot_lem :
    {Token Store : Type 0} (c : Cancellation Token Store) (st : Store) (os : List (Op Token))
    (id : ℕ)
    → (let r = (run c (default, st) os).0 in
        (mentions id (snapshot r) ≡ (if is_some (session r id) then 1 else 0))
        × (user_in id (snapshot r) ≡ user_of_entry (session r id))
        × (length (snapshot r) ≡ count r))
unfolding snapshot count
snapshot_lem c st os id =
    let ss = (run c (default, st) os).0.sessions in
    (
      mentions-infos id ss (run-IsUnique c (default, st) os tt),
      user_in-infos id ss,
      length-infos ss,
    )
