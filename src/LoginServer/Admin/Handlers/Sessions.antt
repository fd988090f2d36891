-- ===== src/LoginServer/Admin/Handlers/Sessions.antt =====
-- The handlers of crates/login_server/src/admin/handlers.rs on the sessions of the server.
use rust_gameserver.Base.{
  ℕ, ◌≤◌, ◌≡◌, refl, ◌⊎◌, inl, inr, true, List, [], ◌∷◌, map, length, Option, none, some, arith,
}
use rust_gameserver.Proto.{ℤ, pos, negsuc}
use rust_gameserver.Net.Stats.{Stats}
use rust_gameserver.Net.Cancellation.{Cancellation}
use rust_gameserver.Net.Registry.{Registry, Entry, snapshot, count}
use rust_gameserver.Net.Registry.Lookup.{session}
use rust_gameserver.Net.Registry.Exclusive.{disconnect_lem}
use rust_gameserver.LoginServer.Admin.Handlers.{
  no_content, not_found, disconnect, sessions, stats, dto, scores_by_account_limit,
  scores_top_limit,
}

-- The forced disconnect answers 404 and changes nothing if there is no such session, and otherwise
-- answers 204 and cancels the token of the session.
pub disconnect_answers :
    {Token Store : Type 0} (can : Cancellation Token Store) (r : Registry Token) (st : Store)
    (id : ℕ)
    → ((disconnect can r st id ≡ (st, not_found)) × (session r id ≡ none))
      ⊎ ((e : Entry Token) × (session r id ≡ some e)
          × ((disconnect can r st id).1 ≡ no_content)
          × (can.is_cancelled e.kick (disconnect can r st id).0 ≡ true))
unfolding disconnect
disconnect_answers can r st id = elim (disconnect_lem can r st id) [
  | inl (e, n) ↦ inl (ground arith, n)
  | inr (d, s, f, k) ↦ inr (d, s, ground arith, k)
]

length-map-map :
    {A B C : Type 0} (f : A → B) (g : B → C) (xs : List A) → length (map g (map f xs)) ≡ length xs
length-map-map f g [] = refl
length-map-map f g (x ∷ xs) = ground (arith, length-map-map f g xs)

-- The list of sessions has as many entries as the statistics count.
pub length-sessions :
    {Token : Type 0} (r : Registry Token) (st : Stats)
    → length (sessions r) ≡ (stats r st).active_sessions
unfolding sessions stats snapshot count
length-sessions r st = length-map-map _ dto r.sessions

-- No query asks the database for less than one row or for more than 200 scores of an account or
-- than 100 top scores, whatever limit the request names; a limit within the bounds is used as it is.
pub limits_bounded :
    (o : Option ℤ) (n : ℕ)
    → 1 ≤ n
    → n ≤ 100
    → (1 ≤ scores_by_account_limit o)
      × (scores_by_account_limit o ≤ 200)
      × (1 ≤ scores_top_limit o)
      × (scores_top_limit o ≤ 100)
      × (scores_by_account_limit (some (pos n)) ≡ n)
      × (scores_top_limit (some (pos n)) ≡ n)
unfolding scores_by_account_limit scores_top_limit
limits_bounded none n l h = ground arith
limits_bounded (some (pos m)) n l h = ground arith
limits_bounded (some (negsuc m)) n l h = ground arith
