-- ===== src/GameServer/Serve/Tokens/Store.antt =====
-- The tokens that Redis holds, and what the script of crates/game_server/src/backend.rs does to them.
use rust_gameserver.Base.{ℕ, ◌+◌, ◌≤◌, ◌≡◌, inl, inr, ◌++◌, Option, none, some, Bytes, arith, sym}
use rust_gameserver.Redis.{done, Redis}
use rust_gameserver.GameServer.Token.{Account}
use rust_gameserver.GameServer.Backend.{
  Sql, del_found, get_del, take_auth_token, save_score, touch_last_login, backend,
}
use rust_gameserver.GameServer.Serve.Tokens.{value_worth, reply_worth, Ledger, Reply-cases}

-- How many entries of Redis spell the account. `DEL` removes the entry of its key and no other; if
-- it fails it may have removed it or not.
pub record Counted {R : Type 0} (red : Redis R) (a : Account) : Type 0 where
  pub total : R → ℕ
  pub del_takes :
      (r : R) (k v : Bytes)
      → red.stored r k ≡ some v
      → (red.del r k).1 ≡ done tt
      → total (red.del r k).0 + value_worth a (some v) ≤ total r
  pub del_adds_none : (r : R) (k : Bytes) → total (red.del r k).0 ≤ total r

module _ {D R : Type 0} (sql : Sql D) (red : Redis R) (a : Account) (count : Counted red a) where
  del_found_worth :
      (r : R) (key : Bytes) (o : Option Bytes)
      → red.stored r key ≡ o
      → count.total (del_found sql red r key o).0 + reply_worth a (del_found sql red r key o).1
        ≤ count.total r
  del_found_worth r key none h = omega arith
  del_found_worth r key (some v) h = elim (Reply-cases (red.del r key).1) [
    | inl (t, e) ↦ rw e (count.del_takes r key v h e)
    | inr e ↦ rw e (omega (arith, count.del_adds_none r key))
  ]

  get_del_worth :
      (r : R) (key : Bytes)
      → count.total (get_del sql red r key).0 + reply_worth a (get_del sql red r key).1
        ≤ count.total r
  unfolding get_del
  get_del_worth r key = elim (Reply-cases (red.get r key)) [
    | inl (o, e) ↦ rw (e, get_del) (del_found_worth r key o (sym (red.get_stored r key o e)))
    | inr e ↦ rw (e, get_del) (omega arith)
  ]

  -- The backend of the game server takes each token out of the store with its answer.
  pub store_ledger : Ledger (backend sql red) a
  unfolding backend take_auth_token save_score touch_last_login
  store_ledger = record {
    copies = λ b. count.total b.redis;
    takes = λ b token. get_del_worth b.redis (b.auth_token_prefix ++ token);
    touches = λ b account_id. omega arith;
    saves = λ b account_id score kill_count survive_seconds. omega arith;
  }
