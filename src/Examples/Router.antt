-- ===== src/Examples/Router.antt =====
-- The HTTP interface of crates/login_server/src/admin at concrete requests.
use rust_gameserver.Base.{
  ℕ, ◌≡◌, refl, true, [], ◌∷◌, List, none, some, Bytes, codes, bytes_discrete, ℕ_discrete,
}
use rust_gameserver.Redis.{done, failed}
use rust_gameserver.Text.{split_once}
use rust_gameserver.Net.Registry.{Registry}
use rust_gameserver.LoginServer.Config.{default_admin_api}
use rust_gameserver.LoginServer.Admin.SessionKey.{absent}
use rust_gameserver.LoginServer.Admin.SessionKey.Gate.{HasKey}
use rust_gameserver.LoginServer.Admin.Router.{post, route, disconnect_session}
use rust_gameserver.LoginServer.Admin.Server.{
  Request, Extractors, AdminState, new, Stores, serve_request,
}
use rust_gameserver.LoginServer.Admin.Server.Keyless.{IsHarmless, keyless-IsHarmless}
use rust_gameserver.Examples.Params.{flags, store, crypto}

abbrev stores : Stores (Unit {0}) (List (Bytes × Bytes))
stores = record {
  sql = record { select_credentials = λ d u. (d, done none) };
  scores = record {
    select_scores = λ d account_id limit. (d, done []);
    select_top = λ d limit. (d, done []);
  };
  red = store;
  select_one = λ d. (d, done tt);
  ping = λ r. (r, failed);
  publish = λ channel r message. (r, done tt);
}

abbrev extractors : Extractors
extractors = record {
  login_request = λ b. none;
  notice_request = λ b. none;
  scores_query = λ q. none;
  top_query = λ q. none;
  session_id = λ s. some 1;
}

abbrev one_session : Registry ℕ
one_session = record {
  sessions = (1, record { user_id = none; kick = 7 }) ∷ [];
  authenticated = [];
}

abbrev state : AdminState (Unit {0}) (List (Bytes × Bytes)) ℕ (List ℕ)
state = new default_admin_api [] tt [] one_session [] (record { received = 0; sent = 0 })

disconnect_route : route (codes "/api/sessions/1/disconnect") ≡ some (disconnect_session (49 ∷ []))
unfolding route split_once bytes_discrete ℕ_discrete
disconnect_route = refl

abbrev request : Request
request = record {
  method = post;
  path = codes "/api/sessions/1/disconnect";
  query = [];
  key = absent;
  body = [];
}

keyless : ¬ HasKey stores.red state.keys state.redis request.key
keyless (key, user, e, v) = cc

keyless-IsHarmless_example :
    IsHarmless stores crypto flags extractors state
      (serve_request stores crypto flags extractors true (5 ∷ []) state request)
keyless-IsHarmless_example =
    keyless-IsHarmless stores crypto flags extractors true (5 ∷ []) state request keyless
