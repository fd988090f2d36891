-- ===== src/DummyClient/Client/Protocol.antt =====
-- What a client of crates/dummy_client/src/client.rs sends, and how it is counted.
use rust_gameserver.Base.{
  ℕ, ◌+◌, ◌<◌, ◌%◌, ◌≡◌, ◌≢◌, refl, ◌⊎◌, inl, inr, Bool, true, false, List, [], ◌∷◌, Option, none,
  some, Bytes, All, arith, if◌then◌else◌,
}
use rust_gameserver.Proto.{
  ℤ, Payload, MessageWrapper, connected_response, login_request, login_response,
  game_connect_request, game_connect_response,
}
use rust_gameserver.Net.Consts.{u64_mod}
use rust_gameserver.DummyClient.Counters.{
  Counters, login_server, on_login_started, on_moved_to_game, on_disconnected,
}
use rust_gameserver.DummyClient.Client.{
  Finished, LoginPoll, stops, lost, receives, token, waiting, finished, login_phase, LoginEnd,
  GamePoll, ticks, moved, GameClient, GameTrace, login_sent, login_end, disconnected, game_loop,
  game_phase, run, after_send, after_game, after_login, LoginTrace,
}

-- A login response of the server that carries the token.
abbrev pub Granted : Bytes → List LoginPoll → Type 0
Granted t [] = ⊥
Granted t (receives m sends ∷ ps) =
    ((code : ℤ) × (m.payload ≡ some (login_response true code t))) ⊎ Granted t ps
Granted t (p ∷ ps) = Granted t ps

sends-inv :
    (sends : Bool) (t : Bytes) (request : Payload) (rest : LoginTrace)
    → (if sends
        then login_sent request rest
        else login_end (finished (disconnected login_server))).ended
      ≡ token t
    → rest.ended ≡ token t
sends-inv true t request rest h = h
sends-inv false t request rest h = cc

message-Granted :
    (user_id client_hash t : Bytes) (m : MessageWrapper) (sends : Bool) (ps : List LoginPoll)
    (o : Option Payload)
    → m.payload ≡ o
    → ((login_phase user_id client_hash ps).ended ≡ token t → Granted t ps)
    → (login_phase user_id client_hash (receives m sends ∷ ps)).ended ≡ token t
    → Granted t (receives m sends ∷ ps)
unfolding login_phase
message-Granted user_id client_hash t m sends ps (some (connected_response i)) e later h = inr (
    later (
      sends-inv sends t (login_request user_id client_hash) (login_phase user_id client_hash ps)
        (rw (e, login_phase) at h)))
message-Granted user_id client_hash t m sends ps (some (login_response true code sent)) e later h =
    let same : token sent ≡ token t = rw (e, login_phase) at h in
    let i : sent ≡ t = ground arith in inl (code, rw (← i) e)
message-Granted user_id client_hash t m sends ps o e later h =
    inr (later (rw (e, login_phase) at h))

-- The token with which a client goes on to the game server is one that the login server has sent it
-- in a successful response.
pub login_phase-Granted :
    (user_id client_hash t : Bytes) (ps : List LoginPoll)
    → (login_phase user_id client_hash ps).ended ≡ token t
    → Granted t ps
login_phase-Granted user_id client_hash t [] h = absurd (unfold login_phase in (cc))
login_phase-Granted user_id client_hash t (stops ∷ ps) h = absurd (unfold login_phase in (cc))
login_phase-Granted user_id client_hash t (lost ∷ ps) h = absurd (unfold login_phase in (cc))
login_phase-Granted user_id client_hash t (receives m sends ∷ ps) h =
    message-Granted user_id client_hash t m sends ps m.payload refl
      (login_phase-Granted user_id client_hash t ps) h

-- The server does not accept the client in this poll.
abbrev pub Refuses : GamePoll → Type 0
Refuses (receives m sends) = (code : ℤ) → m.payload ≢ some (game_connect_response true code)
Refuses p = Unit {0}

module _ (add : ℕ → ℕ → ℕ) (auth_token : Bytes) where
  abbrev pub IsRequest : Payload → Type 0
  IsRequest p = p ≡ game_connect_request auth_token

  after_send-IsRequest :
      (sends : Bool) (t : GameTrace)
      → All IsRequest t.sent
      → All IsRequest (after_send sends (game_connect_request auth_token) t).sent
  after_send-IsRequest true t v = (refl, v)
  after_send-IsRequest false t v = tt

  message-IsRequest :
      (m : MessageWrapper) (sends : Bool) (c : GameClient) (ps : List GamePoll) (o : Option Payload)
      → m.payload ≡ o
      → ((code : ℤ) → o ≢ some (game_connect_response true code))
      → All IsRequest (game_loop add auth_token c ps).sent
      → All IsRequest (game_loop add auth_token c (receives m sends ∷ ps)).sent
  unfolding game_loop
  message-IsRequest m sends c ps (some (connected_response i)) e n v =
      rw (e, game_loop) (after_send-IsRequest sends (game_loop add auth_token c ps) v)
  message-IsRequest m sends c ps (some (game_connect_response true code)) e n v =
      absurd (n code refl)
  message-IsRequest m sends c ps o e n v = rw (e, game_loop) v

  not_yet :
      (b : Bool) (x y : GameTrace)
      → b ≡ false
      → All IsRequest y.sent
      → All IsRequest (if b then x else y).sent
  not_yet true x y e v = absurd (cc)
  not_yet false x y e v = v

  -- Until the game server has accepted it, a client sends nothing but its request to connect, with
  -- its token: no keep-alive and no move, for which the server would end the session.
  pub game_loop-IsRequest :
      (c : GameClient) (ps : List GamePoll)
      → c.authenticated ≡ false
      → All Refuses ps
      → All IsRequest (game_loop add auth_token c ps).sent
  unfolding game_loop
  game_loop-IsRequest c [] a n = tt
  game_loop-IsRequest c (stops ∷ ps) a n = tt
  game_loop-IsRequest c (lost ∷ ps) a n = tt
  game_loop-IsRequest c (receives m sends ∷ ps) a n =
      message-IsRequest m sends c ps m.payload refl n.0 (game_loop-IsRequest c ps a n.1)
  game_loop-IsRequest c (ticks sends ∷ ps) a n =
      not_yet c.authenticated _ (game_loop add auth_token c ps) a (game_loop-IsRequest c ps a n.1)
  game_loop-IsRequest c (moved dx dy sends ∷ ps) a n =
      not_yet c.authenticated _ (game_loop add auth_token c ps) a (game_loop-IsRequest c ps a n.1)

-- The counters once a client has come and gone.
abbrev pub Gone : Counters → Counters → Type 0
Gone c d =
    (d.login ≡ c.login) × (d.game ≡ c.game) × (d.disconnected ≡ (c.disconnected + 1) % u64_mod)

after_game-Gone :
    (c : Counters) (t : GameTrace) (o : Option Finished) (f : Finished)
    → c.login < u64_mod
    → c.game < u64_mod
    → t.ended ≡ o
    → (after_game (on_moved_to_game (on_login_started c)) t).1 ≡ some f
    → Gone c (after_game (on_moved_to_game (on_login_started c)) t).0
unfolding on_moved_to_game on_login_started on_disconnected
after_game-Gone c t none f l g e h = absurd (ground arith)
after_game-Gone c t (some x) f l g e h = rw e (omega arith)

after_login-Gone :
    (add : ℕ → ℕ → ℕ) (c : Counters) (connects : Bool) (games : List GamePoll) (e : LoginEnd)
    (f : Finished)
    → c.login < u64_mod
    → c.game < u64_mod
    → (after_login add (on_login_started c) connects games e).1 ≡ some f
    → Gone c (after_login add (on_login_started c) connects games e).0
unfolding on_login_started on_disconnected
after_login-Gone add c connects games waiting f l g h = cc
after_login-Gone add c connects games (finished x) f l g h = omega arith
after_login-Gone add c connects games (token t) f l g h =
    after_game-Gone c (game_phase add t connects games) (game_phase add t connects games).ended f l
      g refl h

-- A client that has ended, in whichever way and in whichever phase, counts as exactly one
-- disconnected client: the counts of both servers are as they were before it started.
pub run-Gone :
    (add : ℕ → ℕ → ℕ) (c : Counters) (user_id client_hash : Bytes) (logins : List LoginPoll)
    (connects : Bool) (games : List GamePoll) (f : Finished)
    → c.login < u64_mod
    → c.game < u64_mod
    → (run add c user_id client_hash logins connects games).1 ≡ some f
    → Gone c (run add c user_id client_hash logins connects games).0
unfolding run
run-Gone add c user_id client_hash logins connects games f l g h =
    after_login-Gone add c connects games (login_phase user_id client_hash logins).ended f l g h
