-- ===== src/Examples/Params.antt =====
-- Concrete parameters for the tests: a toy protobuf, cancellation flags, a bounded channel, a Redis
-- server and cryptography.
use rust_gameserver.Base.{
  ℕ, ◌^◌, ◌≡◌, ◌⊎◌, ◌≢◌, refl, Bool, true, false, List, [], ◌∷◌, ◌++◌, Option, none, some, Bytes,
  bytes_discrete, length, ltb, if◌then◌else◌, arith, ◌||◌, ◌==◌,
}
use rust_gameserver.Base.Map.{get, insert, remove, get-insert, get-remove}
use rust_gameserver.Proto.{
  Payload, MessageWrapper, keep_alive_request, keep_alive_noti, enter_world_response,
}
use rust_gameserver.Net.Consts.{max_send_queue_size}
use rust_gameserver.Net.Codec.{Prost, ProstResult, decoded, failed, malformed, IsEncodable}
use rust_gameserver.Net.Cancellation.{Cancellation}
use rust_gameserver.Net.Outbox.{Channel, TrySend, accepted, full, wrap}
use rust_gameserver.Redis.{Redis, Reply, done, IsLifetime}
use rust_gameserver.Redis as Redis_server
use rust_gameserver.Db.Password.{Crypto}

abbrev pub ping : MessageWrapper
ping = wrap keep_alive_request

abbrev pub notice : MessageWrapper
notice = wrap keep_alive_noti

-- A message that the toy protobuf calls too long.
abbrev pub huge : MessageWrapper
huge = wrap (enter_world_response true)

abbrev encode_payload : Option Payload → Bytes
encode_payload (some keep_alive_request) = 58 ∷ 0 ∷ []
encode_payload (some keep_alive_noti) = 50 ∷ 0 ∷ []
encode_payload other = []

abbrev length_payload : Option Payload → ℕ
length_payload (some (enter_world_response b)) = 9000
length_payload other = length (encode_payload other)

abbrev decode_bytes : Bytes → ProstResult
decode_bytes (tag ∷ value ∷ []) =
    if tag == 58 then decoded ping else if tag == 50 then decoded notice else failed malformed
decode_bytes other = failed malformed

abbrev pub prost : Prost
prost = record {
  encoded_len = λ m. length_payload m.payload;
  encode = λ m. encode_payload m.payload;
  decode = decode_bytes;
}

pub ping-IsEncodable : IsEncodable prost ping
ping-IsEncodable = record { announced = refl; read_back = refl }

pub notice-IsEncodable : IsEncodable prost notice
notice-IsEncodable = record { announced = refl; read_back = refl }

-- A token is a number; the store lists the cancelled ones.
abbrev has : ℕ → List ℕ → Bool
has t [] = false
has t (u ∷ us) = (u == t) || has t us

pub has-cancel : (t : ℕ) (s : List ℕ) → has t (t ∷ s) ≡ true
has-cancel t s = ground arith

pub has-more : (t u : ℕ) (s : List ℕ) → has t s ≡ true → has t (u ∷ s) ≡ true
has-more t u s h = ground arith

abbrev pub flags : Cancellation ℕ (List ℕ)
flags = record {
  cancel = λ t s. t ∷ s;
  is_cancelled = has;
  cancelled_self = has-cancel;
  stays_cancelled = has-more;
}

abbrev offer : List MessageWrapper → MessageWrapper → List MessageWrapper × TrySend
offer c m = if ltb (length c) max_send_queue_size then (c ++ m ∷ [], accepted) else (c, full)

pub offer-accepts :
    (c : List MessageWrapper) (m : MessageWrapper)
    → (offer c m).1 ≡ accepted
    → (offer c m).0 ≡ c ++ m ∷ []
offer-accepts c m h = ground arith

pub offer-refuses :
    (c : List MessageWrapper) (m : MessageWrapper) → (offer c m).1 ≢ accepted → (offer c m).0 ≡ c
offer-refuses c m h = ground arith

abbrev pub queue : Channel (List MessageWrapper)
queue = record { try_send = offer; sent = λ c. c; accepts = offer-accepts; refuses = offer-refuses }

pub get-stored :
    (r : List (Bytes × Bytes)) (k : Bytes) (v : Option Bytes)
    → done (get bytes_discrete k r) ≡ done v
    → v ≡ get bytes_discrete k r
get-stored r k v h = ground arith

pub set-stores :
    (r : List (Bytes × Bytes)) (k v : Bytes)
    → get bytes_discrete k (insert bytes_discrete k v r) ≡ some v
set-stores r k v = ground (arith, get-insert bytes_discrete k k v r)

pub del-removes :
    (r : List (Bytes × Bytes)) (k : Bytes) → get bytes_discrete k (remove bytes_discrete k r) ≡ none
del-removes r k = ground (arith, get-remove bytes_discrete k k r)

pub del-only :
    (r : List (Bytes × Bytes)) (k j : Bytes)
    → (get bytes_discrete j (remove bytes_discrete k r) ≡ none)
      ⊎ (get bytes_discrete j (remove bytes_discrete k r) ≡ get bytes_discrete j r)
del-only r k j = ground (arith, get-remove bytes_discrete j k r)

-- `SETEX`, which refuses some lifetimes.
abbrev pub set_ex : List (Bytes × Bytes) → Bytes → Bytes → ℕ → List (Bytes × Bytes) × Reply Bool
set_ex r k v ttl =
    if ltb 0 ttl
    then if ltb ttl (2 ^ 63)
      then (insert bytes_discrete k v r, done true)
      else (r, Redis_server.failed)
    else (r, Redis_server.failed)

pub set_ex-stores :
    (r : List (Bytes × Bytes)) (k v : Bytes) (ttl : ℕ)
    → (set_ex r k v ttl).1 ≡ done true
    → get bytes_discrete k (set_ex r k v ttl).0 ≡ some v
set_ex-stores r k v ttl h = ground (arith, set-stores r k v)

pub set_ex-only :
    (r : List (Bytes × Bytes)) (k v : Bytes) (ttl : ℕ) (j : Bytes)
    → k ≢ j
    → get bytes_discrete j (set_ex r k v ttl).0 ≡ get bytes_discrete j r
set_ex-only r k v ttl j h = ground (arith, get-insert bytes_discrete j k v r)

pub set_ex-lives :
    (r : List (Bytes × Bytes)) (k v : Bytes) (ttl : ℕ)
    → (set_ex r k v ttl).1 ≡ done true
    → IsLifetime ttl
set_ex-lives r k v ttl h = ground arith

abbrev pub store : Redis (List (Bytes × Bytes))
store = record {
  stored = λ r k. get bytes_discrete k r;
  get = λ r k. done (get bytes_discrete k r);
  del = λ r k. (remove bytes_discrete k r, done tt);
  expire = λ r k ttl. (r, done tt);
  set_ex = set_ex;
  get_stored = get-stored;
  set_stores = set_ex-stores;
  del_removes = λ r k h. del-removes r k;
  del_only = del-only;
  set_only = set_ex-only;
  set_lives = set_ex-lives;
  expire_keeps = λ r k ttl j h. refl;
}

abbrev pub crypto : Crypto
crypto = record {
  sha256 = λ p. p;
  pbkdf2_hmac = λ p s n. p ++ s;
  encode = λ b. b;
  decode = λ b. some b;
  decode_encode = λ b. refl;
}
