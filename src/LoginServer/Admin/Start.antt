-- ===== src/LoginServer/Admin/Start.antt =====
-- `start` of crates/login_server/src/admin/mod.rs: the HTTP or HTTPS server of the operators.
use rust_gameserver.Base.{
  ◌≡◌, ◌≢◌, refl, ◌⊎◌, ℕ, Bool, true, false, ◌||◌, [], ◌∷◌, Bytes, is_empty, if◌then◌else◌, arith,
  inl, inr,
}
use rust_gameserver.Net.Consts.{from_secs}
use rust_gameserver.LoginServer.Config.{AdminApiConfig}

abbrev pub graceful_shutdown_timeout : ℕ
graceful_shutdown_timeout = from_secs 5

-- What the system and the files say: the port can be bound, the listener can be made non-blocking
-- and handed to axum, and the certificate and the key can be read.
pub record Host : Type 0 where
  pub binds : Bool
  pub unblocks : Bool
  pub adopts : Bool
  pub loads_tls : Bool

pub data Started : Type 0 where
  http https : Started
  bind_failed io_failed tls_failed : Started

unfoldable pub start : AdminApiConfig → Host → Started
start config host =
    if host.binds
    then if host.unblocks
      then if is_empty config.tls_cert_path || is_empty config.tls_key_path
        then if host.adopts then http else io_failed
        else if host.loads_tls
        then if host.adopts then https else io_failed
        else tls_failed
      else io_failed
    else bind_failed

abbrev pub is_started : Started → Bool
is_started http = true
is_started https = true
is_started bind_failed = false
is_started io_failed = false
is_started tls_failed = false

is_empty_cases : (s : Bytes) → ((is_empty s ≡ true) × (s ≡ [])) ⊎ ((is_empty s ≡ false) × (s ≢ []))
is_empty_cases [] = inl (refl, refl)
is_empty_cases (c ∷ s) = inr (refl, λ h. cc)

-- With both paths set the server is never opened without TLS, and with one of them missing never
-- with it.
pub start_tls :
    (config : AdminApiConfig) (host : Host)
    → ((start config host ≡ http) → (config.tls_cert_path ≡ []) ⊎ (config.tls_key_path ≡ []))
      × ((start config host ≡ https)
          → (config.tls_cert_path ≢ []) × (config.tls_key_path ≢ []) × (host.loads_tls ≡ true))
unfolding start
start_tls config host =
    let cert = is_empty_cases config.tls_cert_path in
    let key = is_empty_cases config.tls_key_path in
    (λ h. ground arith, λ h. (ground arith, ground arith, ground arith))
