-- ===== src/Db/Password.antt =====
-- crates/db/src/password.rs. SHA-256, PBKDF2 and Base64 are third-party code, so they are the
-- parameter `Crypto`; the random salt is an argument.
use rust_gameserver.Base.{
  ℕ, ◌≡◌, inl, inr, Bool, true, false, Option, none, some, Bytes, bytes_discrete, arith, ite,
  Option-cases, ◌↔◌,
}

-- Base64 is the padded standard alphabet, whose documentation says that decoding reverses encoding.
pub record Crypto : Type 0 where
  pub sha256 : Bytes → Bytes
  pub pbkdf2_hmac : (password salt : Bytes) (iterations : ℕ) → Bytes
  pub encode : Bytes → Bytes
  pub decode : Bytes → Option Bytes
  pub decode_encode : (b : Bytes) → decode (encode b) ≡ some b

pub data PasswordError : Type 0 where
  invalid_base64 : PasswordError

pub data Verdict : Type 0 where
  ok : Bool → Verdict
  err : PasswordError → Verdict

abbrev pub iterations : ℕ
iterations = 100_000

module _ (c : Crypto) where
  unfoldable pub client_hash : Bytes → Bytes
  client_hash plain_password = c.sha256 plain_password

  unfoldable pub derive : Bytes → Bytes → Bytes
  derive client_hash salt = c.pbkdf2_hmac client_hash salt iterations

  unfoldable pub generate_stored_hash : Bytes → Bytes → Bytes × Bytes
  generate_stored_hash client_hash salt = (c.encode (derive client_hash salt), c.encode salt)

  -- `ct_eq` of `subtle`: false if the lengths differ.
  abbrev pub ct_eq : Bytes → Bytes → Bool
  ct_eq a b = ite (bytes_discrete a b) true false

  abbrev compare_stored : Bytes → Bytes → Option Bytes → Verdict
  compare_stored client_hash salt none = err invalid_base64
  compare_stored client_hash salt (some stored) = ok (ct_eq (derive client_hash salt) stored)

  abbrev with_salt : Bytes → Bytes → Option Bytes → Verdict
  with_salt client_hash stored_hash none = err invalid_base64
  with_salt client_hash stored_hash (some salt) =
      compare_stored client_hash salt (c.decode stored_hash)

  unfoldable pub verify : Bytes → Bytes → Bytes → Verdict
  verify client_hash stored_hash_base64 stored_salt_base64 =
      with_salt client_hash stored_hash_base64 (c.decode stored_salt_base64)

  -- A password is accepted against what was stored for it, and another password exactly if PBKDF2
  -- derives the same bytes from its hash under the same salt.
  pub verify-generate :
      (h h' salt : Bytes)
      → verify h' (generate_stored_hash h salt).0 (generate_stored_hash h salt).1
        ≡ ok (ct_eq (derive h' salt) (derive h salt))
  unfolding verify generate_stored_hash
  verify-generate h h' salt = rw (c.decode_encode salt) (rw (c.decode_encode (derive h salt)))

  verify_sound :
      (h stored salt : Bytes)
      → verify h stored salt ≡ ok true
      → (s : Bytes) × (c.decode salt ≡ some s) × (c.decode stored ≡ some (derive h s))
  unfolding verify
  verify_sound h stored salt e = elim (Option-cases (c.decode salt)) [
    | inl x ↦ absurd (ground arith)
    | inr (s, x) ↦ elim (Option-cases (c.decode stored)) [
      | inl y ↦ absurd (ground arith)
      | inr (d, y) ↦ (s, x, ground arith)
    ]
  ]

  verify_complete :
      (h stored salt s : Bytes)
      → c.decode salt ≡ some s
      → c.decode stored ≡ some (derive h s)
      → verify h stored salt ≡ ok true
  unfolding verify
  verify_complete h stored salt s x y = ground arith

  -- The check accepts a password exactly if the stored salt and hash are both Base64 and PBKDF2
  -- derives the stored hash from it.
  pub verify_iff :
      (h stored salt : Bytes)
      → (verify h stored salt ≡ ok true)
        ↔ ((s : Bytes) × (c.decode salt ≡ some s) × (c.decode stored ≡ some (derive h s)))
  verify_iff h stored salt =
      (verify_sound h stored salt, λ w. verify_complete h stored salt w.0 w.1 w.2)
