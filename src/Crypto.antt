-- ===== src/Crypto.antt =====
-- src/crypto.rs: the two streams of `crypto_secretbox` with counted nonces. The cipher is the crate
-- `xsalsa20poly1305`, a parameter here.
pub mod Secretbox
pub mod Nonce
pub mod Counter
pub mod Streams
use eternal_terminal_client.Base.{
  ℕ, ◌+◌, ◌%◌, Option, none, some, List, [], ◌∷◌, ◌++◌, ltb, ◌==◌, if◌then◌else◌, Outcome, ok, err,
  length, replicate,
}
use eternal_terminal_client.Crypto.Secretbox.{Cipher}

abbrev pub key_bytes : ℕ
key_bytes = 32

abbrev pub nonce_bytes : ℕ
nonce_bytes = 24

abbrev pub mac_bytes : ℕ
mac_bytes = 16

abbrev pub client_server_nonce_msb : ℕ
client_server_nonce_msb = 0

abbrev pub server_client_nonce_msb : ℕ
server_client_nonce_msb = 1

pub data CryptoError : Type 0 where
  invalid_key_length : ℕ → CryptoError
  encrypt_failed decrypt_failed truncated : CryptoError

-- `Inner`, which the mutex guards. The cipher is its key.
pub record CryptoHandler : Type 0 where
  pub key : List ℕ
  pub nonce : List ℕ

pub new : List ℕ → ℕ → Outcome CryptoError CryptoHandler
new key nonce_msb =
    if length key == key_bytes
    then ok (record { key = key; nonce = replicate 23 0 ++ nonce_msb ∷ [] })
    else err (invalid_key_length (length key))

-- `*b = b.wrapping_add(1); if *b != 0 { break; }` from index 0 on.
pub increment_nonce : List ℕ → List ℕ
increment_nonce [] = []
increment_nonce (b ∷ bs) =
    let b' = (b + 1) % 256 in
    let carried = increment_nonce bs in if b' == 0 then b' ∷ carried else b' ∷ bs

unfoldable pub step_nonce : CryptoHandler → CryptoHandler
step_nonce h = record h { nonce = increment_nonce h.nonce }

-- `map_err(|_| e)`
abbrev pub or_error : Option (List ℕ) → CryptoError → Outcome CryptoError (List ℕ)
or_error none e = err e
or_error (some b) e = ok b

module _ (c : Cipher) where
  unfoldable pub encrypt : CryptoHandler → List ℕ → Outcome CryptoError (List ℕ) × CryptoHandler
  unfolding step_nonce
  encrypt h plaintext =
      let h' = step_nonce h in (or_error (c.seal h'.key h'.nonce plaintext) encrypt_failed, h')

  unfoldable pub decrypt : CryptoHandler → List ℕ → Outcome CryptoError (List ℕ) × CryptoHandler
  unfolding step_nonce
  decrypt h ciphertext =
      let h' = step_nonce h in
      if ltb (length ciphertext) mac_bytes
      then (err truncated, h)
      else (or_error (c.unseal h'.key h'.nonce ciphertext) decrypt_failed, h')
