-- ===== src/Tests/CryptoTests.antt =====
-- src/crypto.rs and src/packet.rs with a cipher that adds sixteen zeros.
use eternal_terminal_client.Base.{
  ℕ, ◌+◌, ◌≡◌, refl, sym, ap, Option, none, some, List, [], ◌∷◌, ◌++◌, true, arith, ok, length,
  replicate, drop,
}
use eternal_terminal_client.Crypto.{
  CryptoHandler, client_server_nonce_msb, increment_nonce, step_nonce, encrypt_failed,
  decrypt_failed, CryptoError,
}
use eternal_terminal_client.Crypto
use eternal_terminal_client.Crypto.Secretbox.{Cipher, IsAead}
use eternal_terminal_client.Base.Bytes.{le_value, le_bytes}
use eternal_terminal_client.Crypto.Counter.{handler_after-le_bytes}
use eternal_terminal_client.Crypto.Nonce.{IsHandler, fresh, handler_after, nonces_distinct}
use eternal_terminal_client.Crypto.Streams.{encrypt_all, decrypt_all, decrypt_all-encrypt_all}
use eternal_terminal_client.Packet
use eternal_terminal_client.Packet.{
  Packet, PacketError, too_short, already_encrypted, not_encrypted, crypto, serialize,
  from_serialized, size,
}
use eternal_terminal_client.Packet.Sealed.{decrypt-encrypt_packet}

abbrev pub toy : Cipher
toy = record {
  seal = λ key nonce plaintext. some (replicate 16 0 ++ plaintext);
  unseal = λ key nonce sealed. some (drop 16 sealed);
}

abbrev bytes_of : Option (List ℕ) → List ℕ
bytes_of none = []
bytes_of (some b) = b

pub toy-IsAead : IsAead toy
toy-IsAead = record {
  opens = λ key nonce plaintext sealed e. ap (λ o. some (drop 16 (bytes_of o))) (sym e);
  overhead = λ key nonce plaintext sealed e. omega (arith, ap (λ o. length (bytes_of o)) e);
}

abbrev pub handler : CryptoHandler
handler = fresh (replicate 32 7) 0

abbrev second : ℕ
second = 2

nonces_distinct_example : (client_server_nonce_msb ≡ client_server_nonce_msb) × (second ≡ second)
nonces_distinct_example =
    nonces_distinct (replicate 32 7) (replicate 32 7) client_server_nonce_msb
      client_server_nonce_msb second second (omega arith) (omega arith) (omega arith) (omega arith)
      refl

handler-IsHandler : IsHandler handler
handler-IsHandler = record { bytes = omega arith; width = refl }

handler_after-le_bytes_example :
    (handler_after 300 handler).nonce ≡ le_bytes 24 (le_value handler.nonce + 300)
handler_after-le_bytes_example = handler_after-le_bytes 300 handler handler-IsHandler

abbrev texts : List (List ℕ)
texts = (1 ∷ 2 ∷ []) ∷ [] ∷ (3 ∷ []) ∷ []

abbrev sealed : List ℕ → List ℕ
sealed p = replicate 16 0 ++ p

abbrev sealed_texts : List (List ℕ)
sealed_texts = sealed (1 ∷ 2 ∷ []) ∷ sealed [] ∷ sealed (3 ∷ []) ∷ []

encrypt_texts : encrypt_all toy handler texts ≡ ok (sealed_texts, handler_after 3 handler)
unfolding encrypt_all Crypto.encrypt handler_after
encrypt_texts = refl

decrypt_all-encrypt_all_example :
    decrypt_all toy handler sealed_texts ≡ ok (texts, handler_after 3 handler)
decrypt_all-encrypt_all_example =
    decrypt_all-encrypt_all toy toy-IsAead handler (handler_after 3 handler) texts sealed_texts
      encrypt_texts

abbrev pub plain : Packet
plain = Packet.new 1 (9 ∷ 8 ∷ [])

abbrev pub sealed_plain : Packet
sealed_plain = record { encrypted = true; header = 1; payload = sealed (9 ∷ 8 ∷ []) }

pub encrypt-plain : Packet.encrypt toy plain handler ≡ (ok tt, sealed_plain, step_nonce handler)
unfolding Packet.encrypt Packet.set_payload Crypto.encrypt
encrypt-plain = refl

decrypt-encrypt_packet_example :
    (Packet.decrypt toy sealed_plain handler ≡ (ok tt, plain, step_nonce handler))
    × (size sealed_plain ≡ size plain + 16)
decrypt-encrypt_packet_example =
    decrypt-encrypt_packet toy toy-IsAead plain sealed_plain handler (step_nonce handler)
      encrypt-plain
