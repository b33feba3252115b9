-- ===== src/Crypto/Secretbox.antt =====
-- The cipher XSalsa20-Poly1305 of the crate `xsalsa20poly1305`: what the program calls of it, and
-- what the crate's documentation promises of these calls.
use eternal_terminal_client.Base.{ℕ, ◌+◌, ◌≡◌, Option, some, List, length}

-- `encrypt` and `decrypt` of `Aead`, with the key, the nonce and the text; `none` is its error.
pub record Cipher : Type 0 where
  pub seal : List ℕ → List ℕ → List ℕ → Option (List ℕ)
  pub unseal : List ℕ → List ℕ → List ℕ → Option (List ℕ)

-- Under the same key and nonce a sealed text opens to what was sealed, and it is longer by the
-- MAC of 16 bytes.
pub record IsAead (c : Cipher) : Type 0 where
  pub opens :
      (key nonce plaintext sealed : List ℕ)
      → c.seal key nonce plaintext ≡ some sealed
      → c.unseal key nonce sealed ≡ some plaintext
  pub overhead :
      (key nonce plaintext sealed : List ℕ)
      → c.seal key nonce plaintext ≡ some sealed
      → length sealed ≡ length plaintext + 16
