-- ===== src/Crypto/Streams.antt =====
-- Two handlers in step: what one encrypts the other decrypts, message after message.
use eternal_terminal_client.Base.{
  ℕ, ◌+◌, ◌≡◌, refl, Option, none, some, List, [], ◌∷◌, arith, ltb, if◌then◌else◌, Outcome, ok,
  ◌>>=◌, >>=-eq-ok, length,
}
use eternal_terminal_client.Crypto.{
  CryptoError, encrypt_failed, CryptoHandler, step_nonce, or_error, encrypt, decrypt, mac_bytes,
}
use eternal_terminal_client.Crypto.Secretbox.{Cipher, IsAead}

or_error-eq-ok :
    (o : Option (List ℕ)) (e : CryptoError) (b : List ℕ) → or_error o e ≡ ok b → o ≡ some b
or_error-eq-ok none e b q = cc
or_error-eq-ok (some a) e b q = cc

module _ (c : Cipher) where
  -- Each call of `encrypt` takes the next nonce, whether or not it succeeds.
  pub encrypt-step : (h : CryptoHandler) (p : List ℕ) → (encrypt c h p).1 ≡ step_nonce h
  unfolding encrypt
  encrypt-step h p = refl

  -- `decrypt` takes the next nonce exactly when the text is long enough to hold a MAC, whether or
  -- not it then succeeds.
  pub decrypt-step :
      (h : CryptoHandler) (b : List ℕ)
      → (decrypt c h b).1 ≡ (if ltb (length b) mac_bytes then h else step_nonce h)
  unfolding decrypt
  decrypt-step h b = ground arith

  -- The texts encrypted one after the other, and the handler behind them.
  unfoldable pub encrypt_all :
      CryptoHandler → List (List ℕ) → Outcome CryptoError (List (List ℕ) × CryptoHandler)
  encrypt_all h [] = ok ([], h)
  encrypt_all h (p ∷ ps) = do
    b ← (encrypt c h p).0
    (bs, h') ← encrypt_all (encrypt c h p).1 ps
    ok (b ∷ bs, h')

  pub decrypt_all :
      CryptoHandler → List (List ℕ) → Outcome CryptoError (List (List ℕ) × CryptoHandler)
  decrypt_all h [] = ok ([], h)
  decrypt_all h (b ∷ bs) = do
    p ← (decrypt c h b).0
    (ps, h') ← decrypt_all (decrypt c h b).1 bs
    ok (p ∷ ps, h')

module _ (c : Cipher) (aead : IsAead c) where
  pub length-encrypt :
      (h : CryptoHandler) (p b : List ℕ)
      → (encrypt c h p).0 ≡ ok b
      → length b ≡ length p + mac_bytes
  unfolding encrypt
  length-encrypt h p b e = aead.overhead _ _ p b (or_error-eq-ok _ encrypt_failed b e)

  pub decrypt-encrypt :
      (h : CryptoHandler) (p b : List ℕ)
      → (encrypt c h p).0 ≡ ok b
      → decrypt c h b ≡ (ok p, (encrypt c h p).1)
  unfolding encrypt decrypt step_nonce
  decrypt-encrypt h p b e =
      let sealed : c.seal (step_nonce h).key (step_nonce h).nonce p ≡ some b =
        or_error-eq-ok _ encrypt_failed b e in
      ground (arith, aead.opens _ _ p b sealed, aead.overhead _ _ p b sealed)

  -- Whatever texts one handler encrypts one after the other, a handler with the same key and nonce
  -- decrypts them in that order to the same texts, and ends with the same nonce.
  pub decrypt_all-encrypt_all :
      (h h' : CryptoHandler) (ps bs : List (List ℕ))
      → encrypt_all c h ps ≡ ok (bs, h')
      → decrypt_all c h bs ≡ ok (ps, h')
  unfolding encrypt_all decrypt_all
  decrypt_all-encrypt_all h h' [] bs e = cc
  decrypt_all-encrypt_all h h' (p ∷ ps) bs e =
      let (b, e₁, rest) = >>=-eq-ok (encrypt c h p).0 _ e in
      let (r, e₂, last) = >>=-eq-ok (encrypt_all c (encrypt c h p).1 ps) _ rest in
      let e₃ : bs ≡ b ∷ r.0 = cc last in
      let e₄ : h' ≡ r.1 = cc last in
      rw (e₃, e₄, decrypt-encrypt h p b e₁, decrypt_all-encrypt_all (encrypt c h p).1 r.1 ps r.0 e₂)
