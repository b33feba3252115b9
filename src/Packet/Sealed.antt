-- ===== src/Packet/Sealed.antt =====
-- `encrypt` and `decrypt` of packets.
use eternal_terminal_client.Base.{
  ℕ, ◌+◌, ◌≡◌, refl, sym, ap, ap₂, ◌∙◌, Bool, true, false, List, arith, if◌then◌else◌, Outcome, ok,
  err, panic, stuck,
}
use eternal_terminal_client.Crypto
use eternal_terminal_client.Crypto.{CryptoError, CryptoHandler}
use eternal_terminal_client.Crypto.Secretbox.{Cipher, IsAead}
use eternal_terminal_client.Crypto.Streams.{length-encrypt}
use eternal_terminal_client.Crypto.Streams
use eternal_terminal_client.Packet.{
  Packet, PacketError, already_encrypted, not_encrypted, crypto, size, set_payload, encrypt,
  decrypt,
}

set_payload-eq-ok :
    (p q : Packet) (flag : Bool) (r : Outcome CryptoError (List ℕ)) (h h' : CryptoHandler)
    → set_payload p flag (r, h) ≡ (ok tt, q, h')
    → (r ≡ ok q.payload) × (q ≡ record p { payload = q.payload; encrypted = flag }) × (h' ≡ h)
unfolding set_payload
set_payload-eq-ok p q flag (ok b) h h' e = ground arith
set_payload-eq-ok p q flag (err x) h h' e = cc
set_payload-eq-ok p q flag panic h h' e = cc
set_payload-eq-ok p q flag stuck h h' e = cc

module _ (c : Cipher) where
  -- The packet that `encrypt` makes where it succeeds.
  pub encrypt-eq-ok :
      (p q : Packet) (h h' : CryptoHandler)
      → encrypt c p h ≡ (ok tt, q, h')
      → (p.encrypted ≡ false)
        × ((Crypto.encrypt c h p.payload).0 ≡ ok q.payload)
        × (q ≡ record p { payload = q.payload; encrypted = true })
        × (h' ≡ (Crypto.encrypt c h p.payload).1)
  unfolding encrypt
  encrypt-eq-ok p q h h' e =
      let (t, f) = not_encrypted_yet p.encrypted e in
      let (r, s, u) =
        set_payload-eq-ok p q true (Crypto.encrypt c h p.payload).0 (Crypto.encrypt c h p.payload).1
          h' f in
      (t, r, s, u)
    where
      not_encrypted_yet :
          (b : Bool)
          → (if b
              then (err already_encrypted, p, h)
              else set_payload p true (Crypto.encrypt c h p.payload))
            ≡ (ok tt, q, h')
          → (b ≡ false) × (set_payload p true (Crypto.encrypt c h p.payload) ≡ (ok tt, q, h'))
      not_encrypted_yet true e = cc (ap (λ x. x.0) e)
      not_encrypted_yet false e = (refl, e)

  -- `encrypt` refuses an encrypted packet, and `decrypt` one that is not encrypted, before they touch
  -- the cipher: the packet and the nonce stay. Where the cipher fails the packet stays too.
  pub refused :
      (p : Packet) (h : CryptoHandler)
      → (p.encrypted ≡ true → encrypt c p h ≡ (err already_encrypted, p, h))
        × (p.encrypted ≡ false → decrypt c p h ≡ (err not_encrypted, p, h))
        × ((e : CryptoError)
            → p.encrypted ≡ false
            → (Crypto.encrypt c h p.payload).0 ≡ err e
            → encrypt c p h ≡ (err (crypto e), p, (Crypto.encrypt c h p.payload).1))
        × ((e : CryptoError)
            → p.encrypted ≡ true
            → (Crypto.decrypt c h p.payload).0 ≡ err e
            → decrypt c p h ≡ (err (crypto e), p, (Crypto.decrypt c h p.payload).1))
  unfolding encrypt decrypt
  refused p h = (
    λ t. ap (λ b. if b then (err already_encrypted, p, h) else sealed) t,
    λ t. ap (λ b. if b then opened else (err not_encrypted, p, h)) t,
    λ e t q.
        ap (λ b. if b then (err already_encrypted, p, h) else sealed) t
        ∙ failed true e (Crypto.encrypt c h p.payload) q,
    λ e t q.
        ap (λ b. if b then opened else (err not_encrypted, p, h)) t
        ∙ failed false e (Crypto.decrypt c h p.payload) q,
  )
    where
      sealed : Outcome PacketError (Unit {0}) × Packet × CryptoHandler
      sealed = set_payload p true (Crypto.encrypt c h p.payload)

      opened : Outcome PacketError (Unit {0}) × Packet × CryptoHandler
      opened = set_payload p false (Crypto.decrypt c h p.payload)

      failed :
          (flag : Bool) (e : CryptoError) (r : Outcome CryptoError (List ℕ) × CryptoHandler)
          → r.0 ≡ err e
          → set_payload p flag r ≡ (err (crypto e), p, r.1)
      failed flag e (r, h') q = unfold set_payload in rw q

module _ (c : Cipher) (aead : IsAead c) where
  -- Under an AEAD cipher, a packet that `encrypt` made is 16 bytes longer than the plain one, and a
  -- handler with the same key and nonce decrypts it to the plain one and ends with the same nonce.
  pub decrypt-encrypt_packet :
      (p q : Packet) (h h' : CryptoHandler)
      → encrypt c p h ≡ (ok tt, q, h')
      → (decrypt c q h ≡ (ok tt, p, h')) × (size q ≡ size p + 16)
  unfolding decrypt set_payload
  decrypt-encrypt_packet p q h h' e =
      let (t, r, s, u) = encrypt-eq-ok c p q h h' e in
      let back = Streams.decrypt-encrypt c aead h p.payload q.payload r in
      (
        ap
              (λ b.
                if b
                then set_payload q false (Crypto.decrypt c h q.payload)
                else (err not_encrypted, q, h))
              (ap (λ (x : Packet). x.encrypted) s)
            ∙ ap (set_payload q false) back
            ∙ ap₂ (λ x y. (ok tt, x, y)) (plain t s) (sym u),
        omega (arith, length-encrypt c aead h p.payload q.payload r),
      )
    where
      plain :
          p.encrypted ≡ false
          → q ≡ record p { payload = q.payload; encrypted = true }
          → record q { payload = p.payload; encrypted = false } ≡ p
      plain t s = ground arith
