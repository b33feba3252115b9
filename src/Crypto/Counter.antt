-- ===== src/Crypto/Counter.antt =====
-- The carry loop of the nonce against arithmetic on a counter.
use eternal_terminal_client.Base.{
  ℕ, zero, suc, ◌+◌, ◌*◌, ◌/◌, ◌%◌, ◌≡◌, inl, inr, refl, sym, ap, ap₂, ◌∙◌, Bool-cases, List, [],
  ◌∷◌, arith, ◌==◌, length, All, IsByte,
}
use eternal_terminal_client.Base.Bytes.{le_value, le_bytes}
use eternal_terminal_client.Crypto.{CryptoHandler, increment_nonce, step_nonce}
use eternal_terminal_client.Crypto.Nonce.{handler_after, IsHandler}

le_bytes-le_value : (bs : List ℕ) → All IsByte bs → le_bytes (length bs) (le_value bs) ≡ bs
unfolding le_bytes le_value
le_bytes-le_value [] h = refl
le_bytes-le_value (b ∷ bs) h =
    let low : (b + 256 * le_value bs) % 256 ≡ b = omega (arith, h.0) in
    let high : (b + 256 * le_value bs) / 256 ≡ le_value bs = omega (arith, h.0) in
    ap₂ (λ x y. x ∷ le_bytes (length bs) y) low high ∙ ap (λ t. b ∷ t) (le_bytes-le_value bs h.1)

increment_nonce-le_bytes : (k v : ℕ) → increment_nonce (le_bytes k v) ≡ le_bytes k (v + 1)
unfolding increment_nonce le_bytes
increment_nonce-le_bytes zero v = refl
increment_nonce-le_bytes (suc k) v = elim (Bool-cases ((v % 256 + 1) % 256 == 0)) [
  | inl e ↦
      let low : (v % 256 + 1) % 256 ≡ (v + 1) % 256 = omega arith in
      let high : v / 256 + 1 ≡ (v + 1) / 256 = ground arith in
      rw e (ap₂ (λ x t. x ∷ t) low (increment_nonce-le_bytes k (v / 256) ∙ ap (le_bytes k) high))
  | inr e ↦
      let low : (v % 256 + 1) % 256 ≡ (v + 1) % 256 = omega arith in
      let high : v / 256 ≡ (v + 1) / 256 = ground arith in
      rw e (ap₂ (λ x y. x ∷ le_bytes k y) low high)
]

-- After any number of messages the nonce is what a counter of 24 bytes, little-endian, holds after as many
-- steps from the value that the nonce had at first, also where it passes 2^192.
pub handler_after-le_bytes :
    (n : ℕ) (h : CryptoHandler)
    → IsHandler h
    → (handler_after n h).nonce ≡ le_bytes 24 (le_value h.nonce + n)
unfolding handler_after step_nonce
handler_after-le_bytes zero h v =
    sym (le_bytes-le_value h.nonce v.bytes)
    ∙ ap₂ le_bytes v.width (let z : le_value h.nonce ≡ le_value h.nonce + 0 = omega arith in z)
handler_after-le_bytes (suc n) h v =
    ap increment_nonce (handler_after-le_bytes n h v)
    ∙ increment_nonce-le_bytes 24 (le_value h.nonce + n)
    ∙ ap (le_bytes 24)
        (let z : le_value h.nonce + n + 1 ≡ le_value h.nonce + suc n = omega arith in z)
