-- ===== src/Crypto/Nonce.antt =====
-- The nonce as a counter: it never repeats, and the two directions never share one.
use native.Mathlib.Nat.{pow-suc}
use eternal_terminal_client.Base.{
  ℕ, zero, suc, ◌+◌, ◌*◌, ◌^◌, ◌<◌, ◌≡◌, refl, ap, ◌∙◌, List, [], ◌∷◌, ◌++◌, arith, ok, length,
  replicate, All, IsByte, ◌⊎◌, inl, inr,
}
use eternal_terminal_client.Base.Bytes.{le_value}
use eternal_terminal_client.Crypto.{CryptoHandler, new, increment_nonce, step_nonce, key_bytes}

pub length-increment_nonce : (n : List ℕ) → length (increment_nonce n) ≡ length n
unfolding increment_nonce
length-increment_nonce [] = refl
length-increment_nonce (b ∷ bs) = ground (arith, length-increment_nonce bs)

pub increment_nonce-IsByte : (n : List ℕ) → All IsByte n → All IsByte (increment_nonce n)
unfolding increment_nonce
increment_nonce-IsByte [] h = tt
increment_nonce-IsByte (b ∷ bs) h = ground (arith, increment_nonce-IsByte bs h.1)

-- One step of the nonce, read as a little-endian number, adds one, or wraps to zero at the top.
pub le_value-increment_nonce :
    (n : List ℕ)
    → All IsByte n
    → (le_value (increment_nonce n) ≡ le_value n + 1)
      ⊎ ((le_value n + 1 ≡ 256 ^ length n) × (le_value (increment_nonce n) ≡ 0))
unfolding increment_nonce le_value
le_value-increment_nonce [] h = inr (refl, refl)
le_value-increment_nonce (b ∷ bs) h =
    ground (arith, pow-suc 256 (length bs), le_value-increment_nonce bs h.1)

-- The handler after `n` messages.
unfoldable pub handler_after : ℕ → CryptoHandler → CryptoHandler
handler_after zero h = h
handler_after (suc n) h = step_nonce (handler_after n h)

pub record IsHandler (h : CryptoHandler) : Type 0 where
  pub bytes : All IsByte h.nonce
  pub width : length h.nonce ≡ 24

step_nonce-IsHandler : (h : CryptoHandler) → IsHandler h → IsHandler (step_nonce h)
unfolding step_nonce
step_nonce-IsHandler h v = record {
  bytes = increment_nonce-IsByte h.nonce v.bytes;
  width = length-increment_nonce h.nonce ∙ v.width;
}

pub handler_after-IsHandler :
    (n : ℕ) (h : CryptoHandler) → IsHandler h → IsHandler (handler_after n h)
unfolding handler_after
handler_after-IsHandler zero h v = v
handler_after-IsHandler (suc n) h v =
    step_nonce-IsHandler (handler_after n h) (handler_after-IsHandler n h v)

-- After `n` messages the nonce has grown by `n`, while that fits in its 24 bytes.
le_value-handler_after :
    (n : ℕ) (h : CryptoHandler)
    → IsHandler h
    → le_value h.nonce + n < 256 ^ 24
    → le_value (handler_after n h).nonce ≡ le_value h.nonce + n
unfolding handler_after step_nonce
le_value-handler_after zero h v fits = omega arith
le_value-handler_after (suc n) h v fits =
    one_more
      (le_value-increment_nonce (handler_after n h).nonce (handler_after-IsHandler n h v).bytes)
      (le_value-handler_after n h v (omega arith))
      (ap (λ (k : ℕ). 256 ^ k) (handler_after-IsHandler n h v).width)
  where
    one_more :
        {m : ℕ}
        → (le_value (increment_nonce (handler_after n h).nonce)
            ≡ le_value (handler_after n h).nonce + 1)
          ⊎ ((le_value (handler_after n h).nonce + 1 ≡ m)
              × (le_value (increment_nonce (handler_after n h).nonce) ≡ 0))
        → le_value (handler_after n h).nonce ≡ le_value h.nonce + n
        → m ≡ 256 ^ 24
        → le_value (increment_nonce (handler_after n h).nonce) ≡ le_value h.nonce + suc n
    one_more (inl e) f g = omega arith
    one_more (inr e) f g = absurd (omega arith)

le_value-zeros : (n b : ℕ) → le_value (replicate n 0 ++ b ∷ []) ≡ 256 ^ n * b
unfolding le_value
le_value-zeros zero b = omega arith
le_value-zeros (suc n) b = omega (arith, le_value-zeros n b, ap (λ (t : ℕ). t * b) (pow-suc 256 n))

-- What `new` makes of a key of the right length.
abbrev pub fresh : List ℕ → ℕ → CryptoHandler
fresh key msb = record { key = key; nonce = replicate 23 0 ++ msb ∷ [] }

pub new-fresh : (key : List ℕ) (msb : ℕ) → length key ≡ key_bytes → new key msb ≡ ok (fresh key msb)
unfolding new
new-fresh key msb h = ground arith

pub fresh-IsHandler : (key : List ℕ) (msb : ℕ) → IsByte msb → IsHandler (fresh key msb)
fresh-IsHandler key msb h = record { bytes = omega arith; width = refl }

fresh_value :
    (key : List ℕ) (msb i : ℕ)
    → IsByte msb
    → i < 256 ^ 23
    → le_value (handler_after i (fresh key msb)).nonce ≡ 256 ^ 23 * msb + i
fresh_value key msb i hb hi = omega (
  arith,
  le_value-handler_after i (fresh key msb) (fresh-IsHandler key msb hb) (omega (arith, start)),
  start,
)
  where
    start : le_value (fresh key msb).nonce ≡ 256 ^ 23 * msb
    start = le_value-zeros 23 msb

-- No nonce is used twice in the first 256^23 - 1 messages of each direction: if the nonces of the
-- i-th message of a stream that starts with the byte `a` and of the j-th message of a stream that
-- starts with the byte `b` are equal, then the streams have the same start and i is j.
pub nonces_distinct :
    (key key' : List ℕ) (a b i j : ℕ)
    → IsByte a
    → IsByte b
    → i < 256 ^ 23
    → j < 256 ^ 23
    → (handler_after i (fresh key a)).nonce ≡ (handler_after j (fresh key' b)).nonce
    → (a ≡ b) × (i ≡ j)
nonces_distinct key key' a b i j ha hb hi hj e =
    omega (arith, fresh_value key a i ha hi, fresh_value key' b j hb hj, ap le_value e)
