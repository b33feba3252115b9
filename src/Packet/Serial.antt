-- ===== src/Packet/Serial.antt =====
-- `serialize` and `from_serialized`.
use eternal_terminal_client.Base.{
  ℕ, ◌<◌, ◌≡◌, refl, ap, Bool, true, false, not, List, [], ◌∷◌, arith, ◌==◌, if◌then◌else◌, ok, err,
  length, ◌↔◌,
}
use eternal_terminal_client.Packet.{Packet, too_short, from_serialized, size, serialize}

-- A serialized packet has `Packet::length` bytes and parses to the same packet.
pub from_serialized-serialize :
    (p : Packet) → (from_serialized (serialize p) ≡ ok p) × (length (serialize p) ≡ size p)
unfolding from_serialized serialize
from_serialized-serialize p =
    (ap (λ b. ok (record p { encrypted = b })) (flag p.encrypted), omega arith)
  where
    flag : (b : Bool) → not ((if b then 1 else 0) == 0) ≡ b
    flag true = refl
    flag false = refl

-- `from_serialized` fails exactly on fewer than two bytes, and otherwise the packet has the bytes
-- from the second on as they are.
pub from_serialized_cases :
    (b : List ℕ)
    → ((from_serialized b ≡ err too_short) ↔ (length b < 2))
      × ((p : Packet) → from_serialized b ≡ ok p → (flag : ℕ) × (b ≡ flag ∷ p.header ∷ p.payload))
unfolding from_serialized
from_serialized_cases [] = ((λ _. omega arith, λ _. refl), λ p e. absurd (cc))
from_serialized_cases (f ∷ []) = ((λ _. omega arith, λ _. refl), λ p e. absurd (cc))
from_serialized_cases (f ∷ h ∷ b) = (
  (λ e. absurd (cc), λ (q : length (f ∷ h ∷ b) < 2). absurd (omega arith)),
  λ p e. (f, ground arith),
)
