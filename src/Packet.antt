-- ===== src/Packet.antt =====
-- src/packet.rs: a flag, a header byte and a payload.
pub mod Serial
pub mod Sealed
use eternal_terminal_client.Base.{
  ℕ, ◌+◌, Bool, true, false, not, List, [], ◌∷◌, ◌==◌, if◌then◌else◌, Outcome, ok, err, panic,
  stuck, map_err, length,
}
use eternal_terminal_client.Crypto
use eternal_terminal_client.Crypto.{CryptoError, CryptoHandler}
use eternal_terminal_client.Crypto.Secretbox.{Cipher}

pub record Packet : Type 0 where
  pub encrypted : Bool
  pub header : ℕ
  pub payload : List ℕ

-- The `anyhow::Error` of the packet functions.
pub data PacketError : Type 0 where
  too_short already_encrypted not_encrypted : PacketError
  crypto : CryptoError → PacketError

abbrev pub new : ℕ → List ℕ → Packet
new header payload = record { encrypted = false; header = header; payload = payload }

pub from_serialized : List ℕ → Outcome PacketError Packet
from_serialized [] = err too_short
from_serialized (flag ∷ []) = err too_short
from_serialized (flag ∷ header ∷ payload) =
    ok (record { encrypted = not (flag == 0); header = header; payload = payload })

-- `Packet::length`
abbrev pub size : Packet → ℕ
size p = 2 + length p.payload

unfoldable pub serialize : Packet → List ℕ
serialize p = (if p.encrypted then 1 else 0) ∷ p.header ∷ p.payload

-- `self.payload = result?; self.encrypted = flag;`
unfoldable pub set_payload :
    Packet
    → Bool
    → Outcome CryptoError (List ℕ) × CryptoHandler
    → Outcome PacketError (Unit {0}) × Packet × CryptoHandler
set_payload p flag (ok b, h) = (ok tt, record p { payload = b; encrypted = flag }, h)
set_payload p flag (err e, h) = (err (crypto e), p, h)
set_payload p flag (panic, h) = (panic, p, h)
set_payload p flag (stuck, h) = (stuck, p, h)

-- The packet and the handler come back beside the result.
module _ (c : Cipher) where
  unfoldable pub encrypt :
      Packet → CryptoHandler → Outcome PacketError (Unit {0}) × Packet × CryptoHandler
  unfolding set_payload
  encrypt p h =
      if p.encrypted
      then (err already_encrypted, p, h)
      else set_payload p true (Crypto.encrypt c h p.payload)

  unfoldable pub decrypt :
      Packet → CryptoHandler → Outcome PacketError (Unit {0}) × Packet × CryptoHandler
  unfolding set_payload
  decrypt p h =
      if p.encrypted
      then set_payload p false (Crypto.decrypt c h p.payload)
      else (err not_encrypted, p, h)
