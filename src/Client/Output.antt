-- ===== src/Client/Output.antt =====
-- What a round of the loop makes of the packets that it drains.
use eternal_terminal_client.Base.{
  ℕ, ◌+◌, ◌≡◌, sym, ap, ◌∙◌, true, false, some, List, [], ◌∷◌, ◌++◌, append_assoc, append-nil, ◌==◌,
  ok, ◌>>=◌,
}
use eternal_terminal_client.Packet
use eternal_terminal_client.Packet.{Packet}
use eternal_terminal_client.Proto.Messages.{keep_alive, terminal_buffer}
use eternal_terminal_client.Proto.Message.{IsVec}
use eternal_terminal_client.Proto.Codec.TerminalBuffer
use eternal_terminal_client.Client.{Loop, typed_packet, or_empty, on_packet, drain}

-- What the server sends: output of the shell, an answer to a keepalive, or a packet that the client does
-- not use.
pub data Incoming : Type 0 where
  output : List ℕ → Incoming
  alive : List ℕ → Incoming
  unused : Packet → Incoming

abbrev pub packet_of : Incoming → Packet
packet_of (output b) = typed_packet b
packet_of (alive b) = Packet.new keep_alive b
packet_of (unused p) = p

abbrev pub IsIncoming : Incoming → Type 0
IsIncoming (output b) = IsVec b
IsIncoming (alive b) = Unit
IsIncoming (unused p) = ((p.header == terminal_buffer) ≡ false) × ((p.header == keep_alive) ≡ false)

abbrev pub AllIncoming : List (Incoming × ℕ) → Type 0
AllIncoming [] = Unit
AllIncoming ((i, now) ∷ is) = IsIncoming i × AllIncoming is

abbrev pub packets : List (Incoming × ℕ) → List (Packet × ℕ)
packets [] = []
packets ((i, now) ∷ is) = (packet_of i, now) ∷ packets is

-- The output, in the order of the packets.
abbrev pub text : List (Incoming × ℕ) → List ℕ
text [] = []
text ((output b, now) ∷ is) = b ++ text is
text ((alive b, now) ∷ is) = text is
text ((unused p, now) ∷ is) = text is

-- The loop's variables behind them: output moves the deadline, an answer ends the wait.
abbrev pub settled : ℕ → Loop → List (Incoming × ℕ) → Loop
settled duration l [] = l
settled duration l ((output b, now) ∷ is) =
    settled duration (record l { keepalive_deadline = now + duration }) is
settled duration l ((alive b, now) ∷ is) =
    settled duration (record l { waiting_on_keepalive = false }) is
settled duration l ((unused p, now) ∷ is) = settled duration l is

module _ (duration : ℕ) where
  on_output :
      (b : List ℕ) (now : ℕ) (l : Loop) (acc : List ℕ)
      → IsVec b
      → on_packet true duration (typed_packet b) now (l, acc)
        ≡ ok (record l { keepalive_deadline = now + duration }, acc ++ b)
  unfolding on_packet
  on_output b now l acc v =
      ap
        (λ r. do
          tb ← r
          ok (record l { keepalive_deadline = now + duration }, acc ++ or_empty tb.buffer))
        (TerminalBuffer.decode-encode_terminal_buffer (record { buffer = some b }) v)

  on_unused :
      (p : Packet) (now : ℕ) (s : Loop × List ℕ)
      → IsIncoming (unused p)
      → on_packet true duration p now s ≡ ok s
  unfolding on_packet
  on_unused p now (l, acc) (h, k) = rw (h, k)

  -- On a console, whatever the server sends between output that it encoded (less than 2^63 bytes each),
  -- answers to keepalives and packets of other types: the round shows all the output, in the order of
  -- the packets and nothing else; the deadline moves with the last output, and any answer ends the wait.
  pub drain_lem :
      (is : List (Incoming × ℕ)) (l : Loop) (acc : List ℕ)
      → AllIncoming is
      → drain true duration (packets is) (l, acc) ≡ ok (settled duration l is, acc ++ text is)
  unfolding drain on_packet
  drain_lem [] l acc h = ap (λ t. ok (l, t)) (sym (append-nil acc))
  drain_lem ((output b, now) ∷ is) l acc (v, h) =
      ap (λ r. do s' ← r; drain true duration (packets is) s') (on_output b now l acc v)
      ∙ drain_lem is (record l { keepalive_deadline = now + duration }) (acc ++ b) h
      ∙ ap (λ t. ok (settled duration (record l { keepalive_deadline = now + duration }) is, t))
          (append_assoc acc b (text is))
  drain_lem ((alive b, now) ∷ is) l acc (v, h) =
      drain_lem is (record l { waiting_on_keepalive = false }) acc h
  drain_lem ((unused p, now) ∷ is) l acc (v, h) =
      ap (λ r. do s' ← r; drain true duration (packets is) s') (on_unused p now (l, acc) v)
      ∙ drain_lem is l acc h
