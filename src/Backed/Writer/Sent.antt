-- ===== src/Backed/Writer/Sent.antt =====
-- What a call of `BackedWriter::write` puts on the socket, and which socket it leaves.
use eternal_terminal_client.Base.{
  ℕ, ◌+◌, ◌≡◌, inl, inr, refl, sym, ap, ◌∙◌, Bool, true, false, ◌&&◌, Option, none, some,
  Option-cases, List, [], ◌++◌, ltb, if◌then◌else◌, ok, length, drop, drop-append,
}
use eternal_terminal_client.Crypto.{CryptoHandler}
use eternal_terminal_client.Crypto.Secretbox.{Cipher}
use eternal_terminal_client.Packet
use eternal_terminal_client.Packet.{Packet, PacketError, size}
use eternal_terminal_client.Backed.Socket.{
  WriteHalf, Retry, all_sent, io_error, waiting, write_all_retry,
}
use eternal_terminal_client.Backed.Socket.Progress.{Sends, write_all_retry-Sends}
use eternal_terminal_client.Backed.Writer.{
  BackedWriter, WriteState, skipped, is_none, disconnect_buffer_bytes, push, evict_backup, evict,
  frame, finish, send_on, send, store, write,
}
use eternal_terminal_client.Backed.Writer.Dead.{write-dead_socket}

-- The bytes that a socket takes of some data.
abbrev pub newly_sent : Option WriteHalf → List ℕ → List ℕ
newly_sent none bytes = []
newly_sent (some s) bytes = drop (length s.sent) (write_all_retry s bytes).1.sent

-- The socket before and behind a call that returned, and what it took of the frame.
pub data Sending (bytes : List ℕ) (socket socket' : Option WriteHalf) : Type 0 where
  dead : socket ≡ none → socket' ≡ none → Sending bytes socket socket'
  whole :
      (s : WriteHalf)
      → socket ≡ some s
      → newly_sent socket bytes ≡ bytes
      → Sending bytes socket socket'
  part :
      (s : WriteHalf) (back : List ℕ)
      → socket ≡ some s
      → socket' ≡ none
      → newly_sent socket bytes ++ back ≡ bytes
      → Sending bytes socket socket'

socket-evict : (w : BackedWriter) → (evict w).socket ≡ w.socket
unfolding evict evict_backup
socket-evict w = either (is_none w.socket)
  where
    either : (t : Bool) → (if t then w else evict_backup w).socket ≡ w.socket
    either true = refl
    either false = refl

module _ (c : Cipher) (w : BackedWriter) (p q : Packet) (h : CryptoHandler)
    (sealed : Packet.encrypt c p w.crypto ≡ (ok tt, q, h)) where
  -- On a socket, `write` ends with the send.
  write_alive :
      (s : WriteHalf)
      → w.socket ≡ some s
      → write c w p ≡ finish (evict (push w q h)) (write_all_retry s (frame q))
  unfolding write store send send_on push
  write_alive s alive =
      ap
        (λ o.
          if is_none o && ltb disconnect_buffer_bytes (w.disconnected_bytes + size p)
          then (some skipped, w)
          else store w (Packet.encrypt c p w.crypto))
        alive
      ∙ ap (store w) sealed
      ∙ ap (send_on (evict (push w q h)) q) (socket-evict (push w q h) ∙ alive)

  finish-Sending :
      (s : WriteHalf)
      → w.socket ≡ some s
      → (x : Retry × WriteHalf) → write_all_retry s (frame q) ≡ x
      → Sends s.sent (frame q) x.0 x.1.sent
      → (st : WriteState) (w' : BackedWriter) → finish (evict (push w q h)) x ≡ (some st, w')
      → Sending (frame q) w.socket w'.socket
  unfolding finish
  finish-Sending s alive (all_sent, s') e sent st w' f =
      whole s alive (took ∙ drop-append s.sent (frame q))
    where
      took : newly_sent w.socket (frame q) ≡ drop (length s.sent) (s.sent ++ frame q)
      took =
          ap (λ o. newly_sent o (frame q)) alive
          ∙ ap (λ x. drop (length s.sent) x.1.sent) e
          ∙ ap (drop (length s.sent)) sent
  finish-Sending s alive (io_error, s') e (front, back, cut, _, sent) st w' f =
      part s back alive (sym (ap (λ r. r.1.socket) f)) (ap (λ t. t ++ back) took ∙ sym cut)
    where
      took : newly_sent w.socket (frame q) ≡ front
      took =
          ap (λ o. newly_sent o (frame q)) alive
          ∙ ap (λ x. drop (length s.sent) x.1.sent) e
          ∙ ap (drop (length s.sent)) sent
          ∙ drop-append s.sent front
  finish-Sending s alive (waiting, s') e sent st w' f = absurd (cc)

  pub write-Sending :
      (st : WriteState) (w' : BackedWriter)
      → write c w p ≡ (some st, w')
      → Sending (frame q) w.socket w'.socket
  write-Sending st w' e = elim (Option-cases w.socket) [
    | inl d ↦ dead d (sym (ap (λ r. r.1.socket) e) ∙ write-dead_socket c w p d)
    | inr (s, alive) ↦
        finish-Sending s alive (write_all_retry s (frame q)) refl
          (write_all_retry-Sends s (frame q)) st w' (sym (write_alive s alive) ∙ e)
  ]
