-- ===== src/Backed/Writer/Dead.antt =====
-- `BackedWriter::write` without a socket.
use eternal_terminal_client.Base.{
  ℕ, ◌+◌, ◌≤◌, ◌≡◌, ◌≢◌, sym, ap, ◌∙◌, Bool, true, false, ◌&&◌, Option, none, some, ltb, le→ltb,
  ◌==◌, length, [], if◌then◌else◌, Outcome, ok, err, panic, stuck,
}
use eternal_terminal_client.Base.Int.{ℤ}
use eternal_terminal_client.Crypto.{CryptoHandler}
use eternal_terminal_client.Crypto.Secretbox.{Cipher}
use eternal_terminal_client.Packet
use eternal_terminal_client.Packet.{Packet, PacketError, size}
use eternal_terminal_client.Backed.Writer.{
  BackedWriter, buffered_only, skipped, is_none, disconnect_buffer_bytes, push, evict, send_on,
  send, store, write, evict_backup, socket_alive, too_far_behind, recover_count,
  messages_to_recover, recover, newest,
}

module _ (w : BackedWriter) (dead : w.socket ≡ none) where
  evict-dead : evict w ≡ w
  unfolding evict
  evict-dead = ap (λ o. if is_none o then w else evict_backup w) dead

  send-dead :
      (p : Packet)
      → send w p
        ≡ (some buffered_only, record w { disconnected_bytes = w.disconnected_bytes + size p })
  unfolding send send_on
  send-dead p = ap (send_on w p) dead

module _ (c : Cipher) (w : BackedWriter) (p : Packet) (dead : w.socket ≡ none) where
  store-dead :
      (q : Packet) (h : CryptoHandler)
      → store w (ok tt, q, h) ≡ (
        some buffered_only,
        record (push w q h) { disconnected_bytes = w.disconnected_bytes + size q },
      )
  unfolding store push
  store-dead q h = ap (λ v. send v q) (evict-dead (push w q h) dead) ∙ send-dead (push w q h) dead q

  write_guard : write c w p ≡ (
      if ltb disconnect_buffer_bytes (w.disconnected_bytes + size p)
      then (some skipped, w)
      else store w (Packet.encrypt c p w.crypto))
  unfolding write
  write_guard =
      ap
        (λ o.
          if is_none o && ltb disconnect_buffer_bytes (w.disconnected_bytes + size p)
          then (some skipped, w)
          else store w (Packet.encrypt c p w.crypto))
        dead

  -- Without a socket, while the buffered bytes stay within 64 MiB, a packet that can be encrypted is
  -- stored with the next sequence number and counted as buffered, and nothing of it is sent.
  pub write_dead :
      (q : Packet) (h : CryptoHandler)
      → w.disconnected_bytes + size p ≤ disconnect_buffer_bytes
      → Packet.encrypt c p w.crypto ≡ (ok tt, q, h)
      → write c w p ≡ (
        some buffered_only,
        record (push w q h) { disconnected_bytes = w.disconnected_bytes + size q },
      )
  write_dead q h fits e =
      write_guard
      ∙ ap (λ t. if t then (some skipped, w) else store w (Packet.encrypt c p w.crypto))
          (le→ltb disconnect_buffer_bytes (w.disconnected_bytes + size p) fits)
      ∙ ap (store w) e
      ∙ store-dead q h

  -- No write brings a socket back.
  pub write-dead_socket : (write c w p).1.socket ≡ none
  unfolding push store
  write-dead_socket =
      ap (λ r. r.1.socket) write_guard
      ∙ by_guard (ltb disconnect_buffer_bytes (w.disconnected_bytes + size p))
    where
      stored :
          (r : Outcome PacketError (Unit {0}) × Packet × CryptoHandler)
          → (store w r).1.socket ≡ none
      stored (ok _, q, h) = ap (λ r. r.1.socket) (store-dead q h) ∙ dead
      stored (err e, q, h) = dead
      stored (panic, q, h) = dead
      stored (stuck, q, h) = dead

      by_guard :
          (t : Bool)
          → (if t then (some skipped, w) else store w (Packet.encrypt c p w.crypto)).1.socket ≡ none
      by_guard true = dead
      by_guard false = stored (Packet.encrypt c p w.crypto)

recover_count-refusal : (w : BackedWriter) (o : Option ℕ) → recover_count w o ≢ err socket_alive
unfolding recover_count
recover_count-refusal w none = λ e. cc
recover_count-refusal w (some n) = by_tests (n == 0) (ltb (length w.backup) n)
  where
    by_tests :
        (a b : Bool)
        → (if a then ok [] else if b then err too_far_behind else ok (newest w.backup n))
          ≢ err socket_alive
    by_tests true b e = cc
    by_tests false true e = cc
    by_tests false false e = cc

-- `recover` does not complain of a socket that is not there.
pub recover_dead : (w : BackedWriter) (z : ℤ) → w.socket ≡ none → recover w z ≢ err socket_alive
unfolding recover
recover_dead w z dead e = recover_count-refusal w (messages_to_recover w.sequence_number z) (
    sym (
      ap
        (λ o.
          if is_none o
          then recover_count w (messages_to_recover w.sequence_number z)
          else err socket_alive)
        dead)
    ∙ e)
