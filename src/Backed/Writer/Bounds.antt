-- ===== src/Backed/Writer/Bounds.antt =====
-- How much memory the buffers of a `BackedWriter` take.
use eternal_terminal_client.Base.{
  ◌+◌, ◌≤◌, ◌<◌, ◌≡◌, ◌≢◌, refl, sym, ◌∙◌, Bool, true, false, ◌&&◌, Option, none, some, arith, ltb,
  if◌then◌else◌, Outcome, ok, err, panic, stuck,
}
use eternal_terminal_client.Crypto.{CryptoHandler}
use eternal_terminal_client.Crypto.Secretbox.{Cipher, IsAead}
use eternal_terminal_client.Packet
use eternal_terminal_client.Packet.{Packet, PacketError, size}
use eternal_terminal_client.Packet.Sealed
use eternal_terminal_client.Backed.Socket.{
  WriteHalf, Retry, all_sent, io_error, waiting, write_all_retry,
}
use eternal_terminal_client.Backed.Writer.{
  BackedWriter, WriteState, skipped, is_none, disconnect_buffer_bytes, push, evict_backup, evict,
  frame, finish, send_on, send, store, write,
}

-- On a dead socket, what was buffered is at most the bound and the MAC of one packet.
abbrev pub IsBounded : BackedWriter → Type 0
IsBounded w = w.disconnected_bytes ≤ disconnect_buffer_bytes + 16

module _ (w : BackedWriter) where
  disconnected-evict : (evict w).disconnected_bytes ≡ w.disconnected_bytes
  unfolding evict
  disconnected-evict = either (is_none w.socket)
    where
      either :
          (t : Bool) → (if t then w else evict_backup w).disconnected_bytes ≡ w.disconnected_bytes
      either true = refl
      either false = refl

  socket-evict : (evict w).socket ≡ w.socket
  unfolding evict
  socket-evict = either (is_none w.socket)
    where
      either : (t : Bool) → (if t then w else evict_backup w).socket ≡ w.socket
      either true = refl
      either false = refl

module _ (w : BackedWriter) (p : Packet) where
  disconnected-finish :
      (r : Retry × WriteHalf) → (finish w r).1.disconnected_bytes ≡ w.disconnected_bytes
  unfolding finish
  disconnected-finish (all_sent, s) = refl
  disconnected-finish (io_error, s) = refl
  disconnected-finish (waiting, s) = refl

  send-IsBounded :
      (o : Option WriteHalf)
      → (o ≡ none → w.disconnected_bytes + size p ≤ disconnect_buffer_bytes + 16)
      → IsBounded w
      → IsBounded (send_on w p o).1
  unfolding send_on
  send-IsBounded none h v = h refl
  send-IsBounded (some s) h v = omega (arith, disconnected-finish (write_all_retry s (frame p)))

-- Past the guard no packet is refused.
finish_takes : (w : BackedWriter) (r : Retry × WriteHalf) → (finish w r).0 ≢ some skipped
unfolding finish
finish_takes w (all_sent, s) e = cc
finish_takes w (io_error, s) e = cc
finish_takes w (waiting, s) e = cc

send_on_takes :
    (w : BackedWriter) (p : Packet) (o : Option WriteHalf) → (send_on w p o).0 ≢ some skipped
unfolding send_on
send_on_takes w p none e = cc
send_on_takes w p (some s) e = finish_takes w (write_all_retry s (frame p)) e

store_takes :
    (w : BackedWriter) (r : Outcome PacketError (Unit {0}) × Packet × CryptoHandler)
    → (store w r).0 ≢ some skipped
unfolding store send
store_takes w (ok tt, q, h) e = send_on_takes (evict (push w q h)) q (evict (push w q h)).socket e
store_takes w (err x, q, h) e = cc
store_takes w (panic, q, h) e = cc
store_takes w (stuck, q, h) e = cc

module _ (c : Cipher) (aead : IsAead c) (w : BackedWriter) (p : Packet) (v : IsBounded w) where
  store-IsBounded :
      (r : Outcome PacketError (Unit {0}) × Packet × CryptoHandler)
      → Packet.encrypt c p w.crypto ≡ r
      → (w.socket ≡ none → w.disconnected_bytes + size p ≤ disconnect_buffer_bytes)
      → IsBounded (store w r).1
  unfolding store send
  store-IsBounded (ok tt, q, h) e room =
      send-IsBounded (evict (push w q h)) q (evict (push w q h)).socket
        (λ dead. omega (
          arith,
          kept,
          (Sealed.decrypt-encrypt_packet c aead p q w.crypto h e).1,
          room (sym (socket-evict (push w q h) ∙ unfold push in refl) ∙ dead),
        ))
        (omega (arith, kept))
    where
      kept : (evict (push w q h)).disconnected_bytes ≡ w.disconnected_bytes
      kept = disconnected-evict (push w q h) ∙ unfold push in refl
  store-IsBounded (err x, q, h) e room = v
  store-IsBounded (panic, q, h) e room = v
  store-IsBounded (stuck, q, h) e room = v

  -- Under an AEAD cipher no call of `write` lets the bytes that are buffered on a dead socket exceed
  -- 64 MiB by more than the 16 bytes of one MAC; a packet is refused (`skipped`) exactly where there is no
  -- socket and its plain size would exceed 64 MiB, and then the writer is left as it was.
  pub write-IsBounded :
      IsBounded (write c w p).1
      × ((write c w p).0 ≡ some skipped
          → (w.socket ≡ none)
            × (disconnect_buffer_bytes < w.disconnected_bytes + size p)
            × ((write c w p).1 ≡ w))
      × (w.socket ≡ none
          → disconnect_buffer_bytes < w.disconnected_bytes + size p
          → (write c w p).0 ≡ some skipped)
  unfolding write
  write-IsBounded = (
    by_guard w.socket refl (ltb disconnect_buffer_bytes (w.disconnected_bytes + size p)) refl,
    refused w.socket refl (ltb disconnect_buffer_bytes (w.disconnected_bytes + size p)) refl,
    λ dead over.
        let full : ltb disconnect_buffer_bytes (w.disconnected_bytes + size p) ≡ true =
          ground arith in
        rw (full, dead),
  )
    where
      stored : Option WriteState × BackedWriter
      stored = store w (Packet.encrypt c p w.crypto)

      refused :
          (o : Option WriteHalf)
          → w.socket ≡ o
          → (t : Bool) → ltb disconnect_buffer_bytes (w.disconnected_bytes + size p) ≡ t
          → (if is_none o && t then (some skipped, w) else stored).0 ≡ some skipped
          → (w.socket ≡ none)
            × (disconnect_buffer_bytes < w.disconnected_bytes + size p)
            × ((if is_none o && t then (some skipped, w) else stored).1 ≡ w)
      refused none e true f r = (e, ground arith, refl)
      refused none e false f r = absurd (store_takes w (Packet.encrypt c p w.crypto) r)
      refused (some s) e t f r = absurd (store_takes w (Packet.encrypt c p w.crypto) r)

      by_guard :
          (o : Option WriteHalf)
          → w.socket ≡ o
          → (t : Bool) → ltb disconnect_buffer_bytes (w.disconnected_bytes + size p) ≡ t
          → IsBounded (if is_none o && t then (some skipped, w) else stored).1
      by_guard none e true f = v
      by_guard none e false f = store-IsBounded _ refl (λ _. ground arith)
      by_guard (some s) e t f = store-IsBounded _ refl (λ n. cc)
