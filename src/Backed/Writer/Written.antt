-- ===== src/Backed/Writer/Written.antt =====
-- What `BackedWriter::write` does to the history, branch by branch.
use eternal_terminal_client.Base.{
  ◌+◌, ◌≡◌, ◌≢◌, refl, ap, ◌∙◌, Bool, true, false, ◌&&◌, Option, none, some, List, [], ◌∷◌, ◌++◌,
  ltb, if◌then◌else◌, Outcome, ok, err, panic, stuck,
}
use eternal_terminal_client.Crypto.{CryptoHandler}
use eternal_terminal_client.Crypto.Secretbox.{Cipher}
use eternal_terminal_client.Packet
use eternal_terminal_client.Packet.{Packet, PacketError, size}
use eternal_terminal_client.Backed.Socket.{
  WriteHalf, Retry, all_sent, io_error, waiting, write_all_retry,
}
use eternal_terminal_client.Backed.Writer.{
  BackedWriter, WriteState, skipped, wrote_with_failure, is_none, disconnect_buffer_bytes, push,
  evict_backup, evict, frame, finish, send_on, send, store, write,
}
use eternal_terminal_client.Backed.Writer.History.{IsBacked, push-IsBacked, evict-IsBacked}

-- Sending changes the socket and the count of buffered bytes, and never reports `skipped`.
module _ {history : List Packet} (w : BackedWriter) (p : Packet) (b : IsBacked history w) where
  abbrev Sent : Option WriteState × BackedWriter → Type 0
  Sent (state, w') = IsBacked history w' × (w'.crypto ≡ w.crypto) × (state ≢ some skipped)

  finish-Sent : (r : Retry × WriteHalf) → Sent (finish w r)
  unfolding finish
  finish-Sent (all_sent, s) = (b, refl, λ e. cc)
  finish-Sent (io_error, s) = (b, refl, λ e. cc)
  finish-Sent (waiting, s) = (b, refl, λ e. cc)

  send-Sent : (o : Option WriteHalf) → Sent (send_on w p o)
  unfolding send_on
  send-Sent none = (b, refl, λ e. cc)
  send-Sent (some s) = finish-Sent (write_all_retry s (frame p))

crypto-evict : (w : BackedWriter) → (evict w).crypto ≡ w.crypto
unfolding evict
crypto-evict w = either (is_none w.socket)
  where
    either : (t : Bool) → (if t then w else evict_backup w).crypto ≡ w.crypto
    either true = refl
    either false = refl

-- What a call of `write` did, on each of its branches.
pub data Written (c : Cipher) (history : List Packet) (w : BackedWriter) (p : Packet)
    (r : Option WriteState × BackedWriter) : Type 0 where
  -- The buffer for a dead socket is full: nothing changed.
  full : w.socket ≡ none → r ≡ (some skipped, w) → Written c history w p r
  -- The packet could not be encrypted: only the nonce may have moved.
  unsealed :
      (e : Outcome PacketError (Unit {0})) (h : CryptoHandler)
      → (Packet.encrypt c p w.crypto).0 ≡ e
      → e ≢ ok tt
      → r ≡ (some wrote_with_failure, record w { crypto = h })
      → Written c history w p r
  -- The encrypted packet is the newest of the history, whether or not it could be sent.
  stored :
      (q : Packet) (h : CryptoHandler)
      → Packet.encrypt c p w.crypto ≡ (ok tt, q, h)
      → r.0 ≢ some skipped
      → r.1.crypto ≡ h
      → IsBacked (history ++ q ∷ []) r.1
      → Written c history w p r

module _ (c : Cipher) (history : List Packet) (w : BackedWriter) (p : Packet)
    (b : IsBacked history w) where
  store-Written :
      (r : Outcome PacketError (Unit {0}) × Packet × CryptoHandler)
      → Packet.encrypt c p w.crypto ≡ r
      → Written c history w p (store w r)
  unfolding store send
  store-Written (ok tt, q, h) e =
      let w' = evict (push w q h) in
      let (b', h', s) =
        send-Sent w' q (evict-IsBacked (push w q h) (push-IsBacked w q h b)) w'.socket in
      stored q h e s (h' ∙ crypto-evict (push w q h) ∙ unfold push in refl) b'
  store-Written (err x, q, h) e = unsealed (err x) h (ap (λ r. r.0) e) (λ z. cc) refl
  store-Written (panic, q, h) e = unsealed panic h (ap (λ r. r.0) e) (λ z. cc) refl
  store-Written (stuck, q, h) e = unsealed stuck h (ap (λ r. r.0) e) (λ z. cc) refl

  -- On every branch of `write` the log stays the end of the history: either nothing but the nonce
  -- changes (the buffer is full, or the packet cannot be encrypted), or the encrypted packet is
  -- appended to the history, also where the socket then fails.
  pub write-Written : Written c history w p (write c w p)
  unfolding write
  write-Written =
      by_guard w.socket refl (ltb disconnect_buffer_bytes (w.disconnected_bytes + size p))
    where
      by_guard :
          (o : Option WriteHalf)
          → w.socket ≡ o
          → (t : Bool)
          → Written c history w p
              (if is_none o && t then (some skipped, w) else store w (Packet.encrypt c p w.crypto))
      by_guard none e true = full e refl
      by_guard none e false = store-Written _ refl
      by_guard (some s) e t = store-Written _ refl
