-- ===== src/Connection/Client/Twice.antt =====
-- `write_packet` where the socket fails: the packet is written again, although it is stored.
use eternal_terminal_client.Base.{
  ◌+◌, ◌≤◌, ◌≡◌, refl, sym, ap, subst, ◌∙◌, true, false, some, List, [], ◌∷◌, ◌++◌, append_assoc,
  ok, if◌then◌else◌,
}
use eternal_terminal_client.Crypto.{CryptoHandler}
use eternal_terminal_client.Crypto.Secretbox.{Cipher}
use eternal_terminal_client.Packet
use eternal_terminal_client.Packet.{Packet, PacketError, size}
use eternal_terminal_client.Backed.Writer
use eternal_terminal_client.Backed.Writer.{
  BackedWriter, WriteState, wrote_with_failure, buffered_only, skipped, disconnect_buffer_bytes,
  push,
}
use eternal_terminal_client.Backed.Writer.History.{IsBacked, push-IsBacked}
use eternal_terminal_client.Backed.Writer.Written.{Written, full, unsealed, stored, write-Written}
use eternal_terminal_client.Backed.Writer.Dead.{write_dead}
use eternal_terminal_client.Connection.{Shared}
use eternal_terminal_client.Connection.Client.{
  Next, returned, closing, after_write, write_to, write_once, close_and_maybe_reconnect,
}

-- A round of the loop while the connection is not shutting down.
write_once_live :
    (c : Cipher) (s : Shared) (w : BackedWriter) (p : Packet)
    → s.shutting_down ≡ false
    → s.writer ≡ some w
    → write_once c s p
      ≡ (after_write (Writer.write c w p).0, record s { writer = some (Writer.write c w p).1 })
unfolding write_once
write_once_live c s w p open_ held =
    ap
      (λ t.
        let r : Next × Shared = if t then (returned false, s) else (
          after_write (write_to c s.writer p).0,
          record s { writer = (write_to c s.writer p).1 },
        ) in
        r)
      open_
    ∙ ap
        (λ o.
          let r : Next × Shared =
            (after_write (write_to c o p).0, record s { writer = (write_to c o p).1 }) in
          r)
        held

module _ (c : Cipher) (history : List Packet) (w : BackedWriter) (p q : Packet) (h : CryptoHandler)
    (b : IsBacked history w) (e : Packet.encrypt c p w.crypto ≡ (ok tt, q, h)) where
  -- A failed write of a packet that could be encrypted has stored it.
  failed_stored :
      (Writer.write c w p).0 ≡ some wrote_with_failure
      → IsBacked (history ++ q ∷ []) (Writer.write c w p).1 × ((Writer.write c w p).1.crypto ≡ h)
  failed_stored f = by_branch (write-Written c history w p b)
    where
      by_branch :
          Written c history w p (Writer.write c w p)
          → IsBacked (history ++ q ∷ []) (Writer.write c w p).1
            × ((Writer.write c w p).1.crypto ≡ h)
      by_branch (full dead r) = absurd (cc)
      by_branch (unsealed o h' u n r) = absurd (n (sym u ∙ ap (λ x. x.0) e))
      by_branch (stored q' h' u n k b') = (
        subst (λ t. IsBacked (history ++ t ∷ []) (Writer.write c w p).1) (ap (λ x. x.1) (sym u ∙ e))
            b',
        k ∙ ap (λ x. x.2) (sym u ∙ e),
      )

-- What two rounds of the loop leave, with the close between them.
pub record Doubled (c : Cipher) (s : Shared) (history : List Packet) (p q₁ q₂ : Packet)
    : Type 0 where
  pub first_round : (write_once c s p).0 ≡ closing
  pub second_round :
      (write_once c (close_and_maybe_reconnect (write_once c s p).1) p).0 ≡ returned true
  pub writer : BackedWriter
  pub held :
      (write_once c (close_and_maybe_reconnect (write_once c s p).1) p).1.writer ≡ some writer
  pub log : IsBacked (history ++ q₁ ∷ q₂ ∷ []) writer

-- On a connection that is not shutting down, where the writer's socket fails while a packet is written
-- that could be encrypted, `write_packet` closes the socket and goes round its loop; the next round,
-- where no reconnect comes between, stores the packet again and reports it as written, if it can be encrypted
-- and buffered. The history then ends in two encryptions of the one packet.
pub write_packet_doubles :
    (c : Cipher) (s : Shared) (w : BackedWriter) (history : List Packet) (p q₁ q₂ : Packet)
    (h₁ h₂ : CryptoHandler)
    → s.shutting_down ≡ false
    → s.writer ≡ some w
    → IsBacked history w
    → Packet.encrypt c p w.crypto ≡ (ok tt, q₁, h₁)
    → Packet.encrypt c p h₁ ≡ (ok tt, q₂, h₂)
    → (Writer.write c w p).0 ≡ some wrote_with_failure
    → (Writer.write c w p).1.disconnected_bytes + size p ≤ disconnect_buffer_bytes
    → Doubled c s history p q₁ q₂
unfolding close_and_maybe_reconnect push
write_packet_doubles c s w history p q₁ q₂ h₁ h₂ open_ has b e₁ e₂ f fits = record {
  first_round = ap (λ x. x.0) live ∙ ap after_write f;
  second_round = ap (λ x. x.0) round;
  writer = record (push cut q₂ h₂) { disconnected_bytes = cut.disconnected_bytes + size q₂ };
  held = ap (λ x. x.1.writer) round;
  log =
      subst (λ t. IsBacked t (push cut q₂ h₂)) (append_assoc history (q₁ ∷ []) (q₂ ∷ []))
        (push-IsBacked cut q₂ h₂ kept.0);
}
  where
    cut : BackedWriter
    cut = Writer.invalidate_socket (Writer.write c w p).1

    live :
        write_once c s p
        ≡ (after_write (Writer.write c w p).0, record s { writer = some (Writer.write c w p).1 })
    live = write_once_live c s w p open_ has

    kept :
        IsBacked (history ++ q₁ ∷ []) (Writer.write c w p).1 × ((Writer.write c w p).1.crypto ≡ h₁)
    kept = failed_stored c history w p q₁ h₁ b e₁ f

    between : Shared
    between = close_and_maybe_reconnect (record s { writer = some (Writer.write c w p).1 })

    round : write_once c (close_and_maybe_reconnect (write_once c s p).1) p ≡ (
      returned true,
      record between {
        writer =
            some
              (record (push cut q₂ h₂) { disconnected_bytes = cut.disconnected_bytes + size q₂ });
      },
    )
    round =
        ap (λ x. write_once c (close_and_maybe_reconnect x.1) p) live
        ∙ write_once_live c between cut p open_ refl
        ∙ ap (λ x. (after_write x.0, record between { writer = some x.1 }))
            (write_dead c cut p refl q₂ h₂ fits (ap (Packet.encrypt c p) kept.1 ∙ e₂))
