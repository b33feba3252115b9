-- ===== src/Backed/Link/InOrder/Writes.antt =====
-- The invariant of a link over a call of `write`.
use eternal_terminal_client.Base.{
  ℕ, ◌≡◌, ◌≢◌, refl, sym, ap, subst, ◌∙◌, Option, none, some, List, [], ◌∷◌, ◌++◌, append_assoc,
  append-nil, ok, All-append,
}
use eternal_terminal_client.Crypto.{CryptoHandler}
use eternal_terminal_client.Crypto.Secretbox.{Cipher}
use eternal_terminal_client.Packet
use eternal_terminal_client.Packet.{Packet, PacketError, serialize}
use eternal_terminal_client.Backed.Writer
use eternal_terminal_client.Backed.Writer.{
  BackedWriter, WriteState, success, buffered_only, wrote_with_failure, skipped, too_far_behind,
  peer_ahead, frame, recover,
}
use eternal_terminal_client.Backed.Writer.History.{IsBacked}
use eternal_terminal_client.Backed.Writer.Written.{Written, full, unsealed, stored, write-Written}
use eternal_terminal_client.Backed.Writer.Sent.{newly_sent, write-Sending}
use eternal_terminal_client.Backed.Session.{IsSealed, IsSmall}
use eternal_terminal_client.Backed.Link.{Link, accepted, sealed, written}
use eternal_terminal_client.Backed.Link.Bytes.{IsStream, IsStream-write}
use eternal_terminal_client.Backed.Link.InOrder.{IsInOrder}

IsSealed-append :
    (c : Cipher) (h : CryptoHandler) (ps qs : List Packet) (h' : CryptoHandler) (p q : Packet)
    (h'' : CryptoHandler)
    → IsSealed c h ps qs h'
    → Packet.encrypt c p h' ≡ (ok tt, q, h'')
    → IsSealed c h (ps ++ p ∷ []) (qs ++ q ∷ []) h''
IsSealed-append c h [] [] h' p q h'' s e = (h'', ap (Packet.encrypt c p) s ∙ e, refl)
IsSealed-append c h [] (r ∷ qs) h' p q h'' s e = absurd s
IsSealed-append c h (r ∷ ps) [] h' p q h'' s e = absurd s
IsSealed-append c h (r ∷ ps) (u ∷ qs) h' p q h'' (next, s, ss) e =
    (next, s, IsSealed-append c next ps qs h' p q h'' ss e)

accepted-stored :
    (st : WriteState) (ps : List Packet) (p : Packet)
    → st ≢ skipped
    → accepted st ps p ≡ ps ++ p ∷ []
accepted-stored success ps p n = refl
accepted-stored buffered_only ps p n = refl
accepted-stored wrote_with_failure ps p n = refl
accepted-stored skipped ps p n = absurd (n refl)

module _ (c : Cipher) (s : Link) (i : IsInOrder c s) where
  -- A packet that is stored is the last of the pending ones.
  stored-IsInOrder :
      (p q : Packet) (h : CryptoHandler) (w' : BackedWriter) (wrote : List Packet)
      → Packet.encrypt c p s.writer.crypto ≡ (ok tt, q, h)
      → IsSmall q
      → w'.crypto ≡ h
      → IsBacked ((i.seen ++ (i.buffered ++ i.ahead)) ++ q ∷ []) w'
      → wrote ≡ s.wrote ++ p ∷ []
      → (tail : List ℕ) × IsStream w'.socket s.reader.socket s.reader.partial
          (s.in_flight ++ newly_sent s.writer.socket (frame q))
          tail
          (i.ahead ++ q ∷ [])
      → IsInOrder c (record s {
        writer = w';
        in_flight = s.in_flight ++ newly_sent s.writer.socket (frame q);
        wrote = wrote;
      })
  stored-IsInOrder p q h w' wrote e m same b more (tail, stream) = record {
    seen = i.seen;
    buffered = i.buffered;
    ahead = i.ahead ++ q ∷ [];
    pending = i.pending ++ p ∷ [];
    tail = tail;
    log =
        subst (λ t. IsBacked t w')
          (append_assoc i.seen (i.buffered ++ i.ahead) (q ∷ [])
            ∙ ap (λ t. i.seen ++ t) (append_assoc i.buffered i.ahead (q ∷ [])))
          b;
    counted = i.counted;
    local = i.local;
    chain =
        subst (λ t. IsSealed c s.reader.crypto (i.pending ++ p ∷ []) t w'.crypto)
          (append_assoc i.buffered i.ahead (q ∷ []))
          (IsSealed-append c s.reader.crypto i.pending (i.buffered ++ i.ahead) s.writer.crypto p q
            w'.crypto i.chain (e ∙ ap (λ t. (ok tt, q, t)) (sym same)));
    order = more ∙ ap (λ t. t ++ p ∷ []) i.order ∙ append_assoc s.got i.pending (p ∷ []);
    small = All-append IsSmall i.ahead (q ∷ []) i.small (m, tt);
    stream = stream;
  }

  refused-IsInOrder :
      (in_flight : List ℕ)
      → in_flight ≡ s.in_flight
      → IsInOrder c (record s { in_flight = in_flight })
  refused-IsInOrder in_flight e = subst (λ t. IsInOrder c (record s { in_flight = t })) (sym e) i

  abbrev the : Option WriteState → WriteState
  the none = skipped
  the (some st) = st

  pub write-IsInOrder :
      (p : Packet) (st : WriteState) (w' : BackedWriter)
      → (Packet.encrypt c p s.writer.crypto).0 ≡ ok tt
      → IsSmall (sealed c s.writer p)
      → Writer.write c s.writer p ≡ (some st, w')
      → IsInOrder c (written c s p st w')
  write-IsInOrder p st w' e m returns =
      by_branch (Writer.write c s.writer p) returns
        (write-Written c (i.seen ++ (i.buffered ++ i.ahead)) s.writer p i.log)
    where
      q : Packet
      q = sealed c s.writer p

      by_branch :
          (r : Option WriteState × BackedWriter)
          → r ≡ (some st, w')
          → Written c (i.seen ++ (i.buffered ++ i.ahead)) s.writer p r
          → IsInOrder c (written c s p st w')
      by_branch r f (full dead g) =
          let k = sym g ∙ f in
          subst (λ (x : WriteState × BackedWriter). IsInOrder c (written c s p x.0 x.1))
            (λ j. (ap (λ x. the x.0) k j, ap (λ x. x.1) k j))
            (refused-IsInOrder (s.in_flight ++ newly_sent s.writer.socket (frame q))
              (ap (λ o. s.in_flight ++ newly_sent o (frame q)) dead ∙ append-nil s.in_flight))
      by_branch r f (unsealed o h g n k) = absurd (n (sym g ∙ e))
      by_branch r f (stored q' h g n k b) =
          let same : q ≡ q' = ap (λ x. x.1) g in
          let w = ap (λ x. x.1) f in
          let enc = g ∙ ap (λ x. (ok tt, x, h)) (sym same) in
          stored-IsInOrder p q h w' (accepted st s.wrote p) enc m (sym (ap (λ v. v.crypto) w) ∙ k)
            (subst (λ v. IsBacked ((i.seen ++ (i.buffered ++ i.ahead)) ++ q ∷ []) v) w
              (subst (λ x. IsBacked ((i.seen ++ (i.buffered ++ i.ahead)) ++ x ∷ []) r.1) (sym same)
                b))
            (accepted-stored st s.wrote p (λ z. n (ap (λ x. x.0) f ∙ ap some z)))
            (IsStream-write q s.reader.partial s.in_flight i.tail i.ahead s.writer.socket w'.socket
              s.reader.socket (write-Sending c s.writer p q h enc st w' returns) i.stream)
