-- ===== src/Connection/Client/Threads/Cut.antt =====
-- What the two threads find of the streams while a connection is lost and recovered.
use eternal_terminal_client.Base.{
  ◌≡◌, ◌≢◌, refl, sym, subst, Bool, false, Option, none, some, Outcome, ok, err, panic, stuck,
  if◌then◌else◌, map_err, List, ℕ,
}
use eternal_terminal_client.Base.Int.{ℤ}
use eternal_terminal_client.Base.Io.{Writer}
use eternal_terminal_client.Crypto.Secretbox.{Cipher}
use eternal_terminal_client.Packet.{Packet}
use eternal_terminal_client.Backed.Writer.{BackedWriter, RecoverError, socket_alive}
use eternal_terminal_client.Backed.Writer
use eternal_terminal_client.Backed.Writer.Dead.{write-dead_socket, recover_dead}
use eternal_terminal_client.Backed.Reader.{BackedReader}
use eternal_terminal_client.Backed.Reader.Dead.{read-dead_socket}
use eternal_terminal_client.Connection.{Shared, Peer, recover_out, recover}
use eternal_terminal_client.Connection.Client.{
  write_to, read_from, read_once, invalidate_reader, invalidate_writer, close_and_maybe_reconnect,
}
use eternal_terminal_client.Connection.Client.Threads.{
  Position, no_loop, head, loaded, trying, greeted, announced, exchanged, reader_revived, recovered,
  session_ended, hung, is_running, greet, announce, exchange, go_on, advance, Threads, Step, write,
  read, close, loop, shut_down, shut, Reach, here, next,
}

abbrev pub IsDeadReader : Option BackedReader → Type 0
IsDeadReader none = Unit
IsDeadReader (some r) = r.socket ≡ none

abbrev pub IsDeadWriter : Option BackedWriter → Type 0
IsDeadWriter none = Unit
IsDeadWriter (some w) = w.socket ≡ none

abbrev AllCut : Option BackedReader → Option BackedWriter → Bool → Type 0
AllCut r w alive = IsDeadReader r × IsDeadWriter w × (alive ≡ false)

-- By where the loop's thread stands: up to the reader's `revive` neither stream has a socket, up to the writer's
-- the writer has none, and as long as the thread runs `socket_alive` is false.
abbrev pub Cut : Position → Option BackedReader → Option BackedWriter → Bool → Type 0
Cut no_loop r w alive = Unit
Cut head r w alive = AllCut r w alive
Cut loaded r w alive = AllCut r w alive
Cut trying r w alive = AllCut r w alive
Cut (greeted peer out input) r w alive = AllCut r w alive
Cut (announced peer out input remote) r w alive = AllCut r w alive
Cut (exchanged reads catchup half) r w alive = AllCut r w alive
Cut (reader_revived half) r w alive = IsDeadWriter w × (alive ≡ false)
Cut recovered r w alive = alive ≡ false
Cut session_ended r w alive = AllCut r w alive
Cut hung r w alive = AllCut r w alive

-- And the shared field says whether the thread runs.
abbrev pub IsConsistent : Threads → Type 0
IsConsistent t =
    (t.shared.reconnecting ≡ is_running t.position)
    × Cut t.position t.shared.reader t.shared.writer t.shared.socket_alive

everywhere :
    (p : Position) (r : Option BackedReader) (w : Option BackedWriter) (alive : Bool)
    → AllCut r w alive
    → Cut p r w alive
everywhere no_loop r w alive h = tt
everywhere head r w alive h = h
everywhere loaded r w alive h = h
everywhere trying r w alive h = h
everywhere (greeted peer out input) r w alive h = h
everywhere (announced peer out input remote) r w alive h = h
everywhere (exchanged reads catchup half) r w alive h = h
everywhere (reader_revived half) r w alive h = (h.1, h.2)
everywhere recovered r w alive h = h.2
everywhere session_ended r w alive h = h
everywhere hung r w alive h = h

-- Calls that bring no socket back keep it.
kept :
    (p : Position) (r r' : Option BackedReader) (w w' : Option BackedWriter) (alive : Bool)
    → (IsDeadReader r → IsDeadReader r')
    → (IsDeadWriter w → IsDeadWriter w')
    → Cut p r w alive
    → Cut p r' w' alive
kept no_loop r r' w w' alive f g h = tt
kept head r r' w w' alive f g h = (f h.0, g h.1, h.2)
kept loaded r r' w w' alive f g h = (f h.0, g h.1, h.2)
kept trying r r' w w' alive f g h = (f h.0, g h.1, h.2)
kept (greeted peer out input) r r' w w' alive f g h = (f h.0, g h.1, h.2)
kept (announced peer out input remote) r r' w w' alive f g h = (f h.0, g h.1, h.2)
kept (exchanged reads catchup half) r r' w w' alive f g h = (f h.0, g h.1, h.2)
kept (reader_revived half) r r' w w' alive f g h = (g h.0, h.1)
kept recovered r r' w w' alive f g h = h
kept session_ended r r' w w' alive f g h = (f h.0, g h.1, h.2)
kept hung r r' w w' alive f g h = (f h.0, g h.1, h.2)

write_to-IsDeadWriter :
    (c : Cipher) (o : Option BackedWriter) (p : Packet)
    → IsDeadWriter o
    → IsDeadWriter (write_to c o p).1
write_to-IsDeadWriter c none p d = tt
write_to-IsDeadWriter c (some w) p d = write-dead_socket c w p d

read_from-IsDeadReader :
    (c : Cipher) (o : Option BackedReader) → IsDeadReader o → IsDeadReader (read_from c o).1
read_from-IsDeadReader c none d = tt
read_from-IsDeadReader c (some r) d = read-dead_socket c r d

invalidated_reader : (o : Option BackedReader) → IsDeadReader (invalidate_reader o)
invalidated_reader none = tt
invalidated_reader (some r) = refl

invalidated_writer : (o : Option BackedWriter) → IsDeadWriter (invalidate_writer o)
invalidated_writer none = tt
invalidated_writer (some w) = refl

-- What `advance` leads to.
abbrev Leads : Position × Shared → Type 0
Leads (p, s) = Cut p s.reader s.writer s.socket_alive

advance_kept :
    (found : Option Peer) (p : Position) (s : Shared)
    → Cut p s.reader s.writer s.socket_alive
    → Leads (advance found p s)
unfolding advance
advance_kept found no_loop s h = tt
advance_kept found head s h = everywhere (if s.socket_alive then no_loop else loaded) _ _ _ h
advance_kept found loaded s h = everywhere (if s.shutting_down then no_loop else trying) _ _ _ h
advance_kept none trying s h = h
advance_kept (some peer) trying s h = everywhere (go_on (greet s peer)) _ _ _ h
advance_kept found (greeted peer out input) s h =
    everywhere (go_on (announce s peer out input)) _ _ _ h
advance_kept found (announced peer out input remote) s h =
    everywhere (go_on (exchange s peer out input remote)) _ _ _ h
advance_kept found (exchanged reads catchup half) s h = (h.1, h.2)
advance_kept found (reader_revived half) s h = h.1
advance_kept found recovered s h = tt
advance_kept found session_ended s h = tt
advance_kept found hung s h = h

step-IsConsistent : (c : Cipher) (t t' : Threads) → Step c t t' → IsConsistent t → IsConsistent t'
unfolding read_once close_and_maybe_reconnect
step-IsConsistent c t t' (write p e) (on, cut) = subst IsConsistent (sym e) (
  on,
  kept t.position t.shared.reader t.shared.reader t.shared.writer _ t.shared.socket_alive (λ d. d)
      (write_to-IsDeadWriter c t.shared.writer p) cut,
)
step-IsConsistent c t t' (read e) (on, cut) = subst IsConsistent (sym e) (
  on,
  kept t.position t.shared.reader _ t.shared.writer t.shared.writer t.shared.socket_alive
      (read_from-IsDeadReader c t.shared.reader) (λ d. d) cut,
)
step-IsConsistent c t t' (close idle e) i = subst IsConsistent (sym e) (
  refl,
  everywhere (if t.shared.shutting_down then no_loop else head) _ _ _
      (invalidated_reader t.shared.reader, invalidated_writer t.shared.writer, refl),
)
step-IsConsistent c t t' (loop found e) (on, cut) =
    subst IsConsistent (sym e) (refl, advance_kept found t.position t.shared cut)
step-IsConsistent c t t' (shut_down e) i = subst IsConsistent (sym e) i
step-IsConsistent c t t' (shut idle e) (on, cut) =
    subst IsConsistent (sym e) (on, everywhere t.position none none false (tt, tt, refl))

reached_cut :
    (c : Cipher) (s : Shared) (t : Threads)
    → s.reconnecting ≡ false
    → Reach c (record { shared = s; position = no_loop }) t
    → IsConsistent t
reached_cut c s t idle here = (idle, tt)
reached_cut c s t idle (next {t = before} r step) =
    step-IsConsistent c before t step (reached_cut c s before idle r)

unwrapped :
    (o : Outcome RecoverError (List (List ℕ)))
    → map_err recover o ≡ err (recover socket_alive)
    → o ≡ err socket_alive
unwrapped (ok a) e = cc
unwrapped (err x) e = cc
unwrapped panic e = cc
unwrapped stuck e = cc

answers :
    (o : Option BackedWriter) (z : ℤ)
    → IsDeadWriter o
    → recover_out o z ≢ err (recover socket_alive)
unfolding recover_out
answers none z d e = cc
answers (some w) z d e = recover_dead w z d (unwrapped (Writer.recover w z) e)

-- In every state that the two threads reach from one without the loop's thread, a shared access at a time, in any
-- order and with any servers: up to the reader's `revive` of a recovery neither stream has a socket, up to
-- the writer's the writer has none, and `has_socket` is false from the start of the loop's thread until it
-- sets the flag and ends, whatever is written and read meanwhile; and a recovery that comes to `recover` is
-- never refused because the writer still has a socket.
pub Reach-IsConsistent :
    (c : Cipher) (s : Shared) (t : Threads)
    → s.reconnecting ≡ false
    → Reach c (record { shared = s; position = no_loop }) t
    → IsConsistent t
      × ((peer : Peer) (out : Writer) (input : List ℕ) (remote : ℤ)
          → t.position ≡ announced peer out input remote
          → recover_out t.shared.writer remote ≢ err (recover socket_alive))
Reach-IsConsistent c s t idle r =
    let i = reached_cut c s t idle r in
    (
      i,
      λ peer out input remote e.
          answers t.shared.writer remote
            (subst (λ p. Cut p t.shared.reader t.shared.writer t.shared.socket_alive) e i.1).1,
    )
