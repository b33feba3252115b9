-- ===== src/Connection/Client/Shutdown.antt =====
-- A connection that shuts down, from then on.
use eternal_terminal_client.Base.{
  ◌≡◌, refl, sym, ap, subst, ◌∙◌, Bool, true, false, Option, if◌then◌else◌,
}
use eternal_terminal_client.Crypto.Secretbox.{Cipher}
use eternal_terminal_client.Packet.{Packet}
use eternal_terminal_client.Connection.{Shared, Peer, try_recover}
use eternal_terminal_client.Connection.Client.{
  returned, write_to, after_write, write_once, read_once, close_and_maybe_reconnect, after_recover,
  reconnect_once, Step, write, read, close, reconnect, shut_down, shut, Reach, here, next,
}

-- The flag is set; and where `reconnect_loop` does not run, it does not start again.
abbrev IsShutting : Bool → Shared → Type 0
IsShutting running s = (s.shutting_down ≡ true) × (running ≡ false → s.reconnecting ≡ false)

module _ (s : Shared) (flag : s.shutting_down ≡ true) where
  write_once_shutting : (c : Cipher) (p : Packet) → write_once c s p ≡ (returned false, s)
  unfolding write_once
  write_once_shutting c p =
      ap
        (λ t. if t then (returned false, s) else (
          after_write (write_to c s.writer p).0,
          record s { writer = (write_to c s.writer p).1 },
        ))
        flag

  reconnect_once_shutting :
      (peer : Option Peer) → reconnect_once s peer ≡ record s { reconnecting = false }
  unfolding reconnect_once
  reconnect_once_shutting peer =
      ap
        (λ t.
          if s.socket_alive
          then record s { reconnecting = false }
          else if t
          then record s { reconnecting = false }
          else after_recover s (try_recover s peer))
        flag
      ∙ same s.socket_alive
    where
      same :
          (t : Bool)
          → (if t
              then record s { reconnecting = false }
              else if true
              then record s { reconnecting = false }
              else after_recover s (try_recover s peer))
            ≡ record s { reconnecting = false }
      same true = refl
      same false = refl

  close_shutting : (close_and_maybe_reconnect s).reconnecting ≡ false
  unfolding close_and_maybe_reconnect
  close_shutting = ap (λ t. if t then false else true) flag

step-IsShutting :
    (c : Cipher) (running : Bool) (s s' : Shared)
    → IsShutting running s
    → Step c s s'
    → IsShutting running s'
unfolding read_once
step-IsShutting c running s s' (f, r) (write p at) =
    subst (IsShutting running) (sym (ap (λ x. x.1) (write_once_shutting s f c p)) ∙ sym at) (f, r)
step-IsShutting c running s s' (f, r) (read at) = subst (IsShutting running) (sym at) (f, r)
step-IsShutting c running s s' (f, r) (close no_loop at) =
    subst (IsShutting running) (sym at)
      (unfold close_and_maybe_reconnect in f, λ e. close_shutting s f)
step-IsShutting c running s s' (f, r) (reconnect peer loop at) =
    subst (IsShutting running) (sym (reconnect_once_shutting s f peer) ∙ sym at) (f, λ e. refl)
step-IsShutting c running s s' (f, r) (shut_down at) = subst (IsShutting running) (sym at) (refl, r)
step-IsShutting c running s s' (f, r) (shut no_loop at) = subst (IsShutting running) (sym at) (f, r)

Reach-IsShutting :
    (c : Cipher) (s s' : Shared)
    → s.shutting_down ≡ true
    → Reach c s s'
    → IsShutting s.reconnecting s'
Reach-IsShutting c s s' f here = (f, λ e. e)
Reach-IsShutting c s s' f (next {s = before} r step) =
    step-IsShutting c s.reconnecting before s' (Reach-IsShutting c s before f r) step

-- A connection whose shutdown has begun, or that the server has ended, in every state that it reaches from
-- there: it is still shutting down; `write_packet` returns false at once and changes nothing; a round of
-- `reconnect_loop` ends the loop without a connection; and no loop is started, so where none ran there is none.
pub Reach-shutting :
    (c : Cipher) (s s' : Shared)
    → s.shutting_down ≡ true
    → Reach c s s'
    → (s'.shutting_down ≡ true)
      × ((p : Packet) → write_once c s' p ≡ (returned false, s'))
      × ((peer : Option Peer) → reconnect_once s' peer ≡ record s' { reconnecting = false })
      × ((close_and_maybe_reconnect s').reconnecting ≡ false)
      × (s.reconnecting ≡ false → s'.reconnecting ≡ false)
Reach-shutting c s s' f r =
    let (f', quiet) = Reach-IsShutting c s s' f r in
    (
      f',
      λ p. write_once_shutting s' f' c p,
      λ peer. reconnect_once_shutting s' f' peer,
      close_shutting s' f',
      quiet,
    )
