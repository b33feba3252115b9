-- ===== src/Backed/Reader/Stream.antt =====
-- One call of `BackedReader::read` on any socket, whose bytes are the start of a stream of frames: what
-- follows them, `more`, has not arrived, and may never.
use eternal_terminal_client.Base.{
  ℕ, zero, suc, ◌+◌, ◌-◌, ◌^◌, ◌≤◌, ◌<◌, ◌≡◌, inl, inr, refl, sym, ap, subst, ◌∙◌, Bool-cases,
  Option, none, some, List, [], ◌∷◌, ◌++◌, append_assoc, arith, ltb, Outcome, ok, err, panic, stuck,
  length, length-append, length-take_of_le, take, drop, append_inj,
}
use eternal_terminal_client.Crypto.Secretbox.{Cipher}
use eternal_terminal_client.Packet.{Packet, from_serialized}
use eternal_terminal_client.Backed.Reader.{
  ReadEvent, arrive, closed, transient, interrupted, failed, ReadError, connection_closed, io,
  packet, BackedReader, Fill, filled, not_yet, end_of_stream, io_error, fill, count, open_packet,
  after_body, after_header, read_socket, read_buffered, read,
}
use eternal_terminal_client.Backed.Reader.Arrival.{incoming, fill_conserves}
use eternal_terminal_client.Backed.Reader.Frames.{framed, length-framed, header_of, body_of}

-- `read` returned no packet, and what it returned is no fault of the packets.
abbrev pub IsQuiet : Outcome ReadError (Option Packet) → Type 0
IsQuiet (ok none) = Unit
IsQuiet (ok (some p)) = ⊥
IsQuiet (err connection_closed) = Unit
IsQuiet (err io) = Unit
IsQuiet (err (packet e)) = ⊥
IsQuiet panic = ⊥
IsQuiet stuck = ⊥

-- How many bytes a loop has at its end, on any socket.
abbrev Fills : ℕ → Fill × List ℕ × List ReadEvent → Type 0
Fills n (filled, got, rest) = length got ≡ n
Fills n (not_yet, got, rest) = length got < n
Fills n (end_of_stream, got, rest) = length got < n
Fills n (io_error, got, rest) = length got < n

fill-Fills :
    (es : List ReadEvent) (need n : ℕ) (partial : List ℕ)
    → length partial + need ≡ n
    → Fills n (fill es need partial)
unfolding fill
fill-Fills es zero n partial e = omega arith
fill-Fills [] (suc need) n partial e = omega arith
fill-Fills (arrive b bs ∷ es) (suc need) n partial e = elim (Bool-cases (ltb need (length bs))) [
  | inl t ↦ rw t (
      omega
        (arith, length-append partial (b ∷ take need bs), length-take_of_le need bs (ground arith)))
  | inr t ↦ rw t (
      fill-Fills es (need - length bs) n (partial ++ b ∷ bs)
        (let h : length bs ≤ need = ground arith in omega (arith, length-append partial (b ∷ bs))))
]
fill-Fills (closed ∷ es) (suc need) n partial e = omega arith
fill-Fills (transient ∷ es) (suc need) n partial e = omega arith
fill-Fills (interrupted ∷ es) (suc need) n partial e = fill-Fills es (suc need) n partial e
fill-Fills (failed ∷ es) (suc need) n partial e = omega arith

-- A call of `read` where the stream goes on with the frame of `s`.
pub data Streamed (c : Cipher) (r : BackedReader) (more s rest : List ℕ)
    (x : Outcome ReadError (Option Packet) × BackedReader) : Type 0 where
  quiet :
      (o : Outcome ReadError (Option Packet)) (got : List ℕ) (es' : List ReadEvent)
      → IsQuiet o
      → x ≡ (o, record r { socket = some es'; partial = got })
      → (got ++ incoming es') ++ more ≡ framed s ++ rest
      → length got < 4 + length s
      → Streamed c r more s rest x
  taken :
      (es' : List ReadEvent)
      → x ≡ open_packet c count (record r { socket = some es'; partial = [] }) (from_serialized s)
      → incoming es' ++ more ≡ rest
      → Streamed c r more s rest x

module _ (c : Cipher) (r : BackedReader) (more s rest : List ℕ) (small : length s < 2 ^ 32) where
  body-Streamed :
      (x : Fill × List ℕ × List ReadEvent)
      → Fills (4 + length s) x
      → (x.1 ++ incoming x.2) ++ more ≡ framed s ++ rest
      → Streamed c r more s rest (after_body c r (4 + length s) x)
  unfolding after_body
  body-Streamed (filled, got, es') f e =
      let (a, b) =
        append_inj got (framed s) (incoming es' ++ more) rest (omega (arith, f, length-framed s))
          (sym (append_assoc got (incoming es') more) ∙ e) in
      taken es'
        (ap
          (λ t.
            open_packet c count (record r { socket = some es'; partial = [] }) (from_serialized t))
          (ap (λ t. drop 4 (take (4 + length s) t)) a ∙ body_of s))
        b
  body-Streamed (not_yet, got, es') f e = quiet (ok none) got es' tt refl e f
  body-Streamed (end_of_stream, got, es') f e = quiet (err connection_closed) got es' tt refl e f
  body-Streamed (io_error, got, es') f e = quiet (err io) got es' tt refl e f

  header-Streamed :
      (n : ℕ) (x : Fill × List ℕ × List ReadEvent)
      → 4 ≤ n
      → n ≤ 4 + length s
      → Fills n x
      → (x.1 ++ incoming x.2) ++ more ≡ framed s ++ rest
      → Streamed c r more s rest (after_header c r x)
  unfolding after_header
  header-Streamed n (filled, got, es') l u f e =
      subst (λ t. Streamed c r more s rest (after_body c r t (fill es' (t - length got) got)))
        (sym (
          header_of s rest got (incoming es' ++ more) small (omega (arith, f))
            (sym (append_assoc got (incoming es') more) ∙ e)))
        (body-Streamed (fill es' need got)
          (fill-Fills es' need (4 + length s) got (omega (arith, f)))
          (ap (λ t. t ++ more) (fill_conserves es' need got) ∙ e))
    where
      need : ℕ
      need = 4 + length s - length got
  header-Streamed n (not_yet, got, es') l u f e =
      quiet (ok none) got es' tt refl e (omega (arith, f))
  header-Streamed n (end_of_stream, got, es') l u f e =
      quiet (err connection_closed) got es' tt refl e (omega (arith, f))
  header-Streamed n (io_error, got, es') l u f e =
      quiet (err io) got es' tt refl e (omega (arith, f))

  pub read-Streamed :
      (es : List ReadEvent)
      → r.local_buffer ≡ []
      → r.socket ≡ some es
      → length r.partial < 4 + length s
      → (r.partial ++ incoming es) ++ more ≡ framed s ++ rest
      → Streamed c r more s rest (read c r)
  unfolding read read_buffered read_socket
  read-Streamed es nothing alive k e =
      subst (λ l. Streamed c r more s rest (read_buffered c r l)) (sym nothing)
        (subst (λ o. Streamed c r more s rest (read_socket c r o)) (sym alive)
          (header-Streamed (length r.partial + need) (fill es need r.partial) (omega arith)
            (omega arith) (fill-Fills es need _ r.partial refl)
            (ap (λ t. t ++ more) (fill_conserves es need r.partial) ∙ e)))
    where
      need : ℕ
      need = 4 - length r.partial

-- A call of `read` where nothing comes.
pub record Idle (r : BackedReader) (x : Outcome ReadError (Option Packet) × BackedReader)
    : Type 0 where
  pub result : Outcome ReadError (Option Packet)
  pub script : List ReadEvent
  pub is_quiet : IsQuiet result
  pub idle : x ≡ (result, record r { socket = some script; partial = [] })
  pub nothing : incoming script ≡ []

pub no_bytes : (xs ys : List ℕ) → xs ++ ys ≡ [] → (xs ≡ []) × (ys ≡ [])
no_bytes [] ys e = (refl, e)
no_bytes (x ∷ xs) ys e = absurd (cc)

module _ (c : Cipher) (r : BackedReader) where
  ended :
      (o : Outcome ReadError (Option Packet)) (got : List ℕ) (es' : List ReadEvent)
      → IsQuiet o
      → got ++ incoming es' ≡ []
      → Idle r (o, record r { socket = some es'; partial = got })
  ended o got es' q e = record {
    result = o;
    script = es';
    is_quiet = q;
    idle =
        ap (λ t. (o, record r { socket = some es'; partial = t }))
          (no_bytes got (incoming es') e).0;
    nothing = (no_bytes got (incoming es') e).1;
  }

  header-Idle :
      (x : Fill × List ℕ × List ReadEvent)
      → Fills 4 x
      → x.1 ++ incoming x.2 ≡ []
      → Idle r (after_header c r x)
  unfolding after_header
  header-Idle (filled, got, es') f e =
      absurd (omega (arith, f, ap length (no_bytes got (incoming es') e).0))
  header-Idle (not_yet, got, es') f e = ended (ok none) got es' tt e
  header-Idle (end_of_stream, got, es') f e = ended (err connection_closed) got es' tt e
  header-Idle (io_error, got, es') f e = ended (err io) got es' tt e

  pub read-Idle :
      (es : List ReadEvent)
      → r.local_buffer ≡ []
      → r.socket ≡ some es
      → r.partial ++ incoming es ≡ []
      → Idle r (read c r)
  unfolding read read_buffered read_socket
  read-Idle es nothing alive e =
      subst (λ l. Idle r (read_buffered c r l)) (sym nothing)
        (subst (λ o. Idle r (read_socket c r o)) (sym alive)
          (header-Idle (fill es need r.partial)
            (fill-Fills es need 4 r.partial
              (omega (arith, ap length (no_bytes r.partial (incoming es) e).0)))
            (fill_conserves es need r.partial ∙ e)))
    where
      need : ℕ
      need = 4 - length r.partial

-- A call of `read` with a catch-up to read.
pub read-buffered :
    (c : Cipher) (r : BackedReader) (s : List ℕ) (rest : List (List ℕ))
    → r.local_buffer ≡ s ∷ rest
    → read c r ≡ open_packet c (λ r. r) (record r { local_buffer = rest }) (from_serialized s)
unfolding read read_buffered
read-buffered c r s rest b = ap (read_buffered c r) b

-- A call of `read` with neither a catch-up nor a socket.
pub read-dead :
    (c : Cipher) (r : BackedReader)
    → r.local_buffer ≡ []
    → r.socket ≡ none
    → read c r ≡ (ok none, r)
unfolding read read_buffered read_socket
read-dead c r b dead = ap (read_buffered c r) b ∙ ap (read_socket c r) dead
