-- ===== src/Backed/Reader/Frames.antt =====
-- `BackedReader::read` on framed packets that arrive in pieces.
use eternal_terminal_client.Base.{
  ℕ, suc, ◌+◌, ◌-◌, ◌^◌, ◌≤◌, ◌<◌, ◌≡◌, ◌≢◌, inl, inr, refl, sym, ap, subst, ◌∙◌, Option, none,
  some, List, [], ◌++◌, append_assoc, append-nil, arith, Outcome, ok, length, length-append, take,
  drop, take-append, append_inj, take-eq-append,
}
use eternal_terminal_client.Base.Bytes.{be_bytes, be_value, length-be_bytes, be_value-be_bytes}
use eternal_terminal_client.Crypto.Secretbox.{Cipher}
use eternal_terminal_client.Packet.{Packet, from_serialized}
use eternal_terminal_client.Backed.Reader.{
  ReadEvent, ReadError, BackedReader, Fill, filled, not_yet, end_of_stream, io_error, fill, count,
  open_packet, after_body, after_header, read_socket, read_buffered, read,
}
use eternal_terminal_client.Backed.Reader.Arrival.{
  incoming, IsSteady, IsFill, fill_conserves, fill-IsFill,
}

-- The length, big-endian, and the serialized packet, as the peer frames them.
abbrev pub framed : List ℕ → List ℕ
framed s = be_bytes 4 (length s) ++ s

-- What one call of `read` does on a steady socket that still brings the frame of `s`: the frame is not
-- whole yet, and some of the script is used up; or it is taken, and what is behind it is left.
pub data Polled (c : Cipher) (r : BackedReader) (es : List ReadEvent) (s rest : List ℕ)
    (x : Outcome ReadError (Option Packet) × BackedReader) : Type 0 where
  early :
      (got : List ℕ) (es' : List ReadEvent)
      → x ≡ (ok none, record r { socket = some es'; partial = got })
      → length got < 4 + length s
      → got ++ incoming es' ≡ framed s ++ rest
      → IsSteady es'
      → length es' < length es
      → Polled c r es s rest x
  taken :
      (es' : List ReadEvent)
      → x ≡ open_packet c count (record r { socket = some es'; partial = [] }) (from_serialized s)
      → incoming es' ≡ rest
      → IsSteady es'
      → length es' ≤ length es
      → Polled c r es s rest x

pub length-framed : (s : List ℕ) → length (framed s) ≡ 4 + length s
length-framed s =
    omega (arith, length-append (be_bytes 4 (length s)) s, length-be_bytes 4 (length s))

take_all : (s : List ℕ) → take (length s) s ≡ s
take_all s = ap (take (length s)) (sym (append-nil s)) ∙ take-append s []

-- `self.partial[4..total]`
pub body_of : (s : List ℕ) → drop 4 (take (4 + length s) (framed s)) ≡ s
unfolding be_bytes
body_of s =
    let four : 4 + length s ≡ suc (suc (suc (suc (length s)))) = omega arith in
    ap (λ k. drop 4 (take k (framed s))) four ∙ take_all s

-- `u32::from_be_bytes` of the first four bytes.
pub header_of :
    (s rest got more : List ℕ)
    → length s < 2 ^ 32
    → 4 ≤ length got
    → got ++ more ≡ framed s ++ rest
    → 4 + be_value (take 4 got) ≡ 4 + length s
header_of s rest got more small h e =
    ap (λ t. 4 + be_value t)
      (subst (λ k. take k got ≡ be_bytes 4 (length s)) (length-be_bytes 4 (length s))
        (take-eq-append got (be_bytes 4 (length s)) more (s ++ rest)
          (omega (arith, length-be_bytes 4 (length s)))
          (e ∙ append_assoc (be_bytes 4 (length s)) s rest)))
    ∙ ap (λ t. 4 + t) (be_value-be_bytes 4 (length s) small)

-- A frame that has not arrived whole is still to come.
still_coming :
    (s rest got : List ℕ) (es : List ReadEvent)
    → got ++ incoming es ≡ framed s ++ rest
    → length got < 4 + length s
    → incoming es ≢ []
still_coming s rest got es e h n = omega (
  arith,
  ap length e,
  length-append got (incoming es),
  ap length n,
  length-framed s,
  length-append (framed s) rest,
)

module _ (c : Cipher) (r : BackedReader) (es : List ReadEvent) (s rest : List ℕ)
    (small : length s < 2 ^ 32) where
  -- The cases of both loops that wait for more.
  waits :
      (need k : ℕ) (partial got : List ℕ) (es₁ es' : List ReadEvent)
      → IsFill es₁ need partial (not_yet, got, es')
      → length partial + need ≤ 4 + length s
      → length es₁ ≤ length es
      → IsSteady es'
      → got ++ incoming es' ≡ framed s ++ rest
      → Polled c r es s rest (ok none, record r { socket = some es'; partial = got })
  waits need k partial got es₁ es' (l, inl n) h m st e =
      early got es' refl (omega arith) e st (omega arith)
  waits need k partial got es₁ es' (l, inr n) h m st e =
      absurd (still_coming s rest got es' e (omega arith) n)

  body-Polled :
      (es₁ : List ReadEvent) (partial : List ℕ) (x : Fill × List ℕ × List ReadEvent)
      → length es₁ ≤ length es
      → length partial ≤ 4 + length s
      → IsFill es₁ (4 + length s - length partial) partial x
      → IsSteady x.2
      → x.1 ++ incoming x.2 ≡ framed s ++ rest
      → Polled c r es s rest (after_body c r (4 + length s) x)
  unfolding after_body
  body-Polled es₁ partial (filled, got, es') m k f st e =
      taken es'
        (ap
          (λ t.
            open_packet c count (record r { socket = some es'; partial = [] }) (from_serialized t))
          (ap (λ t. drop 4 (take (4 + length s) t)) cut.1 ∙ body_of s))
        cut.0 st (omega arith)
    where
      cut : (incoming es' ≡ rest) × (got ≡ framed s)
      cut =
          let (a, b) =
            append_inj got (framed s) (incoming es') rest (omega (arith, f.0, length-framed s)) e in
          (b, a)
  body-Polled es₁ partial (not_yet, got, es') m k f st e =
      waits _ 0 partial got es₁ es' f (omega arith) m st e
  body-Polled es₁ partial (end_of_stream, got, es') m k f st e = absurd f
  body-Polled es₁ partial (io_error, got, es') m k f st e = absurd f

  header-Polled :
      (x : Fill × List ℕ × List ReadEvent)
      → length r.partial < 4 + length s
      → IsFill es (4 - length r.partial) r.partial x
      → IsSteady x.2
      → x.1 ++ incoming x.2 ≡ framed s ++ rest
      → Polled c r es s rest (after_header c r x)
  unfolding after_header
  header-Polled (filled, got, es') k f st e =
      subst (λ t. Polled c r es s rest (after_body c r t (fill es' (t - length got) got)))
        (sym (header_of s rest got (incoming es') small (omega arith) e))
        (body-Polled es' got (fill es' need got) (omega arith) (omega arith) body.0 body.1
          (fill_conserves es' need got ∙ e))
    where
      need : ℕ
      need = 4 + length s - length got

      body : IsFill es' need got (fill es' need got) × IsSteady (fill es' need got).2
      body = fill-IsFill es' need got st
  header-Polled (not_yet, got, es') k f st e =
      waits (4 - length r.partial) 0 r.partial got es es' f (omega arith) (omega arith) st e
  header-Polled (end_of_stream, got, es') k f st e = absurd f
  header-Polled (io_error, got, es') k f st e = absurd f

  -- One call of `read`, with nothing buffered from a catch-up and less than a frame read so far.
  pub read-Polled :
      r.local_buffer ≡ []
      → r.socket ≡ some es
      → IsSteady es
      → length r.partial < 4 + length s
      → r.partial ++ incoming es ≡ framed s ++ rest
      → Polled c r es s rest (read c r)
  unfolding read read_buffered read_socket
  read-Polled nothing alive st k e =
      subst (λ l. Polled c r es s rest (read_buffered c r l)) (sym nothing)
        (subst (λ o. Polled c r es s rest (read_socket c r o)) (sym alive)
          (header-Polled (fill es need r.partial) k header.0 header.1
            (fill_conserves es need r.partial ∙ e)))
    where
      need : ℕ
      need = 4 - length r.partial

      header :
          IsFill es need r.partial (fill es need r.partial) × IsSteady (fill es need r.partial).2
      header = fill-IsFill es need r.partial st
