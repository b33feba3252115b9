-- ===== src/Client/Responses.antt =====
-- The wait for the server's first packet.
use eternal_terminal_client.Base.{
  ℕ, zero, suc, ◌≡◌, refl, ap, ◌∙◌, false, Option, none, some, List, [], ◌∷◌, ◌++◌, ◌==◌,
  if◌then◌else◌, ok, err, ◌>>=◌, map_err, replicate,
}
use eternal_terminal_client.Packet
use eternal_terminal_client.Packet.{Packet}
use eternal_terminal_client.Proto.Messages.{InitialResponse, initial_response}
use eternal_terminal_client.Proto.Codec.InitialResponse
use eternal_terminal_client.Client.{
  timeout, unexpected_header, proto, accepted, refused, respond, await_response,
}

silent :
    (n : ℕ) (reads : List (Option Packet))
    → await_response (replicate n none ++ reads) ≡ await_response reads
unfolding await_response
silent zero reads = refl
silent (suc n) reads = silent n reads

abbrev pub response : InitialResponse → Packet
response m = Packet.new initial_response (InitialResponse.encode m)

responds :
    (m : InitialResponse) → InitialResponse.IsValid m → respond (response m) ≡ accepted m.error
unfolding respond
responds m v =
    ap (λ r. do resp ← map_err proto r; accepted resp.error)
      (InitialResponse.decode-encode_initial_response m v)

-- However many reads find nothing first: the first packet decides. A response that the server encoded
-- (its text UTF-8 of less than 2^63 bytes) is accepted if it has no error text or an empty one, and
-- refused with that text otherwise; a packet with any other header ends the session with that header;
-- and with no packet until the deadline it is a timeout.
pub await_response_lem :
    (n : ℕ) (rest : List (Option Packet))
    → ((m : InitialResponse)
        → InitialResponse.IsValid m
        → (m.error ≡ none → await_response (replicate n none ++ some (response m) ∷ rest) ≡ ok tt)
          × (m.error ≡ some []
              → await_response (replicate n none ++ some (response m) ∷ rest) ≡ ok tt)
          × ((b : ℕ) (text : List ℕ)
              → m.error ≡ some (b ∷ text)
              → await_response (replicate n none ++ some (response m) ∷ rest)
                ≡ err (refused (b ∷ text))))
      × ((pkt : Packet)
          → (pkt.header == initial_response) ≡ false
          → await_response (replicate n none ++ some pkt ∷ rest)
            ≡ err (unexpected_header pkt.header))
      × (await_response (replicate n none ++ []) ≡ err timeout)
unfolding await_response respond
await_response_lem n rest = (
  λ m v.
      let decided = silent n (some (response m) ∷ rest) ∙ responds m v in
      (
        λ e. decided ∙ ap accepted e,
        λ e. decided ∙ ap accepted e,
        λ b text e. decided ∙ ap accepted e,
      ),
  λ pkt h.
      silent n (some pkt ∷ rest)
      ∙ ap
          (λ t.
            if t
            then (do resp ← map_err proto (InitialResponse.decode pkt.payload); accepted resp.error)
            else err (unexpected_header pkt.header))
          h,
  silent n [],
)
