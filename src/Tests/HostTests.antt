-- ===== src/Tests/HostTests.antt =====
-- src/host.rs on command lines.
use eternal_terminal_client.Base.{
  ℕ, All, length, ◌+◌, ◌≤◌, ◌≡◌, ◌⊎◌, inl, refl, none, some, List, [], ◌∷◌, ◌++◌, ok, err,
}
use eternal_terminal_client.Host.{count_of, parse_u16, parse_destination, invalid_host}
use eternal_terminal_client.Main.{destination}
use eternal_terminal_client.Main.Port.{destination_port}
use eternal_terminal_client.Host.Parse.{IsWithout, TakesPort, found, parse_destination_lem}
use eternal_terminal_client.Host.Alone.{join, IsGroup, Accepts, parse_destination-alone}

-- "me", "h" and "2022", and the local name "x".
abbrev me : List ℕ
me = b'm' ∷ b'e' ∷ []

abbrev pub port_text : List ℕ
port_text = b'2' ∷ b'0' ∷ b'2' ∷ b'2' ∷ []

pub port_number : parse_u16 port_text ≡ some 2022
unfolding parse_u16
port_number = refl

parse_destination_lem_example :
    parse_destination (me ++ b'@' ∷ (b'h' ∷ [] ++ b':' ∷ port_text)) none 22 (b'x' ∷ [])
    ≡ ok (found me (b'h' ∷ []) 2022)
unfolding count_of
parse_destination_lem_example =
    parse_destination_lem none 22 (b'x' ∷ []) b'm' (b'e' ∷ []) (b'h' ∷ []) port_text 2022
      (refl, (refl, tt)) (inl refl) port_number

parse_destination-alone_example :
    ((h : List ℕ) → IsWithout b'@' h → IsWithout b':' h → Accepts (some me) 22 (b'x' ∷ []) h)
    × ((front back : List ℕ)
        → IsWithout b'@' (front ++ b':' ∷ b':' ∷ back)
        → Accepts (some me) 22 (b'x' ∷ []) (front ++ b':' ∷ b':' ∷ back))
    × ((g : List ℕ) (gs : List (List ℕ))
        → IsWithout b'@' (join g gs)
        → IsGroup g
        → All IsGroup gs
        → (1 + length gs ≡ 8 → Accepts (some me) 22 (b'x' ∷ []) (join g gs))
          × ((3 ≤ 1 + length gs) × (1 + length gs ≤ 7) ⊎ (10 ≤ 1 + length gs)
              → parse_destination (join g gs) (some me) 22 (b'x' ∷ [])
                ≡ err (invalid_host (join g gs))))
parse_destination-alone_example = parse_destination-alone (some me) 22 (b'x' ∷ [])

-- "a:b"
abbrev two_words : List ℕ
two_words = b'a' ∷ b':' ∷ b'b' ∷ []

destination_port_example :
    (IsWithout b':' two_words
      → TakesPort (b'h' ∷ []) port_text
      → destination (two_words ++ b'@' ∷ (b'h' ∷ [] ++ b':' ∷ port_text)) none 22 (b'x' ∷ [])
        ≡ ok (found two_words (b'h' ∷ []) 2022))
    × (1 ≤ count_of b':' two_words
        → count_of b':' two_words ≤ 6
        → count_of b':' (b'h' ∷ []) ≡ 0
        → destination (two_words ++ b'@' ∷ (b'h' ∷ [] ++ b':' ∷ port_text)) none 22 (b'x' ∷ [])
          ≡ ok (found two_words (b'h' ∷ []) 22))
destination_port_example =
    destination_port none 22 (b'x' ∷ []) b'a' (b':' ∷ b'b' ∷ []) (b'h' ∷ []) port_text 2022
      (refl, (refl, (refl, tt))) port_number
