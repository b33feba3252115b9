-- ===== src/Client/Session/Effects.antt =====
-- What a list of effects shows on the console, and which terminal buffers it writes.
use eternal_terminal_client.Base.{
  ℕ, ◌≡◌, refl, sym, ap, ap₂, ◌∙◌, Bool, true, false, List, [], ◌∷◌, ◌++◌, append_assoc, ◌==◌,
  if◌then◌else◌,
}
use eternal_terminal_client.Packet.{Packet}
use eternal_terminal_client.Proto.Messages.{terminal_buffer}
use eternal_terminal_client.Client.{Effect, write, show, close}

-- The text on the console.
unfoldable pub shown_text : List Effect → List ℕ
shown_text [] = []
shown_text (show b ∷ es) = b ++ shown_text es
shown_text (write p ∷ es) = shown_text es
shown_text (close ∷ es) = shown_text es

abbrev keep_buffer : Packet → List Packet → List Packet
keep_buffer p ps = if p.header == terminal_buffer then p ∷ ps else ps

-- The terminal buffers among the packets that are written.
unfoldable pub buffers : List Effect → List Packet
buffers [] = []
buffers (show b ∷ es) = buffers es
buffers (write p ∷ es) = keep_buffer p (buffers es)
buffers (close ∷ es) = buffers es

shown_text-append : (es fs : List Effect) → shown_text (es ++ fs) ≡ shown_text es ++ shown_text fs
unfolding shown_text
shown_text-append [] fs = refl
shown_text-append (show b ∷ es) fs =
    ap (λ t. b ++ t) (shown_text-append es fs)
    ∙ sym (append_assoc b (shown_text es) (shown_text fs))
shown_text-append (write p ∷ es) fs = shown_text-append es fs
shown_text-append (close ∷ es) fs = shown_text-append es fs

buffers-append : (es fs : List Effect) → buffers (es ++ fs) ≡ buffers es ++ buffers fs
unfolding buffers
buffers-append [] fs = refl
buffers-append (show b ∷ es) fs = buffers-append es fs
buffers-append (write p ∷ es) fs =
    ap (keep_buffer p) (buffers-append es fs) ∙ kept (p.header == terminal_buffer)
  where
    kept :
        (t : Bool)
        → (if t then p ∷ (buffers es ++ buffers fs) else buffers es ++ buffers fs)
          ≡ (if t then p ∷ buffers es else buffers es) ++ buffers fs
    kept true = refl
    kept false = refl
buffers-append (close ∷ es) fs = buffers-append es fs

-- Effects that show the text and write the buffers.
abbrev pub Does : List ℕ → List Packet → List Effect → Type 0
Does t ps es = (shown_text es ≡ t) × (buffers es ≡ ps)

pub Does-append :
    (t u : List ℕ) (ps qs : List Packet) (es fs : List Effect)
    → Does t ps es
    → Does u qs fs
    → Does (t ++ u) (ps ++ qs) (es ++ fs)
Does-append t u ps qs es fs d e = (
  shown_text-append es fs ∙ ap₂ (λ x y. x ++ y) d.0 e.0,
  buffers-append es fs ∙ ap₂ (λ x y. x ++ y) d.1 e.1,
)
