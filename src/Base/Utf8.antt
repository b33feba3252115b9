-- ===== src/Base/Utf8.antt =====
-- Rust's strings are their bytes, which are valid UTF-8. `String::from_utf8` checks them: after a
-- lead byte come up to three continuation bytes, the first of them in a range that the lead sets.
use Prim.Native.Nat.{ℕ, zero, suc, ◌<◌}
use mathlib.Core.Path.{◌≡◌, refl}
use mathlib.Core.Bool.{Bool, true, false, ◌&&◌}
use mathlib.Core.Option.{Option, none, some}
use mathlib.Core.List.{List, [], ◌∷◌, ◌++◌}
use native.Mathlib.Omega.{arith}
use eternal_terminal_client.Base.Tests.{ltb, leb, ◌==◌, if◌then◌else◌}
use eternal_terminal_client.Base.Lists.{All}

-- How many bytes follow a lead byte, and the range of the first.
utf8_lead : ℕ → Option (ℕ × ℕ × ℕ)
utf8_lead b =
    if ltb b 0x80
    then some (0, 0x80, 0xbf)
    else if ltb b 0xc2
    then none
    else if ltb b 0xe0
    then some (1, 0x80, 0xbf)
    else if b == 0xe0
    then some (2, 0xa0, 0xbf)
    else if b == 0xed
    then some (2, 0x80, 0x9f)
    else if ltb b 0xf0
    then some (2, 0x80, 0xbf)
    else if b == 0xf0
    then some (3, 0x90, 0xbf)
    else if ltb b 0xf4
    then some (3, 0x80, 0xbf)
    else if b == 0xf4
    then some (3, 0x80, 0x8f)
    else none

-- `need` continuation bytes are still to come, the next of them from `lo` to `hi`.
utf8_run : (need lo hi : ℕ) → List ℕ → Bool
utf8_run need lo hi [] = need == 0
utf8_run zero lo hi (b ∷ bs) = elim (utf8_lead b) [
  | none ↦ false
  | some (n, l, h) ↦ utf8_run n l h bs
]
utf8_run (suc need) lo hi (b ∷ bs) = leb lo b && leb b hi && utf8_run need 0x80 0xbf bs

unfoldable pub is_utf8 : List ℕ → Bool
unfolding utf8_run utf8_lead
is_utf8 s = utf8_run 0 0x80 0xbf s

-- The `ok()` of `String::from_utf8`.
abbrev pub from_utf8 : List ℕ → Option (List ℕ)
from_utf8 s = if is_utf8 s then some s else none

utf8_run_ascii : (s : List ℕ) (lo hi : ℕ) → All (λ b. b < 128) s → utf8_run 0 lo hi s ≡ true
unfolding utf8_run utf8_lead
utf8_run_ascii [] lo hi h = refl
utf8_run_ascii (b ∷ bs) lo hi h = ground (arith, utf8_run_ascii bs 0x80 0xbf)

-- ASCII text is valid.
pub is_utf8_ascii : (s : List ℕ) → All (λ b. b < 128) s → is_utf8 s ≡ true
unfolding is_utf8
is_utf8_ascii s h = utf8_run_ascii s 0x80 0xbf h

utf8_run-append :
    (s t : List ℕ) (need lo hi : ℕ)
    → utf8_run need lo hi s ≡ true
    → is_utf8 t ≡ true
    → utf8_run need lo hi (s ++ t) ≡ true
unfolding utf8_run is_utf8
utf8_run-append [] [] zero lo hi h k = refl
utf8_run-append [] (c ∷ t) zero lo hi h k = k
utf8_run-append [] t (suc need) lo hi h k = ground arith
utf8_run-append (b ∷ s) t zero lo hi h k =
    lead (utf8_lead b) (λ n l h q. utf8_run-append s t n l h q k) h
  where
    lead :
        (o : Option (ℕ × ℕ × ℕ))
        → ((n l h : ℕ) → utf8_run n l h s ≡ true → utf8_run n l h (s ++ t) ≡ true)
        → elim o [ none ↦ false | some (n, l, h) ↦ utf8_run n l h s ] ≡ true
        → elim o [ none ↦ false | some (n, l, h) ↦ utf8_run n l h (s ++ t) ] ≡ true
    lead none ih q = cc
    lead (some (n, l, h)) ih q = ih n l h q
utf8_run-append (b ∷ s) t (suc need) lo hi h k = ground (arith, utf8_run-append s t need 0x80 0xbf)

-- Two valid texts one behind the other are valid.
pub is_utf8-append : (s t : List ℕ) → is_utf8 s ≡ true → is_utf8 t ≡ true → is_utf8 (s ++ t) ≡ true
unfolding is_utf8
is_utf8-append s t h k = utf8_run-append s t 0 0x80 0xbf h k
