-- ===== src/SshSetup/Find.antt =====
-- `find` of a text in a text, against the texts that contain it.
use eternal_terminal_client.Base.{
  ℕ, ◌≡◌, refl, ap, ◌∙◌, Bool, true, false, none, some, List, [], ◌∷◌, ◌++◌, length, drop,
  drop-append, arith, ==_refl, if◌then◌else◌,
}
use eternal_terminal_client.Host.Parse.{IsWithout}
use eternal_terminal_client.SshSetup.{starts_with, find}

unfoldable pub Contains : List ℕ → List ℕ → Type 0
Contains p s = (front : List ℕ) × (back : List ℕ) × (s ≡ front ++ (p ++ back))

starts_with-append : (p back : List ℕ) → starts_with p (p ++ back) ≡ true
unfolding starts_with
starts_with-append [] back = refl
starts_with-append (c ∷ p) back = rw (==_refl c, starts_with-append p back)

starts_with-eq : (p s : List ℕ) → starts_with p s ≡ true → s ≡ p ++ drop (length p) s
unfolding starts_with
starts_with-eq [] s h = refl
starts_with-eq (c ∷ p) [] h = cc
starts_with-eq (c ∷ p) (d ∷ s) h = ground (arith, starts_with-eq p s)

pub find-Contains : (p s : List ℕ) → ¬ Contains p s → find p s ≡ none
unfolding find Contains
find-Contains p [] absent = refl
find-Contains p (c ∷ s) absent = by_test (starts_with p (c ∷ s)) refl (find-Contains p s)
  where
    by_test :
        (t : Bool)
        → starts_with p (c ∷ s) ≡ t
        → (¬ Contains p s → find p s ≡ none)
        → (if t then some (drop (length p) (c ∷ s)) else find p s) ≡ none
    by_test true e ih = absurd (absent ([], drop (length p) (c ∷ s), starts_with-eq p (c ∷ s) e))
    by_test false e ih = ih (λ (front, back, at). absent (c ∷ front, back, ap (λ t. c ∷ t) at))

-- No match begins before a character that only begins one.
starts_with-fresh :
    (c : ℕ) (p front back : List ℕ)
    → IsWithout c p
    → starts_with p (front ++ c ∷ back) ≡ starts_with p front
unfolding starts_with
starts_with-fresh c [] front back h = refl
starts_with-fresh c (d ∷ p) [] back h = rw (h.0)
starts_with-fresh c (d ∷ p) (b ∷ front) back h = rw (starts_with-fresh c p front back h.1)

starts_with-before :
    (c b : ℕ) (p front back : List ℕ)
    → IsWithout c p
    → starts_with (c ∷ p) (b ∷ (front ++ (c ∷ back))) ≡ starts_with (c ∷ p) (b ∷ front)
unfolding starts_with
starts_with-before c b p front back h = rw (starts_with-fresh c p front back h)

find-step :
    (p s : List ℕ) (c : ℕ)
    → find p (c ∷ s) ≡ (if starts_with p (c ∷ s) then some (drop (length p) (c ∷ s)) else find p s)
unfolding find
find-step p s c = refl

find-here : (c : ℕ) (p back : List ℕ) → find (c ∷ p) (c ∷ (p ++ back)) ≡ some back
find-here c p back =
    find-step (c ∷ p) (p ++ back) c
    ∙ ap (λ t. if t then some (drop (length p) (p ++ back)) else find (c ∷ p) (p ++ back))
        (starts_with-append (c ∷ p) back)
    ∙ ap some (drop-append p back)

-- The first match of a text whose first character does not come again in it.
pub find-append :
    (c : ℕ) (p front back : List ℕ)
    → IsWithout c p
    → ¬ Contains (c ∷ p) front
    → find (c ∷ p) (front ++ (c ∷ (p ++ back))) ≡ some back
unfolding Contains
find-append c p [] back w absent = find-here c p back
find-append c p (b ∷ front) back w absent =
    find-step (c ∷ p) (front ++ (c ∷ (p ++ back))) b
    ∙ by_test (starts_with (c ∷ p) (b ∷ front)) refl (find-append c p front back w)
  where
    by_test :
        (t : Bool)
        → starts_with (c ∷ p) (b ∷ front) ≡ t
        → (¬ Contains (c ∷ p) front → find (c ∷ p) (front ++ (c ∷ (p ++ back))) ≡ some back)
        → (if starts_with (c ∷ p) (b ∷ (front ++ (c ∷ (p ++ back))))
            then some (drop (length p) (front ++ (c ∷ (p ++ back))))
            else find (c ∷ p) (front ++ (c ∷ (p ++ back))))
          ≡ some back
    by_test true e ih =
        absurd
          (absent ([], drop (length (c ∷ p)) (b ∷ front), starts_with-eq (c ∷ p) (b ∷ front) e))
    by_test false e ih = rw (
      starts_with-before c b p front (p ++ back) w,
      e,
      ih (λ (before, after, at). absent (b ∷ before, after, ap (λ t. b ∷ t) at)),
    )
