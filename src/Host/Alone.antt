-- ===== src/Host/Alone.antt =====
-- `parse_destination` on a host alone: which hosts it accepts, and which user and port they get.
use eternal_terminal_client.Base.{
  ℕ, ◌+◌, ◌≤◌, ◌≡◌, ◌≢◌, ◌⊎◌, inl, inr, refl, ap, ◌∙◌, Bool, true, false, ◌&&◌, ◌||◌, Option, none,
  some, List, [], ◌∷◌, ◌++◌, arith, ◌==◌, ok, err, All, length,
}
use eternal_terminal_client.Host.{
  count_of, has_pair, given, user_or, invalid_host, parse_destination,
}
use eternal_terminal_client.Host.Parse.{
  IsWithout, found, count_of-without, count_of-append, count_of-head, split_host-none,
  split_host-pair, split_host-seven, split_host-refused, named, alone, refused,
}

-- The groups of an address with colons between them.
pub join : List ℕ → List (List ℕ) → List ℕ
join g [] = g
join g (g' ∷ gs) = g ++ b':' ∷ join g' gs

-- A group is not empty and has no colon.
abbrev pub IsGroup : List ℕ → Type 0
IsGroup g = (g ≢ []) × IsWithout b':' g

count_of-join :
    (g : List ℕ) (gs : List (List ℕ))
    → IsGroup g
    → All IsGroup gs
    → count_of b':' (join g gs) ≡ length gs
unfolding join
count_of-join g [] h hs = count_of-without b':' g h.1
count_of-join g (g' ∷ gs) h hs = omega (
  arith,
  count_of-append b':' g (b':' ∷ join g' gs),
  count_of-head b':' (join g' gs),
  count_of-without b':' g h.1,
  count_of-join g' gs hs.0 hs.1,
)

-- A text whose first byte is no colon.
abbrev Begins : List ℕ → Type 0
Begins [] = ⊥
Begins (b ∷ l) = (b == b':') ≡ false

join-Begins : (g : List ℕ) (gs : List (List ℕ)) → IsGroup g → Begins (join g gs)
unfolding join
join-Begins [] gs h = absurd (h.0 refl)
join-Begins (b ∷ g) [] h = h.1.0
join-Begins (b ∷ g) (g' ∷ gs) h = h.1.0

has_pair-colon : (l : List ℕ) → Begins l → has_pair b':' (b':' ∷ l) ≡ has_pair b':' l
unfolding has_pair
has_pair-colon [] h = absurd h
has_pair-colon (b ∷ l) h = rw (h)

has_pair-without :
    (g l : List ℕ)
    → IsWithout b':' g
    → g ≢ []
    → has_pair b':' (g ++ b':' ∷ l) ≡ has_pair b':' (b':' ∷ l)
unfolding has_pair
has_pair-without [] l h n = absurd (n refl)
has_pair-without (b ∷ []) l h n = rw (h.0)
has_pair-without (b ∷ d ∷ g) l h n = rw (h.0, has_pair-without (d ∷ g) l h.1 (λ e. cc))

has_pair-none : (g : List ℕ) → IsWithout b':' g → has_pair b':' g ≡ false
unfolding has_pair
has_pair-none [] h = refl
has_pair-none (b ∷ []) h = refl
has_pair-none (b ∷ d ∷ g) h = rw (h.0, has_pair-none (d ∷ g) h.1)

has_pair-join :
    (g : List ℕ) (gs : List (List ℕ))
    → IsGroup g
    → All IsGroup gs
    → has_pair b':' (join g gs) ≡ false
unfolding join
has_pair-join g [] h hs = has_pair-none g h.1
has_pair-join g (g' ∷ gs) h hs =
    has_pair-without g (join g' gs) h.1 h.0
    ∙ has_pair-colon (join g' gs) (join-Begins g' gs hs.0)
    ∙ has_pair-join g' gs hs.0 hs.1

or_true : (t : Bool) → t || true ≡ true
or_true true = refl
or_true false = refl

-- `::` anywhere.
has_pair-double : (front back : List ℕ) → has_pair b':' (front ++ b':' ∷ b':' ∷ back) ≡ true
unfolding has_pair
has_pair-double [] back = refl
has_pair-double (b ∷ []) back = or_true ((b == b':') && true)
has_pair-double (b ∷ d ∷ front) back =
    ap (λ t. (b == b':') && (d == b':') || t) (has_pair-double (d ∷ front) back)
    ∙ or_true ((b == b':') && (d == b':'))

count_of-double : (front back : List ℕ) → 2 ≤ count_of b':' (front ++ b':' ∷ b':' ∷ back)
count_of-double front back = omega (
  arith,
  count_of-append b':' front (b':' ∷ b':' ∷ back),
  count_of-head b':' (b':' ∷ back),
  count_of-head b':' back,
)

-- So many groups, by their colons.
groups_refused :
    (n k : ℕ) → k ≡ n → (3 ≤ 1 + n) × (1 + n ≤ 7) ⊎ (10 ≤ 1 + n) → (2 ≤ k) × ((k ≤ 6) ⊎ (9 ≤ k))
groups_refused n k e (inl (few, many)) = (omega arith, inl (omega arith))
groups_refused n k e (inr many) = (omega arith, inr (omega arith))

-- The user where the argument names none: the given one, if it is not empty, or else the local name.
abbrev pub IsUser : Option (List ℕ) → List ℕ → List ℕ → Type 0
IsUser none local_name user = user ≡ local_name
IsUser (some []) local_name user = user ≡ local_name
IsUser (some (b ∷ bs)) local_name user = user ≡ b ∷ bs

module _ (default_user : Option (List ℕ)) (default_port : ℕ) (local_name : List ℕ) where
  named-IsUser : (o : Option (List ℕ)) → IsUser o local_name (user_or (given o) local_name)
  named-IsUser none = refl
  named-IsUser (some []) = refl
  named-IsUser (some (b ∷ bs)) = refl

  -- The host as it stands is accepted, with the default port.
  abbrev pub Accepts : List ℕ → Type 0
  Accepts h =
      (user : List ℕ) × IsUser default_user local_name user
      × (parse_destination h default_user default_port local_name ≡ ok (found user h default_port))

  -- On an argument without `@`. A host without a colon, one with `::` anywhere, and eight groups with colons between
  -- them are accepted as they stand: they are the host and its alias, the port is the default one, and the
  -- user is the given one, if it is not empty, or else the local name. Three to seven groups, and ten or
  -- more, are refused as an invalid host. (A group is not empty and has no colon.)
  pub parse_destination-alone :
      ((h : List ℕ) → IsWithout b'@' h → IsWithout b':' h → Accepts h)
      × ((front back : List ℕ)
          → IsWithout b'@' (front ++ b':' ∷ b':' ∷ back)
          → Accepts (front ++ b':' ∷ b':' ∷ back))
      × ((g : List ℕ) (gs : List (List ℕ))
          → IsWithout b'@' (join g gs)
          → IsGroup g
          → All IsGroup gs
          → (1 + length gs ≡ 8 → Accepts (join g gs))
            × ((3 ≤ 1 + length gs) × (1 + length gs ≤ 7) ⊎ (10 ≤ 1 + length gs)
                → parse_destination (join g gs) default_user default_port local_name
                  ≡ err (invalid_host (join g gs))))
  parse_destination-alone = (
    λ h u w. (
      named default_user default_port local_name,
      named-IsUser default_user,
      alone default_user default_port local_name h h default_port u
          (split_host-none h default_port (count_of-without b':' h w)),
    ),
    λ front back u.
        let h = front ++ b':' ∷ b':' ∷ back in
        (
          named default_user default_port local_name,
          named-IsUser default_user,
          alone default_user default_port local_name h h default_port u (
              split_host-pair h default_port (count_of-double front back)
                (has_pair-double front back)),
        ),
    λ g gs u i is.
        let h = join g gs in
        let colons = count_of-join g gs i is in
        let single = has_pair-join g gs i is in
        (
          λ n. (
            named default_user default_port local_name,
            named-IsUser default_user,
            alone default_user default_port local_name h h default_port u
                (split_host-seven h default_port (omega (arith, colons)) single),
          ),
          λ n.
              let (more, sides) = groups_refused (length gs) (count_of b':' h) colons n in
              refused default_user default_port local_name h u
                (split_host-refused h default_port more sides single),
        ),
  )
