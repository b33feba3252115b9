-- ===== src/Base/Lists.antt =====
-- Lists measured and cut by native numbers, under the library's names, and `All`.
use Prim.Native.Nat.{ℕ, zero, suc, ◌+◌, ◌-◌, ◌≤◌, ◌<◌}
use mathlib.Core.Path.{◌≡◌, refl, sym, ap, ap₂, ◌∙◌}
use mathlib.Core.List.{
  List, [], ◌∷◌, ◌++◌, map, map-append, reverse, reverse-cons, reverse-append, reverse-reverse,
}
use native.Mathlib.Omega.{arith}

-- A byte sequence; `IsByte` is the range of a `u8`.
abbrev pub IsByte : ℕ → Type 0
IsByte b = b < 256

module _ {ℓ} {A : Type ℓ} where
  abbrev pub length : List A → ℕ
  length [] = 0
  length (x ∷ xs) = suc (length xs)

  abbrev pub take : ℕ → List A → List A
  take zero xs = []
  take (suc n) [] = []
  take (suc n) (x ∷ xs) = x ∷ take n xs

  abbrev pub drop : ℕ → List A → List A
  drop zero xs = xs
  drop (suc n) [] = []
  drop (suc n) (x ∷ xs) = drop n xs

  abbrev pub replicate : ℕ → A → List A
  replicate zero a = []
  replicate (suc n) a = a ∷ replicate n a

  pub length-append : (xs ys : List A) → length (xs ++ ys) ≡ length xs + length ys
  length-append [] ys = omega arith
  length-append (x ∷ xs) ys = omega (arith, length-append xs ys)

  pub length-take_of_le : (n : ℕ) (xs : List A) → n ≤ length xs → length (take n xs) ≡ n
  length-take_of_le zero xs h = refl
  length-take_of_le (suc n) [] h = absurd (omega arith)
  length-take_of_le (suc n) (x ∷ xs) h = ap suc (length-take_of_le n xs (omega arith))

  pub length-drop : (n : ℕ) (xs : List A) → length (drop n xs) ≡ length xs - n
  length-drop zero xs = omega arith
  length-drop (suc n) [] = omega arith
  length-drop (suc n) (x ∷ xs) = omega (arith, length-drop n xs)

  pub take-append-drop : (n : ℕ) (xs : List A) → take n xs ++ drop n xs ≡ xs
  take-append-drop zero xs = refl
  take-append-drop (suc n) [] = refl
  take-append-drop (suc n) (x ∷ xs) = ap (λ t. x ∷ t) (take-append-drop n xs)

  -- A prefix is taken and dropped by its length.
  pub take-append : (xs ys : List A) → take (length xs) (xs ++ ys) ≡ xs
  take-append [] ys = refl
  take-append (x ∷ xs) ys = ap (λ t. x ∷ t) (take-append xs ys)

  pub drop-append : (xs ys : List A) → drop (length xs) (xs ++ ys) ≡ ys
  drop-append [] ys = refl
  drop-append (x ∷ xs) ys = drop-append xs ys

  -- Two ways to cut one list at the same place.
  pub append_inj :
      (xs ys us vs : List A) → length xs ≡ length ys → xs ++ us ≡ ys ++ vs → (xs ≡ ys) × (us ≡ vs)
  append_inj xs ys us vs l e = (
    sym (take-append xs us) ∙ ap₂ take l e ∙ take-append ys vs,
    sym (drop-append xs us) ∙ ap₂ drop l e ∙ drop-append ys vs,
  )

  first : {x y : A} {xs ys : List A} → x ∷ xs ≡ y ∷ ys → x ≡ y
  first e = cc

  -- What both ways of writing a list begin with.
  pub take-eq-append :
      (xs ys us vs : List A)
      → length ys ≤ length xs
      → xs ++ us ≡ ys ++ vs
      → take (length ys) xs ≡ ys
  take-eq-append xs [] us vs h e = refl
  take-eq-append [] (y ∷ ys) us vs h e = absurd (omega arith)
  take-eq-append (x ∷ xs) (y ∷ ys) us vs h e =
      ap₂ (λ z t. z ∷ t) (first e) (take-eq-append xs ys us vs (omega arith) (ap (drop 1) e))

  pub length-replicate : (n : ℕ) (a : A) → length (replicate n a) ≡ n
  length-replicate zero a = refl
  length-replicate (suc n) a = ap suc (length-replicate n a)

module _ {ℓ κ} {A : Type ℓ} where
  abbrev pub All : (A → Type κ) → List A → Type κ
  All P [] = Unit {κ}
  All P (x ∷ xs) = P x × All P xs

  pub All-append : (P : A → Type κ) (xs ys : List A) → All P xs → All P ys → All P (xs ++ ys)
  All-append P [] ys front back = back
  All-append P (x ∷ xs) ys front back = (front.0, All-append P xs ys front.1 back)

module _ {ℓ} {A : Type ℓ} where
  pub drop-drop : (a b m : ℕ) (xs : List A) → m ≡ b + a → drop a (drop b xs) ≡ drop m xs
  drop-drop a zero m xs e = ap (λ k. drop k xs) (omega arith)
  drop-drop zero (suc b) zero [] e = refl
  drop-drop zero (suc b) (suc m) [] e = refl
  drop-drop (suc a) (suc b) zero [] e = refl
  drop-drop (suc a) (suc b) (suc m) [] e = refl
  drop-drop a (suc b) zero (x ∷ xs) e = absurd (omega arith)
  drop-drop a (suc b) (suc m) (x ∷ xs) e = drop-drop a b m xs (omega arith)

  pub drop-append_of_le :
      (k : ℕ) (xs ys : List A) → k ≤ length xs → drop k (xs ++ ys) ≡ drop k xs ++ ys
  drop-append_of_le zero xs ys h = refl
  drop-append_of_le (suc k) [] ys h = absurd (omega arith)
  drop-append_of_le (suc k) (x ∷ xs) ys h = drop-append_of_le k xs ys (omega arith)

  pub length-reverse : (xs : List A) → length (reverse xs) ≡ length xs
  length-reverse [] = refl
  length-reverse (x ∷ xs) =
      ap length (reverse-cons x xs)
      ∙ omega (arith, length-append (reverse xs) (x ∷ []), length-reverse xs)

  pub map-reverse {κ} :
      {B : Type κ} (f : A → B) (xs : List A) → map f (reverse xs) ≡ reverse (map f xs)
  map-reverse f [] = refl
  map-reverse f (x ∷ xs) =
      ap (map f) (reverse-cons x xs)
      ∙ map-append f (reverse xs) (x ∷ [])
      ∙ ap (λ t. t ++ f x ∷ []) (map-reverse f xs)
      ∙ sym (reverse-cons (f x) (map f xs))

  take-reverse_append :
      (n : ℕ) (front back : List A)
      → length back ≡ n
      → take n (reverse (front ++ back)) ≡ reverse back
  take-reverse_append n front back e =
      rw (reverse-append front back, ← e, ← length-reverse back)
        (take-append (reverse back) (reverse front))

  -- The `n` last elements, by way of the reversed list.
  pub reverse-map-take-reverse {κ} :
      {B : Type κ} (f : A → B) (n : ℕ) (xs : List A)
      → n ≤ length xs
      → reverse (map f (take n (reverse xs))) ≡ map f (drop (length xs - n) xs)
  reverse-map-take-reverse f n xs h =
      ap (λ t. reverse (map f t))
        (ap (λ t. take n (reverse t)) (sym (take-append-drop (length xs - n) xs))
          ∙ take-reverse_append n (take (length xs - n) xs) (drop (length xs - n) xs)
              (omega (arith, length-drop (length xs - n) xs)))
      ∙ ap reverse (map-reverse f (drop (length xs - n) xs))
      ∙ reverse-reverse (map f (drop (length xs - n) xs))
