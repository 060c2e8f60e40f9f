-- ===== src/Prelude/Lists.antt =====
-- Lists measured and indexed by native numbers, under the library's names.
use Prim.Native.Nat.{ℕ, zero, suc, ◌+◌, ◌-◌}
use mathlib.Core.Path.{◌≡◌, refl, ap, ◌∙◌}
use mathlib.Core.List.{List, [], ◌∷◌, ◌++◌, map}
use mathlib.Core.Bool.{Bool, true, false}
use native.Mathlib.Omega.{arith}

module _ {ℓ} {A : Type ℓ} where
  abbrev pub length : List A → ℕ
  length [] = 0
  length (x ∷ xs) = suc (length xs)

  abbrev pub get_or : List A → ℕ → A → A
  get_or [] i d = d
  get_or (x ∷ xs) zero d = x
  get_or (x ∷ xs) (suc i) d = get_or xs i d

  abbrev pub take : ℕ → List A → List A
  take zero xs = []
  take (suc n) [] = []
  take (suc n) (x ∷ xs) = x ∷ take n xs

  abbrev pub drop : ℕ → List A → List A
  drop zero xs = xs
  drop (suc n) [] = []
  drop (suc n) (x ∷ xs) = drop n xs

  pub length-append : (xs ys : List A) → length (xs ++ ys) ≡ length xs + length ys
  length-append [] ys = omega arith
  length-append (x ∷ xs) ys = omega (arith, length-append xs ys)

  pub length-drop : (n : ℕ) (xs : List A) → length (drop n xs) ≡ length xs - n
  length-drop zero xs = omega arith
  length-drop (suc n) [] = omega arith
  length-drop (suc n) (x ∷ xs) = omega (arith, length-drop n xs)

  pub take-append-drop : (n : ℕ) (xs : List A) → take n xs ++ drop n xs ≡ xs
  take-append-drop zero xs = refl
  take-append-drop (suc n) [] = refl
  take-append-drop (suc n) (x ∷ xs) = ap (λ t. x ∷ t) (take-append-drop n xs)

  -- `xs[i..j]`
  abbrev pub slice : ℕ → ℕ → List A → List A
  slice i j xs = take (j - i) (drop i xs)

  take_append : (n : ℕ) (xs ys : List A) → n ≡ length xs → take n (xs ++ ys) ≡ xs
  take_append zero [] ys e = refl
  take_append zero (x ∷ xs) ys e = absurd (omega arith)
  take_append (suc n) [] ys e = absurd (omega arith)
  take_append (suc n) (x ∷ xs) ys e = ap (λ t. x ∷ t) (take_append n xs ys (omega arith))

  drop_append : (n : ℕ) (xs ys : List A) → n ≡ length xs → drop n (xs ++ ys) ≡ ys
  drop_append zero [] ys e = refl
  drop_append zero (x ∷ xs) ys e = absurd (omega arith)
  drop_append (suc n) [] ys e = absurd (omega arith)
  drop_append (suc n) (x ∷ xs) ys e = drop_append n xs ys (omega arith)

  get_or_append :
      (n : ℕ) (xs : List A) (y : A) (ys : List A) (d : A)
      → n ≡ length xs
      → get_or (xs ++ (y ∷ ys)) n d ≡ y
  get_or_append zero [] y ys d e = refl
  get_or_append zero (x ∷ xs) y ys d e = absurd (omega arith)
  get_or_append (suc n) [] y ys d e = absurd (omega arith)
  get_or_append (suc n) (x ∷ xs) y ys d e = get_or_append n xs y ys d (omega arith)

module _ {ℓ} {A : Type ℓ} where
  -- Reading a buffer that is known to be cut as `xs ++ ys ++ zs`.
  pub take-eq : (n : ℕ) (l xs ys : List A) → l ≡ xs ++ ys → n ≡ length xs → take n l ≡ xs
  take-eq n l xs ys p e = ap (take n) p ∙ take_append n xs ys e

  pub drop-eq : (n : ℕ) (l xs ys : List A) → l ≡ xs ++ ys → n ≡ length xs → drop n l ≡ ys
  drop-eq n l xs ys p e = ap (drop n) p ∙ drop_append n xs ys e

  pub get_or-eq :
      (n : ℕ) (l xs : List A) (y : A) (ys : List A) (d : A)
      → l ≡ xs ++ (y ∷ ys)
      → n ≡ length xs
      → get_or l n d ≡ y
  get_or-eq n l xs y ys d p e = ap (λ t. get_or t n d) p ∙ get_or_append n xs y ys d e

  pub slice-eq :
      (i j : ℕ) (l xs ys zs : List A)
      → l ≡ xs ++ (ys ++ zs)
      → i ≡ length xs
      → j ≡ i + length ys
      → slice i j l ≡ ys
  slice-eq i j l xs ys zs p e f =
      ap (take (j - i)) (drop-eq i l xs (ys ++ zs) p e) ∙ take_append (j - i) ys zs (omega arith)

  -- All elements satisfy `P`.
  abbrev pub All {κ} : (A → Type κ) → List A → Type κ
  All P [] = Unit {κ}
  All P (x ∷ xs) = P x × All P xs

  pub All-append {κ} : (P : A → Type κ) (xs ys : List A) → All P xs → All P ys → All P (xs ++ ys)
  All-append P [] ys h k = k
  All-append P (x ∷ xs) ys (p, h) k = (p, All-append P xs ys h k)

  pub All-append_right {κ} : (P : A → Type κ) (xs ys : List A) → All P (xs ++ ys) → All P ys
  All-append_right P [] ys h = h
  All-append_right P (x ∷ xs) ys (p, h) = All-append_right P xs ys h

  pub All-append_left {κ} : (P : A → Type κ) (xs ys : List A) → All P (xs ++ ys) → All P xs
  All-append_left P [] ys h = tt
  All-append_left P (x ∷ xs) ys (p, h) = (p, All-append_left P xs ys h)

  abbrev pub is_empty : List A → Bool
  is_empty [] = true
  is_empty (x ∷ xs) = false

  pub length-map {κ} : {B : Type κ} (f : A → B) (xs : List A) → length (map f xs) ≡ length xs
  length-map f [] = refl
  length-map f (x ∷ xs) = ap suc (length-map f xs)
