-- ===== src/Base/Indices.antt =====
-- Lists compared index by index.
use Prim.Native.Nat.{ℕ, zero, suc, ◌+◌, ◌-◌, ◌<◌}
use mathlib.Core.Path.{◌≡◌, refl, ap, ap₂, ◌∙◌}
use mathlib.Core.List.{List, [], ◌∷◌, ◌++◌, reverse, reverse-append}
use native.Mathlib.Omega.{arith}
use hueos.Base.Lists.{length, get_or, length-append}
use native.Mathlib.Decide.{dec_lt}

module _ {ℓ} {A : Type ℓ} where
  pub get_or-append_left :
      (xs ys : List A) (i : ℕ) (d : A) → i < length xs → get_or (xs ++ ys) i d ≡ get_or xs i d
  get_or-append_left [] ys i d h = absurd (omega arith)
  get_or-append_left (x ∷ xs) ys zero d h = refl
  get_or-append_left (x ∷ xs) ys (suc i) d h = get_or-append_left xs ys i d (omega arith)

  pub get_or-append_right :
      (xs ys : List A) (i k : ℕ) (d : A) → i ≡ length xs + k → get_or (xs ++ ys) i d ≡ get_or ys k d
  get_or-append_right [] ys i k d e = ap (λ j. get_or ys j d) (omega arith)
  get_or-append_right (x ∷ xs) ys zero k d e = absurd (omega arith)
  get_or-append_right (x ∷ xs) ys (suc i) k d e = get_or-append_right xs ys i k d (omega arith)

  pub get_or_ext :
      (d : A) (xs ys : List A)
      → length xs ≡ length ys
      → ((i : ℕ) → i < length xs → get_or xs i d ≡ get_or ys i d)
      → xs ≡ ys
  get_or_ext d [] [] e h = refl
  get_or_ext d [] (y ∷ ys) e h = absurd (omega arith)
  get_or_ext d (x ∷ xs) [] e h = absurd (omega arith)
  get_or_ext d (x ∷ xs) (y ∷ ys) e h =
      ap₂ ◌∷◌ (h 0 (omega arith))
        (get_or_ext d xs ys (omega arith) (λ i below. h (suc i) (omega arith)))

  pub reverse-cons : (x : A) (xs : List A) → reverse (x ∷ xs) ≡ reverse xs ++ (x ∷ [])
  reverse-cons x xs = reverse-append (x ∷ []) xs

  pub length-reverse : (xs : List A) → length (reverse xs) ≡ length xs
  length-reverse [] = refl
  length-reverse (x ∷ xs) =
      ap length (reverse-cons x xs)
      ∙ omega (arith, length-append (reverse xs) (x ∷ []), length-reverse xs)

  pub get_or-reverse :
      (xs : List A) (i : ℕ) (d : A)
      → i < length xs
      → get_or (reverse xs) i d ≡ get_or xs (length xs - 1 - i) d
  get_or-reverse [] i d h = absurd (omega arith)
  get_or-reverse (x ∷ xs) i d h = elim (dec_lt i (length xs)) [
    | yes p ↦
        let prior : length (x ∷ xs) - 1 - i ≡ suc (length xs - 1 - i) = omega arith in
        ap (λ l. get_or l i d) (reverse-cons x xs)
        ∙ get_or-append_left (reverse xs) (x ∷ []) i d (omega (arith, length-reverse xs))
        ∙ rw prior (get_or-reverse xs i d p)
    | no p ↦
        let last : length (x ∷ xs) - 1 - i ≡ 0 = omega arith in
        ap (λ l. get_or l i d) (reverse-cons x xs)
        ∙ get_or-append_right (reverse xs) (x ∷ []) i 0 d (omega (arith, length-reverse xs))
        ∙ rw last refl
  ]
