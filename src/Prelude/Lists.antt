-- ===== src/Prelude/Lists.antt =====
-- Lists measured and cut by native numbers, under the library's names.
use Prim.Native.Nat.{ℕ, zero, suc, ◌+◌, ◌-◌, ◌≤◌, min}
use mathlib.Core.Path.{◌≡◌, refl, ap, sym, ◌∙◌}
use mathlib.Core.List.{List, [], ◌∷◌, ◌++◌, reverse, reverse-cons}
use native.Mathlib.Omega.{arith}

module _ {ℓ} {A : Type ℓ} where
  abbrev pub length : List A → ℕ
  length [] = 0
  length (x ∷ xs) = suc (length xs)

  abbrev pub take : ℕ → List A → List A
  take zero xs = []
  take (suc n) [] = []
  take (suc n) (x ∷ xs) = x ∷ take n xs

  abbrev pub drop : ℕ → List A → List A
  drop zero xs = xs
  drop (suc n) [] = []
  drop (suc n) (x ∷ xs) = drop n xs

  abbrev pub replicate : ℕ → A → List A
  replicate zero a = []
  replicate (suc n) a = a ∷ replicate n a

  abbrev pub All {κ} : (A → Type κ) → List A → Type κ
  All P [] = Unit {κ}
  All P (x ∷ xs) = P x × All P xs

  pub length-append : (xs ys : List A) → length (xs ++ ys) ≡ length xs + length ys
  length-append [] ys = omega arith
  length-append (x ∷ xs) ys = omega (arith, length-append xs ys)

  pub length-take : (n : ℕ) (xs : List A) → length (take n xs) ≡ min n (length xs)
  length-take zero xs = omega arith
  length-take (suc n) [] = omega arith
  length-take (suc n) (x ∷ xs) = omega (arith, length-take n xs)

  pub length-drop : (n : ℕ) (xs : List A) → length (drop n xs) ≡ length xs - n
  length-drop zero xs = omega arith
  length-drop (suc n) [] = omega arith
  length-drop (suc n) (x ∷ xs) = omega (arith, length-drop n xs)

  pub take-append-drop : (n : ℕ) (xs : List A) → take n xs ++ drop n xs ≡ xs
  take-append-drop zero xs = refl
  take-append-drop (suc n) [] = refl
  take-append-drop (suc n) (x ∷ xs) = rw (take-append-drop n xs)

  pub length-replicate : (n : ℕ) (a : A) → length (replicate n a) ≡ n
  length-replicate zero a = refl
  length-replicate (suc n) a = ap suc (length-replicate n a)

  pub take_all : (n : ℕ) (xs : List A) → length xs ≤ n → take n xs ≡ xs
  take_all zero [] h = refl
  take_all zero (x ∷ xs) h = absurd (omega arith)
  take_all (suc n) [] h = refl
  take_all (suc n) (x ∷ xs) h = ap (λ t. x ∷ t) (take_all n xs (omega arith))

  pub take-append : (n : ℕ) (xs ys : List A) → length xs ≡ n → take n (xs ++ ys) ≡ xs
  take-append zero [] ys h = refl
  take-append zero (x ∷ xs) ys h = absurd (omega arith)
  take-append (suc n) [] ys h = absurd (omega arith)
  take-append (suc n) (x ∷ xs) ys h = ap (λ t. x ∷ t) (take-append n xs ys (omega arith))

  pub All-append {κ} : (P : A → Type κ) (xs ys : List A) → All P xs → All P ys → All P (xs ++ ys)
  All-append P [] ys h k = k
  All-append P (x ∷ xs) ys h k = (h.0, All-append P xs ys h.1 k)

  pub All-take {κ} : (P : A → Type κ) (n : ℕ) (xs : List A) → All P xs → All P (take n xs)
  All-take P zero xs h = tt
  All-take P (suc n) [] h = tt
  All-take P (suc n) (x ∷ xs) h = (h.0, All-take P n xs h.1)

  pub length-reverse : (es : List A) → length (reverse es) ≡ length es
  length-reverse [] = refl
  length-reverse (e ∷ es) =
      rw (reverse-cons e es) (omega (arith, length-append (reverse es) (e ∷ []), length-reverse es))

  pub take-append_le : (n : ℕ) (es fs : List A) → n ≤ length es → take n (es ++ fs) ≡ take n es
  take-append_le zero es fs h = refl
  take-append_le (suc n) [] fs h = absurd (omega arith)
  take-append_le (suc n) (e ∷ es) fs h = ap (λ r. e ∷ r) (take-append_le n es fs (omega arith))

  pub reverse-drop : (n : ℕ) (es : List A) → reverse (drop n es) ≡ take (length es - n) (reverse es)
  reverse-drop zero es =
      sym (take_all (length es - 0) (reverse es) (omega (arith, length-reverse es)))
  reverse-drop (suc n) [] = sym (take_all (0 - suc n) [] (omega arith))
  reverse-drop (suc n) (e ∷ es) =
      let shorter : suc (length es) - suc n ≡ length es - n = omega arith in
      reverse-drop n es
      ∙ rw (shorter, reverse-cons e es)
          (sym (
            take-append_le (length es - n) (reverse es) (e ∷ [])
              (omega (arith, length-reverse es))))

  pub drop-append_le :
      (n : ℕ) (es fs : List A) → n ≤ length es → drop n (es ++ fs) ≡ drop n es ++ fs
  drop-append_le zero es fs h = refl
  drop-append_le (suc n) [] fs h = absurd (omega arith)
  drop-append_le (suc n) (e ∷ es) fs h = drop-append_le n es fs (omega arith)
