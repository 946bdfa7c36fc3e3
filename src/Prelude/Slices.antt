-- ===== src/Prelude/Slices.antt =====
-- Where a slice or an index is in range, and what it is.
use Prim.Native.Nat.{ℕ, zero, suc, ◌+◌, ◌-◌, ◌≤◌, ◌<◌}
use mathlib.Core.Path.{◌≡◌, refl, ap}
use mathlib.Core.List.{List, [], ◌∷◌, ◌++◌}
use native.Mathlib.Omega.{arith}
use freetetra.Prelude.Lists.{length, take, drop, length-drop}
use freetetra.Prelude.Results.{ok, index, slice_from, slice_to, slice, Safe, ok_safe}

module _ {ℓ κ} {E : Type κ} {A : Type ℓ} where
  pub index-Safe : (i : ℕ) (xs : List A) → i < length xs → Safe {E = E} (index i xs)
  unfolding index
  index-Safe i [] h = absurd (omega arith)
  index-Safe zero (x ∷ xs) h = ok_safe x
  index-Safe (suc i) (x ∷ xs) h = index-Safe i xs (omega arith)

  pub slice_from_ok :
      (n : ℕ) (xs : List A) → n ≤ length xs → slice_from {E = E} n xs ≡ ok (drop n xs)
  unfolding slice_from
  slice_from_ok zero xs h = refl
  slice_from_ok (suc n) [] h = absurd (omega arith)
  slice_from_ok (suc n) (x ∷ xs) h = slice_from_ok n xs (omega arith)

  pub slice_to_ok : (n : ℕ) (xs : List A) → n ≤ length xs → slice_to {E = E} n xs ≡ ok (take n xs)
  unfolding slice_to
  slice_to_ok zero xs h = refl
  slice_to_ok (suc n) [] h = absurd (omega arith)
  slice_to_ok (suc n) (x ∷ xs) h = rw (slice_to_ok n xs (omega arith))

  pub slice_ok :
      (lo hi : ℕ) (xs : List A)
      → lo ≤ hi
      → hi ≤ length xs
      → slice {E = E} lo hi xs ≡ ok (take (hi - lo) (drop lo xs))
  unfolding slice
  slice_ok lo hi xs h k =
      rw (slice_from_ok lo xs (omega arith))
        (slice_to_ok (hi - lo) (drop lo xs) (omega (arith, length-drop lo xs)))

  pub index-append :
      (n k : ℕ) (xs ys : List A) → length xs ≡ n → index {E = E} (n + k) (xs ++ ys) ≡ index k ys
  unfolding index
  index-append zero k [] ys h = ap (λ t. index t ys) (omega arith)
  index-append zero k (x ∷ xs) ys h = absurd (omega arith)
  index-append (suc n) k [] ys h = absurd (omega arith)
  index-append (suc n) k (x ∷ xs) ys h =
      let e : suc n + k ≡ suc (n + k) = omega arith in rw e (index-append n k xs ys (omega arith))

  pub slice_from-append :
      (n : ℕ) (xs ys : List A) → length xs ≡ n → slice_from {E = E} n (xs ++ ys) ≡ ok ys
  unfolding slice_from
  slice_from-append zero [] ys h = refl
  slice_from-append zero (x ∷ xs) ys h = absurd (omega arith)
  slice_from-append (suc n) [] ys h = absurd (omega arith)
  slice_from-append (suc n) (x ∷ xs) ys h = slice_from-append n xs ys (omega arith)

  pub slice_to-append :
      (n : ℕ) (xs ys : List A) → length xs ≡ n → slice_to {E = E} n (xs ++ ys) ≡ ok xs
  unfolding slice_to
  slice_to-append zero [] ys h = refl
  slice_to-append zero (x ∷ xs) ys h = absurd (omega arith)
  slice_to-append (suc n) [] ys h = absurd (omega arith)
  slice_to-append (suc n) (x ∷ xs) ys h = rw (slice_to-append n xs ys (omega arith))

  pub slice_from-append_add :
      (n k : ℕ) (xs ys : List A)
      → length xs ≡ n
      → slice_from {E = E} (n + k) (xs ++ ys) ≡ slice_from k ys
  unfolding slice_from
  slice_from-append_add zero k [] ys h = ap (λ t. slice_from t ys) (omega arith)
  slice_from-append_add zero k (x ∷ xs) ys h = absurd (omega arith)
  slice_from-append_add (suc n) k [] ys h = absurd (omega arith)
  slice_from-append_add (suc n) k (x ∷ xs) ys h =
      let e : suc n + k ≡ suc (n + k) = omega arith in
      rw e (slice_from-append_add n k xs ys (omega arith))
