-- ===== src/Prelude/Results.antt =====
-- The result of a Go function that returns a value or an error, and that may panic: `panic` stands
-- for an index or a slice bound out of range.
use Prim.Native.Nat.{ℕ, zero, suc, ◌-◌}
use mathlib.Core.Path.{◌≡◌, refl}
use mathlib.Core.List.{List, [], ◌∷◌}

pub data Outcome {ℓ κ} (E : Type κ) (A : Type ℓ) : Type (ℓ ⊔ κ) where
  ok : A → Outcome E A
  err : E → Outcome E A
  panic : Outcome E A

infixl 5 ◌>>=◌ ◌>>◌
abbrev pub ◌>>=◌ {ℓ κ μ} :
    {E : Type κ} {A : Type ℓ} {B : Type μ} → Outcome E A → (A → Outcome E B) → Outcome E B
ok a >>= f = f a
err e >>= f = err e
panic >>= f = panic

abbrev pub ◌>>◌ {ℓ κ μ} :
    {E : Type κ} {A : Type ℓ} {B : Type μ} → Outcome E A → Outcome E B → Outcome E B
m >> k = m >>= λ _. k

module _ {ℓ κ} {E : Type κ} {A : Type ℓ} where
  -- `xs[i]`.
  unfoldable pub index : ℕ → List A → Outcome E A
  index i [] = panic
  index zero (x ∷ xs) = ok x
  index (suc i) (x ∷ xs) = index i xs

  -- `xs[n:]`.
  unfoldable pub slice_from : ℕ → List A → Outcome E (List A)
  slice_from zero xs = ok xs
  slice_from (suc n) [] = panic
  slice_from (suc n) (x ∷ xs) = slice_from n xs

  -- `xs[:n]`. Go allows `n` up to the capacity of `xs`; here its length is the bound.
  unfoldable pub slice_to : ℕ → List A → Outcome E (List A)
  slice_to zero xs = ok []
  slice_to (suc n) [] = panic
  slice_to (suc n) (x ∷ xs) = slice_to n xs >>= λ t. ok (x ∷ t)

-- `xs[lo:hi]`.
unfoldable pub slice {ℓ κ} : {E : Type κ} {A : Type ℓ} → ℕ → ℕ → List A → Outcome E (List A)
unfolding slice_from slice_to
slice lo hi xs = slice_from lo xs >>= slice_to (hi - lo)

-- A result that is no panic.
pub data Safe {ℓ κ} {E : Type κ} {A : Type ℓ} : Outcome E A → Type (ℓ ⊔ κ) where
  ok_safe : (a : A) → Safe (ok a)
  err_safe : (e : E) → Safe (err e)

pub Safe->>= {ℓ κ μ} :
    {E : Type κ} {A : Type ℓ} {B : Type μ} (m : Outcome E A) (f : A → Outcome E B)
    → Safe m
    → ((a : A) → m ≡ ok a → Safe (f a))
    → Safe (m >>= f)
Safe->>= (ok a) f s h = h a refl
Safe->>= (err e) f s h = err_safe e
Safe->>= panic f s h = elim s [ ]
