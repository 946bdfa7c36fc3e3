-- ===== src/Prelude/Ensures.antt =====
-- What holds of the value of a computation that returns one.
use freetetra.Prelude.{
  ℕ, zero, suc, ◌-◌, ◌≡◌, refl, arith, Bool, true, false, List, [], ◌∷◌, length, All, ap, subst,
  Outcome, ok, err, panic, ◌>>=◌, index, slice, slice_from, slice_to, if◌then◌else◌,
}
use freetetra.Prelude.Bytes.{IsByte, IsU16, IsU32, uint16, uint32}

pub data Ensures {ℓ κ μ} {E : Type κ} {A : Type ℓ} (P : A → Type μ)
    : Outcome E A → Type (ℓ ⊔ κ ⊔ μ) where
  ensures_ok : (a : A) → P a → Ensures P (ok a)
  ensures_err : (e : E) → Ensures P (err e)
  ensures_panic : Ensures P panic

abbrev Holds {ℓ κ μ} : {E : Type κ} {A : Type ℓ} → (A → Type μ) → Outcome E A → Type μ
Holds P (ok a) = P a
Holds P (err e) = Unit {μ}
Holds P panic = Unit {μ}

Ensures-Holds {ℓ κ μ} :
    {E : Type κ} {A : Type ℓ} (P : A → Type μ) {m : Outcome E A} → Ensures P m → Holds P m
Ensures-Holds P (ensures_ok a p) = p
Ensures-Holds P (ensures_err e) = tt
Ensures-Holds P ensures_panic = tt

-- The property of a value that is returned.
pub Ensures-ok {ℓ κ μ} :
    {E : Type κ} {A : Type ℓ} (P : A → Type μ) (m : Outcome E A) {a : A}
    → Ensures P m
    → m ≡ ok a
    → P a
Ensures-ok P m h e = subst (Holds P) e (Ensures-Holds P h)

pub Ensures->>= {ℓ κ μ ν} :
    {E : Type κ} {A : Type ℓ} {B : Type ν} {P : B → Type μ} (m : Outcome E A) (f : A → Outcome E B)
    → ((a : A) → m ≡ ok a → Ensures P (f a))
    → Ensures P (m >>= f)
Ensures->>= (ok a) f h = h a refl
Ensures->>= (err e) f h = ensures_err e
Ensures->>= panic f h = ensures_panic

pub Ensures-if {ℓ κ μ} :
    {E : Type κ} {A : Type ℓ} {P : A → Type μ} (b : Bool) {x y : Outcome E A}
    → (b ≡ true → Ensures P x)
    → (b ≡ false → Ensures P y)
    → Ensures P (if b then x else y)
Ensures-if true s t = s refl
Ensures-if false s t = t refl

module _ {κ} {E : Type κ} where
  slice_from-All :
      (n : ℕ) (xs : List ℕ) → All IsByte xs → Ensures {E = E} (All IsByte) (slice_from n xs)
  unfolding slice_from
  slice_from-All zero xs h = ensures_ok xs h
  slice_from-All (suc n) [] h = ensures_panic
  slice_from-All (suc n) (x ∷ xs) h = slice_from-All n xs h.1

  slice_to-All :
      (n : ℕ) (xs : List ℕ)
      → All IsByte xs
      → Ensures {E = E} (λ t. All IsByte t × (length t ≡ n)) (slice_to n xs)
  unfolding slice_to
  slice_to-All zero xs h = ensures_ok [] (tt, refl)
  slice_to-All (suc n) [] h = ensures_panic
  slice_to-All (suc n) (x ∷ xs) h = Ensures->>= (slice_to n xs) _ λ t e.
      let post = Ensures-ok _ _ (slice_to-All n xs h.1) e in
      ensures_ok _ ((h.0, post.0), ap suc post.1)

  slice-All :
      (lo hi : ℕ) (xs : List ℕ)
      → All IsByte xs
      → Ensures {E = E} (λ t. All IsByte t × (length t ≡ hi - lo)) (slice lo hi xs)
  unfolding slice
  slice-All lo hi xs h =
      Ensures->>= (slice_from lo xs) _
        λ t e. slice_to-All (hi - lo) t (Ensures-ok _ _ (slice_from-All lo xs h) e)

  uint16-IsU16 : (xs : List ℕ) → All IsByte xs → Ensures {E = E} IsU16 (uint16 xs)
  unfolding uint16
  uint16-IsU16 [] h = ensures_panic
  uint16-IsU16 (a ∷ []) h = ensures_panic
  uint16-IsU16 (a ∷ b ∷ r) h = ensures_ok _ (omega arith)

  uint32-IsU32 : (xs : List ℕ) → All IsByte xs → Ensures {E = E} IsU32 (uint32 xs)
  unfolding uint32
  uint32-IsU32 [] h = ensures_panic
  uint32-IsU32 (a ∷ []) h = ensures_panic
  uint32-IsU32 (a ∷ b ∷ []) h = ensures_panic
  uint32-IsU32 (a ∷ b ∷ c ∷ []) h = ensures_panic
  uint32-IsU32 (a ∷ b ∷ c ∷ d ∷ r) h = ensures_ok _ (omega arith)

-- Rules that step over a read of bytes and keep what it returns in range.
module _ {κ ℓ μ} {E : Type κ} {B : Type ℓ} {P : B → Type μ} (xs : List ℕ) (h : All IsByte xs) where
  pub get_index :
      (i : ℕ) (f : ℕ → Outcome E B) → ((a : ℕ) → Ensures P (f a)) → Ensures P (index i xs >>= f)
  get_index i f s = Ensures->>= (index i xs) f λ a _. s a

  pub get_slice :
      (lo hi : ℕ) (f : List ℕ → Outcome E B)
      → ((a : List ℕ) → All IsByte a → length a ≡ hi - lo → Ensures P (f a))
      → Ensures P (slice lo hi xs >>= f)
  get_slice lo hi f s =
      Ensures->>= (slice lo hi xs) f
        λ a e. let post = Ensures-ok _ _ (slice-All lo hi xs h) e in s a post.0 post.1

  pub get_rest :
      (lo : ℕ) (f : List ℕ → Outcome E B)
      → ((a : List ℕ) → All IsByte a → Ensures P (f a))
      → Ensures P (slice_from lo xs >>= f)
  get_rest lo f s =
      Ensures->>= (slice_from lo xs) f λ a e. s a (Ensures-ok _ _ (slice_from-All lo xs h) e)

  pub get_u16 :
      (lo hi : ℕ) (f : ℕ → Outcome E B)
      → ((a : ℕ) → IsU16 a → Ensures P (f a))
      → Ensures P (slice lo hi xs >>= uint16 >>= f)
  get_u16 lo hi f s = Ensures->>= (slice lo hi xs >>= uint16) f λ a e. s a (Ensures-ok _ _ u e)
    where
      u : Ensures {E = E} IsU16 (slice lo hi xs >>= uint16)
      u =
          Ensures->>= (slice lo hi xs) uint16
            λ t e. uint16-IsU16 t (Ensures-ok _ _ (slice-All lo hi xs h) e).0

  pub get_u32 :
      (lo hi : ℕ) (f : ℕ → Outcome E B)
      → ((a : ℕ) → IsU32 a → Ensures P (f a))
      → Ensures P (slice lo hi xs >>= uint32 >>= f)
  get_u32 lo hi f s = Ensures->>= (slice lo hi xs >>= uint32) f λ a e. s a (Ensures-ok _ _ u e)
    where
      u : Ensures {E = E} IsU32 (slice lo hi xs >>= uint32)
      u =
          Ensures->>= (slice lo hi xs) uint32
            λ t e. uint32-IsU32 t (Ensures-ok _ _ (slice-All lo hi xs h) e).0
