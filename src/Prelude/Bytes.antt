-- ===== src/Prelude/Bytes.antt =====
-- Go's encoding/binary, little endian, over byte slices. A byte slice is a list of numbers.
use freetetra.Prelude.{
  ℕ, ◌+◌, ◌*◌, ◌/◌, ◌%◌, ◌≤◌, ◌<◌, ◌≡◌, ap, ◌-◌, List, [], ◌∷◌, ◌++◌, arith, length, Outcome, ok,
  panic, ◌>>=◌, index, index-Safe, slice, slice_ok, slice_from, slice_from_ok, Safe, ok_safe,
  Safe->>=, drop, length-take, length-drop,
}

abbrev pub IsByte : ℕ → Type 0
IsByte b = b < 256

abbrev pub IsU16 : ℕ → Type 0
IsU16 v = v < 65536

abbrev pub IsU32 : ℕ → Type 0
IsU32 v = v < 4294967296

abbrev pub IsU64 : ℕ → Type 0
IsU64 v = v < 18446744073709551616

-- `AppendUint16`, `AppendUint32` and `AppendUint64`: the bytes that they append.
unfoldable pub put_u16 : ℕ → List ℕ
put_u16 v = v % 256 ∷ v / 256 % 256 ∷ []

unfoldable pub put_u32 : ℕ → List ℕ
put_u32 v = v % 256 ∷ v / 256 % 256 ∷ v / 65536 % 256 ∷ v / 16777216 % 256 ∷ []

unfoldable pub put_u64 : ℕ → List ℕ
put_u64 v = put_u32 (v % 4294967296) ++ put_u32 (v / 4294967296 % 4294967296)

module _ {κ} {E : Type κ} where
  -- `Uint16`, `Uint32` and `Uint64` panic on a slice that is too short.
  unfoldable pub uint16 : List ℕ → Outcome E ℕ
  uint16 (a ∷ b ∷ r) = ok (a + 256 * b)
  uint16 _ = panic

  unfoldable pub uint32 : List ℕ → Outcome E ℕ
  uint32 (a ∷ b ∷ c ∷ d ∷ r) = ok (a + 256 * b + 65536 * c + 16777216 * d)
  uint32 _ = panic

  unfoldable pub uint64 : List ℕ → Outcome E ℕ
  uint64 (a ∷ b ∷ c ∷ d ∷ e ∷ f ∷ g ∷ h ∷ r) = ok (
      a
      + 256 * b
      + 65536 * c
      + 16777216 * d
      + 4294967296 * (e + 256 * f + 65536 * g + 16777216 * h))
  uint64 _ = panic

-- The value that the bytes of a number give back.
pub u32_sum :
    (v : ℕ)
    → IsU32 v
    → v % 256 + 256 * (v / 256 % 256) + 65536 * (v / 65536 % 256) + 16777216 * (v / 16777216 % 256)
      ≡ v
u32_sum v h = omega arith

pub u64_sum :
    (v : ℕ)
    → IsU64 v
    → v % 4294967296 % 256
        + 256 * (v % 4294967296 / 256 % 256)
        + 65536 * (v % 4294967296 / 65536 % 256)
        + 16777216 * (v % 4294967296 / 16777216 % 256)
        + 4294967296
          * (v / 4294967296 % 4294967296 % 256
              + 256 * (v / 4294967296 % 4294967296 / 256 % 256)
              + 65536 * (v / 4294967296 % 4294967296 / 65536 % 256)
              + 16777216 * (v / 4294967296 % 4294967296 / 16777216 % 256))
      ≡ v
u64_sum v h = omega arith

pub u16_sum : (v : ℕ) → IsU16 v → v % 256 + 256 * (v / 256 % 256) ≡ v
u16_sum v h = omega arith

module _ {κ} {E : Type κ} where
  pub uint16-put_u16 : (v : ℕ) (r : List ℕ) → IsU16 v → uint16 {E = E} (put_u16 v ++ r) ≡ ok v
  unfolding uint16 put_u16
  uint16-put_u16 v r h = ap ok (omega arith)

  pub uint32-put_u32 : (v : ℕ) (r : List ℕ) → IsU32 v → uint32 {E = E} (put_u32 v ++ r) ≡ ok v
  unfolding uint32 put_u32
  uint32-put_u32 v r h = ap ok (omega arith)

  pub uint64-put_u64 : (v : ℕ) (r : List ℕ) → IsU64 v → uint64 {E = E} (put_u64 v ++ r) ≡ ok v
  unfolding uint64 put_u64 put_u32
  uint64-put_u64 v r h = ap ok (omega arith)

  pub uint16-Safe : (xs : List ℕ) → 2 ≤ length xs → Safe {E = E} (uint16 xs)
  unfolding uint16
  uint16-Safe [] h = absurd (omega arith)
  uint16-Safe (a ∷ []) h = absurd (omega arith)
  uint16-Safe (a ∷ b ∷ r) h = ok_safe _

  pub uint32-Safe : (xs : List ℕ) → 4 ≤ length xs → Safe {E = E} (uint32 xs)
  unfolding uint32
  uint32-Safe [] h = absurd (omega arith)
  uint32-Safe (a ∷ []) h = absurd (omega arith)
  uint32-Safe (a ∷ b ∷ []) h = absurd (omega arith)
  uint32-Safe (a ∷ b ∷ c ∷ []) h = absurd (omega arith)
  uint32-Safe (a ∷ b ∷ c ∷ d ∷ r) h = ok_safe _

  pub uint64-Safe : (xs : List ℕ) → 8 ≤ length xs → Safe {E = E} (uint64 xs)
  unfolding uint64
  uint64-Safe [] h = absurd (omega arith)
  uint64-Safe (a ∷ []) h = absurd (omega arith)
  uint64-Safe (a ∷ b ∷ []) h = absurd (omega arith)
  uint64-Safe (a ∷ b ∷ c ∷ []) h = absurd (omega arith)
  uint64-Safe (a ∷ b ∷ c ∷ d ∷ []) h = absurd (omega arith)
  uint64-Safe (a ∷ b ∷ c ∷ d ∷ e ∷ []) h = absurd (omega arith)
  uint64-Safe (a ∷ b ∷ c ∷ d ∷ e ∷ f ∷ []) h = absurd (omega arith)
  uint64-Safe (a ∷ b ∷ c ∷ d ∷ e ∷ f ∷ g ∷ []) h = absurd (omega arith)
  uint64-Safe (a ∷ b ∷ c ∷ d ∷ e ∷ f ∷ g ∷ i ∷ r) h = ok_safe _

  -- `Uint16(xs[lo:hi])` and `Uint32(xs[lo:hi])` in range.
  pub uint16-slice-Safe :
      (lo hi : ℕ) (xs : List ℕ)
      → lo + 2 ≤ hi
      → hi ≤ length xs
      → Safe {E = E} (slice lo hi xs >>= uint16)
  uint16-slice-Safe lo hi xs h k =
      rw (slice_ok {E = E} lo hi xs (omega arith) k)
        (uint16-Safe _ (omega (arith, length-take (hi - lo) (drop lo xs), length-drop lo xs)))

  pub uint32-slice-Safe :
      (lo hi : ℕ) (xs : List ℕ)
      → lo + 4 ≤ hi
      → hi ≤ length xs
      → Safe {E = E} (slice lo hi xs >>= uint32)
  uint32-slice-Safe lo hi xs h k =
      rw (slice_ok {E = E} lo hi xs (omega arith) k)
        (uint32-Safe _ (omega (arith, length-take (hi - lo) (drop lo xs), length-drop lo xs)))

module _ {κ} {E : Type κ} where
  pub uint64-slice-Safe :
      (lo hi : ℕ) (xs : List ℕ)
      → lo + 8 ≤ hi
      → hi ≤ length xs
      → Safe {E = E} (slice lo hi xs >>= uint64)
  uint64-slice-Safe lo hi xs h k =
      rw (slice_ok {E = E} lo hi xs (omega arith) k)
        (uint64-Safe _ (omega (arith, length-take (hi - lo) (drop lo xs), length-drop lo xs)))

-- Rules that step over a read in range. `n` is the length that a guard has shown.
module _ {κ ℓ} {E : Type κ} {B : Type ℓ} (n : ℕ) (xs : List ℕ) (h : n ≤ length xs) where
  pub read_index :
      (i : ℕ) (f : ℕ → Outcome E B) → i < n → ((a : ℕ) → Safe (f a)) → Safe (index i xs >>= f)
  read_index i f k s = Safe->>= (index i xs) f (index-Safe i xs (omega arith)) (λ a _. s a)

  pub read_slice :
      (lo hi : ℕ) (f : List ℕ → Outcome E B)
      → lo ≤ hi
      → hi ≤ n
      → ((a : List ℕ) → Safe (f a))
      → Safe (slice lo hi xs >>= f)
  read_slice lo hi f k l s = rw (slice_ok {E = E} lo hi xs k (omega arith)) (s _)

  pub read_rest :
      (lo : ℕ) (f : List ℕ → Outcome E B)
      → lo ≤ n
      → ((a : List ℕ) → Safe (f a))
      → Safe (slice_from lo xs >>= f)
  read_rest lo f k s = rw (slice_from_ok {E = E} lo xs (omega arith)) (s _)

  pub read_u16 :
      (lo hi : ℕ) (f : ℕ → Outcome E B)
      → lo + 2 ≤ hi
      → hi ≤ n
      → ((a : ℕ) → Safe (f a))
      → Safe (slice lo hi xs >>= uint16 >>= f)
  read_u16 lo hi f k l s = Safe->>= _ f (uint16-slice-Safe lo hi xs k (omega arith)) (λ a _. s a)

  pub read_u32 :
      (lo hi : ℕ) (f : ℕ → Outcome E B)
      → lo + 4 ≤ hi
      → hi ≤ n
      → ((a : ℕ) → Safe (f a))
      → Safe (slice lo hi xs >>= uint32 >>= f)
  read_u32 lo hi f k l s = Safe->>= _ f (uint32-slice-Safe lo hi xs k (omega arith)) (λ a _. s a)

  pub read_u64 :
      (lo hi : ℕ) (f : ℕ → Outcome E B)
      → lo + 8 ≤ hi
      → hi ≤ n
      → ((a : ℕ) → Safe (f a))
      → Safe (slice lo hi xs >>= uint64 >>= f)
  read_u64 lo hi f k l s = Safe->>= _ f (uint64-slice-Safe lo hi xs k (omega arith)) (λ a _. s a)
