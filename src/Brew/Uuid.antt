-- ===== src/Brew/Uuid.antt =====
-- internal/brew/protocol.go: the header of 18 bytes that calls and frames begin with.
use freetetra.Prelude.{
  ℕ, ◌≤◌, ◌≡◌, arith, false, Option, some, List, ◌∷◌, ◌++◌, length, ok, ltb, slice, slice_from,
  slice_from-append, slice_from-append_add, ◌>>=◌, slice_to-append, length-append,
}
use freetetra.Prelude.Bytes.{put_u16, uint16, u16_sum, IsU16}
use freetetra.Brew.Message.{Error}

-- What the source relies on of `uuid.FromBytes`: it copies a slice of 16 bytes.
abbrev pub CopiesUuid : (List ℕ → Option (List ℕ)) → Type 0
CopiesUuid from_bytes = (b : List ℕ) → length b ≡ 16 → from_bytes b ≡ some b

-- The header of 18 bytes is read off whatever follows it.
module _ (id rest : List ℕ) (whole : length id ≡ 16) where
  pub header_long : (a b n : ℕ) → n ≤ 18 → ltb (length (a ∷ b ∷ (id ++ rest))) n ≡ false
  header_long a b n h = ground (arith, length-append id rest)

  pub header_id : (a b : ℕ) → slice {E = Error} 2 18 (a ∷ b ∷ (id ++ rest)) ≡ ok id
  unfolding slice
  header_id a b = slice_to-append 16 id rest whole

  pub header_rest : (a b : ℕ) → slice_from {E = Error} 18 (a ∷ b ∷ (id ++ rest)) ≡ ok rest
  unfolding slice_from
  header_rest a b = slice_from-append 16 id rest whole

-- The length in bits that a frame's header goes on with, and what follows it.
module _ (id d : List ℕ) (bits : ℕ) (whole : length id ≡ 16) where
  pub frame_long : (a b : ℕ) → ltb (length (a ∷ b ∷ (id ++ (put_u16 bits ++ d)))) 20 ≡ false
  unfolding put_u16
  frame_long a b = ground (arith, length-append id (put_u16 bits ++ d))

  pub frame_bits :
      (a b : ℕ)
      → IsU16 bits
      → (slice {E = Error} 18 20 (a ∷ b ∷ (id ++ (put_u16 bits ++ d))) >>= uint16) ≡ ok bits
  unfolding slice put_u16 uint16
  frame_bits a b h =
      rw (slice_from-append {E = Error} 16 id (put_u16 bits ++ d) whole, u16_sum bits h)

  pub frame_rest :
      (a b : ℕ) → slice_from {E = Error} 20 (a ∷ b ∷ (id ++ (put_u16 bits ++ d))) ≡ ok d
  unfolding slice_from put_u16
  frame_rest a b = slice_from-append_add 16 2 id (put_u16 bits ++ d) whole
