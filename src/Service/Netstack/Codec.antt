-- ===== src/Service/Netstack/Codec.antt =====
-- internal/service/netstack_bridge.go: the frames of the payload of a traffic message. Arrays are lists
-- of their length, and a slice that the length of the payload keeps in range is a take or a drop.
use freetetra.Prelude.{
  ℕ, zero, suc, ◌+◌, ◌-◌, ◌*◌, ◌/◌, ◌%◌, ◌^◌, Bool, true, ◌&&◌, ◌||◌, List, [], ◌∷◌, ◌++◌, Outcome,
  ok, err, ltb, ◌==◌, if◌then◌else◌, length, take, drop, replicate,
}

-- The positions of the three classes of bits.
abbrev pub class0_pos : List ℕ
class0_pos =
    35 ∷ 36 ∷ 37 ∷ 38 ∷ 39 ∷ 40 ∷ 41 ∷ 42 ∷ 43 ∷ 47 ∷ 48 ∷ 56 ∷ 61 ∷ 62 ∷ 63 ∷ 64 ∷ 65 ∷ 66 ∷ 67
    ∷ 68 ∷ 69 ∷ 70 ∷ 74 ∷ 75 ∷ 83 ∷ 88 ∷ 89 ∷ 90 ∷ 91 ∷ 92 ∷ 93 ∷ 94 ∷ 95 ∷ 96 ∷ 97 ∷ 101 ∷ 102
    ∷ 110 ∷ 115 ∷ 116 ∷ 117 ∷ 118 ∷ 119 ∷ 120 ∷ 121 ∷ 122 ∷ 123 ∷ 124 ∷ 128 ∷ 129 ∷ 137 ∷ []

abbrev pub class1_pos : List ℕ
class1_pos =
    58 ∷ 85 ∷ 112 ∷ 54 ∷ 81 ∷ 108 ∷ 135 ∷ 50 ∷ 77 ∷ 104 ∷ 131 ∷ 45 ∷ 72 ∷ 99 ∷ 126 ∷ 55 ∷ 82 ∷ 109
    ∷ 136 ∷ 5 ∷ 13 ∷ 34 ∷ 8 ∷ 16 ∷ 17 ∷ 22 ∷ 23 ∷ 24 ∷ 25 ∷ 26 ∷ 6 ∷ 14 ∷ 7 ∷ 15 ∷ 60 ∷ 87 ∷ 114
    ∷ 46 ∷ 73 ∷ 100 ∷ 127 ∷ 44 ∷ 71 ∷ 98 ∷ 125 ∷ 33 ∷ 49 ∷ 76 ∷ 103 ∷ 130 ∷ 59 ∷ 86 ∷ 113 ∷ 57 ∷ 84
    ∷ 111 ∷ []

abbrev pub class2_pos : List ℕ
class2_pos =
    18 ∷ 19 ∷ 20 ∷ 21 ∷ 31 ∷ 32 ∷ 53 ∷ 80 ∷ 107 ∷ 134 ∷ 1 ∷ 2 ∷ 3 ∷ 4 ∷ 9 ∷ 10 ∷ 11 ∷ 12 ∷ 27 ∷ 28
    ∷ 29 ∷ 30 ∷ 52 ∷ 79 ∷ 106 ∷ 133 ∷ 51 ∷ 78 ∷ 105 ∷ 132 ∷ []

unfoldable pub get_at : ℕ → List ℕ → ℕ
get_at i [] = 0
get_at zero (x ∷ xs) = x
get_at (suc i) (x ∷ xs) = get_at i xs

unfoldable pub set_at : ℕ → ℕ → List ℕ → List ℕ
set_at i v [] = []
set_at zero v (x ∷ xs) = v ∷ xs
set_at (suc i) v (x ∷ xs) = x ∷ set_at i v xs

-- The loop over the positions of a class, from an index of the channel on.
unfoldable pub place_class : List ℕ → List ℕ → ℕ → List ℕ → List ℕ
unfolding get_at set_at
place_class channel [] index codec = codec
place_class channel (pos ∷ rest) index codec = place_class channel rest (index + 2) (
    set_at (137 + (pos - 1)) (get_at (index + 1) channel)
      (set_at (pos - 1) (get_at index channel) codec))

unfoldable pub channel_to_codec : List ℕ → List ℕ
unfolding place_class
channel_to_codec channel =
    let start1 = 2 * length class0_pos in
    let start2 = start1 + 2 * length class1_pos in
    place_class channel class2_pos start2
      (place_class channel class1_pos start1 (place_class channel class0_pos 0 (replicate 274 0)))

-- The bits from an index on, as an octet; past the end of the bits there are zeros.
unfoldable pub octet_at : ℕ → List ℕ → ℕ
unfolding get_at
octet_at i bits =
    get_at i bits % 2 * 128
    + get_at (i + 1) bits % 2 * 64
    + get_at (i + 2) bits % 2 * 32
    + get_at (i + 3) bits % 2 * 16
    + get_at (i + 4) bits % 2 * 8
    + get_at (i + 5) bits % 2 * 4
    + get_at (i + 6) bits % 2 * 2
    + get_at (i + 7) bits % 2

unfoldable pub octets_from : ℕ → ℕ → List ℕ → List ℕ
unfolding octet_at
octets_from zero i bits = []
octets_from (suc n) i bits = octet_at i bits ∷ octets_from n (i + 8) bits

-- The bits are copied into an array of 274.
unfoldable pub channel_bits_to_ste : List ℕ → List ℕ
unfolding channel_to_codec octets_from
channel_bits_to_ste bits =
    0 ∷ octets_from 35 0 (channel_to_codec (take 274 (bits ++ replicate 274 0)))

unfoldable pub unpack_bits : ℕ → ℕ → List ℕ → List ℕ
unfolding get_at
unpack_bits zero i packed = []
unpack_bits (suc n) i packed =
    get_at (i / 8) packed / 2 ^ (7 - i % 8) % 2 ∷ unpack_bits n (i + 1) packed

unfoldable pub channel_packed35_to_ste : List ℕ → List ℕ
unfolding unpack_bits channel_bits_to_ste
channel_packed35_to_ste packed = channel_bits_to_ste (unpack_bits 274 0 packed)

unfoldable pub all_bytes_are_bits : List ℕ → Bool
all_bytes_are_bits [] = true
all_bytes_are_bits (v ∷ data') = (v == 0 || v == 1) && all_bytes_are_bits data'

-- The signs of 16-bit samples; the bit is 1 if the sample is positive.
unfoldable pub soft_bits : ℕ → List ℕ → List ℕ
unfolding get_at
soft_bits zero samples = []
soft_bits (suc n) samples =
    let s = get_at 0 samples + 256 * get_at 1 samples in
    (if ltb 0 s && ltb s 0x8000 then 1 else 0) ∷ soft_bits n (drop 2 samples)

-- For 690 bytes, which is what every call gives, the branch of 16-bit samples is taken.
unfoldable pub channel_soft690_to_ste : List ℕ → List ℕ
unfolding soft_bits channel_bits_to_ste
channel_soft690_to_ste soft = channel_bits_to_ste (soft_bits 274 soft)

-- The loops over the payload: so many pieces of a length, each converted.
unfoldable pub pieces : (List ℕ → List ℕ) → ℕ → ℕ → List ℕ → List (List ℕ)
pieces convert size zero raw = []
pieces convert size (suc n) raw = convert (take size raw) ∷ pieces convert size n (drop size raw)

pub data DecodeError : Type 0 where
  unsupported_length : ℕ → DecodeError

-- A payload of 1380 bytes is two pieces of 690, so that the last two loops are one.
unfoldable pub decode_raw_traffic_frames : List ℕ → Outcome DecodeError (List (List ℕ))
unfolding pieces channel_packed35_to_ste channel_bits_to_ste channel_soft690_to_ste
    all_bytes_are_bits
decode_raw_traffic_frames raw =
    let n = length raw in
    if n == 0
    then ok []
    else if n % 36 == 0
    then ok (pieces (λ frame. frame) 36 (n / 36) raw)
    else if n % 35 == 0
    then ok (pieces channel_packed35_to_ste 35 (n / 35) raw)
    else if n % 274 == 0 && all_bytes_are_bits raw
    then ok (pieces channel_bits_to_ste 274 (n / 274) raw)
    else if n % 1380 == 0
    then ok (pieces channel_soft690_to_ste 690 (n / 1380 * 2) raw)
    else if n % 690 == 0
    then ok (pieces channel_soft690_to_ste 690 (n / 690) raw)
    else err (unsupported_length n)
