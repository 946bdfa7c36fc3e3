-- ===== src/Brew/Payload/RoundTrip.antt =====
-- The payload of each `Build…` for calls, read back by `parseCallControl`.
pub mod States
use freetetra.Prelude.{
  ℕ, zero, suc, ◌+◌, ◌-◌, ◌≤◌, ◌<◌, ◌≡◌, refl, arith, true, false, List, [], ◌∷◌, ◌++◌, length,
  take, replicate, All, ok, ltb, leb, length-append, length-take, length-replicate, take_all, index,
  slice, slice_from, slice_to, index-append, slice_to-append, slice_from-append,
}
use mathlib.Core.List.{append-nil}
use freetetra.Prelude.Bytes.{put_u16, put_u32, uint16, uint32, u16_sum, u32_sum, IsU16, IsU32}
use freetetra.Brew.Message.{
  Error, GroupTransmissionPayload, CircularCallPayload, ShortDataPayload,
  ShortTransferStatusPayload, short_transfer_status, PacketRequestPayload, PacketContextPayload,
  group_transmission, circular_call, short_data, packet_request, packet_context,
}
use freetetra.Brew.Payload.{
  parse_fixed_string, parse_group_tx, parse_circular_call, parse_short_transfer,
  parse_packet_request, parse_packet_context,
}
use freetetra.Brew.Build.{fixed_string}

-- A text that a fixed field of `size` bytes holds: no zero byte, and not too long.
abbrev pub IsText : ℕ → List ℕ → Type 0
IsText size s = (length s ≤ size) × All (λ b. 0 < b) s

parse_fixed_string-append_zeros :
    (s : List ℕ) (n : ℕ) → All (λ b. 0 < b) s → parse_fixed_string (s ++ replicate n 0) ≡ s
unfolding parse_fixed_string
parse_fixed_string-append_zeros [] zero h = refl
parse_fixed_string-append_zeros [] (suc n) h = refl
parse_fixed_string-append_zeros (b ∷ s) n h =
    ground (arith, h.0, parse_fixed_string-append_zeros s n h.1)

-- Reading a fixed field gives the text that was put there.
pub parse_fixed_string-fixed_string :
    (s : List ℕ) (size : ℕ) → IsText size s → parse_fixed_string (fixed_string s size) ≡ s
unfolding fixed_string
parse_fixed_string-fixed_string s size h =
    rw (take_all size s h.0) (parse_fixed_string-append_zeros s (size - length s) h.1)

pub length-fixed_string : (s : List ℕ) (size : ℕ) → length (fixed_string s size) ≡ size
unfolding fixed_string
length-fixed_string s size = omega (
  arith,
  length-append (take size s) (replicate (size - length s) 0),
  length-take size s,
  length-replicate {A = ℕ} (size - length s) 0,
)

group_tx-round_trip :
    (p : GroupTransmissionPayload)
    → IsU32 p.source
    → IsU32 p.destination
    → IsU16 p.service
    → parse_group_tx
        (put_u32 p.source ++ (put_u32 p.destination ++ (p.priority ∷ p.access ∷ put_u16 p.service)))
      ≡ ok (group_transmission p)
unfolding parse_group_tx put_u32 put_u16 uint32 uint16 slice index
group_tx-round_trip p h k l = ground arith

-- The reads of a field of 32 bytes and of what follows it.
module _ (s rest : List ℕ) where
  fixed_then : List ℕ
  fixed_then = fixed_string s 32 ++ rest

  read_fixed : slice_to {E = Error} 32 fixed_then ≡ ok (fixed_string s 32)
  unfolding fixed_then
  read_fixed = slice_to-append 32 (fixed_string s 32) rest (length-fixed_string s 32)

  read_after : (k : ℕ) → index {E = Error} (32 + k) fixed_then ≡ index k rest
  unfolding fixed_then
  read_after k = index-append 32 k (fixed_string s 32) rest (length-fixed_string s 32)

  length-fixed_then : length fixed_then ≡ 32 + length rest
  unfolding fixed_then
  length-fixed_then =
      omega (arith, length-append (fixed_string s 32) rest, length-fixed_string s 32)

circular_rest : CircularCallPayload → List ℕ
circular_rest p =
    p.priority ∷ p.service ∷ p.mode ∷ p.duplex ∷ p.method ∷ p.communication ∷ p.grant ∷ p.permission
    ∷ p.timeout ∷ p.ownership ∷ p.queued ∷ []

circular_call-round_trip :
    (p : CircularCallPayload)
    → IsU32 p.source
    → IsU32 p.destination
    → IsText 32 p.number
    → parse_circular_call
        (put_u32 p.source ++ (put_u32 p.destination ++ fixed_then p.number (circular_rest p)))
      ≡ ok (circular_call p)
unfolding parse_circular_call put_u32 uint32 slice index circular_rest
circular_call-round_trip p h k t =
    let rest = circular_rest p in
    let read = read_after p.number rest in
    let all = put_u32 p.source ++ (put_u32 p.destination ++ fixed_then p.number rest) in
    let long : ltb (length all) 51 ≡ false = ground (arith, length-fixed_then p.number rest) in
    rw (
      long,
      read_fixed p.number rest,
      read 0,
      read 1,
      read 2,
      read 3,
      read 4,
      read 5,
      read 6,
      read 7,
      read 8,
      read 9,
      read 10,
      u32_sum p.source h,
      u32_sum p.destination k,
      parse_fixed_string-fixed_string p.number 32 t,
    )

short_data-round_trip :
    (p : ShortDataPayload)
    → IsU32 p.source
    → IsU32 p.destination
    → IsText 32 p.number
    → parse_short_transfer (put_u32 p.source ++ (put_u32 p.destination ++ fixed_string p.number 32))
      ≡ ok (short_data p)
unfolding parse_short_transfer put_u32 uint32 slice
short_data-round_trip p h k t =
    let all = put_u32 p.source ++ (put_u32 p.destination ++ fixed_string p.number 32) in
    let long : leb 40 (length all) ≡ true = ground (arith, length-fixed_string p.number 32) in
    let read : slice_to {E = Error} 32 (fixed_string p.number 32) ≡ ok (fixed_string p.number 32) =
      rw append-nil at (
        slice_to-append {E = Error} 32 (fixed_string p.number 32) []
          (length-fixed_string p.number 32)) in
    rw (
      long,
      read,
      u32_sum p.source h,
      u32_sum p.destination k,
      parse_fixed_string-fixed_string p.number 32 t,
    )

short_transfer_status-round_trip :
    (p : ShortTransferStatusPayload)
    → IsU16 p.pre_coded_status
    → parse_short_transfer (put_u16 p.pre_coded_status) ≡ ok (short_transfer_status p)
unfolding parse_short_transfer put_u16 uint16 slice
short_transfer_status-round_trip p h = rw (u16_sum p.pre_coded_status h)

packet_request-round_trip :
    (p : PacketRequestPayload)
    → IsU32 p.number
    → IsU32 p.profile
    → parse_packet_request (put_u32 p.number ++ (p.flags ∷ (put_u32 p.profile ++ p.authenticator)))
      ≡ ok (packet_request p)
unfolding parse_packet_request put_u32 uint32 slice slice_from index
packet_request-round_trip p h k =
    let all = put_u32 p.number ++ (p.flags ∷ (put_u32 p.profile ++ p.authenticator)) in
    let long : ltb (length all) 9 ≡ false = ground arith in
    rw (long, u32_sum p.number h, u32_sum p.profile k)

packet_context-round_trip :
    (p : PacketContextPayload)
    → IsU32 p.ipv4
    → length p.ipv6 ≡ 16
    → IsU32 p.profile
    → parse_packet_context (p.flags ∷ (put_u32 p.ipv4 ++ (p.ipv6 ++ put_u32 p.profile)))
      ≡ ok (packet_context p)
unfolding parse_packet_context put_u32 uint32 slice index
packet_context-round_trip p h l k =
    let all = p.flags ∷ (put_u32 p.ipv4 ++ (p.ipv6 ++ put_u32 p.profile)) in
    let long : ltb (length all) 25 ≡ false =
      ground (arith, l, length-append p.ipv6 (put_u32 p.profile)) in
    rw (
      long,
      slice_to-append {E = Error} 16 p.ipv6 (put_u32 p.profile) l,
      slice_from-append {E = Error} 16 p.ipv6 (put_u32 p.profile) l,
      u32_sum p.ipv4 h,
      u32_sum p.profile k,
    )
