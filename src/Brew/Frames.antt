-- ===== src/Brew/Frames.antt =====
-- internal/brew/protocol.go: what `BuildFrame` writes, read back by `ParseMessage`.
use freetetra.Prelude.{
  ℕ, ◌+◌, ◌-◌, ◌*◌, ◌≤◌, ◌<◌, ◌≡◌, ap, ◌⊎◌, inl, inr, arith, Bool, true, false, ◌||◌, Option, none,
  List, ◌∷◌, ◌++◌, length, replicate, ok, ltb, leb, ◌==◌, index, length-append, length-take,
  length-replicate, slice_to_ok, take_all,
}
use freetetra.Prelude.Bytes.{put_u16, IsU16}
use freetetra.Brew.Message.{
  Error, frame, frame_type_traffic_channel, frame_type_sds_transfer, frame_type_sds_report,
}
use freetetra.Brew.FrameData.{payload_bytes_for_bits, cut_frame_payload, validate_frame_payload}
use freetetra.Brew.Parse.{parse_frame, parse_message}
use freetetra.Brew.BuildFrame.{normalize_frame_payload, frame_length_bits, build_frame}
use freetetra.Brew.Uuid.{CopiesUuid, header_long, header_id, frame_long, frame_bits, frame_rest}

abbrev is_sds : ℕ → Bool
is_sds frame_type = frame_type == frame_type_sds_transfer || frame_type == frame_type_sds_report

-- A payload of the length that its header gives, or a legacy one of 8 bytes more.
FitsFrame : ℕ → ℕ → List ℕ → Type 0
FitsFrame frame_type expected d =
    (length d ≡ expected) ⊎ ((is_sds frame_type ≡ true) × (length d ≡ expected + 8))

length-pad : (n : ℕ) (d : List ℕ) → length d ≤ n → length (d ++ replicate (n - length d) 0) ≡ n
length-pad n d h =
    omega (
      arith,
      length-append d (replicate (n - length d) 0),
      length-replicate {A = ℕ} (n - length d) 0,
    )

normalize_frame_payload-FitsFrame :
    (frame_type bits : ℕ) (d : List ℕ)
    → FitsFrame frame_type (payload_bytes_for_bits bits) (normalize_frame_payload frame_type bits d)
unfolding FitsFrame normalize_frame_payload
normalize_frame_payload-FitsFrame frame_type bits d =
    let expected = payload_bytes_for_bits bits in
    ground (arith, length-take expected d, length-take (expected + 8) d, length-pad expected d)

cut_frame_payload_same :
    (frame_type expected : ℕ) (d : List ℕ)
    → FitsFrame frame_type expected d
    → cut_frame_payload frame_type expected d ≡ ok d
unfolding FitsFrame cut_frame_payload
cut_frame_payload_same frame_type expected d (inl h) =
    let short : ltb expected (length d) ≡ false = ground arith in rw short
cut_frame_payload_same frame_type expected d (inr (s, h)) =
    let long : ltb expected (length d) ≡ true = ground arith in
    let legacy : leb (expected + 8) (length d) ≡ true = ground arith in
    rw (long, s, legacy, slice_to_ok {E = Error} (expected + 8) d (omega arith))
      (ap ok (take_all (expected + 8) d (omega arith)))

FitsFrame-long :
    (frame_type expected : ℕ) (d : List ℕ)
    → FitsFrame frame_type expected d
    → ltb (length d) expected ≡ false
unfolding FitsFrame
FitsFrame-long frame_type expected d h = ground arith

frame_length_bits-IsU16 : (bits : ℕ) (d : List ℕ) → IsU16 bits → IsU16 (frame_length_bits bits d)
unfolding frame_length_bits
frame_length_bits-IsU16 bits d h = ground arith

module _ (uuid_from_bytes : List ℕ → Option (List ℕ)) (copies : CopiesUuid uuid_from_bytes) where
  frame_header :
      (frame_type bits : ℕ) (id d : List ℕ)
      → length id ≡ 16
      → IsU16 bits
      → FitsFrame frame_type (payload_bytes_for_bits bits) d
      → validate_frame_payload frame_type d ≡ ok none
      → parse_message uuid_from_bytes (0xf2 ∷ frame_type ∷ (id ++ (put_u16 bits ++ d)))
        ≡ ok (
            frame (record {
              frame_type = frame_type;
              identifier = id;
              length_bits = bits;
              content = d;
            }))
  unfolding parse_message parse_frame index
  frame_header frame_type bits id d whole h fits valid = rw (
    header_long id (put_u16 bits ++ d) whole 0xf2 frame_type 2 (omega arith),
    frame_long id d bits whole 0xf2 frame_type,
    header_id id (put_u16 bits ++ d) whole 0xf2 frame_type,
    copies id whole,
    frame_bits id d bits whole 0xf2 frame_type h,
    frame_rest id d bits whole 0xf2 frame_type,
    FitsFrame-long frame_type (payload_bytes_for_bits bits) d fits,
    cut_frame_payload_same frame_type (payload_bytes_for_bits bits) d fits,
    valid,
  )

-- If `uuid.FromBytes` copies 16 bytes, a frame with a 16-byte identifier and a 16-bit length whose
-- normalised payload passes `validateFramePayload` is read back with its type, its identifier, its
-- length in bits and that payload.
pub parse_message-build_frame :
    (uuid_from_bytes : List ℕ → Option (List ℕ)) (frame_type bits : ℕ) (id d : List ℕ)
    → CopiesUuid uuid_from_bytes
    → length id ≡ 16
    → IsU16 bits
    → validate_frame_payload frame_type
        (normalize_frame_payload frame_type (frame_length_bits bits d) d)
      ≡ ok none
    → parse_message uuid_from_bytes (build_frame frame_type id bits d)
      ≡ ok (
          frame (record {
            frame_type = frame_type;
            identifier = id;
            length_bits = frame_length_bits bits d;
            content = normalize_frame_payload frame_type (frame_length_bits bits d) d;
          }))
unfolding build_frame
parse_message-build_frame uuid_from_bytes frame_type bits id d copies whole h valid =
    frame_header uuid_from_bytes copies frame_type (frame_length_bits bits d) id
      (normalize_frame_payload frame_type (frame_length_bits bits d) d) whole
      (frame_length_bits-IsU16 bits d h)
      (normalize_frame_payload-FitsFrame frame_type (frame_length_bits bits d) d) valid

whole_bytes : (n : ℕ) → n * 8 < 65536 → payload_bytes_for_bits (n * 8) ≡ n
unfolding payload_bytes_for_bits
whole_bytes n h = omega arith

voice_bits : (d : List ℕ) → 0 < length d → length d < 8192 → frame_length_bits 0 d ≡ length d * 8
unfolding frame_length_bits
voice_bits d h k = ground arith

voice_payload :
    (d : List ℕ) → 0 < length d → length d < 8192 → normalize_frame_payload 0 (length d * 8) d ≡ d
unfolding normalize_frame_payload
voice_payload d h k = ground (arith, whole_bytes (length d), take_all (length d) d)

voice_valid : (d : List ℕ) → 0 < length d → validate_frame_payload 0 d ≡ ok none
unfolding validate_frame_payload
voice_valid d h = ground arith

-- If `uuid.FromBytes` copies 16 bytes, a voice frame with a 16-byte identifier, built without a length
-- from 1 to 8191 bytes, is read back whole, with 8 bits a byte.
pub parse_message-build_voice_frame :
    (uuid_from_bytes : List ℕ → Option (List ℕ)) (id d : List ℕ)
    → CopiesUuid uuid_from_bytes
    → length id ≡ 16
    → 0 < length d
    → length d < 8192
    → parse_message uuid_from_bytes (build_frame frame_type_traffic_channel id 0 d)
      ≡ ok (
          frame (record {
            frame_type = frame_type_traffic_channel;
            identifier = id;
            length_bits = length d * 8;
            content = d;
          }))
parse_message-build_voice_frame uuid_from_bytes id d copies whole some_bytes few =
    let bits = voice_bits d some_bytes few in
    let payload = voice_payload d some_bytes few in
    rw (bits, payload) at
      (parse_message-build_frame uuid_from_bytes 0 0 id d copies whole (omega arith)
        (rw (bits, payload) (voice_valid d some_bytes)))
