-- ===== src/Brew/Tests.antt =====
-- internal/brew/protocol.go: runs of the parser and the builders, and the theorems at concrete
-- messages.
use freetetra.Prelude.{
  ℕ, ◌≡◌, refl, arith, Option, none, some, List, [], ◌∷◌, ◌++◌, length, replicate, ok, err, Safe,
  ◌==◌, if◌then◌else◌, index, slice, slice_from,
}
use freetetra.Prelude.Bytes.{uint16}
use freetetra.Brew.Message.{
  too_short, invalid_dtmf_byte, unknown_class, CallControlMessage, ShortDataPayload, subscriber,
  call_control, frame, cause, short_data,
}
use freetetra.Brew.Payload.{parse_call_payload}
use freetetra.Brew.FrameData.{
  payload_bytes_for_bits, cut_frame_payload, validate_frame_payload, is_dtmf_ascii,
}
use freetetra.Brew.Parse.{parse_call_control, parse_frame, parse_message}
use freetetra.Brew.Parse.Safety.{parse_message-Safe}
use freetetra.Brew.Build.{build_subscriber, build_call_control_from_message}
use freetetra.Brew.BuildFrame.{normalize_frame_payload, frame_length_bits, build_frame}
use freetetra.Brew.Uuid.{CopiesUuid}
use freetetra.Brew.RoundTrip.{
  parse_message-build_subscriber, parse_message-build_call_control_from_message,
}
use freetetra.Brew.Frames.{parse_message-build_frame, parse_message-build_voice_frame}
use freetetra.Brew.Relay.{parse_message-build_parsed}

-- A `uuid.FromBytes` that keeps 16 bytes and refuses any other length.
abbrev copy_16 : List ℕ → Option (List ℕ)
copy_16 b = if length b == 16 then some b else none

copy_16-CopiesUuid : CopiesUuid copy_16
copy_16-CopiesUuid b h = ground arith

abbrev call_id : List ℕ
call_id = 1 ∷ 2 ∷ 3 ∷ 4 ∷ 5 ∷ 6 ∷ 7 ∷ 8 ∷ 9 ∷ 10 ∷ 11 ∷ 12 ∷ 13 ∷ 14 ∷ 15 ∷ 16 ∷ []

-- The number "42".
abbrev text : ShortDataPayload
text = record { source = 1001; destination = 1002; number = 52 ∷ 50 ∷ [] }

abbrev text_message : CallControlMessage
text_message = record { call_state = 11; identifier = call_id; payload = short_data text }

abbrev released : CallControlMessage
released = record { call_state = 10; identifier = call_id; payload = cause 7 }

abbrev release_packet : List ℕ
release_packet = 0xf1 ∷ 10 ∷ (call_id ++ (7 ∷ []))

release_parsed : parse_message copy_16 release_packet ≡ ok (call_control released)
unfolding parse_message parse_call_control parse_call_payload index slice slice_from
release_parsed = refl

release_cut : parse_message copy_16 (0xf1 ∷ 10 ∷ call_id) ≡ err too_short
unfolding parse_message parse_call_control parse_call_payload index slice slice_from
release_cut = refl

other_class : parse_message copy_16 (7 ∷ 0 ∷ []) ≡ err (unknown_class 7)
unfolding parse_message index
other_class = refl

-- A DTMF frame with the letter "x".
dtmf_refused :
    parse_message copy_16 (0xf2 ∷ 3 ∷ (call_id ++ (8 ∷ 0 ∷ 120 ∷ []))) ≡ err (invalid_dtmf_byte 120)
unfolding parse_message parse_frame index slice slice_from uint16 cut_frame_payload
    validate_frame_payload payload_bytes_for_bits is_dtmf_ascii
dtmf_refused = refl

parse_message-Safe_example : Safe (parse_message copy_16 release_packet)
parse_message-Safe_example = parse_message-Safe copy_16 release_packet

parse_message-build_subscriber_example :
    parse_message copy_16 (build_subscriber 1700000000 5 1 2621001 (9 ∷ 262 ∷ []))
    ≡ ok (
        subscriber (record {
          msg_type = 1;
          number = 2621001;
          time = 1700000000;
          fraction = 5;
          groups = 9 ∷ 262 ∷ [];
        }))
parse_message-build_subscriber_example =
    parse_message-build_subscriber copy_16 1700000000 5 1 2621001 (9 ∷ 262 ∷ []) (omega arith)
      (omega arith) (omega arith) (omega arith)

parse_message-build_call_control_from_message_example :
    (packet : List ℕ) × (build_call_control_from_message (some text_message) ≡ ok packet)
    × (parse_message copy_16 packet ≡ ok (call_control text_message))
parse_message-build_call_control_from_message_example =
    parse_message-build_call_control_from_message copy_16 text_message copy_16-CopiesUuid refl
      (refl, omega arith, omega arith, (omega arith, omega arith))

parse_message-build_parsed_example :
    (packet : List ℕ) × (build_call_control_from_message (some released) ≡ ok packet)
    × (parse_message copy_16 packet ≡ ok (call_control released))
parse_message-build_parsed_example =
    parse_message-build_parsed copy_16 release_packet released copy_16-CopiesUuid (omega arith)
      release_parsed

-- An SDS report whose 8 bytes of routing stand before its one byte of status.
parse_message-build_frame_example :
    parse_message copy_16 (build_frame 2 call_id 8 (replicate 9 1))
    ≡ ok (
        frame (record {
          frame_type = 2;
          identifier = call_id;
          length_bits = frame_length_bits 8 (replicate 9 1);
          content = normalize_frame_payload 2 (frame_length_bits 8 (replicate 9 1)) (replicate 9 1);
        }))
parse_message-build_frame_example =
    parse_message-build_frame copy_16 2 8 call_id (replicate 9 1) copy_16-CopiesUuid refl
      (omega arith) report_valid
  where
    report_valid :
        validate_frame_payload 2
          (normalize_frame_payload 2 (frame_length_bits 8 (replicate 9 1)) (replicate 9 1))
        ≡ ok none
    report_valid =
        unfold validate_frame_payload normalize_frame_payload frame_length_bits
          payload_bytes_for_bits in
        refl

parse_message-build_voice_frame_example :
    parse_message copy_16 (build_frame 0 call_id 0 (replicate 36 1))
    ≡ ok (
        frame (record {
          frame_type = 0;
          identifier = call_id;
          length_bits = 288;
          content = replicate 36 1;
        }))
parse_message-build_voice_frame_example =
    parse_message-build_voice_frame copy_16 call_id (replicate 36 1) copy_16-CopiesUuid refl
      (omega arith) (omega arith)
