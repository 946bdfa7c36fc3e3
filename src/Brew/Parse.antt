-- ===== src/Brew/Parse.antt =====
-- internal/brew/protocol.go: `ParseMessage` and what it calls. `uuid_from_bytes` stands for
pub mod Safety
-- `uuid.FromBytes` of github.com/google/uuid; `none` is its error.
use freetetra.Prelude.{
  ℕ, ◌+◌, ◌*◌, Option, none, some, List, [], ◌∷◌, length, ok, err, ◌>>=◌, ◌>>◌, index, slice,
  slice_from, ltb, ◌==◌, if◌then◌else◌,
}
use freetetra.Prelude.Bytes.{uint16, uint32, uint64}
use freetetra.Brew.Message.{
  class_subscriber, class_call_control, class_frame, class_error, class_service, SubscriberMessage,
  CallControlMessage, FrameMessage, ErrorMessage, ServiceMessage, ParsedMessage, subscriber,
  call_control, frame, error, service, Error, Result, too_short, invalid_call_uuid,
  invalid_frame_uuid, unknown_class, frame_payload_too_short,
}
use freetetra.Brew.Payload.{parse_call_payload}
use freetetra.Brew.FrameData.{payload_bytes_for_bits, cut_frame_payload, validate_frame_payload}

-- `for i := 18; i+4 <= len(data); i += 4`: what is left at the end is shorter than a group.
unfoldable pub parse_groups : List ℕ → List ℕ
parse_groups (a ∷ b ∷ c ∷ d ∷ rest) = (a + 256 * b + 65536 * c + 16777216 * d) ∷ parse_groups rest
parse_groups _ = []

unfoldable pub parse_subscriber : ℕ → List ℕ → Result SubscriberMessage
parse_subscriber msg_type packet = if ltb (length packet) 18 then err too_short else do
  number ← slice 2 6 packet >>= uint32
  time ← slice 6 14 packet >>= uint64
  fraction ← slice 14 18 packet >>= uint32
  rest ← slice_from 18 packet
  ok (record {
    msg_type = msg_type;
    number = number;
    time = time;
    fraction = fraction;
    groups = parse_groups rest;
  })

abbrev reject : Option Error → Result (Unit {0})
reject none = ok tt
reject (some e) = err e

-- `for i := 2; i < len(data); i++ { if data[i] == 0 { end = i; break } }`, at `data[i:]`.
unfoldable pub zero_position : ℕ → List ℕ → ℕ
zero_position i [] = i
zero_position i (b ∷ bs) = if b == 0 then i else zero_position (i + 1) bs

unfoldable pub parse_error : ℕ → List ℕ → Result ErrorMessage
parse_error msg_type packet = do
  rest ← slice_from 2 packet
  ok (record { error_type = msg_type; content = rest })

unfoldable pub parse_service : ℕ → List ℕ → Result ServiceMessage
parse_service msg_type packet = do
  rest ← slice_from 2 packet
  json ← slice 2 (zero_position 2 rest) packet
  ok (record { service_type = msg_type; json_data = json })

abbrev pub id_or : Error → Option (List ℕ) → Result (List ℕ)
id_or e (some id) = ok id
id_or e none = err e

module _ (uuid_from_bytes : List ℕ → Option (List ℕ)) where
  unfoldable pub parse_call_control : ℕ → List ℕ → Result CallControlMessage
  parse_call_control state packet = if ltb (length packet) 18 then err too_short else do
    b ← slice 2 18 packet
    id ← id_or invalid_call_uuid (uuid_from_bytes b)
    payload ← slice_from 18 packet
    p ← parse_call_payload state payload
    ok (record { call_state = state; identifier = id; payload = p })

  unfoldable pub parse_frame : ℕ → List ℕ → Result FrameMessage
  parse_frame frame_type packet = if ltb (length packet) 20 then err too_short else do
    b ← slice 2 18 packet
    id ← id_or invalid_frame_uuid (uuid_from_bytes b)
    length_bits ← slice 18 20 packet >>= uint16
    payload ← slice_from 20 packet
    let expected = payload_bytes_for_bits length_bits
    if ltb (length payload) expected
        then err (frame_payload_too_short expected (length payload))
        else do
          payload' ← cut_frame_payload frame_type expected payload
          verdict ← validate_frame_payload frame_type payload'
          reject verdict
          ok (record {
            frame_type = frame_type;
            identifier = id;
            length_bits = length_bits;
            content = payload';
          })

  unfoldable pub parse_message : List ℕ → Result ParsedMessage
  unfolding parse_error parse_service
  parse_message packet = if ltb (length packet) 2 then err too_short else do
    class ← index 0 packet
    msg_type ← index 1 packet
    if class == class_subscriber
        then (do ok (subscriber (← parse_subscriber msg_type packet)))
        else if class == class_call_control
        then (do ok (call_control (← parse_call_control msg_type packet)))
        else if class == class_frame
        then (do ok (frame (← parse_frame msg_type packet)))
        else if class == class_error
        then (do ok (error (← parse_error msg_type packet)))
        else if class == class_service
        then (do ok (service (← parse_service msg_type packet)))
        else err (unknown_class class)
