-- ===== src/Brew/FrameData.antt =====
-- internal/brew/protocol.go: the length and the content of a frame's payload.
pub mod Safety
use freetetra.Prelude.{
  ℕ, ◌+◌, ◌/◌, ◌%◌, Bool, ◌&&◌, ◌||◌, Option, none, some, List, length, Outcome, ok, ◌>>=◌, index,
  slice_to, ltb, leb, ◌==◌, if◌then◌else◌,
}
use freetetra.Brew.Message.{
  frame_type_traffic_channel, frame_type_sds_transfer, frame_type_sds_report, frame_type_dtmf_data,
  frame_type_packet_data, Error, Result, traffic_payload_empty, sds_transfer_payload_empty,
  sds_report_length, dtmf_length, invalid_dtmf_byte, packet_payload_empty, packet_not_ip,
}

unfoldable pub payload_bytes_for_bits : ℕ → ℕ
payload_bytes_for_bits length_bits = (length_bits + 7) % 4294967296 / 8

unfoldable pub is_dtmf_ascii : ℕ → Bool
is_dtmf_ascii v = leb b'0' v && leb v b'9' || v == b'*' || v == b'#' || leb b'A' v && leb v b'D'

-- The cases of the switch in `validateFramePayload`; `none` is its nil error.
validate_dtmf : List ℕ → Outcome Error (Option Error)
validate_dtmf payload =
    if length payload == 1
    then (do v ← index 0 payload; ok (if is_dtmf_ascii v then none else some (invalid_dtmf_byte v)))
    else ok (some (dtmf_length (length payload)))

validate_packet : List ℕ → Outcome Error (Option Error)
validate_packet payload = if length payload == 0 then ok (some packet_payload_empty) else do
  v ← index 0 payload
  let version = v / 16
  ok (if version == 4 || version == 6 then none else some (packet_not_ip version))

unfoldable pub validate_frame_payload : ℕ → List ℕ → Outcome Error (Option Error)
unfolding validate_dtmf validate_packet
validate_frame_payload frame_type payload =
    if frame_type == frame_type_traffic_channel
    then ok (if length payload == 0 then some traffic_payload_empty else none)
    else if frame_type == frame_type_sds_transfer
    then ok (if length payload == 0 then some sds_transfer_payload_empty else none)
    else if frame_type == frame_type_sds_report
    then ok (
        if length payload == 1 || leb 9 (length payload)
        then none
        else some (sds_report_length (length payload)))
    else if frame_type == frame_type_dtmf_data
    then validate_dtmf payload
    else if frame_type == frame_type_packet_data
    then validate_packet payload
    else ok none

-- The payload cut to the length that its header gives, or to 8 bytes more for a legacy SDS frame.
unfoldable pub cut_frame_payload : ℕ → ℕ → List ℕ → Result (List ℕ)
cut_frame_payload frame_type expected payload =
    if ltb expected (length payload)
    then (if (frame_type == frame_type_sds_transfer || frame_type == frame_type_sds_report)
          && leb (expected + 8) (length payload)
        then slice_to (expected + 8) payload
        else slice_to expected payload)
    else ok payload
