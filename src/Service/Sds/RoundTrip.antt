-- ===== src/Service/Sds/RoundTrip.antt =====
-- internal/service/sds_codec.go: what is built and then parsed.
use freetetra.Prelude.{
  ℕ, ◌%◌, ◌<◌, ◌≡◌, arith, Bool, true, false, ◌&&◌, ◌||◌, not, List, ◌∷◌, some, ok, slice, index,
  if◌then◌else◌, Bool-cases, inl, inr, ◌==◌,
}
use freetetra.Prelude.Bytes.{IsU32, put_u32, uint32, u32_sum}
use freetetra.Service.Sds.{
  build_frame_payload, parse_frame_envelope, is_likely_protocol_id, unwrap_payload,
}
use freetetra.Service.Sds.Callout.{
  EncodeOptions, CalloutMessage, build_callout_payload, parse_callout_payload, decode_callout,
}
use freetetra.Service.Sds.Octets.{
  status_octet_lem, control_octet_lem, flags_octet_lem, coding_octet_lem, function_octet_lem,
}

-- The options fit their fields; the number has four bits without the extension header.
abbrev pub FitsHeader : EncodeOptions → Type 0
FitsHeader o =
    (o.message_type < 16)
    × (o.delivery_report_request < 4)
    × (o.text_coding_scheme < 128)
    × (o.function < 16)
    × (o.callout_number < (if o.extension_header then 256 else 16))
    × (o.group_control < 4)
    × (o.severity < 16)

-- The message that the options describe.
abbrev pub message_of : ℕ → List ℕ → EncodeOptions → CalloutMessage
message_of ref text o = record {
  message_type = o.message_type;
  delivery_report_request = o.delivery_report_request;
  service_selection = false;
  storage = o.storage_allowed;
  message_ref = ref;
  extension_header = o.extension_header;
  text_coding_scheme = o.text_coding_scheme;
  function = o.function;
  callout_number = o.callout_number;
  severity = o.severity;
  group_control = o.group_control;
  timestamp_control = o.timestamp_control;
  user_receipt_control = o.user_receipt_control;
  text_is_status = o.text_is_status;
  end_callout = o.end_callout;
  ptt_not_allowed = o.ptt_not_allowed;
  text = text;
}

-- A callout that is built from options that fit their fields is parsed as the message that the
-- options describe, in both layouts and for every text, with the service selection 0.
pub parse_callout_payload-build_callout_payload :
    (ref : ℕ) (text : List ℕ) (o : EncodeOptions)
    → FitsHeader o
    → parse_callout_payload (build_callout_payload ref text o) ≡ some (message_of ref text o)
unfolding build_callout_payload parse_callout_payload decode_callout
parse_callout_payload-build_callout_payload ref text o
      (mt, report, tcs, fn, number, group, severity) =
    let status =
      status_octet_lem o.message_type o.delivery_report_request o.storage_allowed mt report in
    let control =
      control_octet_lem o.group_control o.severity o.timestamp_control o.user_receipt_control group
        severity in
    let flags = flags_octet_lem o.text_is_status o.end_callout o.ptt_not_allowed in
    let coding = coding_octet_lem o.text_coding_scheme tcs in
    elim (Bool-cases o.extension_header) [
      | inl wide ↦
          let function = function_octet_lem o.function 0 fn (omega arith) in
          ground (arith, wide, status, control, flags, coding, function)
      | inr narrow ↦
          let small : o.callout_number < 16 = ground (arith, narrow, number) in
          let function = function_octet_lem o.function o.callout_number fn small in
          ground (arith, narrow, status, control, flags, coding, function)
    ]

-- The parser takes the bytes for an envelope.
abbrev pub is_recognised : ℕ → ℕ → Bool
is_recognised source destination =
    (not (source == 0) || not (destination == 0)) && not (is_likely_protocol_id (source % 256))

-- An SDS payload that starts with a likely protocol id, put into an envelope, is taken out again if
-- source or destination is not 0 and the low byte of the source is no likely protocol id; in every
-- other case the whole frame is returned as if it had no envelope.
pub unwrap_payload-build_frame_payload :
    (source destination first : ℕ) (rest : List ℕ)
    → IsU32 source
    → IsU32 destination
    → is_likely_protocol_id first ≡ true
    → unwrap_payload (build_frame_payload source destination (first ∷ rest))
      ≡ ok (
          if is_recognised source destination
          then (first ∷ rest, true)
          else (build_frame_payload source destination (first ∷ rest), false))
unfolding unwrap_payload build_frame_payload parse_frame_envelope put_u32 uint32 slice index
unwrap_payload-build_frame_payload source destination first rest s d h =
    rw (u32_sum source s, u32_sum destination d) (ground (arith, h))
