-- ===== src/Service/Sds/Tests.antt =====
-- internal/service/sds_codec.go: the theorems at concrete payloads.
use freetetra.Prelude.{
  ◌≡◌, refl, arith, true, false, [], ◌∷◌, some, ok, if◌then◌else◌, index, slice, slice_from,
}
use freetetra.Prelude.Bytes.{put_u32, uint32}
use freetetra.Service.Sds.{
  build_frame_payload, parse_frame_envelope, unwrap_payload, is_likely_protocol_id,
}
use freetetra.Service.Sds.Callout.{
  EncodeOptions, build_callout_payload, parse_callout_payload, status_octet, control_octet,
  flags_octet,
}
use freetetra.Service.Sds.RoundTrip.{
  message_of, is_recognised, parse_callout_payload-build_callout_payload,
  unwrap_payload-build_frame_payload,
}

abbrev alarm : EncodeOptions
alarm = record {
  message_type = 0;
  delivery_report_request = 2;
  storage_allowed = true;
  extension_header = true;
  text_coding_scheme = 1;
  function = 1;
  callout_number = 200;
  severity = 15;
  group_control = 3;
  timestamp_control = true;
  user_receipt_control = false;
  text_is_status = false;
  end_callout = true;
  ptt_not_allowed = false;
}

alarm_bytes :
    build_callout_payload 7 (65 ∷ 66 ∷ []) alarm
    ≡ 195 ∷ 9 ∷ 7 ∷ 129 ∷ 16 ∷ 200 ∷ 239 ∷ 64 ∷ 65 ∷ 66 ∷ []
unfolding build_callout_payload status_octet control_octet flags_octet
alarm_bytes = refl

parse_callout_payload-build_callout_payload_example :
    parse_callout_payload (build_callout_payload 7 (65 ∷ 66 ∷ []) alarm)
    ≡ some (message_of 7 (65 ∷ 66 ∷ []) alarm)
parse_callout_payload-build_callout_payload_example =
    parse_callout_payload-build_callout_payload 7 (65 ∷ 66 ∷ []) alarm
      (omega arith, omega arith, omega arith, omega arith, omega arith, omega arith, omega arith)

text_is_likely : is_likely_protocol_id 130 ≡ true
unfolding is_likely_protocol_id
text_is_likely = refl

-- The source 2621570 ends in the byte 0x82, so its envelope is not seen.
not_recognised :
    unwrap_payload (build_frame_payload 2621570 9 (130 ∷ []))
    ≡ ok (build_frame_payload 2621570 9 (130 ∷ []), false)
unfolding unwrap_payload parse_frame_envelope build_frame_payload is_likely_protocol_id put_u32
    uint32 index slice slice_from
not_recognised = refl

unwrap_payload-build_frame_payload_example :
    unwrap_payload (build_frame_payload 2622000 9 (130 ∷ 2 ∷ []))
    ≡ ok (
        if is_recognised 2622000 9
        then (130 ∷ 2 ∷ [], true)
        else (build_frame_payload 2622000 9 (130 ∷ 2 ∷ []), false))
unwrap_payload-build_frame_payload_example =
    unwrap_payload-build_frame_payload 2622000 9 130 (2 ∷ []) (omega arith) (omega arith)
      text_is_likely
