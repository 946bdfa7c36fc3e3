-- ===== src/Brew/FrameData/Safety.antt =====
-- No frame makes `parseFrame` read its payload out of range.
use freetetra.Prelude.{
  ℕ, ◌+◌, ◌≤◌, arith, ◌&&◌, ◌||◌, inl, inr, List, length, Safe, ok_safe, ltb, leb, ◌==◌, Bool-cases,
  slice_to_ok,
}
use freetetra.Prelude.Bytes.{read_index}
use freetetra.Brew.Message.{
  Error, frame_type_traffic_channel, frame_type_sds_transfer, frame_type_sds_report,
  frame_type_dtmf_data, frame_type_packet_data,
}
use freetetra.Brew.FrameData.{
  validate_dtmf, validate_packet, validate_frame_payload, cut_frame_payload,
}
use freetetra.Brew.Payload.Safety.{if-Safe}

dtmf-Safe : (payload : List ℕ) → Safe (validate_dtmf payload)
unfolding validate_dtmf
dtmf-Safe payload = elim (Bool-cases (length payload == 1)) [
  | inl e ↦
      let h : 1 ≤ length payload = ground arith in
      rw e (read_index 1 payload h 0 _ (omega arith) λ v. ok_safe _)
  | inr e ↦ rw e (ok_safe _)
]

packet-Safe : (payload : List ℕ) → Safe (validate_packet payload)
unfolding validate_packet
packet-Safe payload = elim (Bool-cases (length payload == 0)) [
  | inl e ↦ rw e (ok_safe _)
  | inr e ↦
      let h : 1 ≤ length payload = ground arith in
      rw e (read_index 1 payload h 0 _ (omega arith) λ v. ok_safe _)
]

pub validate_frame_payload-Safe :
    (frame_type : ℕ) (payload : List ℕ) → Safe (validate_frame_payload frame_type payload)
unfolding validate_frame_payload
validate_frame_payload-Safe frame_type payload =
    if-Safe (frame_type == frame_type_traffic_channel) (ok_safe _) (
      if-Safe (frame_type == frame_type_sds_transfer) (ok_safe _) (
        if-Safe (frame_type == frame_type_sds_report) (ok_safe _) (
          if-Safe (frame_type == frame_type_dtmf_data) (dtmf-Safe payload)
            (if-Safe (frame_type == frame_type_packet_data) (packet-Safe payload) (ok_safe _)))))

pub cut_frame_payload-Safe :
    (frame_type expected : ℕ) (payload : List ℕ)
    → Safe (cut_frame_payload frame_type expected payload)
unfolding cut_frame_payload
cut_frame_payload-Safe frame_type expected payload =
    elim (Bool-cases (ltb expected (length payload))) [
      | inr e ↦ rw e (ok_safe _)
      | inl e ↦
          let legacy =
            (frame_type == frame_type_sds_transfer || frame_type == frame_type_sds_report)
            && leb (expected + 8) (length payload) in
          elim (Bool-cases legacy) [
            | inl l ↦
                rw (e, l, slice_to_ok {E = Error} (expected + 8) payload (ground arith)) (ok_safe _)
            | inr l ↦ rw (e, l, slice_to_ok {E = Error} expected payload (ground arith)) (ok_safe _)
          ]
    ]
