-- ===== src/Brew/BuildFrame.antt =====
-- internal/brew/protocol.go: `BuildFrame`, with its payload cut or padded to its length in bits.
use freetetra.Prelude.{
  ℕ, ◌+◌, ◌-◌, ◌*◌, List, [], ◌∷◌, ◌++◌, length, take, replicate, ltb, leb, ◌==◌, ◌&&◌, ◌||◌,
  if◌then◌else◌,
}
use freetetra.Prelude.Bytes.{put_u16}
use freetetra.Brew.Message.{class_frame, frame_type_sds_transfer, frame_type_sds_report}
use freetetra.Brew.FrameData.{payload_bytes_for_bits}

unfoldable pub normalize_payload_for_bits : ℕ → List ℕ → List ℕ
normalize_payload_for_bits length_bits payload =
    let expected = payload_bytes_for_bits length_bits in
    if expected == 0
    then []
    else if leb expected (length payload)
    then take expected payload
    else payload ++ replicate (expected - length payload) 0

unfoldable pub normalize_frame_payload : ℕ → ℕ → List ℕ → List ℕ
unfolding normalize_payload_for_bits
normalize_frame_payload frame_type length_bits payload =
    let expected = payload_bytes_for_bits length_bits in
    if expected == 0
    then []
    else if (frame_type == frame_type_sds_transfer || frame_type == frame_type_sds_report)
        && leb (expected + 8) (length payload)
    then take (expected + 8) payload
    else normalize_payload_for_bits length_bits payload

-- A length of 0 for a payload that is there: 8 bits a byte, at most 0xffff.
unfoldable pub frame_length_bits : ℕ → List ℕ → ℕ
frame_length_bits length_bits payload =
    if length_bits == 0 && ltb 0 (length payload)
    then (let bits = length payload * 8 in if ltb 0xffff bits then 0xffff else bits)
    else length_bits

unfoldable pub build_frame : ℕ → List ℕ → ℕ → List ℕ → List ℕ
unfolding frame_length_bits normalize_frame_payload
build_frame frame_type call_id length_bits payload =
    let bits = frame_length_bits length_bits payload in
    class_frame
    ∷ frame_type
    ∷ (call_id ++ (put_u16 bits ++ normalize_frame_payload frame_type bits payload))
