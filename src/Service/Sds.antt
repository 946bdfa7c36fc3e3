-- ===== src/Service/Sds.antt =====
-- internal/service/sds_codec.go: SDS payloads, their envelopes and callouts. A shift of a uint8 keeps
-- its low 8 bits.
pub mod Callout
pub mod Octets
pub mod RoundTrip
mod Tests
use Prim.Native.Nat.{bit_and}
use freetetra.Prelude.{
  ℕ, ◌+◌, ◌*◌, ◌/◌, ◌%◌, ◌≡◌, Bool, true, false, ◌&&◌, ◌||◌, not, List, [], ◌∷◌, ◌++◌, Option, none,
  some, length, take, drop, ltb, leb, ◌==◌, if◌then◌else◌, Outcome, ok, err, panic, ◌>>=◌, index,
  slice, slice_from,
}
use freetetra.Prelude.Bytes.{put_u32, uint32}

abbrev pub text_messaging_tl : ℕ
text_messaging_tl = 130

abbrev pub wdp_tl : ℕ
wdp_tl = 132

abbrev pub immediate_text_tl : ℕ
immediate_text_tl = 137

abbrev pub message_with_udh : ℕ
message_with_udh = 138

abbrev pub home_mode_display : ℕ
home_mode_display = 220

abbrev pub callout_protocol : ℕ
callout_protocol = 195

-- `sdsMessageRefCounter.Add(1)`, a uint32, and the octet that is used of it.
unfoldable pub next_message_ref : ℕ → ℕ × ℕ
next_message_ref counter =
    let counter' = (counter + 1) % 0x1_0000_0000 in (counter', counter' % 256)

unfoldable pub is_likely_protocol_id : ℕ → Bool
is_likely_protocol_id v =
    if leb 1 v && leb v 14
    then true
    else if v == 24 || v == 25
    then true
    else if v == home_mode_display
    then true
    else if v == callout_protocol
    then true
    else leb 130 v && leb v 141

pub record FrameEnvelope : Type 0 where
  pub source : ℕ
  pub destination : ℕ
  pub payload : List ℕ
  pub wrapped : Bool

unfoldable pub build_frame_payload : ℕ → ℕ → List ℕ → List ℕ
build_frame_payload source destination sds_payload =
    put_u32 source ++ (put_u32 destination ++ sds_payload)

-- No error is returned here; `panic` is a read out of range.
abbrev pub Read : Type 0 → Type 0
Read A = Outcome ⊥ A

unfoldable pub parse_frame_envelope : List ℕ → Read FrameEnvelope
unfolding is_likely_protocol_id
parse_frame_envelope d =
    let bare : FrameEnvelope = record {
      source = 0;
      destination = 0;
      payload = d;
      wrapped = false;
    } in
    if leb 9 (length d)
    then (do
      source ← slice 0 4 d >>= uint32
      destination ← slice 4 8 d >>= uint32
      first ← index 0 d
      inner ← index 8 d
      rest ← slice_from 8 d
      ok (
          if (not (source == 0) || not (destination == 0))
            && not (is_likely_protocol_id first)
            && is_likely_protocol_id inner
          then record { source = source; destination = destination; payload = rest; wrapped = true }
          else bare))
    else ok bare

unfoldable pub unwrap_payload : List ℕ → Read (List ℕ × Bool)
unfolding parse_frame_envelope is_likely_protocol_id
unwrap_payload d = do
  env ← parse_frame_envelope d
  if length env.payload == 0 then ok (env.payload, env.wrapped) else do
    first ← index 0 env.payload
    ok (if is_likely_protocol_id first then (env.payload, env.wrapped) else (d, false))

-- `buildSDSTLTextPayload` with the reference that it takes from the counter.
unfoldable pub build_tl_text_payload : ℕ → ℕ → List ℕ → ℕ × List ℕ
unfolding next_message_ref
build_tl_text_payload counter protocol_id user_data =
    let (counter', ref) = next_message_ref counter in
    (counter', protocol_id ∷ 0x02 ∷ ref ∷ 0x01 ∷ user_data)

unfoldable pub build_wap_push_payload : List ℕ → List ℕ
build_wap_push_payload user_data =
    wdp_tl ∷ 2948 / 256 ∷ 2948 % 256 ∷ 9200 / 256 ∷ 9200 % 256 ∷ user_data

unfoldable pub decode_text : List ℕ → Read (List ℕ)
decode_text d = if ltb (length d) 4 then ok [] else slice_from 4 d

unfoldable pub delivery_report_requested : List ℕ → Read Bool
delivery_report_requested payload =
    if ltb (length payload) 2
    then ok false
    else do b ← index 1 payload; ok (not (bit_and b 0x01 == 0))
