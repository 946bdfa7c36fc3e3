-- ===== src/Service/Sds/Callout.antt =====
-- internal/service/sds_codec.go: callout payloads.
use Prim.Native.Nat.{bit_and, bit_or}
use freetetra.Prelude.{
  ℕ, ◌+◌, ◌*◌, ◌/◌, ◌%◌, Bool, true, ◌&&◌, not, List, [], ◌∷◌, Option, none, some, take, leb, ◌==◌,
  if◌then◌else◌,
}

pub record EncodeOptions : Type 0 where
  pub message_type : ℕ
  pub delivery_report_request : ℕ
  pub storage_allowed : Bool
  pub extension_header : Bool
  pub text_coding_scheme : ℕ
  pub function : ℕ
  pub callout_number : ℕ
  pub severity : ℕ
  pub group_control : ℕ
  pub timestamp_control : Bool
  pub user_receipt_control : Bool
  pub text_is_status : Bool
  pub end_callout : Bool
  pub ptt_not_allowed : Bool

pub record CalloutMessage : Type 0 where
  pub message_type : ℕ
  pub delivery_report_request : ℕ
  pub service_selection : Bool
  pub storage : Bool
  pub message_ref : ℕ
  pub extension_header : Bool
  pub text_coding_scheme : ℕ
  pub function : ℕ
  pub callout_number : ℕ
  pub severity : ℕ
  pub group_control : ℕ
  pub timestamp_control : Bool
  pub user_receipt_control : Bool
  pub text_is_status : Bool
  pub end_callout : Bool
  pub ptt_not_allowed : Bool
  pub text : List ℕ

-- `b |= mask` under `if on`.
abbrev pub set_if : Bool → ℕ → ℕ → ℕ
set_if on mask b = if on then bit_or b mask else b

-- `b & mask != 0`.
abbrev pub bit_set : ℕ → ℕ → Bool
bit_set b mask = not (bit_and b mask == 0)

-- The octets of the header: status, function, control and flags.
unfoldable pub status_octet : ℕ → ℕ → Bool → ℕ
status_octet message_type report storage =
    set_if storage 0x01
      (bit_or (bit_and message_type 0x0f * 16 % 256) (bit_and report 0x03 * 4 % 256))

unfoldable pub control_octet : ℕ → ℕ → Bool → Bool → ℕ
control_octet group severity timestamp receipt =
    set_if receipt 0x10
      (set_if timestamp 0x20 (bit_or (bit_and group 0x03 * 64 % 256) (bit_and severity 0x0f)))

unfoldable pub flags_octet : Bool → Bool → Bool → ℕ
flags_octet text_is_status end_callout ptt_not_allowed =
    set_if ptt_not_allowed 0x20 (set_if end_callout 0x40 (set_if text_is_status 0x80 0))

-- The payload with the reference `ref` that `nextSDSMessageRef` gave.
unfoldable pub build_callout_payload : ℕ → List ℕ → EncodeOptions → List ℕ
unfolding status_octet control_octet flags_octet
build_callout_payload ref user_data o =
    let b1 = status_octet o.message_type o.delivery_report_request o.storage_allowed in
    let control =
      control_octet o.group_control o.severity o.timestamp_control o.user_receipt_control in
    let flags = flags_octet o.text_is_status o.end_callout o.ptt_not_allowed in
    if o.extension_header
    then 195
      ∷ b1
      ∷ ref
      ∷ bit_or 0x80 (bit_and o.text_coding_scheme 0x7f)
      ∷ bit_and o.function 0x0f * 16 % 256
      ∷ o.callout_number
      ∷ control
      ∷ flags
      ∷ user_data
    else 195
      ∷ b1
      ∷ ref
      ∷ bit_and o.text_coding_scheme 0x7f
      ∷ bit_or (bit_and o.function 0x0f * 16 % 256) (bit_and o.callout_number 0x0f)
      ∷ control
      ∷ flags
      ∷ user_data

count_printable : List ℕ → ℕ
count_printable [] = 0
count_printable (b ∷ bs) =
    let rest = count_printable bs in if leb 0x20 b && leb b 0x7e then rest + 1 else rest

-- Two printable bytes among the first eight.
unfoldable pub looks_like_callout_text : List ℕ → Bool
unfolding count_printable
looks_like_callout_text d = leb 2 (count_printable (take 8 d))

-- The header octets that both layouts share, and what the layouts add.
unfoldable pub decode_callout :
    (b1 ref b3 b4 number control flags : ℕ) → Bool → List ℕ → CalloutMessage
decode_callout b1 ref b3 b4 number control flags extension text = record {
  message_type = bit_and (b1 / 16) 0x0f;
  delivery_report_request = bit_and (b1 / 4) 0x03;
  service_selection = bit_set b1 0x02;
  storage = bit_set b1 0x01;
  message_ref = ref;
  extension_header = extension;
  text_coding_scheme = bit_and b3 0x7f;
  function = bit_and (b4 / 16) 0x0f;
  callout_number = number;
  severity = bit_and control 0x0f;
  group_control = bit_and (control / 64) 0x03;
  timestamp_control = bit_set control 0x20;
  user_receipt_control = bit_set control 0x10;
  text_is_status = bit_set flags 0x80;
  end_callout = bit_set flags 0x40;
  ptt_not_allowed = bit_set flags 0x20;
  text = text;
}

-- The cases of `parseCalloutPayload` by length: seven octets or more, and exactly six. The first
-- octet has been checked.
parse_seven : (b1 ref b3 b4 b5 b6 : ℕ) → List ℕ → CalloutMessage
unfolding looks_like_callout_text decode_callout
parse_seven b1 ref b3 b4 b5 b6 rest =
    let headless = bit_set b6 0x1f && looks_like_callout_text (b6 ∷ rest) in
    decode_callout b1 ref b3 b4 (bit_and b4 0x0f) b5 (if headless then 0 else b6) (bit_set b3 0x80)
      (if headless then b6 ∷ rest else rest)

unfoldable pub parse_callout_payload : List ℕ → Option CalloutMessage
unfolding parse_seven decode_callout
parse_callout_payload (b0 ∷ b1 ∷ ref ∷ b3 ∷ b4 ∷ b5 ∷ b6 ∷ b7 ∷ text) =
    if not (b0 == 195)
    then none
    else if bit_set b3 0x80
    then some (decode_callout b1 ref b3 b4 b5 b6 b7 true text)
    else some (parse_seven b1 ref b3 b4 b5 b6 (b7 ∷ text))
parse_callout_payload (b0 ∷ b1 ∷ ref ∷ b3 ∷ b4 ∷ b5 ∷ b6 ∷ []) =
    if not (b0 == 195) then none else some (parse_seven b1 ref b3 b4 b5 b6 [])
parse_callout_payload (b0 ∷ b1 ∷ ref ∷ b3 ∷ b4 ∷ b5 ∷ []) =
    if not (b0 == 195)
    then none
    else some (decode_callout b1 ref b3 b4 (bit_and b4 0x0f) b5 0 (bit_set b3 0x80) [])
parse_callout_payload _ = none
