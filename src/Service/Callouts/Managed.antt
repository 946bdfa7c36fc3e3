-- ===== src/Service/Callouts/Managed.antt =====
-- internal/service/callout_managed.go: the callout that answers for a radio that sent a text.
use Prim.Native.Nat.{bit_and}
use freetetra.Prelude.{
  ℕ, ◌%◌, ◌<◌, ◌≡◌, refl, sym, ap, ◌∙◌, arith, Bool, true, false, ◌||◌, List, some, ◌==◌, ==_iff,
  ltb, if◌then◌else◌,
}
use freetetra.Service.Sds.{text_messaging_tl, immediate_text_tl, home_mode_display}
use freetetra.Service.Sds.Callout.{
  EncodeOptions, CalloutMessage, build_callout_payload, parse_callout_payload,
}
use freetetra.Service.Sds.RoundTrip.{message_of, parse_callout_payload-build_callout_payload}
use freetetra.Service.Sds.Octets.{all_below, all_below→}
use freetetra.Service.Callouts.{CalloutThread, is_callout_reply_message}

-- The fields of dashboardCalloutState that an answer uses.
pub record CalloutContext : Type 0 where
  pub callout_number : ℕ
  pub function : ℕ
  pub severity : ℕ
  pub group_control : ℕ
  pub ptt_not_allowed : Bool
  pub text_is_status : Bool

unfoldable pub context_of : CalloutThread → CalloutContext
context_of t = record {
  callout_number = t.callout_number;
  function = t.last_callout.function;
  severity = t.last_callout.severity;
  group_control = t.last_callout.group_control;
  ptt_not_allowed = t.last_callout.ptt_not_allowed;
  text_is_status = t.last_callout.text_is_status;
}

unfoldable pub is_managed_callout_response_text_protocol : ℕ → Bool
is_managed_callout_response_text_protocol id =
    id == text_messaging_tl || id == immediate_text_tl || id == home_mode_display

abbrev pub default_callout_encode_options : EncodeOptions
default_callout_encode_options = record {
  message_type = 0;
  delivery_report_request = 0;
  storage_allowed = false;
  extension_header = false;
  text_coding_scheme = 1;
  function = 1;
  callout_number = 0;
  severity = 1;
  group_control = 0;
  timestamp_control = false;
  user_receipt_control = false;
  text_is_status = false;
  end_callout = false;
  ptt_not_allowed = false;
}

unfoldable pub managed_callout_response_options : CalloutContext → EncodeOptions
managed_callout_response_options state = record default_callout_encode_options {
  message_type = 2;
  delivery_report_request = 0;
  storage_allowed = false;
  extension_header = false;
  text_coding_scheme =
      if state.text_is_status then 1 else default_callout_encode_options.text_coding_scheme;
  function = if ltb 0 state.function then state.function else 3;
  callout_number = state.callout_number;
  severity = bit_and state.severity 0x0f;
  group_control = bit_and state.group_control 0x03;
  timestamp_control = false;
  user_receipt_control = false;
  text_is_status = false;
  end_callout = false;
  ptt_not_allowed = state.ptt_not_allowed;
}

low_nibble : (n : ℕ) → n < 256 → bit_and n 0x0f ≡ n % 16
unfolding all_below
low_nibble n h =
    (==_iff (bit_and n 0x0f) (n % 16)).0 (all_below→ (λ i. bit_and i 0x0f == i % 16) 256 n refl h)

low_bits : (n : ℕ) → n < 256 → bit_and n 0x03 ≡ n % 4
unfolding all_below
low_bits n h =
    (==_iff (bit_and n 0x03) (n % 4)).0 (all_below→ (λ i. bit_and i 0x03 == i % 4) 256 n refl h)

-- Without the extension header only four bits of the number are written.
build_low_number :
    (ref : ℕ) (text : List ℕ) (o : EncodeOptions)
    → o.extension_header ≡ false
    → o.callout_number < 256
    → build_callout_payload ref text o
      ≡ build_callout_payload ref text (record o { callout_number = o.callout_number % 16 })
unfolding build_callout_payload
build_low_number ref text o narrow byte =
    let low : bit_and (o.callout_number % 16) 0x0f ≡ bit_and o.callout_number 0x0f =
      low_nibble (o.callout_number % 16) (omega arith)
      ∙ (omega arith ∙ sym (low_nibble o.callout_number byte)) in
    ground (arith, narrow, low)

-- For a context whose fields are bytes and whose function has four bits, the answer is parsed as an
-- acknowledgement (a reply that ends nothing) with the text, the function of the context or 3 if that
-- is 0, the low four bits of its severity, the low two of its group control and the low four of its
-- number: so it belongs to the same callout only if that number is below 16.
pub managed_response_lem :
    (ref : ℕ) (text : List ℕ) (state : CalloutContext)
    → state.callout_number < 256
    → state.severity < 256
    → state.group_control < 256
    → state.function < 16
    → (m : CalloutMessage) × (parse_callout_payload
          (build_callout_payload ref text (managed_callout_response_options state))
        ≡ some m)
      × (is_callout_reply_message m ≡ true)
      × (m.end_callout ≡ false)
      × (m.text ≡ text)
      × (m.function ≡ (if state.function == 0 then 3 else state.function))
      × (m.severity ≡ state.severity % 16)
      × (m.group_control ≡ state.group_control % 4)
      × (m.callout_number ≡ state.callout_number % 16)
unfolding managed_callout_response_options is_callout_reply_message
managed_response_lem ref text state number severity group function =
    let o = managed_callout_response_options state in
    let o' : EncodeOptions = record o { callout_number = state.callout_number % 16 } in
    let sev = low_nibble state.severity severity in
    let grp = low_bits state.group_control group in
    (
      message_of ref text o',
      ap parse_callout_payload (build_low_number ref text o refl number)
          ∙ parse_callout_payload-build_callout_payload ref text o' (
            omega arith,
            omega arith,
            ground arith,
            ground arith,
            omega arith,
            omega (arith, grp),
            omega (arith, sev),
          ),
      refl,
      refl,
      refl,
      ground (arith, function),
      sev,
      grp,
      refl,
    )
