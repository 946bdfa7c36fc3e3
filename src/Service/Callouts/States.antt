-- ===== src/Service/Callouts/States.antt =====
-- internal/service/callout_state.go: the table of callouts that the dashboard shows, which is written
-- after the call of the manager (note_tx, note_rx). The field
-- FunctionName, which follows from the function, is left out.
pub mod Rx
pub mod Replies
use freetetra.Prelude.{
  ℕ, ◌+◌, ◌≡◌, ◌↔◌, refl, arith, Bool, true, false, ◌&&◌, ◌||◌, not, List, [], ◌∷◌, Option, none,
  some, ◌==◌, ==_iff, ltb, if◌then◌else◌,
}
use freetetra.Prelude.Maps.{lookup, insert, has_key, Key}
use freetetra.Service.Sds.{FrameEnvelope}
use freetetra.Service.Sds.Callout.{CalloutMessage}
use freetetra.Service.Callouts.{StateLabel, pending, callout_state_label, is_callout_reply_message}
use Prim.Native.String.{String}
use text.Mathlib.Text.{◌==◌ as str_eq}
use text.Mathlib.TextEquality.{eq_iff}

-- The texts "type:destination:number", "subscriber:number:target:number" and "rx:unknown:number".
pub data StateKey : Type 0 where
  by_destination : String → ℕ → ℕ → StateKey
  by_reply : ℕ → ℕ → ℕ → StateKey
  by_number : ℕ → StateKey

unfoldable pub same_state : StateKey → StateKey → Bool
same_state (by_destination t d n) (by_destination t' d' n') = str_eq t t' && (d == d' && n == n')
same_state (by_destination t d n) (by_reply s d' n') = false
same_state (by_destination t d n) (by_number n') = false
same_state (by_reply s d n) (by_destination t d' n') = false
same_state (by_reply s d n) (by_reply s' d' n') = s == s' && (d == d' && n == n')
same_state (by_reply s d n) (by_number n') = false
same_state (by_number n) (by_destination t d' n') = false
same_state (by_number n) (by_reply s d' n') = false
same_state (by_number n) (by_number n') = n == n'

pub same_state_iff : (a b : StateKey) → (same_state a b ≡ true) ↔ (a ≡ b)
unfolding same_state
same_state_iff (by_destination t d n) (by_destination t' d' n') =
    ground (arith, eq_iff t t', ==_iff d d', ==_iff n n')
same_state_iff (by_destination t d n) (by_reply s d' n') = ground arith
same_state_iff (by_destination t d n) (by_number n') = ground arith
same_state_iff (by_reply s d n) (by_destination t d' n') = ground arith
same_state_iff (by_reply s d n) (by_reply s' d' n') =
    ground (arith, ==_iff s s', ==_iff d d', ==_iff n n')
same_state_iff (by_reply s d n) (by_number n') = ground arith
same_state_iff (by_number n) (by_destination t d' n') = ground arith
same_state_iff (by_number n) (by_reply s d' n') = ground arith
same_state_iff (by_number n) (by_number n') = ground (arith, ==_iff n n')

instance abbrev pub state_key : Key StateKey
state_key = record { same = same_state; same_iff = same_state_iff }

pub record CalloutState : Type 0 where
  pub key : StateKey
  pub destination_type : String
  pub destination : ℕ
  pub source : ℕ
  pub callout_number : ℕ
  pub function : ℕ
  pub severity : ℕ
  pub group_control : ℕ
  pub timestamp_control : Bool
  pub user_receipt_control : Bool
  pub text_is_status : Bool
  pub end_callout : Bool
  pub ptt_not_allowed : Bool
  pub message_type : ℕ
  pub message_ref : ℕ
  pub delivery_report_request : ℕ
  pub service_selection : Bool
  pub storage : Bool
  pub text : List ℕ
  pub last_direction : String
  pub last_session : String
  pub state : StateLabel
  pub responses : ℕ
  pub updated : ℕ

abbrev pub States : Type 0
States = List (StateKey × CalloutState)

unfoldable pub new_state : StateKey → String → ℕ → ℕ → CalloutState
new_state key destination_type destination source = record {
  key = key;
  destination_type = destination_type;
  destination = destination;
  source = source;
  callout_number = 0;
  function = 0;
  severity = 0;
  group_control = 0;
  timestamp_control = false;
  user_receipt_control = false;
  text_is_status = false;
  end_callout = false;
  ptt_not_allowed = false;
  message_type = 0;
  message_ref = 0;
  delivery_report_request = 0;
  service_selection = false;
  storage = false;
  text = [];
  last_direction = "";
  last_session = "";
  state = pending;
  responses = 0;
  updated = 0;
}

-- What both directions copy from the message.
unfoldable pub copy_message : CalloutState → CalloutMessage → ℕ → CalloutState
unfolding callout_state_label
copy_message st c now = record st {
  callout_number = c.callout_number;
  function = c.function;
  severity = c.severity;
  group_control = c.group_control;
  timestamp_control = c.timestamp_control;
  user_receipt_control = c.user_receipt_control;
  text_is_status = c.text_is_status;
  end_callout = c.end_callout;
  ptt_not_allowed = c.ptt_not_allowed;
  message_type = c.message_type;
  message_ref = c.message_ref;
  delivery_report_request = c.delivery_report_request;
  service_selection = c.service_selection;
  storage = c.storage;
  state = callout_state_label c;
  updated = now;
}

unfoldable pub note_callout_tx : States → String → ℕ → ℕ → CalloutMessage → ℕ → States × StateKey
unfolding lookup insert copy_message new_state
note_callout_tx states destination_type destination source c now =
    let key = by_destination destination_type destination c.callout_number in
    let st : CalloutState = elim (lookup key states) [
      | some st ↦ st
      | none ↦ new_state key destination_type destination 0
    ] in
    let st' = record (copy_message st c now) {
      source = source;
      text = c.text;
      last_direction = "tx";
    } in
    (insert key st' states, key)
