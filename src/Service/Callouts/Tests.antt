-- ===== src/Service/Callouts/Tests.antt =====
-- Tests of internal/service/callout_manager.go and callout_managed.go.
use freetetra.Prelude.{ℕ, ◌≤◌, ◌≡◌, refl, arith, true, false, List, [], ◌∷◌, some, inl}
use freetetra.Prelude.Maps.{lookup, insert}
use freetetra.Service.Sds.Callout.{CalloutMessage, build_callout_payload, parse_callout_payload}
use freetetra.Service.Callouts.{
  callout_state_label, CalloutManager, CalloutThread, RouteKey, new_callout_manager, note_tx,
  allocate_outbound_callout_number, ends_callout, is_callout_reply_message, stays_on_route,
  same_route, same_thread, phase_from_callout, thread_of,
}
use freetetra.Service.Callouts.Rx.{is_open_for, latest_group_context}
use freetetra.Service.Callouts.Numbers.{
  Event, allocates, sends, receives, run, keeps_route, all_keep, follow_up_number,
}
use freetetra.Service.Callouts.Latest.{IsThread, latest_group_context_lem}
use freetetra.Service.Callouts.Managed.{
  CalloutContext, managed_callout_response_options, managed_response_lem,
}
use freetetra.Service.Callouts.States.{
  States, CalloutState, by_reply, new_state, copy_message, same_state, note_callout_tx,
}
use freetetra.Service.Callouts.States.Replies.{
  Received, answers, all_answer, replies_of, receive_all, responses_at, group_key, replies_counted,
}

abbrev message : ℕ → ℕ → CalloutMessage
message function number = record {
  message_type = 0;
  delivery_report_request = 0;
  service_selection = false;
  storage = false;
  message_ref = 0;
  extension_header = true;
  text_coding_scheme = 1;
  function = function;
  callout_number = number;
  severity = 1;
  group_control = 0;
  timestamp_control = false;
  user_receipt_control = false;
  text_is_status = false;
  end_callout = false;
  ptt_not_allowed = false;
  text = [];
}

abbrev route : RouteKey
route = record { destination_type = "group"; destination = 91; source = 970091 }

-- A follow-up, a callout to another group, and the reply of a radio.
abbrev between : List Event
between =
    allocates route 3 0 "" 0
    ∷ sends (record route { destination = 92 }) (message 1 7) 2
    ∷ receives (record { source = 1001; destination = 91; payload = []; wrapped = true })
        (message 1 5) "s" 3
    ∷ []

follow_up_number_example :
    (allocate_outbound_callout_number
      (run (note_tx new_callout_manager route (message 1 5) 1) between)
      route
      4
      0
      ""
      0).1
    ≡ 5
unfolding all_keep keeps_route same_route stays_on_route ends_callout
follow_up_number_example =
    follow_up_number new_callout_manager route (message 1 5) 1 between 4 0 "" 0 refl refl refl refl
      refl

abbrev two_threads : CalloutManager
unfolding note_tx phase_from_callout ends_callout thread_of lookup insert same_thread same_route
two_threads = note_tx (note_tx new_callout_manager route (message 1 5) 1) route (message 1 6) 2

abbrev first_thread : CalloutThread
unfolding phase_from_callout ends_callout
first_thread = record {
  destination_type = "group";
  destination = 91;
  source = 970091;
  callout_number = 5;
  phase = phase_from_callout (message 1 5);
  last_callout = message 1 5;
  last_direction = "tx";
  last_session = "";
  created = 1;
  updated = 1;
  responses = 0;
  responders = [];
}

latest_group_context_lem_example :
    (r : CalloutThread) × (latest_group_context two_threads 970091 91 ≡ some r)
    × (is_open_for 970091 91 r ≡ true)
    × IsThread r two_threads.threads
    × (first_thread.updated ≤ r.updated)
unfolding two_threads first_thread note_tx phase_from_callout ends_callout thread_of lookup insert
    same_thread same_route IsThread is_open_for
latest_group_context_lem_example =
    latest_group_context_lem two_threads 970091 91 first_thread (inl refl) refl

abbrev context : CalloutContext
context = record {
  callout_number = 37;
  function = 1;
  severity = 3;
  group_control = 1;
  ptt_not_allowed = false;
  text_is_status = false;
}

managed_response_lem_example :
    (m : CalloutMessage) × (parse_callout_payload
        (build_callout_payload 9 (72 ∷ 105 ∷ []) (managed_callout_response_options context))
      ≡ some m)
    × (is_callout_reply_message m ≡ true)
    × (m.end_callout ≡ false)
    × (m.text ≡ 72 ∷ 105 ∷ [])
    × (m.function ≡ 1)
    × (m.severity ≡ 3)
    × (m.group_control ≡ 1)
    × (m.callout_number ≡ 5)
managed_response_lem_example =
    managed_response_lem 9 (72 ∷ 105 ∷ []) context (omega arith) (omega arith) (omega arith)
      (omega arith)

abbrev sent : States
sent = (note_callout_tx [] "group" 91 970091 (message 1 5) 1).0

-- Two radios acknowledge, one of them twice.
abbrev reply_of : ℕ → ℕ → Received
reply_of radio now = record {
  session = "s";
  env = record { source = radio; destination = 91; payload = []; wrapped = true };
  callout = record (message 1 5) { message_type = 2 };
  now = now;
}

abbrev parent : CalloutState
parent = record (new_state (group_key 91 5) "group" 91 970091) {
  callout_number = 5;
  function = 1;
  severity = 1;
  last_direction = "tx";
  updated = 1;
}

replies_counted_example :
    (responses_at
        (group_key 91 5)
        (receive_all sent (reply_of 1001 2 ∷ reply_of 1002 3 ∷ reply_of 1001 4 ∷ []))
      ≡ 3)
    × (responses_at
          (by_reply 1001 91 5)
          (receive_all sent (reply_of 1001 2 ∷ reply_of 1002 3 ∷ reply_of 1001 4 ∷ []))
        ≡ 2)
unfolding note_callout_tx new_state copy_message callout_state_label ends_callout lookup insert
    same_state all_answer answers is_callout_reply_message replies_of
replies_counted_example =
    replies_counted sent 91 5 1001 parent (reply_of 1001 2 ∷ reply_of 1002 3 ∷ reply_of 1001 4 ∷ [])
      refl refl (λ s. refl) refl
