-- ===== src/Service/Callouts/Rx.antt =====
-- internal/service/callout_manager.go: callouts that are received, and the newest thread of a group.
use freetetra.Prelude.{
  ℕ, ◌+◌, Bool, true, false, ◌&&◌, ◌||◌, not, List, [], ◌∷◌, Option, none, some, ◌==◌, ltb,
  if◌then◌else◌,
}
use freetetra.Prelude.Maps.{lookup, insert, number_key}
use freetetra.Service.Sds.{FrameEnvelope}
use freetetra.Service.Sds.Callout.{CalloutMessage}
use freetetra.Service.Callouts.{
  CalloutManager, CalloutThread, ThreadKey, thread_cleared, new_thread, phase_from_callout,
  callout_state_label, thread_key,
}
use Prim.Native.String.{String}
use text.Mathlib.Text.{◌==◌ as str_eq}

-- Whether a thread may be the one that a received callout belongs to.
unfoldable pub matches_envelope : FrameEnvelope → CalloutMessage → CalloutThread → Bool
matches_envelope env c t =
    t.callout_number == c.callout_number
    && ((not (env.destination == 0)
          && (t.destination == env.destination || t.source == env.destination))
        || (not (env.source == 0) && t.destination == env.source))

-- The newer of two threads; the first on a tie.
unfoldable pub newer :
    Option (ThreadKey × CalloutThread)
    → ThreadKey × CalloutThread
    → Option (ThreadKey × CalloutThread)
newer none t = some t
newer (some (k, old)) (k', t) = if ltb old.updated t.updated then some (k', t) else some (k, old)

-- The loop over the threads.
unfoldable pub find_target :
    FrameEnvelope
    → CalloutMessage
    → Option (ThreadKey × CalloutThread)
    → List (ThreadKey × CalloutThread)
    → Option (ThreadKey × CalloutThread)
unfolding matches_envelope newer
find_target env c target [] = target
find_target env c target ((k, t) ∷ ts) =
    find_target env c (if matches_envelope env c t then newer target (k, t) else target) ts

-- The key of the thread that is made if none matches.
unfoldable pub fallback_key : FrameEnvelope → CalloutMessage → ThreadKey
fallback_key env c = record {
  route =
      (if env.destination == 0
        then record {
          destination_type = "subscriber";
          destination = env.source;
          source = env.destination;
        }
        else record {
          destination_type = "group";
          destination = env.destination;
          source = env.source;
        });
  callout_number = c.callout_number;
}

unfoldable pub note_responder : CalloutThread → ℕ → CalloutMessage → ℕ → CalloutThread
unfolding lookup insert callout_state_label
note_responder t issi c now =
    let count : ℕ = elim (lookup issi t.responders) [ none ↦ 0 | some r ↦ r.response_count ] in
    if issi == 0 then t else record t {
      responders =
          insert issi
            (record {
              issi = issi;
              last_message = c.message_type;
              last_state = callout_state_label c;
              last_text = c.text;
              last_seen = now;
              response_count = count + 1;
            })
            t.responders;
    }

-- The thread with the message that was received.
unfoldable pub note_reply :
    CalloutThread → FrameEnvelope → CalloutMessage → String → ℕ → CalloutThread
unfolding phase_from_callout note_responder
note_reply t env c session now =
    let noted = record t {
      last_callout = c;
      last_direction = "rx";
      last_session = session;
      phase = phase_from_callout c;
      updated = now;
      responses = t.responses + 1;
      destination =
          if not (env.destination == 0) && t.destination == 0
          then env.destination
          else t.destination;
      source = if t.source == 0 && not (env.destination == 0) then env.destination else t.source;
    } in
    note_responder noted env.source c now

unfoldable pub note_rx :
    CalloutManager → FrameEnvelope → CalloutMessage → String → ℕ → CalloutManager
unfolding find_target fallback_key note_reply insert
note_rx m env c session now =
    let target : ThreadKey × CalloutThread = elim (find_target env c none m.threads) [
      | some t ↦ t
      | none ↦ (fallback_key env c, new_thread (fallback_key env c) c now)
    ] in
    if c.callout_number == 0 && env.source == 0 && env.destination == 0
    then m
    else record m { threads = insert target.0 (note_reply target.1 env c session now) m.threads }

-- Whether a thread is an open callout to the group for a source.
unfoldable pub is_open_for : ℕ → ℕ → CalloutThread → Bool
is_open_for source group t =
    str_eq t.destination_type "group"
    && t.destination == group
    && not (elim t.phase [ thread_cleared ↦ true | _ ↦ false ])
    && (source == 0 || t.source == 0 || t.source == source)

unfoldable pub newest_open :
    ℕ
    → ℕ
    → Option (ThreadKey × CalloutThread)
    → List (ThreadKey × CalloutThread)
    → Option (ThreadKey × CalloutThread)
unfolding is_open_for newer
newest_open source group best [] = best
newest_open source group best ((k, t) ∷ ts) =
    newest_open source group (if is_open_for source group t then newer best (k, t) else best) ts

-- The thread of which `latestGroupContext` gives a copy.
unfoldable pub latest_group_context : CalloutManager → ℕ → ℕ → Option CalloutThread
unfolding newest_open
latest_group_context m source group = elim (newest_open source group none m.threads) [
  | none ↦ none
  | some (_, t) ↦ some t
]
