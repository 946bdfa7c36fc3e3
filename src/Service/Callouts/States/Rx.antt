-- ===== src/Service/Callouts/States/Rx.antt =====
-- internal/service/callout_state.go: callouts that are received, in the table of the dashboard.
use freetetra.Prelude.{
  ℕ, ◌+◌, Bool, false, ◌&&◌, ◌||◌, not, [], ◌∷◌, Option, none, some, ◌==◌, ltb, if◌then◌else◌,
}
use freetetra.Prelude.Maps.{lookup, insert}
use freetetra.Service.Sds.{FrameEnvelope}
use freetetra.Service.Sds.Callout.{CalloutMessage}
use freetetra.Service.Callouts.{is_callout_reply_message}
use freetetra.Service.Callouts.States.{
  StateKey, by_destination, by_reply, by_number, States, CalloutState, state_key, same_state,
  new_state, copy_message,
}
use Prim.Native.String.{String}
use text.Mathlib.Text.{◌==◌ as str_eq}

-- Whether a state may be the one that a message belongs to.
unfoldable pub state_matches : FrameEnvelope → CalloutMessage → CalloutState → Bool
state_matches env c st =
    st.callout_number == c.callout_number
    && ((not (env.destination == 0)
          && (st.source == env.destination || st.destination == env.destination))
        || (not (env.source == 0) && st.destination == env.source))

-- The loop over the states, for the newest that matches.
unfoldable pub find_latest :
    FrameEnvelope → CalloutMessage → ℕ → Option StateKey → States → Option StateKey
unfolding state_matches
find_latest env c latest found [] = found
find_latest env c latest found ((k, st) ∷ states) =
    let better = state_matches env c st && ltb latest st.updated in
    find_latest env c (if better then st.updated else latest) (if better then some k else found)
      states

-- A key that stands in the table.
unfoldable pub known : States → StateKey → Option StateKey
unfolding lookup same_state
known states key = elim (lookup key states) [ none ↦ none | some _ ↦ some key ]

-- The first of the two that is there.
abbrev pub or_else : Option StateKey → Option StateKey → Option StateKey
or_else none b = b
or_else (some k) b = some k

unfoldable pub resolve_key : States → FrameEnvelope → CalloutMessage → StateKey
unfolding known find_latest
resolve_key states env c =
    let n = c.callout_number in
    let group =
      if env.destination == 0
      then none
      else known states (by_destination "group" env.destination n) in
    let direct =
      if env.source == 0 then none else known states (by_destination "subscriber" env.source n) in
    let target =
      if env.destination == 0
      then none
      else known states (by_destination "subscriber" env.destination n) in
    elim (or_else direct (or_else group (or_else target (find_latest env c 0 none states)))) [
      | some k ↦ k
      | none ↦
          if not (env.destination == 0)
          then by_destination "group" env.destination n
          else if not (env.source == 0)
          then by_destination "subscriber" env.source n
          else by_number n
    ]

unfoldable pub is_subscriber_reply : FrameEnvelope → CalloutMessage → Bool
unfolding is_callout_reply_message
is_subscriber_reply env c = is_callout_reply_message c && not (env.source == 0)

unfoldable pub has_group_prefix : StateKey → Bool
has_group_prefix (by_destination destination_type _ _) = str_eq destination_type "group"
has_group_prefix (by_reply _ _ _) = false
has_group_prefix (by_number _) = false

-- A state that the message makes; `parent` stands under the key that was resolved.
unfoldable pub made_state :
    StateKey → Option CalloutState → FrameEnvelope → CalloutMessage → CalloutState
unfolding has_group_prefix is_subscriber_reply new_state
made_state key parent env c =
    let source : ℕ = elim parent [
      | none ↦ env.destination
      | some p ↦ if p.source == 0 then env.destination else p.source
    ] in
    new_state key (if has_group_prefix key then "group" else "subscriber")
      (if has_group_prefix key || env.source == 0 then env.destination else env.source)
      (if is_subscriber_reply env c then source else 0)

-- The state with the message that was received.
unfoldable pub receive_in :
    CalloutState → StateKey → FrameEnvelope → CalloutMessage → String → ℕ → CalloutState
unfolding has_group_prefix is_subscriber_reply copy_message
receive_in st key env c session now =
    let destination =
      if not (st.destination == 0)
      then st.destination
      else if has_group_prefix key && not (env.destination == 0)
      then env.destination
      else if not (env.source == 0)
      then env.source
      else env.destination in
    let source =
      if env.source == 0 || not (st.source == 0)
      then st.source
      else if is_subscriber_reply env c && not (env.destination == 0)
      then env.destination
      else env.source in
    record (copy_message st c now) {
      destination = destination;
      source = source;
      text = elim c.text [ [] ↦ st.text | _ ∷ _ ↦ c.text ];
      last_direction = "rx";
      last_session = session;
      responses = st.responses + 1;
    }

-- The states after a reply was counted at its callout.
unfoldable pub count_at_parent : States → StateKey → StateKey → Bool → ℕ → States
unfolding lookup insert same_state
count_at_parent states resolved key reply now = elim (lookup resolved states) [
  | none ↦ states
  | some parent ↦
      if reply && not (same_state resolved key)
      then insert resolved (record parent { responses = parent.responses + 1; updated = now })
          states
      else states
]

-- The state that stands under the key, or is made.
unfoldable pub state_at :
    States → StateKey → StateKey → FrameEnvelope → CalloutMessage → CalloutState
unfolding lookup made_state
state_at states resolved key env c = elim (lookup key states) [
  | some st ↦ st
  | none ↦ made_state key (lookup resolved states) env c
]

-- The second half of `noteCalloutRx`, for the keys that its first half found.
unfoldable pub note_at :
    States → StateKey → StateKey → Bool → String → FrameEnvelope → CalloutMessage → ℕ → States
unfolding insert state_at count_at_parent receive_in
note_at states resolved key reply session env c now =
    insert key (receive_in (state_at states resolved key env c) key env c session now)
      (count_at_parent states resolved key reply now)

-- The new table and the key.
unfoldable pub note_callout_rx :
    States → String → FrameEnvelope → CalloutMessage → ℕ → States × StateKey
unfolding resolve_key is_subscriber_reply note_at
note_callout_rx states session env c now =
    let resolved = resolve_key states env c in
    let reply = is_subscriber_reply env c in
    let key = if reply then by_reply env.source env.destination c.callout_number else resolved in
    (note_at states resolved key reply session env c now, key)
