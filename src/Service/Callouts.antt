-- ===== src/Service/Callouts.antt =====
-- internal/service/callout_manager.go: the threads of callouts. The text of a key stands for its
-- arguments, since a destination type holds no colon. Times are nanoseconds; `now` is the clock.
-- Counts of responses do not reach the end of their integer.
pub mod Rx
pub mod Numbers
pub mod Latest
pub mod Managed
pub mod States
mod Tests
use freetetra.Prelude.{
  ℕ, ◌+◌, ◌%◌, ◌≡◌, ◌↔◌, refl, Bool, true, false, ◌&&◌, ◌||◌, List, [], ◌∷◌, Option, none, some,
  ◌==◌, ==_iff, ltb, if◌then◌else◌, arith,
}
use freetetra.Prelude.Maps.{lookup, insert, delete, number_key, Key}
use freetetra.Service.Sds.Callout.{CalloutMessage}
use Prim.Native.String.{String}
use text.Mathlib.Text.{◌==◌ as str_eq}
use text.Mathlib.TextEquality.{eq_iff}

pub data Phase : Type 0 where
  thread_draft thread_alerted thread_active thread_clearing thread_cleared : Phase

-- The texts of `calloutStateLabel`; `other_type n` is "msg_type_n".
pub data StateLabel : Type 0 where
  cleared pending report ack : StateLabel
  other_type : ℕ → StateLabel

pub record Responder : Type 0 where
  pub issi : ℕ
  pub last_message : ℕ
  pub last_state : StateLabel
  pub last_text : List ℕ
  pub last_seen : ℕ
  pub response_count : ℕ

pub record CalloutThread : Type 0 where
  pub destination_type : String
  pub destination : ℕ
  pub source : ℕ
  pub callout_number : ℕ
  pub phase : Phase
  pub last_callout : CalloutMessage
  pub last_direction : String
  pub last_session : String
  pub created : ℕ
  pub updated : ℕ
  pub responses : ℕ
  pub responders : List (ℕ × Responder)

pub record RouteKey : Type 0 where
  pub destination_type : String
  pub destination : ℕ
  pub source : ℕ

pub record ThreadKey : Type 0 where
  pub route : RouteKey
  pub callout_number : ℕ

unfoldable pub same_route : RouteKey → RouteKey → Bool
same_route a b =
    str_eq a.destination_type b.destination_type
    && (a.destination == b.destination && a.source == b.source)

pub same_route_iff : (a b : RouteKey) → (same_route a b ≡ true) ↔ (a ≡ b)
unfolding same_route
same_route_iff a b = ground (
  arith,
  eq_iff a.destination_type b.destination_type,
  ==_iff a.destination b.destination,
  ==_iff a.source b.source,
)

instance abbrev pub route_key : Key RouteKey
route_key = record { same = same_route; same_iff = same_route_iff }

unfoldable pub same_thread : ThreadKey → ThreadKey → Bool
unfolding same_route
same_thread a b = same_route a.route b.route && a.callout_number == b.callout_number

pub same_thread_iff : (a b : ThreadKey) → (same_thread a b ≡ true) ↔ (a ≡ b)
unfolding same_thread
same_thread_iff a b =
    ground (arith, same_route_iff a.route b.route, ==_iff a.callout_number b.callout_number)

instance abbrev pub thread_key : Key ThreadKey
thread_key = record { same = same_thread; same_iff = same_thread_iff }

pub record CalloutManager : Type 0 where
  pub seq : ℕ
  pub active_by_route : List (RouteKey × ℕ)
  pub threads : List (ThreadKey × CalloutThread)

abbrev pub new_callout_manager : CalloutManager
new_callout_manager = record { seq = 0; active_by_route = []; threads = [] }

unfoldable pub next_sequential : CalloutManager → CalloutManager × ℕ
next_sequential m = let seq = (m.seq + 1) % 0x1_0000_0000 in (record m { seq = seq }, seq % 256)

-- Follow-ups, reports and acknowledgements, which stay on the route's thread.
unfoldable pub stays_on_route : String → ℕ → ℕ → Bool
stays_on_route mode function message_type =
    str_eq mode "reuse" || function == 3 || function == 4 || message_type == 1 || message_type == 2

-- A number for a callout that starts a thread; `random` is the number that is drawn.
unfoldable pub fresh_number : CalloutManager → String → ℕ → CalloutManager × ℕ
unfolding next_sequential
fresh_number m mode random = if str_eq mode "random" then (m, random) else next_sequential m

unfoldable pub allocate_outbound_callout_number :
    CalloutManager → RouteKey → ℕ → ℕ → String → ℕ → CalloutManager × ℕ
unfolding lookup insert delete stays_on_route fresh_number
allocate_outbound_callout_number m route function message_type ref_mode random =
    let mode = if str_eq ref_mode "" then "organized" else ref_mode in
    let (m', number) = fresh_number m mode random in
    let fresh : CalloutManager × ℕ =
      if function == 4
      then (m', number)
      else (record m' { active_by_route = insert route number m'.active_by_route }, number) in
    elim (lookup route m.active_by_route) [
      | none ↦ fresh
      | some current ↦
          if stays_on_route mode function message_type
          then if function == 4
            then (record m { active_by_route = delete route m.active_by_route }, current)
            else (m, current)
          else fresh
    ]

unfoldable pub ends_callout : CalloutMessage → Bool
ends_callout c = c.end_callout || c.function == 4

unfoldable pub phase_from_callout : CalloutMessage → Phase
unfolding ends_callout
phase_from_callout c =
    if ends_callout c
    then thread_cleared
    else if c.message_type == 1 || c.message_type == 2
    then thread_active
    else if c.function == 1
    then thread_alerted
    else if c.function == 3
    then thread_active
    else thread_draft

unfoldable pub callout_state_label : CalloutMessage → StateLabel
unfolding ends_callout
callout_state_label c =
    if ends_callout c
    then cleared
    else if c.message_type == 0
    then pending
    else if c.message_type == 1
    then report
    else if c.message_type == 2
    then ack
    else other_type c.message_type

unfoldable pub is_callout_reply_message : CalloutMessage → Bool
is_callout_reply_message c = c.message_type == 1 || c.message_type == 2

-- A thread that a message makes, before its direction is noted.
abbrev pub new_thread : ThreadKey → CalloutMessage → ℕ → CalloutThread
new_thread key c now = record {
  destination_type = key.route.destination_type;
  destination = key.route.destination;
  source = key.route.source;
  callout_number = key.callout_number;
  phase = thread_draft;
  last_callout = c;
  last_direction = "";
  last_session = "";
  created = now;
  updated = 0;
  responses = 0;
  responders = [];
}

abbrev pub thread_of : CalloutManager → ThreadKey → CalloutMessage → ℕ → CalloutThread
unfolding lookup
thread_of m key c now = elim (lookup key m.threads) [ none ↦ new_thread key c now | some t ↦ t ]

unfoldable pub note_tx : CalloutManager → RouteKey → CalloutMessage → ℕ → CalloutManager
unfolding lookup insert delete phase_from_callout ends_callout
note_tx m route c now =
    let key : ThreadKey = record { route = route; callout_number = c.callout_number } in
    let t = thread_of m key c now in
    let t' = record t {
      last_callout = c;
      last_direction = "tx";
      last_session = "";
      phase = phase_from_callout c;
      updated = now;
      source = if route.source == 0 then t.source else route.source;
    } in
    if str_eq route.destination_type "" || route.destination == 0 then m else record m {
      threads = insert key t' m.threads;
      active_by_route =
          if ends_callout c
          then delete route m.active_by_route
          else insert route c.callout_number m.active_by_route;
    }
