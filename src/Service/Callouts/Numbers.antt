-- ===== src/Service/Callouts/Numbers.antt =====
-- internal/service/callout_manager.go: follow-ups keep the number of their callout.
use freetetra.Prelude.{
  ℕ, ◌≡◌, sym, subst, arith, Bool, true, false, ◌&&◌, ◌||◌, not, List, [], ◌∷◌, some, ◌==◌, ==_iff,
  if◌then◌else◌, Bool-cases, inl, inr,
}
use freetetra.Prelude.Maps.{lookup, lookup-insert, lookup-delete}
use freetetra.Service.Sds.{FrameEnvelope}
use freetetra.Service.Sds.Callout.{CalloutMessage}
use freetetra.Service.Callouts.{
  CalloutManager, RouteKey, route_key, same_route, same_route_iff, allocate_outbound_callout_number,
  note_tx, stays_on_route, fresh_number, next_sequential, ends_callout,
}
use freetetra.Service.Callouts.Rx.{note_rx}
use Prim.Native.String.{String}
use text.Mathlib.Text.{◌==◌ as str_eq}

pub data Event : Type 0 where
  allocates : RouteKey → ℕ → ℕ → String → ℕ → Event
  sends : RouteKey → CalloutMessage → ℕ → Event
  receives : FrameEnvelope → CalloutMessage → String → ℕ → Event

unfoldable pub step : CalloutManager → Event → CalloutManager
step m (allocates route function message_type mode random) =
    (allocate_outbound_callout_number m route function message_type mode random).0
step m (sends route c now) = note_tx m route c now
step m (receives env c session now) = note_rx m env c session now

unfoldable pub run : CalloutManager → List Event → CalloutManager
run m [] = m
run m (e ∷ es) = run (step m e) es

abbrev pub mode_of : String → String
mode_of ref_mode = if str_eq ref_mode "" then "organized" else ref_mode

-- Whether an event leaves a callout of the route open: it is of another route, or a follow-up, or
-- a sent message with the same number that does not end the callout, or a received message.
unfoldable pub keeps_route : RouteKey → ℕ → Event → Bool
unfolding same_route stays_on_route ends_callout
keeps_route route number (allocates r function message_type mode random) =
    not (same_route r route)
    || (stays_on_route (mode_of mode) function message_type && not (function == 4))
keeps_route route number (sends r c now) =
    not (same_route r route) || (c.callout_number == number && not (ends_callout c))
keeps_route route number (receives env c session now) = true

unfoldable pub all_keep : RouteKey → ℕ → List Event → Bool
unfolding keeps_route
all_keep route number [] = true
all_keep route number (e ∷ es) = keeps_route route number e && all_keep route number es

fresh_number_lem :
    (m : CalloutManager) (mode : String) (random : ℕ)
    → (fresh_number m mode random).0.active_by_route ≡ m.active_by_route
unfolding fresh_number next_sequential
fresh_number_lem m mode random = ground arith

allocate-keeps :
    (m : CalloutManager) (route r : RouteKey) (number function message_type : ℕ) (mode : String)
    (random : ℕ)
    → lookup route m.active_by_route ≡ some number
    → keeps_route route number (allocates r function message_type mode random) ≡ true
    → lookup route
        (allocate_outbound_callout_number m r function message_type mode random).0.active_by_route
      ≡ some number
unfolding allocate_outbound_callout_number keeps_route
allocate-keeps m route r number function message_type mode random e h =
    let f = fresh_number m (mode_of mode) random in
    let fresh = fresh_number_lem m (mode_of mode) random in
    let new_entry = lookup-insert r route f.1 f.0.active_by_route in
    elim (Bool-cases (same_route r route)) [
      | inl this ↦
          let current : lookup r m.active_by_route ≡ some number =
            subst (λ k. lookup k m.active_by_route ≡ some number)
              (sym ((same_route_iff r route).0 this)) e in
          ground (arith, e, h, this, current)
      | inr other ↦
          ground (arith, e, other, fresh, new_entry, lookup-delete r route m.active_by_route)
    ]

note_tx-keeps :
    (m : CalloutManager) (route r : RouteKey) (number : ℕ) (c : CalloutMessage) (now : ℕ)
    → lookup route m.active_by_route ≡ some number
    → keeps_route route number (sends r c now) ≡ true
    → lookup route (note_tx m r c now).active_by_route ≡ some number
unfolding note_tx keeps_route
note_tx-keeps m route r number c now e h = ground (
  arith,
  e,
  h,
  lookup-insert r route c.callout_number m.active_by_route,
  lookup-delete r route m.active_by_route,
  ==_iff c.callout_number number,
)

note_rx-keeps :
    (m : CalloutManager) (env : FrameEnvelope) (c : CalloutMessage) (session : String) (now : ℕ)
    → (note_rx m env c session now).active_by_route ≡ m.active_by_route
unfolding note_rx
note_rx-keeps m env c session now = ground arith

step-keeps :
    (m : CalloutManager) (route : RouteKey) (number : ℕ) (e : Event)
    → lookup route m.active_by_route ≡ some number
    → keeps_route route number e ≡ true
    → lookup route (step m e).active_by_route ≡ some number
unfolding step
step-keeps m route number (allocates r function message_type mode random) e h =
    allocate-keeps m route r number function message_type mode random e h
step-keeps m route number (sends r c now) e h = note_tx-keeps m route r number c now e h
step-keeps m route number (receives env c session now) e h =
    rw (note_rx-keeps m env c session now) e

run-keeps :
    (m : CalloutManager) (route : RouteKey) (number : ℕ) (es : List Event)
    → lookup route m.active_by_route ≡ some number
    → all_keep route number es ≡ true
    → lookup route (run m es).active_by_route ≡ some number
unfolding run all_keep
run-keeps m route number [] e h = e
run-keeps m route number (event ∷ es) e h =
    run-keeps (step m event) route number es (step-keeps m route number event e (ground (arith, h)))
      (ground (arith, h))

note_tx-opens :
    (m : CalloutManager) (route : RouteKey) (c : CalloutMessage) (now : ℕ)
    → str_eq route.destination_type "" ≡ false
    → (route.destination == 0) ≡ false
    → ends_callout c ≡ false
    → lookup route (note_tx m route c now).active_by_route ≡ some c.callout_number
unfolding note_tx
note_tx-opens m route c now typed addressed goes_on = ground (
  arith,
  typed,
  addressed,
  goes_on,
  lookup-insert route route c.callout_number m.active_by_route,
  same_route_iff route route,
)

allocate-stays :
    (m : CalloutManager) (route : RouteKey) (number function message_type : ℕ) (mode : String)
    (random : ℕ)
    → lookup route m.active_by_route ≡ some number
    → stays_on_route (mode_of mode) function message_type ≡ true
    → (allocate_outbound_callout_number m route function message_type mode random).1 ≡ number
unfolding allocate_outbound_callout_number
allocate-stays m route number function message_type mode random e h = ground (arith, e, h)

-- Once a callout that does not end was sent to a destination, and as long as whatever is sent and
-- allocated for its route is a follow-up that does not end it, and whatever happens on other routes
-- and is received: the next follow-up, report, acknowledgement or end of the route, or any number
-- that is asked for with the mode "reuse", gets the number of that callout.
pub follow_up_number :
    (m : CalloutManager) (route : RouteKey) (c : CalloutMessage) (now : ℕ) (es : List Event)
    (function message_type : ℕ) (mode : String) (random : ℕ)
    → str_eq route.destination_type "" ≡ false
    → (route.destination == 0) ≡ false
    → ends_callout c ≡ false
    → all_keep route c.callout_number es ≡ true
    → stays_on_route (mode_of mode) function message_type ≡ true
    → (allocate_outbound_callout_number
        (run (note_tx m route c now) es)
        route
        function
        message_type
        mode
        random).1
      ≡ c.callout_number
follow_up_number m route c now es function message_type mode random typed addressed goes_on kept
      stays =
    allocate-stays (run (note_tx m route c now) es) route c.callout_number function message_type
      mode random
      (run-keeps (note_tx m route c now) route c.callout_number es
        (note_tx-opens m route c now typed addressed goes_on) kept)
      stays
