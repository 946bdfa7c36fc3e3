-- ===== src/Service/Netstack/Exclusive.antt =====
-- internal/service/netstack_bridge.go: over every history of messages, at most one call stands on each
-- route.
use freetetra.Prelude.{
  ℕ, ◌≡◌, refl, ap, arith, Bool, true, List, [], ◌∷◌, none, some, ltb, Option-cases, Bool-cases,
  inl, inr,
}
use freetetra.Prelude.Maps.{lookup, text_key}
use freetetra.Service.Netstack.{
  Bridge, BridgeCall, Config, tx_ceased, released, transition_call_state, on_traffic_frame,
  mark_call_activated, clear_expired, register_pending_call,
}
use freetetra.Service.Netstack.Messages.{
  evict_route, evict_routes, evict_expired_calls, routes_of, on_new, on_tx_ceased, on_released,
  on_traffic_frames, on_traffic_message,
}
use freetetra.Service.Netstack.Locks.{holder, HoldsLocks, drop_call-HoldsLocks}
use Prim.Native.String.{String}
use text.Mathlib.Text.{◌==◌ as str_eq}
use text.Mathlib.TextEquality.{eq_iff}
use freetetra.Service.Netstack.Steps.{
  transition_call_state-HoldsLocks, on_traffic_frame-HoldsLocks, mark_call_activated-HoldsLocks,
  transition_call_state-found, on_traffic_frame-found,
}
use freetetra.Service.Netstack.Register.{
  IsFreeFor, clear_expired-HoldsLocks, put_session-HoldsLocks, evict_route-HoldsLocks,
}

register_pending_call-HoldsLocks :
    (b : Bridge) (session : BridgeCall) (now : ℕ)
    → HoldsLocks b
    → HoldsLocks (register_pending_call b session now).0
unfolding register_pending_call
register_pending_call-HoldsLocks b session now v =
    elim (Option-cases (lookup session.route_key b.route_locks)) [
      | inl n ↦
          let free : IsFreeFor session b = inl (unfold holder in rw (n, holder) refl) in
          rw (n, register_pending_call) (put_session-HoldsLocks b session now v free)
      | inr (lock, e) ↦ elim (Bool-cases (str_eq lock.call_id session.netstack_id)) [
        | inl own ↦
            let free : IsFreeFor session b = inr (
              unfold holder in
              rw (e, holder) (ap some ((eq_iff lock.call_id session.netstack_id).0 own))) in
            rw (e, register_pending_call, own) (put_session-HoldsLocks b session now v free)
        | inr foreign ↦ elim (Bool-cases (ltb now lock.expires_at)) [
          | inl blocked ↦ rw (e, register_pending_call, foreign, blocked) v
          | inr expired ↦
              let (v', free) = clear_expired-HoldsLocks b session lock v e in
              rw (e, register_pending_call, foreign, expired)
                (put_session-HoldsLocks (clear_expired b session lock).0 session now v' (inl free))
        ]
      ]
    ]

evict_routes-HoldsLocks :
    (b : Bridge) (routes : List String) (now : ℕ)
    → HoldsLocks b
    → HoldsLocks (evict_routes b routes now).0
unfolding evict_routes
evict_routes-HoldsLocks b [] now v = v
evict_routes-HoldsLocks b (route ∷ routes) now v =
    evict_routes-HoldsLocks (evict_route b route now).0 routes now
      (evict_route-HoldsLocks b route now v)

on_tx_ceased-HoldsLocks :
    (b : Bridge) (id : String) (now : ℕ) → HoldsLocks b → HoldsLocks (on_tx_ceased b id now).0
unfolding on_tx_ceased
on_tx_ceased-HoldsLocks b id now v =
    let b' = (transition_call_state b id tx_ceased now).0 in
    let v' = transition_call_state-HoldsLocks b id tx_ceased now v in
    elim (Option-cases (transition_call_state b id tx_ceased now).1) [
      | inl e ↦ rw (e, on_tx_ceased) v'
      | inr (session, e) ↦ elim (Bool-cases session.started) [
        | inl running ↦ rw (e, on_tx_ceased, running) v'
        | inr idle ↦
            rw (e, on_tx_ceased, idle)
              (drop_call-HoldsLocks b' session v'
                (transition_call_state-found b id tx_ceased now session v e))
      ]
    ]

on_released-HoldsLocks :
    (b : Bridge) (id : String) (now : ℕ) → HoldsLocks b → HoldsLocks (on_released b id now).0
unfolding on_released
on_released-HoldsLocks b id now v =
    let b' = (transition_call_state b id released now).0 in
    let v' = transition_call_state-HoldsLocks b id released now v in
    elim (Option-cases (transition_call_state b id released now).1) [
      | inl e ↦ rw (e, on_released) v'
      | inr (session, e) ↦
          rw (e, on_released)
            (drop_call-HoldsLocks b' session v'
              (transition_call_state-found b id released now session v e))
    ]

on_traffic_frames-HoldsLocks :
    (b : Bridge) (id : String) (accepts : Bool) (frames : List (List ℕ × ℕ))
    → HoldsLocks b
    → HoldsLocks (on_traffic_frames b id accepts frames).0
unfolding on_traffic_frames
on_traffic_frames-HoldsLocks b id accepts [] v = v
on_traffic_frames-HoldsLocks b id accepts ((frame, now) ∷ frames) v =
    let b1 = (on_traffic_frame b id frame now).0 in
    let v1 = on_traffic_frame-HoldsLocks b id frame now v in
    elim (Option-cases (on_traffic_frame b id frame now).1) [
      | inl e ↦ rw (e, on_traffic_frames) v1
      | inr ((call, none), e) ↦
          rw (e, on_traffic_frames) (on_traffic_frames-HoldsLocks b1 id accepts frames v1)
      | inr ((call, some flush), e) ↦ elim (Bool-cases accepts) [
        | inl go ↦
            rw (e, on_traffic_frames, go)
              (on_traffic_frames-HoldsLocks (mark_call_activated b1 call.netstack_id now) id true
                frames (mark_call_activated-HoldsLocks b1 call.netstack_id now v1))
        | inr refused ↦
            rw (e, on_traffic_frames, refused)
              (drop_call-HoldsLocks b1 call v1
                (on_traffic_frame-found b id frame now call (some flush) v e))
      ]
    ]

-- What the bridge does: a round of eviction, or a message after its own.
pub data Event : Type 0 where
  evicts : ℕ → Event
  announces : BridgeCall → ℕ → Event
  ceases : String → ℕ → Event
  releases : String → ℕ → Event
  carries : String → Bool → List (List ℕ × ℕ) → Event

unfoldable pub step : Bridge → Event → Bridge
step b (evicts now) = (evict_expired_calls b now).0
step b (announces session now) = (on_new b session now).0
step b (ceases call_id now) = (on_tx_ceased b call_id now).0
step b (releases call_id now) = (on_released b call_id now).0
step b (carries traffic_id accepts frames) = (on_traffic_message b traffic_id accepts frames).0

unfoldable pub run : Bridge → List Event → Bridge
run b [] = b
run b (e ∷ es) = run (step b e) es

on_traffic_message-HoldsLocks :
    (b : Bridge) (traffic_id : String) (accepts : Bool) (frames : List (List ℕ × ℕ))
    → HoldsLocks b
    → HoldsLocks (on_traffic_message b traffic_id accepts frames).0
unfolding on_traffic_message
on_traffic_message-HoldsLocks b traffic_id accepts frames v =
    elim (Option-cases (lookup traffic_id b.calls_by_traffic)) [
      | inl e ↦ rw (e, on_traffic_message) v
      | inr (id, e) ↦
          rw (e, on_traffic_message) (on_traffic_frames-HoldsLocks b id accepts frames v)
    ]

step-HoldsLocks : (b : Bridge) (e : Event) → HoldsLocks b → HoldsLocks (step b e)
unfolding step evict_expired_calls on_new
step-HoldsLocks b (evicts now) v = evict_routes-HoldsLocks b (routes_of b.route_locks) now v
step-HoldsLocks b (announces session now) v = register_pending_call-HoldsLocks b session now v
step-HoldsLocks b (ceases id now) v = on_tx_ceased-HoldsLocks b id now v
step-HoldsLocks b (releases id now) v = on_released-HoldsLocks b id now v
step-HoldsLocks b (carries traffic_id accepts frames) v =
    on_traffic_message-HoldsLocks b traffic_id accepts frames v

run-HoldsLocks : (b : Bridge) (es : List Event) → HoldsLocks b → HoldsLocks (run b es)
unfolding run
run-HoldsLocks b [] v = v
run-HoldsLocks b (e ∷ es) v = run-HoldsLocks (step b e) es (step-HoldsLocks b e v)

abbrev pub new_bridge : Config → Bridge
new_bridge cfg = record { cfg = cfg; calls_by_id = []; calls_by_traffic = []; route_locks = [] }

-- After any history of messages and evictions at a new bridge, with any times and any answers of the
-- service, two calls of the bridge that have the same route are the same call.
pub one_call_per_route :
    (cfg : Config) (es : List Event) (id other : String) (call call' : BridgeCall)
    → lookup id (run (new_bridge cfg) es).calls_by_id ≡ some call
    → lookup other (run (new_bridge cfg) es).calls_by_id ≡ some call'
    → call.route_key ≡ call'.route_key
    → id ≡ other
one_call_per_route cfg es id other call call' e e' same =
    let v =
      run-HoldsLocks (new_bridge cfg) es (λ i c h. absurd (unfold lookup in ground (arith, h))) in
    ground (arith, v id call e, v other call' e', same)
