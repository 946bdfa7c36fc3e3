-- ===== src/Service/Netstack/Steps.antt =====
-- internal/service/netstack_bridge.go: frames and state changes keep the locks in order.
use freetetra.Prelude.{
  ℕ, ◌+◌, ◌%◌, ◌<◌, ◌≤◌, ◌++◌, ◌≡◌, refl, subst, ◌⊎◌, arith, true, false, List, [], ◌∷◌, Option,
  none, some, Option-cases, inl, inr,
}
use freetetra.Prelude.Maps.{lookup, text_key, lookup-insert}
use freetetra.Service.Netstack.{
  Bridge, BridgeCall, CallState, activating, active, pending_max_age, route_timeout,
  touch_route_lock, drop_call, set_call, min_traffic_frames, transition_call_state,
  on_traffic_frame, mark_call_activated,
}
use freetetra.Service.Netstack.Locks.{
  HoldsLocks, drop_call-HoldsLocks, set_call-HoldsLocks, touch_route_lock-HoldsLocks,
  arm_route_lock-HoldsLocks, touch_route_lock_lem, ttl_lem,
}
use Prim.Native.String.{String}
use text.Mathlib.TextEquality.{eq_iff}

-- What a transition leaves, and the call that it found.
pub transition_call_state-HoldsLocks :
    (b : Bridge) (id : String) (next : CallState) (now : ℕ)
    → HoldsLocks b
    → HoldsLocks (transition_call_state b id next now).0
unfolding transition_call_state
transition_call_state-HoldsLocks b id next now v = elim (Option-cases (lookup id b.calls_by_id)) [
  | inl e ↦ rw (e, transition_call_state) v
  | inr (call, e) ↦
      let call' : BridgeCall = record call { state = next; last_event_at = now } in
      rw (e, transition_call_state)
        (touch_route_lock-HoldsLocks (set_call b id call') call.route_key call.netstack_id now
          (set_call-HoldsLocks b id call call' v e refl refl))
]

-- The call with a frame more.
abbrev pub counted : BridgeCall → ℕ → BridgeCall
counted call now = record call {
  frame_count = (call.frame_count + 1) % 0x1_0000_0000_0000_0000;
  last_event_at = now;
}

-- A call that is found is dropped, goes on, waits for more frames, or is to be activated.
pub on_traffic_frame-cases :
    (b : Bridge) (id : String) (frame : List ℕ) (now : ℕ) (call : BridgeCall)
    → lookup id b.calls_by_id ≡ some call
    → ((on_traffic_frame b id frame now
          ≡ (drop_call (set_call b id (counted call now)) (counted call now), none))
        × (call.started ≡ false)
        × (call.created_at + pending_max_age b < now))
      ⊎ ((on_traffic_frame b id frame now ≡ (
        touch_route_lock (set_call b id (counted call now)) call.route_key call.netstack_id now,
        some (counted call now, none),
      ))
          × (call.started ≡ true))
      ⊎ ((on_traffic_frame b id frame now ≡ (
        set_call b id
            (record (counted call now) { pending_frames = call.pending_frames ++ (frame ∷ []) }),
        some (
          record (counted call now) { pending_frames = call.pending_frames ++ (frame ∷ []) },
          none,
        ),
      ))
          × (call.started ≡ false)
          × ((counted call now).frame_count < min_traffic_frames b))
      ⊎ ((on_traffic_frame b id frame now ≡ (
        set_call b id (record (counted call now) { pending_frames = []; state = activating }),
        some (
          record (counted call now) { pending_frames = []; state = activating },
          some (call.pending_frames ++ (frame ∷ [])),
        ),
      ))
          × (call.started ≡ false)
          × (min_traffic_frames b ≤ (counted call now).frame_count))
unfolding on_traffic_frame
on_traffic_frame-cases b id frame now call e = ground (arith, e)

pub on_traffic_frame-HoldsLocks :
    (b : Bridge) (id : String) (frame : List ℕ) (now : ℕ)
    → HoldsLocks b
    → HoldsLocks (on_traffic_frame b id frame now).0
on_traffic_frame-HoldsLocks b id frame now v = elim (Option-cases (lookup id b.calls_by_id)) [
  | inl e ↦ unfold on_traffic_frame in rw (e, on_traffic_frame) v
  | inr (call, e) ↦
      let keeps = λ (call' : BridgeCall). set_call-HoldsLocks b id call call' v e in
      let own_id = (v id call e).0 in
      elim (on_traffic_frame-cases b id frame now call e) [
        | inl (p, _, _) ↦ rw p (
            drop_call-HoldsLocks (set_call b id (counted call now)) (counted call now)
              (keeps (counted call now) refl refl)
              (unfold set_call in
                ground (
                  arith,
                  own_id,
                  lookup-insert id call.netstack_id (counted call now) b.calls_by_id,
                  eq_iff id call.netstack_id,
                )))
        | inr (inl (p, _)) ↦ rw p (
            touch_route_lock-HoldsLocks (set_call b id (counted call now)) call.route_key
              call.netstack_id now (keeps (counted call now) refl refl))
        | inr (inr (inl (p, _, _))) ↦ rw p (keeps _ refl refl)
        | inr (inr (inr (p, _, _))) ↦ rw p (keeps _ refl refl)
      ]
]

pub mark_call_activated-HoldsLocks :
    (b : Bridge) (id : String) (now : ℕ) → HoldsLocks b → HoldsLocks (mark_call_activated b id now)
unfolding mark_call_activated
mark_call_activated-HoldsLocks b id now v = elim (Option-cases (lookup id b.calls_by_id)) [
  | inl e ↦ rw (e, mark_call_activated) v
  | inr (call, e) ↦
      let call' : BridgeCall = record call {
        started = true;
        state = active;
        last_event_at = now;
      } in
      let (own_id, held) = v id call e in
      rw (e, mark_call_activated)
        (arm_route_lock-HoldsLocks (set_call b id call') call.route_key call.netstack_id now
          (route_timeout b) (set_call-HoldsLocks b id call call' v e refl refl)
          (unfold set_call in rw own_id held) (ttl_lem b).1)
]

set_call-own :
    (b : Bridge) (id : String) (call : BridgeCall)
    → call.netstack_id ≡ id
    → lookup call.netstack_id (set_call b id call).calls_by_id ≡ some call
unfolding set_call
set_call-own b id call e =
    ground
      (arith, e, lookup-insert id call.netstack_id call b.calls_by_id, eq_iff id call.netstack_id)

touch-set_call-own :
    (b : Bridge) (id key holder_id : String) (call : BridgeCall) (now : ℕ)
    → call.netstack_id ≡ id
    → lookup call.netstack_id (touch_route_lock (set_call b id call) key holder_id now).calls_by_id
      ≡ some call
touch-set_call-own b id key holder_id call now e =
    rw ((touch_route_lock_lem (set_call b id call) key holder_id "" now).0)
      (set_call-own b id call e)

-- The call that a transition or a frame finds stands under its id afterwards.
pub transition_call_state-found :
    (b : Bridge) (id : String) (next : CallState) (now : ℕ) (found : BridgeCall)
    → HoldsLocks b
    → (transition_call_state b id next now).1 ≡ some found
    → lookup found.netstack_id (transition_call_state b id next now).0.calls_by_id ≡ some found
unfolding transition_call_state
transition_call_state-found b id next now found v h =
    elim (Option-cases (lookup id b.calls_by_id)) [
      | inl e ↦ absurd (ground (arith, h, e))
      | inr (call, e) ↦
          let call' : BridgeCall = record call { state = next; last_event_at = now } in
          let is_call : call' ≡ found = ground (arith, h, e) in
          subst
            (λ f. lookup f.netstack_id (transition_call_state b id next now).0.calls_by_id ≡ some f)
            is_call
            (rw (e, transition_call_state)
              (touch-set_call-own b id call.route_key call.netstack_id call' now (v id call e).0))
    ]

pub on_traffic_frame-found :
    (b : Bridge) (id : String) (frame : List ℕ) (now : ℕ) (call : BridgeCall)
    (flush : Option (List (List ℕ)))
    → HoldsLocks b
    → (on_traffic_frame b id frame now).1 ≡ some (call, flush)
    → lookup call.netstack_id (on_traffic_frame b id frame now).0.calls_by_id ≡ some call
on_traffic_frame-found b id frame now call flush v h =
    elim (Option-cases (lookup id b.calls_by_id)) [
      | inl e ↦ absurd (unfold on_traffic_frame in ground (arith, h, e))
      | inr (old, e) ↦
          let own_id = (v id old e).0 in
          let own = λ (c : BridgeCall) (q : c.netstack_id ≡ id). set_call-own b id c q in
          elim (on_traffic_frame-cases b id frame now old e) [
            | inl (p, _, _) ↦ absurd (ground (arith, h, p))
            | inr (inl (p, _)) ↦
                let is_call : counted old now ≡ call = ground (arith, h, p) in
                subst
                  (λ f.
                    lookup f.netstack_id (on_traffic_frame b id frame now).0.calls_by_id ≡ some f)
                  is_call
                  (rw p (
                    touch-set_call-own b id old.route_key old.netstack_id (counted old now) now
                      own_id))
            | inr (inr (inl (p, _, _))) ↦
                let pending : BridgeCall = record (counted old now) {
                  pending_frames = old.pending_frames ++ (frame ∷ []);
                } in
                let is_call : pending ≡ call = ground (arith, h, p) in
                subst
                  (λ f.
                    lookup f.netstack_id (on_traffic_frame b id frame now).0.calls_by_id ≡ some f)
                  is_call (rw p (own pending own_id))
            | inr (inr (inr (p, _, _))) ↦
                let flushed : BridgeCall = record (counted old now) {
                  pending_frames = [];
                  state = activating;
                } in
                let is_call : flushed ≡ call = ground (arith, h, p) in
                subst
                  (λ f.
                    lookup f.netstack_id (on_traffic_frame b id frame now).0.calls_by_id ≡ some f)
                  is_call (rw p (own flushed own_id))
          ]
    ]
