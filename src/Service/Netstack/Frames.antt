-- ===== src/Service/Netstack/Frames.antt =====
-- internal/service/netstack_bridge.go: what becomes of the frames of a call.
use freetetra.Prelude.{
  ℕ, ◌+◌, ◌<◌, ◌≤◌, ◌++◌, ◌%◌, suc, ◌≡◌, refl, ap, ◌∙◌, arith, true, false, List, [], ◌∷◌, none,
  some, ltb, if◌then◌else◌, inl, inr, length, map,
}
use freetetra.Prelude.Maps.{lookup, text_key, lookup-insert}
use freetetra.Service.Netstack.{
  Bridge, BridgeCall, Request, start_call, voice_frame, active, activating, pending_max_age,
  route_timeout, min_traffic_frames, set_call, on_traffic_frame, mark_call_activated,
}
use freetetra.Service.Netstack.Messages.{voice_frames, on_traffic_frames, on_traffic_message}
use freetetra.Service.Netstack.Locks.{touch_route_lock_lem, arm_route_lock_lem, ttl_lem}
use freetetra.Service.Netstack.Steps.{counted, on_traffic_frame-cases}
use mathlib.Core.List.{append_assoc}
use Prim.Native.String.{String}
use text.Mathlib.TextEquality.{eq_iff}

-- The frames without their times.
abbrev pub bare : List (List ℕ × ℕ) → List (List ℕ)
bare frames = map (λ f. f.0) frames

-- No frame comes after the time.
unfoldable pub IsBy : ℕ → List (List ℕ × ℕ) → Type 0
IsBy limit [] = 0 ≤ limit
IsBy limit ((_, now) ∷ frames) = (now ≤ limit) × IsBy limit frames

voice_frames-append :
    (id : String) (xs ys : List (List ℕ))
    → voice_frames id (xs ++ ys) ≡ voice_frames id xs ++ voice_frames id ys
unfolding voice_frames
voice_frames-append id [] ys = refl
voice_frames-append id (x ∷ xs) ys = ap (λ r. voice_frame id x ∷ r) (voice_frames-append id xs ys)

set_call-here :
    (b : Bridge) (id : String) (call : BridgeCall)
    → lookup id (set_call b id call).calls_by_id ≡ some call
unfolding set_call
set_call-here b id call = ground (arith, lookup-insert id id call b.calls_by_id, eq_iff id id)

-- What a frame does to a call that has started.
on_traffic_frame-started :
    (b : Bridge) (id : String) (frame : List ℕ) (now : ℕ) (call : BridgeCall)
    → lookup id b.calls_by_id ≡ some call
    → call.started ≡ true
    → ((on_traffic_frame b id frame now).1 ≡ some (counted call now, none))
      × (lookup id (on_traffic_frame b id frame now).0.calls_by_id ≡ some (counted call now))
on_traffic_frame-started b id frame now call e s =
    elim (on_traffic_frame-cases b id frame now call e) [
      | inl (_, idle, _) ↦ absurd (ground (arith, s, idle))
      | inr (inl (p, _)) ↦ rw p (
        refl,
        rw
            ((touch_route_lock_lem (set_call b id (counted call now)) call.route_key
              call.netstack_id "" now).0)
            (set_call-here b id (counted call now)),
      )
      | inr (inr (inl (_, idle, _))) ↦ absurd (ground (arith, s, idle))
      | inr (inr (inr (_, idle, _))) ↦ absurd (ground (arith, s, idle))
    ]

-- A call that has started passes every frame on, in order.
on_traffic_frames-started :
    (b : Bridge) (id : String) (frames : List (List ℕ × ℕ)) (call : BridgeCall)
    → lookup id b.calls_by_id ≡ some call
    → call.started ≡ true
    → (on_traffic_frames b id true frames).1 ≡ voice_frames call.brew_id (bare frames)
unfolding on_traffic_frames voice_frames
on_traffic_frames-started b id [] call e s = refl
on_traffic_frames-started b id ((frame, now) ∷ frames) call e s =
    let (found, there) = on_traffic_frame-started b id frame now call e s in
    rw (found, on_traffic_frames, s)
      (ap (λ r. voice_frame call.brew_id frame ∷ r)
        (on_traffic_frames-started (on_traffic_frame b id frame now).0 id frames (counted call now)
          there s))

-- The call that is activated stands under its id, started, for the same call of the service.
mark_call_activated-here :
    (b : Bridge) (id : String) (call : BridgeCall) (now : ℕ)
    → lookup id b.calls_by_id ≡ some call
    → lookup id (mark_call_activated b id now).calls_by_id
      ≡ some (record call { started = true; state = active; last_event_at = now })
unfolding mark_call_activated
mark_call_activated-here b id call now e =
    let call' : BridgeCall = record call { started = true; state = active; last_event_at = now } in
    rw (e, mark_call_activated)
      (rw
        ((arm_route_lock_lem (set_call b id call') call.route_key call.netstack_id "" now
          (route_timeout b) (ttl_lem b).1).0)
        (set_call-here b id call'))

same_cfg :
    (b : Bridge) (id : String) (call : BridgeCall)
    → (min_traffic_frames (set_call b id call) ≡ min_traffic_frames b)
      × (pending_max_age (set_call b id call) ≡ pending_max_age b)
unfolding set_call min_traffic_frames pending_max_age
same_cfg b id call = (refl, refl)

-- The call with one frame more, which waits.
abbrev waiting : BridgeCall → List ℕ → ℕ → BridgeCall
waiting call frame now = record (counted call now) {
  pending_frames = call.pending_frames ++ (frame ∷ []);
}

-- What the service hears of a call that waits, from the frames that come.
abbrev heard : ℕ → BridgeCall → List (List ℕ × ℕ) → List Request
heard least call frames =
    if ltb (call.frame_count + length frames) least
    then []
    else start_call call.brew_id call.source_issi call.brew_gssi
      ∷ voice_frames call.brew_id (call.pending_frames ++ bare frames)

heard-waiting :
    (least : ℕ) (call : BridgeCall) (frame : List ℕ) (now : ℕ) (frames : List (List ℕ × ℕ))
    → call.frame_count + suc (length frames) < 0x1_0000_0000_0000_0000
    → heard least (waiting call frame now) frames ≡ heard least call ((frame, now) ∷ frames)
heard-waiting least call frame now frames small =
    let total : (call.frame_count + 1) % 0x1_0000_0000_0000_0000 + length frames
        ≡ call.frame_count + suc (length frames) =
      omega (arith, small) in
    rw (total, append_assoc call.pending_frames (frame ∷ []) (bare frames)) refl

heard-all :
    (least : ℕ) (call : BridgeCall) (frame : List ℕ) (now : ℕ) (frames : List (List ℕ × ℕ))
    → least ≤ call.frame_count + suc (length frames)
    → (start_call call.brew_id call.source_issi call.brew_gssi
        ∷ (voice_frames call.brew_id (call.pending_frames ++ (frame ∷ []))
            ++ voice_frames call.brew_id (bare frames)))
      ≡ heard least call ((frame, now) ∷ frames)
heard-all least call frame now frames h =
    rw
      (
        ← voice_frames-append call.brew_id (call.pending_frames ++ (frame ∷ [])) (bare frames),
        append_assoc call.pending_frames (frame ∷ []) (bare frames),
      )
      (ground (arith, h))

-- A call that waits says nothing of the frame.
on_traffic_frames-next :
    (b b' : Bridge) (id : String) (frame : List ℕ) (now : ℕ) (frames : List (List ℕ × ℕ))
    (call : BridgeCall)
    → on_traffic_frame b id frame now ≡ (b', some (call, none))
    → call.started ≡ false
    → (on_traffic_frames b id true ((frame, now) ∷ frames)).1
      ≡ (on_traffic_frames b' id true frames).1
unfolding on_traffic_frames
on_traffic_frames-next b b' id frame now frames call p idle =
    rw (ap (λ r. r.1) p, ap (λ r. r.0) p, idle, on_traffic_frames) refl

-- A call that is activated is announced, its frames that wait are sent, and the rest follows.
on_traffic_frames-activates :
    (b b' : Bridge) (id : String) (frame : List ℕ) (now : ℕ) (frames : List (List ℕ × ℕ))
    (call : BridgeCall) (flush : List (List ℕ))
    → on_traffic_frame b id frame now ≡ (b', some (call, some flush))
    → (on_traffic_frames b id true ((frame, now) ∷ frames)).1
      ≡ start_call call.brew_id call.source_issi call.brew_gssi
        ∷ (voice_frames call.brew_id flush
            ++ (on_traffic_frames (mark_call_activated b' call.netstack_id now) id true frames).1)
unfolding on_traffic_frames
on_traffic_frames-activates b b' id frame now frames call flush p =
    rw (ap (λ r. r.1) p, ap (λ r. r.0) p, on_traffic_frames) refl

on_traffic_frames-waiting :
    (b : Bridge) (call : BridgeCall) (frames : List (List ℕ × ℕ)) (least limit : ℕ)
    → min_traffic_frames b ≡ least
    → call.created_at + pending_max_age b ≡ limit
    → lookup call.netstack_id b.calls_by_id ≡ some call
    → call.started ≡ false
    → IsBy limit frames
    → call.frame_count < least
    → call.frame_count + length frames < 0x1_0000_0000_0000_0000
    → (on_traffic_frames b call.netstack_id true frames).1 ≡ heard least call frames
unfolding on_traffic_frames IsBy
on_traffic_frames-waiting b call [] least limit l m e idle by few small = ground arith
on_traffic_frames-waiting b call ((frame, now) ∷ frames) least limit l m e idle (soon, by) few
      small =
    let id = call.netstack_id in
    let here = set_call-here b id in
    elim (on_traffic_frame-cases b id frame now call e) [
      | inl (_, _, late) ↦ absurd (omega (arith, late, m, soon))
      | inr (inl (_, on)) ↦ absurd (ground (arith, on, idle))
      | inr (inr (inl (p, _, below))) ↦
          let b' = set_call b id (waiting call frame now) in
          let (l', m') = same_cfg b id (waiting call frame now) in
          let ih =
            on_traffic_frames-waiting b' (waiting call frame now) frames least limit (l' ∙ l)
              (ap (λ a. call.created_at + a) m' ∙ m) (here (waiting call frame now)) idle by
              (rw (← l) below) (omega arith) in
          on_traffic_frames-next b b' id frame now frames (waiting call frame now) p idle
          ∙ (ih ∙ heard-waiting least call frame now frames small)
      | inr (inr (inr (p, _, reached))) ↦
          let activating' : BridgeCall = record (counted call now) {
            pending_frames = [];
            state = activating;
          } in
          let started =
            mark_call_activated-here (set_call b id activating') id activating' now
              (here activating') in
          let rest =
            on_traffic_frames-started (mark_call_activated (set_call b id activating') id now) id
              frames (record activating' { started = true; state = active; last_event_at = now })
              started refl in
          on_traffic_frames-activates b (set_call b id activating') id frame now frames activating'
            (call.pending_frames ++ (frame ∷ [])) p
          ∙ (ap
                (λ r.
                  start_call call.brew_id call.source_issi call.brew_gssi
                  ∷ (voice_frames call.brew_id (call.pending_frames ++ (frame ∷ [])) ++ r))
                rest
              ∙ heard-all least call frame now frames (omega (arith, l, reached, small)))
    ]

-- A traffic message for a call that waits for frames, where no frame comes after the pending age, the
-- count stays in its integer and the service accepts the call: if the frames do not reach the least
-- number the service hears nothing, and otherwise it hears the start of the call, then every frame that
-- had come before and every frame of the message, once and in order.
pub on_traffic_message-delivers :
    (b : Bridge) (traffic_id : String) (call : BridgeCall) (frames : List (List ℕ × ℕ))
    → lookup traffic_id b.calls_by_traffic ≡ some call.netstack_id
    → lookup call.netstack_id b.calls_by_id ≡ some call
    → call.started ≡ false
    → IsBy (call.created_at + pending_max_age b) frames
    → call.frame_count < min_traffic_frames b
    → call.frame_count + length frames < 0x1_0000_0000_0000_0000
    → (on_traffic_message b traffic_id true frames).1 ≡ (
        if ltb (call.frame_count + length frames) (min_traffic_frames b)
        then []
        else start_call call.brew_id call.source_issi call.brew_gssi
          ∷ voice_frames call.brew_id (call.pending_frames ++ bare frames))
unfolding on_traffic_message
on_traffic_message-delivers b traffic_id call frames t e idle by few small =
    rw (t, on_traffic_message)
      (on_traffic_frames-waiting b call frames (min_traffic_frames b)
        (call.created_at + pending_max_age b) refl refl e idle by few small)
