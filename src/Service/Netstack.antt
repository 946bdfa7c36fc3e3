-- ===== src/Service/Netstack.antt =====
-- internal/service/netstack_bridge.go: the calls that come from a netstack over MQTT. Times are
-- nanoseconds; `now` is the clock. A call is reached through its id, so the map holds it, and
-- `callsByTraffic` holds ids.
pub mod Messages
pub mod Locks
pub mod Steps
pub mod Register
pub mod Exclusive
pub mod Frames
pub mod Codec
pub mod Ste
mod Tests
use freetetra.Prelude.{
  ℕ, ◌+◌, ◌%◌, Bool, true, false, ◌&&◌, not, List, [], ◌∷◌, ◌++◌, Option, none, some, ltb, ◌==◌,
  if◌then◌else◌,
}
use freetetra.Prelude.Maps.{lookup, insert, delete, text_key}
use Prim.Native.String.{String}
use text.Mathlib.Text.{◌==◌ as str_eq}

pub data CallState : Type 0 where
  new tx_ceased released activating active : CallState

pub record BridgeCall : Type 0 where
  pub netstack_id : String
  pub brew_id : String
  pub source_issi : ℕ
  pub brew_gssi : ℕ
  pub traffic_id : String
  pub state : CallState
  pub created_at : ℕ
  pub last_event_at : ℕ
  pub frame_count : ℕ
  pub route_key : String
  pub started : Bool
  pub pending_frames : List (List ℕ)

pub record RouteLock : Type 0 where
  pub call_id : String
  pub expires_at : ℕ

-- The configured values; 0 stands for all that are not positive.
pub record Config : Type 0 where
  pub min_traffic_frames : ℕ
  pub pending_max_age : ℕ
  pub route_call_timeout : ℕ

pub record Bridge : Type 0 where
  pub cfg : Config
  pub calls_by_id : List (String × BridgeCall)
  pub calls_by_traffic : List (String × String)
  pub route_locks : List (String × RouteLock)

-- The calls of the service: `netstackStartCall` and the others.
pub data Request : Type 0 where
  start_call : String → ℕ → ℕ → Request
  idle_call : String → Request
  release_call : String → Request
  voice_frame : String → List ℕ → Request

unfoldable pub min_traffic_frames : Bridge → ℕ
min_traffic_frames b = if ltb b.cfg.min_traffic_frames 1 then 1 else b.cfg.min_traffic_frames

unfoldable pub route_timeout : Bridge → ℕ
route_timeout b = if b.cfg.route_call_timeout == 0 then 30_000_000_000 else b.cfg.route_call_timeout

unfoldable pub pending_max_age : Bridge → ℕ
pending_max_age b = if b.cfg.pending_max_age == 0 then 2_000_000_000 else b.cfg.pending_max_age

unfoldable pub touch_route_lock : Bridge → String → String → ℕ → Bridge
unfolding lookup insert route_timeout
touch_route_lock b key call_id now = elim (lookup key b.route_locks) [
  | none ↦ b
  | some lock ↦
      if str_eq lock.call_id call_id
      then record b {
        route_locks = insert key (record lock { expires_at = now + route_timeout b }) b.route_locks;
      }
      else b
]

unfoldable pub arm_route_lock : Bridge → String → String → ℕ → ℕ → Bridge
unfolding insert
arm_route_lock b key call_id now ttl = if ttl == 0 then b else record b {
  route_locks = insert key (record { call_id = call_id; expires_at = now + ttl }) b.route_locks;
}

unfoldable pub release_route_lock : Bridge → String → String → Bridge
unfolding lookup delete
release_route_lock b key call_id = elim (lookup key b.route_locks) [
  | none ↦ b
  | some lock ↦
      if not (str_eq call_id "") && not (str_eq lock.call_id call_id)
      then b
      else record b { route_locks = delete key b.route_locks }
]

unfoldable pub drop_call_no_lock : Bridge → BridgeCall → Bridge
unfolding delete
drop_call_no_lock b call = record b {
  calls_by_id = delete call.netstack_id b.calls_by_id;
  calls_by_traffic =
      if str_eq call.traffic_id ""
      then b.calls_by_traffic
      else delete call.traffic_id b.calls_by_traffic;
}

unfoldable pub drop_call : Bridge → BridgeCall → Bridge
unfolding drop_call_no_lock release_route_lock
drop_call b call = release_route_lock (drop_call_no_lock b call) call.route_key call.netstack_id

-- A write through the pointer to the call that stands under the id.
unfoldable pub set_call : Bridge → String → BridgeCall → Bridge
unfolding insert
set_call b call_id call = record b { calls_by_id = insert call_id call b.calls_by_id }

unfoldable pub transition_call_state : Bridge → String → CallState → ℕ → Bridge × Option BridgeCall
unfolding lookup set_call touch_route_lock
transition_call_state b call_id next now = elim (lookup call_id b.calls_by_id) [
  | none ↦ (b, none)
  | some call ↦
      let call' : BridgeCall = record call { state = next; last_event_at = now } in
      (touch_route_lock (set_call b call_id call') call.route_key call.netstack_id now, some call')
]

-- The result is nothing if the call is missing or was dropped; otherwise the call, and the frames to
-- flush if it is to be activated. `int(call.FrameCount)` is taken as the same number, which it is
-- below 2^63.
unfoldable pub on_traffic_frame :
    Bridge → String → List ℕ → ℕ → Bridge × Option (BridgeCall × Option (List (List ℕ)))
unfolding lookup set_call drop_call touch_route_lock pending_max_age min_traffic_frames
on_traffic_frame b call_id frame now = elim (lookup call_id b.calls_by_id) [
  | none ↦ (b, none)
  | some old ↦
      let call : BridgeCall = record old {
        frame_count = (old.frame_count + 1) % 0x1_0000_0000_0000_0000;
        last_event_at = now;
      } in
      let late = ltb (call.created_at + pending_max_age b) now in
      let pending : BridgeCall = record call {
        pending_frames = call.pending_frames ++ (frame ∷ []);
      } in
      if not call.started && late
      then (drop_call (set_call b call_id call) call, none)
      else if call.started
      then (
        touch_route_lock (set_call b call_id call) call.route_key call.netstack_id now,
        some (call, none),
      )
      else if ltb call.frame_count (min_traffic_frames b)
      then (set_call b call_id pending, some (pending, none))
      else (let activating : BridgeCall = record call { pending_frames = []; state = activating } in
          (set_call b call_id activating, some (activating, some pending.pending_frames)))
]

unfoldable pub mark_call_activated : Bridge → String → ℕ → Bridge
unfolding lookup set_call arm_route_lock route_timeout
mark_call_activated b call_id now = elim (lookup call_id b.calls_by_id) [
  | none ↦ b
  | some call ↦
      arm_route_lock
        (set_call b call_id (record call { started = true; state = active; last_event_at = now }))
        call.route_key call.netstack_id now (route_timeout b)
]

-- The first half of `registerPendingCall`, for a lock of the session's route that another call held
-- and that has expired: the bridge without it, and the call that goes.
unfoldable pub clear_expired : Bridge → BridgeCall → RouteLock → Bridge × List BridgeCall
unfolding lookup delete drop_call_no_lock
clear_expired b session lock = elim (lookup lock.call_id b.calls_by_id) [
  | none ↦ (record b { route_locks = delete session.route_key b.route_locks }, [])
  | some stale ↦
      let b' = drop_call_no_lock b stale in
      (record b' { route_locks = delete session.route_key b'.route_locks }, stale ∷ [])
]

-- The second half: an older call with the same id goes, and the session takes its place.
unfoldable pub put_session : Bridge → BridgeCall → ℕ → Bridge × List BridgeCall
unfolding lookup insert drop_call set_call arm_route_lock pending_max_age
put_session b session now =
    let cleared : Bridge × List BridgeCall = elim (lookup session.netstack_id b.calls_by_id) [
      | none ↦ (b, [])
      | some prev ↦ (drop_call b prev, prev ∷ [])
    ] in
    let b1 = set_call cleared.0 session.netstack_id session in
    let b2 : Bridge = record b1 {
      calls_by_traffic =
          if str_eq session.traffic_id ""
          then b1.calls_by_traffic
          else insert session.traffic_id session.netstack_id b1.calls_by_traffic;
    } in
    (arm_route_lock b2 session.route_key session.netstack_id now (pending_max_age b2), cleared.1)

-- Whether the session was added, and the stale calls. The result `none` names no blocker.
unfoldable pub register_pending_call :
    Bridge → BridgeCall → ℕ → Bridge × Bool × List BridgeCall × Option RouteLock
unfolding lookup clear_expired put_session
register_pending_call b session now =
    let keep = put_session b session now in
    elim (lookup session.route_key b.route_locks) [
      | none ↦ (keep.0, true, keep.1, none)
      | some lock ↦
          let cleared = clear_expired b session lock in
          let rest = put_session cleared.0 session now in
          if str_eq lock.call_id session.netstack_id
          then (keep.0, true, keep.1, none)
          else if ltb now lock.expires_at
          then (b, false, [], some lock)
          else (rest.0, true, cleared.1 ++ rest.1, none)
    ]
