-- ===== src/Service/Netstack/Messages.antt =====
-- internal/service/netstack_bridge.go: the messages about calls and traffic, and the timeouts.
use freetetra.Prelude.{
  ℕ, Bool, true, false, List, [], ◌∷◌, ◌++◌, Option, none, some, ltb, if◌then◌else◌,
}
use freetetra.Prelude.Maps.{lookup, delete, text_key}
use freetetra.Service.Netstack.{
  Bridge, BridgeCall, RouteLock, Request, start_call, idle_call, release_call, voice_frame,
  tx_ceased, released, drop_call_no_lock, drop_call, transition_call_state, on_traffic_frame,
  mark_call_activated, register_pending_call,
}
use Prim.Native.String.{String}

-- One round of the loop of `evictExpiredCalls`, for a route: its lock goes if it has expired, and
-- with it the call that holds it. The result names that call.
unfoldable pub evict_route : Bridge → String → ℕ → Bridge × Option BridgeCall
unfolding lookup delete drop_call_no_lock
evict_route b route now = elim (lookup route b.route_locks) [
  | none ↦ (b, none)
  | some lock ↦
      let unlocked = record b { route_locks = delete route b.route_locks } in
      if ltb now lock.expires_at then (b, none) else elim (lookup lock.call_id b.calls_by_id) [
        | none ↦ (unlocked, none)
        | some call ↦
            let b' = drop_call_no_lock b call in
            (record b' { route_locks = delete route b'.route_locks }, some call)
      ]
]

-- The service hears of the calls that had started.
unfoldable pub release_of : Option BridgeCall → List Request
release_of none = []
release_of (some call) = if call.started then release_call call.brew_id ∷ [] else []

unfoldable pub evict_routes : Bridge → List String → ℕ → Bridge × List Request
unfolding evict_route release_of
evict_routes b [] now = (b, [])
evict_routes b (route ∷ routes) now =
    let (b', gone) = evict_route b route now in
    let (b'', requests) = evict_routes b' routes now in (b'', release_of gone ++ requests)

abbrev pub routes_of : List (String × RouteLock) → List String
routes_of [] = []
routes_of ((route, _) ∷ locks) = route ∷ routes_of locks

unfoldable pub evict_expired_calls : Bridge → ℕ → Bridge × List Request
unfolding evict_routes
evict_expired_calls b now = evict_routes b (routes_of b.route_locks) now

unfoldable pub releases_of : List BridgeCall → List Request
unfolding release_of
releases_of [] = []
releases_of (call ∷ calls) = release_of (some call) ++ releases_of calls

-- The modes `new`, `tx-ceased` and `released` of `onCallMessage`, after the eviction at its start.
unfoldable pub on_new : Bridge → BridgeCall → ℕ → Bridge × List Request
unfolding register_pending_call releases_of
on_new b session now =
    let (b', added, stale, blocker) = register_pending_call b session now in (b', releases_of stale)

unfoldable pub on_tx_ceased : Bridge → String → ℕ → Bridge × List Request
unfolding transition_call_state drop_call
on_tx_ceased b call_id now =
    let (b', found) = transition_call_state b call_id tx_ceased now in
    elim found [
      | none ↦ (b', [])
      | some session ↦
          if session.started
          then (b', idle_call session.brew_id ∷ [])
          else (drop_call b' session, [])
    ]

unfoldable pub on_released : Bridge → String → ℕ → Bridge × List Request
unfolding transition_call_state drop_call
on_released b call_id now =
    let (b', found) = transition_call_state b call_id released now in
    elim found [
      | none ↦ (b', [])
      | some session ↦
          (drop_call b' session, if session.started then release_call session.brew_id ∷ [] else [])
    ]

unfoldable pub voice_frames : String → List (List ℕ) → List Request
voice_frames brew_id [] = []
voice_frames brew_id (frame ∷ frames) = voice_frame brew_id frame ∷ voice_frames brew_id frames

-- The loop of `onTrafficMessage` over the frames, each with its time. `accepts` is the answer of
-- `netstackStartCall`.
unfoldable pub on_traffic_frames :
    Bridge → String → Bool → List (List ℕ × ℕ) → Bridge × List Request
unfolding on_traffic_frame mark_call_activated drop_call voice_frames
on_traffic_frames b call_id accepts [] = (b, [])
on_traffic_frames b call_id accepts ((frame, now) ∷ frames) =
    let (b1, got) = on_traffic_frame b call_id frame now in
    elim got [
      | none ↦ (b1, [])
      | some (call, none) ↦
          let (b3, requests) = on_traffic_frames b1 call_id accepts frames in
          (b3, if call.started then voice_frame call.brew_id frame ∷ requests else requests)
      | some (call, some flush) ↦
          let start = start_call call.brew_id call.source_issi call.brew_gssi in
          elim accepts [
            | false ↦ (drop_call b1 call, start ∷ [])
            | true ↦
                let b2 = mark_call_activated b1 call.netstack_id now in
                let (b3, requests) = on_traffic_frames b2 call_id true frames in
                (b3, start ∷ (voice_frames call.brew_id flush ++ requests))
          ]
    ]

-- `onTrafficMessage` after the eviction at its start and the decoding: the call is found by the id
-- of its traffic.
unfoldable pub on_traffic_message :
    Bridge → String → Bool → List (List ℕ × ℕ) → Bridge × List Request
unfolding lookup on_traffic_frames
on_traffic_message b traffic_id accepts frames = elim (lookup traffic_id b.calls_by_traffic) [
  | none ↦ (b, [])
  | some call_id ↦ on_traffic_frames b call_id accepts frames
]
