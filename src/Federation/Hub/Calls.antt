-- ===== src/Federation/Hub/Calls.antt =====
-- internal/federation/hub.go: what the hub sends for the Brew service, and the routes of calls. `new_id`
-- and `now` are what `NewMessageID` and the clock give; `choices` are those of Go's `select`.
use freetetra.Prelude.{ℕ, Bool, true, false, List, [], ◌∷◌, Option, none, some, if◌then◌else◌}
use freetetra.Prelude.Maps.{lookup, insert, delete, text_key}
use freetetra.Federation.Peer.{accepted, canceled, send_control}
use freetetra.Federation.Hub.{
  Hub, Payload, Action, action_unspecified, action_register, action_deregister, action_affiliate,
  action_deaffiliate, subscriber_update, affiliate_update, call_start, call_end, call_reply,
  sds_relay, station_update, position_sample, store, send_each, control_to, voice_to,
  broadcast_to_all_peers, outgoing, is_federated_gssi, find_peer_for_issi,
}
use Prim.Native.String.{String, ◌++◌ as text_append}
use text.Mathlib.Text.{◌==◌ as str_eq}

unfoldable pub subscriber_action : String → Action
subscriber_action action =
    if str_eq action "register"
    then action_register
    else if str_eq action "deregister"
    then action_deregister
    else action_unspecified

unfoldable pub affiliate_action : String → Action
affiliate_action action =
    if str_eq action "affiliate"
    then action_affiliate
    else if str_eq action "deaffiliate"
    then action_deaffiliate
    else action_unspecified

mark_all : List String → List (String × Bool) → List (String × Bool)
unfolding insert
mark_all [] known = known
mark_all (n ∷ ns) known = insert n true (mark_all ns known)

-- `a[id]`, which is made if it is missing, with the names added.
unfoldable pub add_names :
    String
    → List String
    → List (String × List (String × Bool))
    → List (String × List (String × Bool))
unfolding lookup insert mark_all
add_names call_uuid names calls = elim (lookup call_uuid calls) [
  | none ↦ insert call_uuid (mark_all names []) calls
  | some known ↦ insert call_uuid (mark_all names known) calls
]

-- The groups that `BroadcastAffiliate` shares.
unfoldable pub federated_gssis : List ℕ → List ℕ
unfolding is_federated_gssi
federated_gssis [] = []
federated_gssis (g ∷ gssis) =
    let rest = federated_gssis gssis in if is_federated_gssi g then g ∷ rest else rest

-- The peer of a private call: that of the name, or its incoming one.
unfoldable pub peer_of_call : {X : Type 0} → Hub X → String → Option ℕ
unfolding lookup
peer_of_call h peer_name = elim (lookup peer_name h.peers) [
  | some r ↦ some r
  | none ↦ lookup (text_append peer_name ":in") h.peers
]

module _ {X : Type 0} (new_id : String) (now : ℕ) (choices : ℕ → Bool) where
  -- The last steps of the broadcasts.
  unfoldable pub send_out : Hub X → String → Payload X → Hub X
  unfolding outgoing broadcast_to_all_peers
  send_out h origin payload =
      let (h', ctrl) = outgoing h origin payload new_id now in
      broadcast_to_all_peers h' ctrl choices

  unfoldable pub broadcast_subscriber : Hub X → ℕ → String → List ℕ → Hub X
  unfolding send_out subscriber_action
  broadcast_subscriber h issi action gssis =
      send_out h h.server_name (subscriber_update (subscriber_action action) issi gssis)

  unfoldable pub broadcast_affiliate : Hub X → ℕ → String → List ℕ → Hub X
  unfolding send_out affiliate_action federated_gssis
  broadcast_affiliate h issi action gssis = elim (federated_gssis gssis) [
    | [] ↦ h
    | g ∷ rest ↦
        send_out h h.server_name (affiliate_update (affiliate_action action) issi (g ∷ rest))
  ]

  unfoldable pub broadcast_call_start :
      Hub X → String → (source_issi dest_gssi priority service : ℕ) → Hub X
  unfolding outgoing send_each add_names is_federated_gssi
  broadcast_call_start h call_uuid source_issi dest_gssi priority service =
      if is_federated_gssi dest_gssi
      then (let (h', ctrl) =
            outgoing h h.server_name (call_start call_uuid source_issi dest_gssi 0 priority service)
              new_id now in
          let (heap, names) =
            send_each (control_to ctrl choices) (λ _. false) h'.heap [] h'.peers in
          record h' { heap = heap; active_calls = add_names call_uuid names h'.active_calls })
      else h

  unfoldable pub broadcast_station : Hub X → String → X → Hub X
  unfolding send_out
  broadcast_station h origin station =
      send_out h (if str_eq origin "" then h.server_name else origin) (station_update station)

  unfoldable pub broadcast_position_sample : Hub X → ℕ → X → String → Hub X
  unfolding send_out
  broadcast_position_sample h issi place tmo_site =
      send_out h h.server_name (position_sample issi place tmo_site)

  unfoldable pub broadcast_call_end : Hub X → String → ℕ → Hub X
  unfolding send_out
  broadcast_call_end h call_uuid cause =
      send_out (record h { active_calls = delete call_uuid h.active_calls }) h.server_name
        (call_end call_uuid cause)

  unfoldable pub broadcast_voice_frame : Hub X → String → List ℕ → Hub X
  unfolding send_each
  broadcast_voice_frame h call_uuid content = record h {
    heap = (send_each (voice_to call_uuid content choices) (λ _. false) h.heap [] h.peers).0;
  }

  -- The data is what `hex.DecodeString` gave, or `none` for an error.
  unfoldable pub broadcast_sds : Hub X → ℕ → ℕ → Option (List ℕ) → Hub X
  unfolding send_out
  broadcast_sds h source_issi dest_issi sds_data = elim sds_data [
    | none ↦ h
    | some raw ↦ send_out h h.server_name (sds_relay source_issi dest_issi raw)
  ]

  unfoldable pub route_call_start_to_peer_for_issi :
      Hub X → String → (source_issi dest_issi priority service : ℕ) → Hub X × Option String
  unfolding find_peer_for_issi outgoing store insert
  route_call_start_to_peer_for_issi h call_uuid source_issi dest_issi priority service =
      elim (find_peer_for_issi h dest_issi) [
        | none ↦ (h, none)
        | some r ↦
            let (h', ctrl) =
              outgoing h h.server_name
                (call_start call_uuid source_issi 0 dest_issi priority service) new_id now in
            let name = (h.heap r).name in
            (
              record h' {
                heap = store h'.heap r (control_to ctrl choices r (h'.heap r));
                private_calls = insert call_uuid name h'.private_calls;
              },
              some name,
            )
      ]

  unfoldable pub route_voice_frame_for_call : Hub X → String → List ℕ → Hub X
  unfolding lookup peer_of_call store broadcast_voice_frame
  route_voice_frame_for_call h call_uuid content = elim (lookup call_uuid h.private_calls) [
    | none ↦ broadcast_voice_frame h call_uuid content
    | some peer_name ↦ elim (peer_of_call h peer_name) [
      | none ↦ h
      | some r ↦ record h {
        heap = store h.heap r (voice_to call_uuid content choices r (h.heap r));
      }
    ]
  ]

  unfoldable pub route_call_end_for_call : Hub X → String → ℕ → Hub X
  unfolding lookup delete peer_of_call store broadcast_call_end outgoing
  route_call_end_for_call h call_uuid cause =
      let h' = record h { private_calls = delete call_uuid h.private_calls } in
      elim (lookup call_uuid h.private_calls) [
        | none ↦ broadcast_call_end h' call_uuid cause
        | some peer_name ↦ elim (peer_of_call h' peer_name) [
          | none ↦ h'
          | some r ↦
              let (h'', ctrl) = outgoing h' h'.server_name (call_end call_uuid cause) new_id now in
              record h'' { heap = store h''.heap r (control_to ctrl choices r (h''.heap r)) }
        ]
      ]

  unfoldable pub route_call_reply_for_call : Hub X → String → ℕ → ℕ → Hub X × Bool
  unfolding lookup peer_of_call store outgoing send_control
  route_call_reply_for_call h call_uuid state cause = elim (lookup call_uuid h.private_calls) [
    | none ↦ (h, false)
    | some peer_name ↦ elim (peer_of_call h peer_name) [
      | none ↦ (h, false)
      | some r ↦
          let (h', ctrl) = outgoing h h.server_name (call_reply call_uuid state cause) new_id now in
          let (p, sent) = send_control (h'.heap r) ctrl (choices r) in
          (record h' { heap = store h'.heap r p }, elim sent [ accepted ↦ true | canceled ↦ false ])
    ]
  ]
