-- ===== src/Federation/Hub/Events.antt =====
-- internal/federation/hub.go: all that happens at a hub, one operation at a time: connections that come
-- and go, the calls of the Brew service, and the messages of the peers.
use freetetra.Prelude.{ℕ, Bool, List, [], ◌∷◌, Option}
use freetetra.Federation.Hub.{Hub, Message, Action}
use freetetra.Federation.Hub.Calls.{
  broadcast_subscriber, broadcast_affiliate, broadcast_call_start, broadcast_station,
  broadcast_position_sample, broadcast_call_end, broadcast_voice_frame, broadcast_sds,
  route_call_start_to_peer_for_issi, route_voice_frame_for_call, route_call_end_for_call,
  route_call_reply_for_call,
}
use freetetra.Federation.Hub.Registry.{register_peer, rename_peer, unregister_peer, pending_timer}
use freetetra.Federation.Hub.Handle.{
  control_gate, handle_sync_response, handle_subscriber_update, handle_affiliate_update,
  handle_call_start, handle_call_end, handle_sds_relay, handle_position_sample,
  handle_station_update,
}
use Prim.Native.String.{String}

-- What an operation takes from outside: the message id that it would make, the clock, and Go's choice
-- at each peer.
pub record Outside : Type 0 where
  pub new_id : String
  pub now : ℕ
  pub choices : ℕ → Bool

pub data Event (X : Type 0) : Type 0 where
  registered unregistered : ℕ → Event X
  renamed : ℕ → String → Event X
  timer_fired : String → ℕ → Event X
  gated : Message X → ℕ → Event X
  own_subscriber : Outside → ℕ → String → List ℕ → Event X
  own_affiliate : Outside → ℕ → String → List ℕ → Event X
  own_call_start : Outside → String → (source_issi dest_gssi priority service : ℕ) → Event X
  own_call_end : Outside → String → ℕ → Event X
  own_voice : Outside → String → List ℕ → Event X
  own_sds : Outside → ℕ → ℕ → Option (List ℕ) → Event X
  own_station : Outside → String → X → Event X
  own_position : Outside → ℕ → X → String → Event X
  route_start : Outside → String → (source_issi dest_issi priority service : ℕ) → Event X
  route_voice : Outside → String → List ℕ → Event X
  route_end : Outside → String → ℕ → Event X
  route_reply : Outside → String → ℕ → ℕ → Event X
  peer_sync : ℕ → List (ℕ × List ℕ) → Event X
  peer_subscriber : Outside → ℕ → Message X → Action → ℕ → List ℕ → Event X
  peer_affiliate : Outside → ℕ → Message X → Action → ℕ → List ℕ → Event X
  peer_start :
      Outside
      → ℕ
      → Message X
      → String
      → (source_issi dest_gssi dest_issi priority service : ℕ) → Event X
  peer_end : Outside → ℕ → Message X → String → ℕ → Event X
  peer_sds : Outside → ℕ → Message X → ℕ → ℕ → List ℕ → Event X
  peer_position : Outside → ℕ → Message X → ℕ → X → String → Event X
  peer_station : Outside → ℕ → Message X → Option X → Event X

module _ {X : Type 0} where
  unfoldable pub step : Hub X → Event X → Hub X
  step h (registered r) = register_peer h r
  step h (unregistered r) = unregister_peer h r
  step h (renamed r name) = rename_peer h r name
  step h (timer_fired key r) = pending_timer h key r
  step h (gated ctrl now) = (control_gate h ctrl now).0
  step h (own_subscriber o issi action gs) =
      broadcast_subscriber o.new_id o.now o.choices h issi action gs
  step h (own_affiliate o issi action gs) =
      broadcast_affiliate o.new_id o.now o.choices h issi action gs
  step h (own_call_start o u s g p v) = broadcast_call_start o.new_id o.now o.choices h u s g p v
  step h (own_call_end o u cause) = broadcast_call_end o.new_id o.now o.choices h u cause
  step h (own_voice o u content) = broadcast_voice_frame o.new_id o.now o.choices h u content
  step h (own_sds o s d content) = broadcast_sds o.new_id o.now o.choices h s d content
  step h (own_station o origin x) = broadcast_station o.new_id o.now o.choices h origin x
  step h (own_position o issi x site) =
      broadcast_position_sample o.new_id o.now o.choices h issi x site
  step h (route_start o u s d p v) =
      (route_call_start_to_peer_for_issi o.new_id o.now o.choices h u s d p v).0
  step h (route_voice o u content) = route_voice_frame_for_call o.new_id o.now o.choices h u content
  step h (route_end o u cause) = route_call_end_for_call o.new_id o.now o.choices h u cause
  step h (route_reply o u state cause) =
      (route_call_reply_for_call o.new_id o.now o.choices h u state cause).0
  step h (peer_sync r subscribers) = handle_sync_response h r subscribers
  step h (peer_subscriber o r ctrl action issi gs) =
      handle_subscriber_update h r ctrl action issi gs o.choices
  step h (peer_affiliate o r ctrl action issi gs) =
      handle_affiliate_update h r ctrl action issi gs o.choices
  step h (peer_start o r ctrl u s g d p v) = (handle_call_start h r ctrl u s g d p v o.choices).0
  step h (peer_end o r ctrl u cause) = (handle_call_end h r ctrl u cause o.choices).0
  step h (peer_sds o r ctrl s d content) = (handle_sds_relay h r ctrl s d content o.choices).0
  step h (peer_position o r ctrl issi x site) =
      (handle_position_sample h r ctrl issi x site o.choices).0
  step h (peer_station o r ctrl x) = (handle_station_update h r ctrl x o.choices).0

  unfoldable pub run : Hub X → List (Event X) → Hub X
  run h [] = h
  run h (e ∷ es) = run (step h e) es
