-- ===== src/Federation/Hub/Tests.antt =====
-- internal/federation/hub.go: the theorems at a hub with two connections to one server and one to
-- another.
use freetetra.Prelude.{
  ℕ, ◌≡◌, ◌≢◌, refl, arith, Bool, true, false, ◌||◌, ◌&&◌, not, List, [], ◌∷◌, none, some, length,
  ◌==◌, if◌then◌else◌,
}
use freetetra.Prelude.Maps.{lookup, insert, delete, text_key, number_key}
use freetetra.Federation.Mesh.{path_has, should_process, passes_guards, mark_passed, already_seen}
use freetetra.Federation.Peer.{
  new_peer, register_issi, remove_member, has_issi, offer, send_control, send_voice_frame,
}
use freetetra.Federation.Hub.{
  Hub, Message, Remote, call_end, action_register, store, send_each, control_to, find_peer,
  find_peer_for_issi, outgoing, broadcast_to_all_peers, relay_to_peers,
}
use freetetra.Federation.Hub.Calls.{
  broadcast_voice_frame, peer_of_call, route_call_start_to_peer_for_issi,
  route_voice_frame_for_call, route_call_end_for_call, broadcast_call_end, send_out,
}
use freetetra.Federation.Hub.Registry.{
  redeem_pending, close_other, close_peer, schedule_pending_cleanup, peer_key, key_of,
  register_peer, unregister_peer, pending_timer,
}
use freetetra.Federation.Hub.Reach.{after_send, broadcast_to_all_peers_lem, relay_to_peers_lem}
use freetetra.Federation.Hub.Events.{
  Outside, Event, registered, unregistered, own_voice, route_start, route_voice, route_end, step,
  run,
}
use freetetra.Federation.Hub.Private.{private_call_lem}
use freetetra.Federation.Hub.Handle.{
  handle_subscriber_update, handle_affiliate_update, control_gate, is_control_plane,
}
use freetetra.Federation.Hub.Updates.{
  subscriber_updated, affiliation_updated, handle_updates_lem, fresh, come_back, control_gate_lem,
}
use freetetra.Federation.Hub.Tables.{HasTablesOf}
use freetetra.Federation.Hub.Redeem.{register_peer-unregister_peer, pending_timer-unregister_peer}
use text.Mathlib.Text.{◌==◌ as str_eq}

abbrev far : Remote ℕ
far = register_issi (new_peer "far" "outgoing") 7 "far"

abbrev peers : ℕ → Remote ℕ
peers r =
    if r == 0
    then far
    else if r == 1
    then new_peer "far" "incoming"
    else if r == 2
    then new_peer "near" "outgoing"
    else new_peer "far" "outgoing"

abbrev hub : Hub ℕ
hub = record {
  server_name = "home";
  heap = peers;
  peers = ("far", 0) ∷ ("far:in", 1) ∷ ("near", 2) ∷ [];
  pending_peers = [];
  active_calls = [];
  private_calls = [];
  known_peers = [];
  mesh = record { server_name = "home"; seen = [] };
}

abbrev hang_up : Message ℕ
hang_up = record {
  origin = "near";
  protocol_version = 0;
  msg_id = "m";
  ttl = 9;
  path = "near" ∷ "home" ∷ [];
  payload = call_end "u" 0;
}

abbrev open_only : ℕ → Bool
open_only _ = false

-- One of the two connections to `far` gets the message.
queued_once :
    (length ((broadcast_to_all_peers hub hang_up open_only).heap 0).send ≡ 1)
    × (length ((broadcast_to_all_peers hub hang_up open_only).heap 1).send ≡ 0)
    × (length ((relay_to_peers hub hang_up "far" open_only).heap 2).send ≡ 0)
unfolding broadcast_to_all_peers relay_to_peers send_each store send_control offer path_has new_peer
    register_issi remove_member insert
queued_once = (refl, refl, refl)

broadcast_to_all_peers_lem_example :
    (broadcast_to_all_peers hub hang_up open_only).heap 2
    ≡ after_send (control_to hang_up open_only) (λ _. false) hub.heap hub.peers 2
broadcast_to_all_peers_lem_example = broadcast_to_all_peers_lem hub hang_up open_only 2

relay_to_peers_lem_example :
    (relay_to_peers hub hang_up "near" open_only).heap 0
    ≡ after_send
        (control_to hang_up open_only)
        (λ name. str_eq "near" name || path_has name hang_up.path)
        hub.heap
        hub.peers
        0
relay_to_peers_lem_example = relay_to_peers_lem hub hang_up "near" open_only 0

abbrev outside : Outside
outside = record { new_id = "id"; now = 5; choices = open_only }

-- Between the start and the end of the call its peer connects anew.
abbrev events : List (Event ℕ)
events = route_voice outside "u" (1 ∷ []) ∷ route_end outside "other" 0 ∷ registered 3 ∷ []

abbrev later : Hub ℕ
later = run (step hub (route_start outside "u" 3 7 1 0)) events

found_far : (route_call_start_to_peer_for_issi "id" 5 open_only hub "u" 3 7 1 0).1 ≡ some "far"
unfolding route_call_start_to_peer_for_issi find_peer_for_issi find_peer has_issi outgoing new_peer
    register_issi remove_member insert lookup
found_far = refl

far_is_new : peer_of_call later "far" ≡ some 3
unfolding peer_of_call run step route_call_start_to_peer_for_issi route_voice_frame_for_call
    route_call_end_for_call broadcast_call_end send_out broadcast_to_all_peers send_each
    find_peer_for_issi find_peer has_issi outgoing store new_peer register_issi remove_member insert
    delete lookup register_peer redeem_pending close_other peer_key send_voice_frame
far_is_new = refl

only_far : peer_of_call later "far" ≢ some 2
only_far e = absurd (ground (arith, e, far_is_new))

private_call_lem_example :
    (lookup "u" later.private_calls ≡ some "far")
    × ((step later (route_voice outside "u" (1 ∷ []))).heap 2 ≡ later.heap 2)
    × ((step later (route_end outside "u" 0)).heap 2 ≡ later.heap 2)
    × (lookup "u" (step later (route_end outside "u" 0)).private_calls ≡ none)
private_call_lem_example =
    private_call_lem hub outside "u" 3 7 1 0 events outside (1 ∷ []) outside 0 2 found_far
      (tt, (refl, (tt, tt))) only_far

key_is_far : key_of 0 hub.peers ≡ some "far"
unfolding key_of
key_is_far = refl

not_pending : key_of 0 hub.pending_peers ≡ none
unfolding key_of
not_pending = refl

-- A voice frame goes out, and another peer is lost.
abbrev meanwhile : List (Event ℕ)
meanwhile = own_voice outside "v" (1 ∷ []) ∷ unregistered 2 ∷ []

abbrev waited : Hub ℕ
waited = run (unregister_peer hub 0) meanwhile

key_comes_back : peer_key (waited.heap 3).name (waited.heap 3).direction ≡ "far"
unfolding key_of peer_key new_peer run step unregister_peer schedule_pending_cleanup
    broadcast_voice_frame send_each store close_peer path_has lookup insert delete
key_comes_back = refl

register_peer-unregister_peer_example :
    HasTablesOf ((register_peer waited 3).heap 3) (hub.heap 0)
    × (((register_peer waited 3).heap 0).issis ≡ [])
    × (((register_peer waited 3).heap 0).gssi_affiliations ≡ [])
register_peer-unregister_peer_example =
    register_peer-unregister_peer hub 0 3 "far" meanwhile (λ e. absurd (omega arith)) key_is_far
      refl not_pending (tt, (refl, tt)) key_comes_back

pending_timer-unregister_peer_example :
    HasTablesOf (waited.heap 0) (hub.heap 0)
    × (((pending_timer waited "far" 0).heap 0).issis ≡ [])
    × (((pending_timer waited "far" 0).heap 0).gssi_affiliations ≡ [])
    × (lookup "far" (pending_timer waited "far" 0).pending_peers ≡ none)
pending_timer-unregister_peer_example =
    pending_timer-unregister_peer hub 0 "far" meanwhile key_is_far refl not_pending (tt, (refl, tt))

-- A peer under the empty key is not kept.
abbrev nameless : Hub ℕ
nameless = record hub { peers = ("", 0) ∷ [] }

nameless_lost : (unregister_peer nameless 0).pending_peers ≡ []
unfolding unregister_peer key_of
nameless_lost = refl

handle_updates_lem_example :
    HasTablesOf
      ((handle_subscriber_update hub 0 hang_up action_register 9 (20 ∷ []) open_only).heap 2)
      (if 2 == 0
        then subscriber_updated (hub.heap 0) hang_up.origin action_register 9 (20 ∷ [])
        else hub.heap 2)
    × HasTablesOf
        ((handle_affiliate_update hub 0 hang_up action_register 9 (20 ∷ []) open_only).heap 2)
        (if 2 == 0
          then affiliation_updated (hub.heap 0) action_register 9 (20 ∷ [])
          else hub.heap 2)
handle_updates_lem_example =
    handle_updates_lem hub 0 hang_up action_register 9 (20 ∷ []) open_only 2

abbrev new_message : Message ℕ
new_message = record hang_up { path = "near" ∷ [] }

-- The message passes; with a negative ttl it does not.
passes :
    ((control_gate hub new_message 5).1 ≡ true)
    × ((control_gate hub (record new_message { ttl = 0xFFFF_FFFF }) 5).1 ≡ false)
unfolding control_gate is_control_plane should_process passes_guards mark_passed path_has lookup
    insert
passes = (refl, refl)

control_gate_lem_example :
    ((control_gate hub new_message 5).1 ≡ (
      if is_control_plane new_message.payload
      then not (str_eq new_message.origin hub.server_name)
      else fresh hub.mesh new_message))
    × (already_seen (control_gate hub new_message 5).0.mesh "m" ≡ (
        already_seen hub.mesh "m"
        || (not (is_control_plane new_message.payload)
            && fresh hub.mesh new_message
            && not (str_eq "m" "")
            && str_eq new_message.msg_id "m")))
    × ((not (is_control_plane new_message.payload)
          && (control_gate hub (come_back hub new_message ("far" ∷ []) 7) 6).1)
        ≡ false)
control_gate_lem_example = control_gate_lem hub new_message 5 "m" hub ("far" ∷ []) 7 6 refl refl
