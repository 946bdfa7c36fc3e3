-- ===== src/Federation/Hub/Handle.antt =====
-- internal/federation/hub.go: the handlers of the messages that a peer sends. `r` points to the peer.
use freetetra.Prelude.{
  ℕ, ◌%◌, Bool, true, false, not, List, [], ◌∷◌, Option, none, some, ◌==◌, if◌then◌else◌,
}
use freetetra.Prelude.Maps.{lookup, has_key, insert, delete, text_key}
use freetetra.Federation.Mesh.{should_process, should_relay, prepare_relay, is_in_path}
use freetetra.Federation.Peer.{register_issi, deregister_issi, affiliate_issi, deaffiliate_issi}
use freetetra.Federation.Hub.{
  Hub, Payload, Action, Notice, Message, Remote, store, send_each, control_to, pass_on, hello,
  sync_request, sync_response, peer_exchange, action_register, action_deregister, action_affiliate,
  action_deaffiliate, on_peer_call_start, on_peer_private_call_start, on_peer_call_end,
  on_peer_call_reply, on_peer_sds_relay, on_peer_position_sample, on_peer_station_update,
  on_peer_voice_frame,
}
use freetetra.Federation.Hub.Calls.{add_names}
use Prim.Native.String.{String}
use text.Mathlib.Text.{◌==◌ as str_eq}

module _ {X : Type 0} where
  -- The payloads that only have their origin checked.
  unfoldable pub is_control_plane : Payload X → Bool
  is_control_plane hello = true
  is_control_plane sync_request = true
  is_control_plane (sync_response _) = true
  is_control_plane (peer_exchange _) = true
  is_control_plane _ = false

  -- The gate at the start of `handleControlMessage`: whether the message reaches its handler.
  unfoldable pub control_gate : Hub X → Message X → ℕ → Hub X × Bool
  unfolding is_control_plane should_process
  control_gate h ctrl now =
      if is_control_plane ctrl.payload
      then (h, not (str_eq ctrl.origin h.server_name))
      else (let (mesh, go) = should_process h.mesh ctrl now in
          if go then (record h { mesh = mesh }, true) else (record h { mesh = mesh }, false))

  register_all : List (ℕ × List ℕ) → Remote X → Remote X
  unfolding register_issi affiliate_issi
  register_all [] p = p
  register_all ((issi, gssis) ∷ subscribers) p =
      register_all subscribers (affiliate_issi (register_issi p issi p.name) issi gssis)

  -- The numbers are what `Sscanf` read from the keys of the map.
  unfoldable pub handle_sync_response : Hub X → ℕ → List (ℕ × List ℕ) → Hub X
  unfolding register_all store
  handle_sync_response h r subscribers = record h {
    heap = store h.heap r (register_all subscribers (h.heap r));
  }

  unfoldable pub handle_subscriber_update :
      Hub X → ℕ → Message X → Action → ℕ → List ℕ → (ℕ → Bool) → Hub X
  unfolding register_issi deregister_issi affiliate_issi store pass_on
  handle_subscriber_update h r ctrl action issi gssis choices =
      let p = h.heap r in
      let p' : Remote X = elim action [
        | action_register ↦ affiliate_issi (register_issi p issi ctrl.origin) issi gssis
        | action_deregister ↦ deregister_issi p issi
        | _ ↦ p
      ] in
      pass_on (record h { heap = store h.heap r p' }) r ctrl choices

  unfoldable pub handle_affiliate_update :
      Hub X → ℕ → Message X → Action → ℕ → List ℕ → (ℕ → Bool) → Hub X
  unfolding affiliate_issi deaffiliate_issi store pass_on
  handle_affiliate_update h r ctrl action issi gssis choices =
      let p = h.heap r in
      let p' : Remote X = elim action [
        | action_affiliate ↦ affiliate_issi p issi gssis
        | action_deaffiliate ↦ deaffiliate_issi p issi gssis
        | _ ↦ p
      ] in
      pass_on (record h { heap = store h.heap r p' }) r ctrl choices

  -- The second half of `handleCallStart`: the call is relayed, and the peers that got it noted.
  unfoldable pub relay_call_start : Hub X → ℕ → Message X → String → (ℕ → Bool) → Hub X
  unfolding should_relay prepare_relay is_in_path send_each add_names
  relay_call_start h r ctrl call_uuid choices =
      let from = (h.heap r).name in
      let relay = prepare_relay h.mesh ctrl in
      let (heap, names) =
        send_each (control_to relay choices) (is_in_path ctrl) h.heap (from ∷ []) h.peers in
      if should_relay ctrl
      then record h { heap = heap; active_calls = add_names call_uuid names h.active_calls }
      else h

  unfoldable pub handle_call_start :
      Hub X
      → ℕ
      → Message X
      → String
      → (source_issi dest_gssi dest_issi priority service : ℕ) → (ℕ → Bool)
      → Hub X × List (Notice X)
  unfolding insert add_names relay_call_start
  handle_call_start h r ctrl call_uuid source_issi dest_gssi dest_issi priority service choices =
      let from = (h.heap r).name in
      if not (dest_issi == 0)
      then (
        record h { private_calls = insert call_uuid from h.private_calls },
        on_peer_private_call_start from call_uuid source_issi dest_issi (priority % 256)
              (service % 65536)
            ∷ [],
      )
      else (
        relay_call_start (record h { active_calls = add_names call_uuid [] h.active_calls }) r ctrl
            call_uuid choices,
        on_peer_call_start from call_uuid source_issi dest_gssi (priority % 256) (service % 65536)
            ∷ [],
      )

  unfoldable pub relay_call_end : Hub X → ℕ → Message X → (ℕ → Bool) → Hub X
  unfolding should_relay prepare_relay is_in_path send_each
  relay_call_end h r ctrl choices =
      let sent =
        send_each (control_to (prepare_relay h.mesh ctrl) choices) (is_in_path ctrl) h.heap
          ((h.heap r).name ∷ []) h.peers in
      if should_relay ctrl then record h { heap = sent.0 } else h

  unfoldable pub handle_call_end :
      Hub X → ℕ → Message X → String → ℕ → (ℕ → Bool) → Hub X × List (Notice X)
  unfolding lookup delete relay_call_end
  handle_call_end h r ctrl call_uuid cause choices =
      let h' = record h {
        private_calls = delete call_uuid h.private_calls;
        active_calls = delete call_uuid h.active_calls;
      } in
      (
        if has_key call_uuid h.private_calls then h' else relay_call_end h' r ctrl choices,
        on_peer_call_end (h.heap r).name call_uuid (cause % 256) ∷ [],
      )

  unfoldable pub handle_call_reply : Hub X → ℕ → String → ℕ → ℕ → List (Notice X)
  handle_call_reply h r call_uuid state cause =
      on_peer_call_reply (h.heap r).name call_uuid (state % 256) (cause % 256) ∷ []

  unfoldable pub handle_sds_relay :
      Hub X → ℕ → Message X → ℕ → ℕ → List ℕ → (ℕ → Bool) → Hub X × List (Notice X)
  unfolding pass_on
  handle_sds_relay h r ctrl source_issi dest_issi sds_data choices = (
    pass_on h r ctrl choices,
    on_peer_sds_relay (h.heap r).name source_issi dest_issi sds_data ∷ [],
  )

  unfoldable pub handle_position_sample :
      Hub X → ℕ → Message X → ℕ → X → String → (ℕ → Bool) → Hub X × List (Notice X)
  unfolding pass_on
  handle_position_sample h r ctrl issi place tmo_site choices =
      (pass_on h r ctrl choices, on_peer_position_sample (h.heap r).name issi place tmo_site ∷ [])

  -- The station is `none` if the message has none.
  unfoldable pub handle_station_update :
      Hub X → ℕ → Message X → Option X → (ℕ → Bool) → Hub X × List (Notice X)
  unfolding pass_on
  handle_station_update h r ctrl station choices = (
    pass_on h r ctrl choices,
    elim station [ none ↦ [] | some s ↦ on_peer_station_update ctrl.origin (h.heap r).name s ∷ [] ],
  )

  -- `uuid_length` is the length of the call's id in bytes.
  unfoldable pub handle_voice_frame : Hub X → ℕ → String → ℕ → List ℕ → List (Notice X)
  handle_voice_frame h r call_uuid uuid_length frame_data =
      if uuid_length == 36
      then on_peer_voice_frame (h.heap r).name call_uuid frame_data ∷ []
      else []
