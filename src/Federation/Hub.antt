-- ===== src/Federation/Hub.antt =====
-- internal/federation/hub.go: the hub's state, its messages and the loops that send to peers. A
-- pointer to a peer is a number; `heap` says what it points to. The loops over `h.peers` take its
-- entries in the order of the list, which stands for the order that Go picks.
pub mod Calls
pub mod Registry
pub mod Handle
pub mod Reach
pub mod Events
pub mod Tables
pub mod Routes
pub mod Quiet
pub mod Waiting
pub mod Lost
pub mod Private
pub mod Redeem
pub mod Updates
mod Tests
use freetetra.Prelude.{
  ℕ, Bool, true, false, ◌||◌, not, List, [], ◌∷◌, Option, none, some, leb, ◌==◌, if◌then◌else◌,
}
use freetetra.Prelude.Maps.{lookup, text_key}
use freetetra.Federation.Mesh.{
  Control, MeshRouter, path_has, prepare_outgoing, prepare_relay, should_relay, is_in_path,
}
use freetetra.Federation.Peer.{
  Peer, send_control, send_voice_frame, has_issi, has_subscribers_on_gssi,
}
use Prim.Native.String.{String}

-- The version of the protocol that a closed peer had offered.
pub data CloseErr : Type 0 where
  incompatible_version : ℕ → CloseErr

-- The actions of the updates of subscribers and of affiliations.
pub data Action : Type 0 where
  action_unspecified action_register action_deregister action_affiliate action_deaffiliate : Action

-- The cases of a message's payload. Those whose handlers are not modelled carry nothing. `X` is the
-- type of the coordinates and the station maps, which are only passed on.
pub data Payload (X : Type 0) : Type 0 where
  hello : Payload X
  sync_request : Payload X
  sync_response : List (ℕ × List ℕ) → Payload X
  users_db_offer : Payload X
  users_db_request : Payload X
  peer_exchange : List (String × String) → Payload X
  subscriber_update : Action → ℕ → List ℕ → Payload X
  affiliate_update : Action → ℕ → List ℕ → Payload X
  call_start : (uuid : String) (source_issi dest_gssi dest_issi priority service : ℕ) → Payload X
  call_end : String → ℕ → Payload X
  sds_relay : ℕ → ℕ → List ℕ → Payload X
  position_sample : ℕ → X → String → Payload X
  station_update : X → Payload X
  call_reply : String → ℕ → ℕ → Payload X

-- The calls of the `CallHandler`.
pub data Notice (X : Type 0) : Type 0 where
  on_peer_call_start : String → String → (source_issi dest_gssi priority service : ℕ) → Notice X
  on_peer_private_call_start :
      String → String → (source_issi dest_issi priority service : ℕ) → Notice X
  on_peer_call_end : String → String → ℕ → Notice X
  on_peer_call_reply : String → String → ℕ → ℕ → Notice X
  on_peer_sds_relay : String → ℕ → ℕ → List ℕ → Notice X
  on_peer_position_sample : String → ℕ → X → String → Notice X
  on_peer_station_update : String → String → X → Notice X
  on_peer_voice_frame : String → String → List ℕ → Notice X

abbrev pub federation_gssi_min : ℕ
federation_gssi_min = 10

unfoldable pub is_federated_gssi : ℕ → Bool
is_federated_gssi gssi = leb federation_gssi_min gssi

module _ (X : Type 0) where
  abbrev pub Message : Type 0
  Message = Control (Payload X)

  abbrev pub Remote : Type 0
  Remote = Peer Message CloseErr

  -- The fields of `Hub` that the operations here use; a hub has its handler.
  pub record Hub : Type 0 where
    pub server_name : String
    pub heap : ℕ → Remote
    pub peers : List (String × ℕ)
    pub pending_peers : List (String × ℕ)
    pub active_calls : List (String × List (String × Bool))
    pub private_calls : List (String × String)
    pub known_peers : List (String × String)
    pub mesh : MeshRouter

module _ {X : Type 0} where
  -- A write through the pointer `r`.
  unfoldable pub store : (ℕ → Remote X) → ℕ → Remote X → ℕ → Remote X
  store heap r p j = if j == r then p else heap j

  -- The loop of a broadcast or a relay: one send to each name that is not skipped. The results are
  -- the peers after it and the names that were served, the last one first.
  unfoldable pub send_each :
      (ℕ → Remote X → Remote X)
      → (String → Bool)
      → (ℕ → Remote X)
      → List String
      → List (String × ℕ)
      → (ℕ → Remote X) × List String
  unfolding store path_has
  send_each send skip heap served [] = (heap, served)
  send_each send skip heap served ((_, r) ∷ peers) =
      let p = heap r in
      let pass = path_has p.name served || skip p.name in
      send_each send skip (if pass then heap else store heap r (send r p))
        (if pass then served else p.name ∷ served) peers

  -- A `SendControl` whose result is dropped. `choices` is Go's choice at each peer that is closed
  -- and has room.
  abbrev pub control_to : Message X → (ℕ → Bool) → ℕ → Remote X → Remote X
  control_to ctrl choices r p = (send_control p ctrl (choices r)).0

  abbrev pub voice_to : String → List ℕ → (ℕ → Bool) → ℕ → Remote X → Remote X
  voice_to call_uuid content choices r p = (send_voice_frame p call_uuid content (choices r)).0

  unfoldable pub broadcast_to_all_peers : Hub X → Message X → (ℕ → Bool) → Hub X
  unfolding send_each send_control
  broadcast_to_all_peers h ctrl choices = record h {
    heap = (send_each (control_to ctrl choices) (λ _. false) h.heap [] h.peers).0;
  }

  unfoldable pub relay_to_peers : Hub X → Message X → String → (ℕ → Bool) → Hub X
  unfolding send_each send_control is_in_path
  relay_to_peers h ctrl exclude_name choices =
      let sent =
        send_each (control_to ctrl choices) (is_in_path ctrl) h.heap (exclude_name ∷ []) h.peers in
      record h { heap = sent.0 }

  -- The end of most handlers: the message is relayed if its ttl allows it.
  unfoldable pub pass_on : Hub X → ℕ → Message X → (ℕ → Bool) → Hub X
  unfolding relay_to_peers prepare_relay should_relay
  pass_on h r ctrl choices =
      if should_relay ctrl
      then relay_to_peers h (prepare_relay h.mesh ctrl) (h.heap r).name choices
      else h

  -- `PrepareOutgoing` on a message that has no id, ttl and path.
  unfoldable pub outgoing : Hub X → String → Payload X → String → ℕ → Hub X × Message X
  unfolding prepare_outgoing
  outgoing h origin payload new_id now =
      let (mesh, ctrl) =
        prepare_outgoing h.mesh
          (record {
            origin = origin;
            protocol_version = 0;
            msg_id = "";
            ttl = 0;
            path = [];
            payload = payload;
          })
          new_id now in
      (record h { mesh = mesh }, ctrl)

  unfoldable pub find_peer : (Remote X → Bool) → (ℕ → Remote X) → List (String × ℕ) → Option ℕ
  find_peer test heap [] = none
  find_peer test heap ((_, r) ∷ peers) =
      let rest = find_peer test heap peers in if test (heap r) then some r else rest

  unfoldable pub find_peer_for_issi : Hub X → ℕ → Option ℕ
  unfolding find_peer has_issi
  find_peer_for_issi h issi = find_peer (λ p. has_issi p issi) h.heap h.peers

  unfoldable pub has_peers_for_gssi : Hub X → ℕ → Bool
  unfolding find_peer has_subscribers_on_gssi
  has_peers_for_gssi h gssi =
      elim (find_peer (λ p. has_subscribers_on_gssi p gssi) h.heap h.peers) [
        | some _ ↦ true
        | none ↦ false
      ]
