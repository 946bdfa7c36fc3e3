-- ===== src/Federation/Hub/Reach.antt =====
-- internal/federation/hub.go: which peers a broadcast and a relay reach.
use freetetra.Prelude.{
  ℕ, ◌≡◌, refl, arith, Bool, false, ◌||◌, List, [], ◌∷◌, Option, none, some, ◌==◌, if◌then◌else◌,
  ==_iff, Bool-cases, inl, inr,
}
use freetetra.Federation.Mesh.{path_has, is_in_path}
use freetetra.Federation.Peer.{send_control, offer}
use freetetra.Federation.Hub.{
  Hub, Message, Remote, store, send_each, control_to, find_peer, broadcast_to_all_peers,
  relay_to_peers,
}
use Prim.Native.String.{String}
use text.Mathlib.Text.{◌==◌ as str_eq}
use text.Mathlib.TextEquality.{eq_iff}

module _ {X : Type 0} where
  -- The first connection to the name.
  unfoldable pub first_of : String → (ℕ → Remote X) → List (String × ℕ) → Option ℕ
  first_of name heap peers = find_peer (λ p. str_eq p.name name) heap peers

  -- The peer `j` after one send to the first connection of each name that is not left out.
  unfoldable pub after_send :
      (ℕ → Remote X → Remote X)
      → (String → Bool)
      → (ℕ → Remote X)
      → List (String × ℕ)
      → ℕ
      → Remote X
  after_send send left_out heap peers j =
      if left_out (heap j).name then heap j else elim (first_of (heap j).name heap peers) [
        | none ↦ heap j
        | some r ↦ if j == r then send j (heap j) else heap j
      ]

  abbrev pub KeepsName : (ℕ → Remote X → Remote X) → Type 0
  KeepsName send = (r : ℕ) (p : Remote X) → (send r p).name ≡ p.name

  store_name :
      (send : ℕ → Remote X → Remote X) (heap : ℕ → Remote X) (r j : ℕ)
      → KeepsName send
      → (store heap r (send r (heap r)) j).name ≡ (heap j).name
  unfolding store
  store_name send heap r j keeps = ground (arith, keeps r (heap r), ==_iff j r)

  first_of-store :
      (send : ℕ → Remote X → Remote X) (heap : ℕ → Remote X) (r : ℕ) (name : String)
      (peers : List (String × ℕ))
      → KeepsName send
      → first_of name (store heap r (send r (heap r))) peers ≡ first_of name heap peers
  unfolding first_of find_peer
  first_of-store send heap r name [] keeps = refl
  first_of-store send heap r name ((k, q) ∷ peers) keeps =
      rw (store_name send heap r q keeps, first_of-store send heap r name peers keeps)

  -- The loop sends to the first connection of each name that is neither served before it nor
  -- skipped, once, and changes no other peer.
  pub send_each_lem :
      (send : ℕ → Remote X → Remote X) (skip : String → Bool) (heap : ℕ → Remote X)
      (served : List String) (peers : List (String × ℕ)) (j : ℕ)
      → KeepsName send
      → (send_each send skip heap served peers).0 j
        ≡ after_send send (λ name. path_has name served || skip name) heap peers j
  unfolding send_each after_send first_of find_peer path_has
  send_each_lem send skip heap served [] j keeps = ground arith
  send_each_lem send skip heap served ((k, r) ∷ peers) j keeps =
      let heap' = store heap r (send r (heap r)) in
      let pass = path_has (heap r).name served || skip (heap r).name in
      elim (Bool-cases pass) [
        | inl passed ↦ ground (
          arith,
          passed,
          send_each_lem send skip heap served peers j keeps,
          eq_iff (heap r).name (heap j).name,
        )
        | inr go ↦ ground (
          arith,
          go,
          send_each_lem send skip heap' ((heap r).name ∷ served) peers j keeps,
          store_name send heap r j keeps,
          first_of-store send heap r (heap j).name peers keeps,
          eq_iff (heap r).name (heap j).name,
          ==_iff j r,
        )
      ]

  control_to-KeepsName :
      (ctrl : Message X) (choices : ℕ → Bool) → KeepsName (control_to ctrl choices)
  unfolding send_control offer
  control_to-KeepsName ctrl choices r p = ground arith

  -- A broadcast sends the message to the first connection of each name, once, and changes no other
  -- peer, in whatever order the peers stand.
  pub broadcast_to_all_peers_lem :
      (h : Hub X) (ctrl : Message X) (choices : ℕ → Bool) (j : ℕ)
      → (broadcast_to_all_peers h ctrl choices).heap j
        ≡ after_send (control_to ctrl choices) (λ _. false) h.heap h.peers j
  unfolding broadcast_to_all_peers path_has
  broadcast_to_all_peers_lem h ctrl choices j =
      send_each_lem (control_to ctrl choices) (λ _. false) h.heap [] h.peers j
        (control_to-KeepsName ctrl choices)

  -- A relay sends the message to the first connection of each name, once, unless the name is that of
  -- the peer it came from or stands on the message's path, and changes no other peer.
  pub relay_to_peers_lem :
      (h : Hub X) (ctrl : Message X) (exclude_name : String) (choices : ℕ → Bool) (j : ℕ)
      → (relay_to_peers h ctrl exclude_name choices).heap j
        ≡ after_send
            (control_to ctrl choices)
            (λ name. str_eq exclude_name name || path_has name ctrl.path)
            h.heap
            h.peers
            j
  unfolding relay_to_peers is_in_path after_send
  relay_to_peers_lem h ctrl exclude_name choices j =
      let sent =
        send_each_lem (control_to ctrl choices) (is_in_path ctrl) h.heap (exclude_name ∷ []) h.peers
          j (control_to-KeepsName ctrl choices) in
      unfold path_has in ground (arith, sent)
