-- ===== src/Federation/Hub/Tables.antt =====
-- internal/federation/hub.go: the operations that leave the tables of a peer alone.
use freetetra.Prelude.{
  ℕ, ◌≡◌, refl, arith, ◌∙◌, Bool, false, List, [], ◌∷◌, Bool-cases, ==_iff, inl, inr, ◌||◌,
}
use freetetra.Prelude.Maps.{lookup, insert, delete, text_key}
use freetetra.Federation.Mesh.{path_has, is_in_path, should_relay, prepare_relay}
use freetetra.Federation.Peer.{send_control, send_voice_frame, offer}
use freetetra.Federation.Hub.{
  Payload, Hub, Message, Remote, store, send_each, control_to, voice_to, outgoing, pass_on,
  relay_to_peers, broadcast_to_all_peers,
}
use freetetra.Federation.Hub.Calls.{send_out}
use freetetra.Federation.Hub.Registry.{peer_key, close_other}
use Prim.Native.String.{String}

module _ {X : Type 0} where
  -- The peer holds the tables.
  abbrev pub HasTablesOf : Remote X → Remote X → Type 0
  HasTablesOf p q = (p.issis ≡ q.issis) × (p.gssi_affiliations ≡ q.gssi_affiliations)

  -- `renamePeer` up to the redemption: the other connection closed, and the peer under its new key.
  abbrev pub moved : Hub X → ℕ → String → Hub X
  moved h r new_name =
      let p = h.heap r in
      let h1 = close_other h (lookup (peer_key new_name p.direction) h.peers) r in
      record h1 {
        peers =
            insert (peer_key new_name p.direction) r
              (delete (peer_key p.name p.direction) h1.peers);
        heap = store h1.heap r (record (h1.heap r) { name = new_name });
      }

  -- The connections, the lost peers and the tables of `r` are those of before.
  abbrev pub IsQuiet : Hub X → Hub X → ℕ → Type 0
  IsQuiet h' h r =
      (h'.peers ≡ h.peers)
      × (h'.pending_peers ≡ h.pending_peers)
      × HasTablesOf (h'.heap r) (h.heap r)

  pub control_to-HasTablesOf :
      (ctrl : Message X) (choices : ℕ → Bool) (r : ℕ) (p : Remote X)
      → HasTablesOf (control_to ctrl choices r p) p
  unfolding send_control offer
  control_to-HasTablesOf ctrl choices r p = ground arith

  pub voice_to-HasTablesOf :
      (u : String) (content : List ℕ) (choices : ℕ → Bool) (r : ℕ) (p : Remote X)
      → HasTablesOf (voice_to u content choices r p) p
  unfolding send_voice_frame offer
  voice_to-HasTablesOf u content choices r p = ground arith

  pub store-HasTablesOf :
      (heap : ℕ → Remote X) (r : ℕ) (p : Remote X) (j : ℕ)
      → HasTablesOf p (heap r)
      → HasTablesOf (store heap r p j) (heap j)
  unfolding store
  store-HasTablesOf heap r p j same = ground (arith, ==_iff j r, same)

  pub send_each-HasTablesOf :
      (send : ℕ → Remote X → Remote X) (skip : String → Bool) (heap : ℕ → Remote X)
      (served : List String) (peers : List (String × ℕ)) (j : ℕ)
      → ((r : ℕ) (p : Remote X) → HasTablesOf (send r p) p)
      → HasTablesOf ((send_each send skip heap served peers).0 j) (heap j)
  unfolding send_each
  send_each-HasTablesOf send skip heap served [] j keeps = (refl, refl)
  send_each-HasTablesOf send skip heap served ((k, r) ∷ peers) j keeps =
      let p = heap r in
      elim (Bool-cases (path_has p.name served || skip p.name)) [
        | inl e ↦ rw (e, send_each) (send_each-HasTablesOf send skip heap served peers j keeps)
        | inr e ↦
            let (a, b) =
              send_each-HasTablesOf send skip (store heap r (send r p)) (p.name ∷ served) peers j
                keeps in
            let (a', b') = store-HasTablesOf heap r (send r p) j (keeps r p) in
            rw (e, send_each) (a ∙ a', b ∙ b')
      ]

  pub broadcast_to_all_peers-IsQuiet :
      (h : Hub X) (ctrl : Message X) (choices : ℕ → Bool) (r : ℕ)
      → IsQuiet (broadcast_to_all_peers h ctrl choices) h r
  unfolding broadcast_to_all_peers
  broadcast_to_all_peers-IsQuiet h ctrl choices r = (
    refl,
    refl,
    send_each-HasTablesOf (control_to ctrl choices) (λ _. false) h.heap [] h.peers r
        (control_to-HasTablesOf ctrl choices),
  )

  pub relay_to_peers-IsQuiet :
      (h : Hub X) (ctrl : Message X) (name : String) (choices : ℕ → Bool) (r : ℕ)
      → IsQuiet (relay_to_peers h ctrl name choices) h r
  unfolding relay_to_peers
  relay_to_peers-IsQuiet h ctrl name choices r = (
    refl,
    refl,
    send_each-HasTablesOf (control_to ctrl choices) (is_in_path ctrl) h.heap (name ∷ []) h.peers r
        (control_to-HasTablesOf ctrl choices),
  )

  pub pass_on-IsQuiet :
      (h : Hub X) (q : ℕ) (ctrl : Message X) (choices : ℕ → Bool) (r : ℕ)
      → IsQuiet (pass_on h q ctrl choices) h r
  unfolding pass_on
  pass_on-IsQuiet h q ctrl choices r = elim (Bool-cases (should_relay ctrl)) [
    | inl e ↦ rw e (relay_to_peers-IsQuiet h (prepare_relay h.mesh ctrl) (h.heap q).name choices r)
    | inr e ↦ rw e (refl, refl, (refl, refl))
  ]

  pub send_out-IsQuiet :
      (new_id : String) (now : ℕ) (choices : ℕ → Bool) (h : Hub X) (origin : String)
      (payload : Payload X) (r : ℕ)
      → IsQuiet (send_out new_id now choices h origin payload) h r
  unfolding send_out outgoing
  send_out-IsQuiet new_id now choices h origin payload r =
      let (h', ctrl) = outgoing h origin payload new_id now in
      broadcast_to_all_peers-IsQuiet h' ctrl choices r
