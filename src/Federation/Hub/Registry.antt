-- ===== src/Federation/Hub/Registry.antt =====
-- internal/federation/hub.go: which peers are connected, and the tables that are kept for a peer that
-- was lost until it comes back or its timer fires. A timer that is stopped does not fire.
use freetetra.Prelude.{ℕ, Bool, true, not, List, [], ◌∷◌, Option, none, some, ◌==◌, if◌then◌else◌}
use freetetra.Prelude.Maps.{lookup, has_key, insert, delete, text_key}
use freetetra.Federation.Peer.{adopt_peer_state, clear}
use freetetra.Federation.Hub.{Hub, Remote, store}
use Prim.Native.String.{String, ◌++◌ as text_append}
use text.Mathlib.Text.{◌==◌ as str_eq}

unfoldable pub peer_key : String → String → String
peer_key name direction = if str_eq direction "incoming" then text_append name ":in" else name

unfoldable pub relabel : String → String → List (String × String) → List (String × String)
unfolding lookup delete insert
relabel old_name new_name known = elim (lookup old_name known) [
  | none ↦ known
  | some url ↦
      let known' = delete old_name known in
      if has_key new_name known' then known' else insert new_name url known'
]

-- The key under which the pointer stands.
unfoldable pub key_of : ℕ → List (String × ℕ) → Option String
key_of r [] = none
key_of r ((key, q) ∷ peers) = let rest = key_of r peers in if q == r then some key else rest

module _ {X : Type 0} where
  -- `Close`, as far as the tables of the hub can see it.
  unfoldable pub close_peer : Remote X → Remote X
  close_peer p = record p { done = true }

  unfoldable pub redeem_pending : Hub X → ℕ → String → Hub X
  unfolding lookup delete store adopt_peer_state
  redeem_pending h r key = elim (lookup key h.pending_peers) [
    | none ↦ h
    | some old ↦
        let (new', old') = adopt_peer_state (h.heap r) (h.heap old) in
        record h {
          pending_peers = delete key h.pending_peers;
          heap = store (store h.heap r new') old old';
        }
  ]

  -- `old.Close()` for the peer that stands under the key, unless it is `r`.
  unfoldable pub close_other : Hub X → Option ℕ → ℕ → Hub X
  unfolding store close_peer
  close_other h found r = elim found [
    | none ↦ h
    | some old ↦
        if old == r then h else record h { heap = store h.heap old (close_peer (h.heap old)) }
  ]

  -- A peer is registered once, when it has just been made, so it is not the one under its key.
  unfoldable pub register_peer : Hub X → ℕ → Hub X
  unfolding peer_key redeem_pending lookup insert close_other
  register_peer h r =
      let key = peer_key (h.heap r).name (h.heap r).direction in
      let h' = redeem_pending h r key in
      record (close_other h' (lookup key h'.peers) r) { peers = insert key r h'.peers }

  unfoldable pub rename_peer : Hub X → ℕ → String → Hub X
  unfolding peer_key redeem_pending lookup insert delete store close_other relabel
  rename_peer h r new_name =
      let p = h.heap r in
      let old_key = peer_key p.name p.direction in
      let new_key = peer_key new_name p.direction in
      if str_eq old_key new_key
      then h
      else (let h1 = close_other h (lookup new_key h.peers) r in
          let h2 = record h1 {
            peers = insert new_key r (delete old_key h1.peers);
            heap = store h1.heap r (record (h1.heap r) { name = new_name });
          } in
          let h3 = redeem_pending h2 r new_key in
          record h3 { known_peers = relabel p.name new_name h3.known_peers })

  unfoldable pub schedule_pending_cleanup : Hub X → String → ℕ → Hub X
  unfolding lookup insert delete store clear
  schedule_pending_cleanup h key r = elim (lookup key h.pending_peers) [
    | none ↦ record h { pending_peers = insert key r h.pending_peers }
    | some old ↦ if old == r then h else record h {
      heap = store h.heap old (clear (h.heap old));
      pending_peers = insert key r (delete key h.pending_peers);
    }
  ]

  unfoldable pub unregister_peer : Hub X → ℕ → Hub X
  unfolding close_peer store key_of delete schedule_pending_cleanup
  unregister_peer h r =
      let h' = record h { heap = store h.heap r (close_peer (h.heap r)) } in
      elim (key_of r h'.peers) [
        | none ↦ h'
        | some key ↦
            let gone = record h' { peers = delete key h'.peers } in
            if str_eq key "" then gone else schedule_pending_cleanup gone key r
      ]

  -- The timer of `schedulePendingCleanup`.
  unfoldable pub pending_timer : Hub X → String → ℕ → Hub X
  unfolding lookup delete store clear
  pending_timer h key r =
      let keep : Bool = elim (lookup key h.pending_peers) [
        | none ↦ true
        | some cur ↦ not (cur == r)
      ] in
      record h {
        pending_peers = if keep then h.pending_peers else delete key h.pending_peers;
        heap = store h.heap r (clear (h.heap r));
      }
