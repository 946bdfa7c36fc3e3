-- ===== src/Federation/Hub/Redeem.antt =====
-- internal/federation/hub.go: the tables of a peer that was lost, when it comes back and when not.
use freetetra.Prelude.{
  ℕ, ◌≡◌, refl, sym, ◌∙◌, ap, ◌≢◌, arith, [], List, Option, none, some, ◌==◌, if◌then◌else◌, ==_iff,
  false,
}
use freetetra.Prelude.Maps.{lookup, text_key, lookup-delete}
use freetetra.Federation.Peer.{adopt_peer_state, clear}
use freetetra.Federation.Hub.{Hub, store}
use freetetra.Federation.Hub.Registry.{
  peer_key, close_peer, close_other, redeem_pending, register_peer, key_of, unregister_peer,
  pending_timer,
}
use freetetra.Federation.Hub.Events.{Event, run}
use freetetra.Federation.Hub.Tables.{HasTablesOf}
use freetetra.Federation.Hub.Waiting.{Spare}
use freetetra.Federation.Hub.Lost.{run-IsWaiting, lost-IsWaiting}
use Prim.Native.String.{String}
use text.Mathlib.Text.{◌==◌ as str_eq}
use text.Mathlib.TextEquality.{eq_iff}

module _ {X : Type 0} where
  redeem_pending_lem :
      (h : Hub X) (r old j : ℕ) (key : String)
      → lookup key h.pending_peers ≡ some old
      → (redeem_pending h r key).heap j ≡ (
          if j == old
          then clear (h.heap old)
          else if j == r
          then (adopt_peer_state (h.heap r) (h.heap old)).0
          else h.heap j)
  unfolding redeem_pending store adopt_peer_state clear
  redeem_pending_lem h r old j key e = rw (e, redeem_pending) refl

  closed_other_tables :
      (h : Hub X) (found : Option ℕ) (r j : ℕ)
      → HasTablesOf ((close_other h found r).heap j) (h.heap j)
  unfolding close_other store close_peer
  closed_other_tables h none r j = (refl, refl)
  closed_other_tables h (some old) r j = ground (arith, ==_iff j old)

  register_peer_lem :
      (h : Hub X) (r old : ℕ)
      → r ≢ old
      → lookup (peer_key (h.heap r).name (h.heap r).direction) h.pending_peers ≡ some old
      → HasTablesOf ((register_peer h r).heap r) (h.heap old)
        × HasTablesOf ((register_peer h r).heap old) (clear (h.heap old))
  unfolding register_peer
  register_peer_lem h r old other e =
      let key = peer_key (h.heap r).name (h.heap r).direction in
      let back = redeem_pending h r key in
      let closed = closed_other_tables back (lookup key back.peers) r in
      let at_r = redeem_pending_lem h r old r key e in
      let at_old = redeem_pending_lem h r old old key e in
      unfold clear adopt_peer_state in
      ground
        (arith, closed r, closed old, at_r, at_old, other, ==_iff r old, ==_iff r r, ==_iff old old)

  -- If a connected peer is lost, not under the empty key and not already waiting, and later, after any
  -- operations of the hub that do not touch it and connect none under its key, a new connection with
  -- that key is registered, the new connection has the tables that the lost one had when it was lost,
  -- and the lost one has none left.
  pub register_peer-unregister_peer :
      (h : Hub X) (r new_r : ℕ) (key : String) (es : List (Event X))
      → r ≢ new_r
      → key_of r h.peers ≡ some key
      → str_eq key "" ≡ false
      → key_of r h.pending_peers ≡ none
      → Spare (unregister_peer h r) key r es
      → peer_key
          ((run (unregister_peer h r) es).heap new_r).name
          ((run (unregister_peer h r) es).heap new_r).direction
        ≡ key
      → let h' = register_peer (run (unregister_peer h r) es) new_r in
        HasTablesOf (h'.heap new_r) (h.heap r)
        × ((h'.heap r).issis ≡ [])
        × ((h'.heap r).gssi_affiliations ≡ [])
  register_peer-unregister_peer h r new_r key es other e full new spared back =
      let later = run (unregister_peer h r) es in
      let (there, _, _, (issis, gssis)) =
        run-IsWaiting (unregister_peer h r) es key r (h.heap r) spared
          (lost-IsWaiting h r key e full new) in
      let found = ap (λ k. lookup k later.pending_peers) back ∙ there in
      let ((a, b), (c, d)) = register_peer_lem later new_r r (λ q. other (sym q)) found in
      unfold clear in ((a ∙ issis, b ∙ gssis), c, d)

  -- If a connected peer is lost, not under the empty key and not already waiting, it keeps its
  -- tables through any operations of the hub that do not touch it and connect none under its key;
  -- when its timer fires after them, its tables are empty and no peer waits under the key.
  pub pending_timer-unregister_peer :
      (h : Hub X) (r : ℕ) (key : String) (es : List (Event X))
      → key_of r h.peers ≡ some key
      → str_eq key "" ≡ false
      → key_of r h.pending_peers ≡ none
      → Spare (unregister_peer h r) key r es
      → let later = run (unregister_peer h r) es in
        let h' = pending_timer later key r in
        HasTablesOf (later.heap r) (h.heap r)
        × ((h'.heap r).issis ≡ [])
        × ((h'.heap r).gssi_affiliations ≡ [])
        × (lookup key h'.pending_peers ≡ none)
  unfolding pending_timer clear
  pending_timer-unregister_peer h r key es e full new spared =
      let later = run (unregister_peer h r) es in
      let (there, _, _, same) =
        run-IsWaiting (unregister_peer h r) es key r (h.heap r) spared
          (lost-IsWaiting h r key e full new) in
      (
        same,
        unfold store in ground (arith, ==_iff r r),
        unfold store in ground (arith, ==_iff r r),
        ground
            (arith, there, lookup-delete key key later.pending_peers, eq_iff key key, ==_iff r r),
      )
