-- ===== src/Federation/Hub/Lost.antt =====
-- internal/federation/hub.go: no operation on other peers changes that a lost peer waits.
use freetetra.Prelude.{
  ℕ, ◌≡◌, arith, false, List, [], ◌∷◌, none, some, Option-cases, Bool-cases, ◌==◌, ==_iff, inl, inr,
}
use freetetra.Prelude.Maps.{lookup, insert, delete, text_key, lookup-insert, lookup-delete}
use freetetra.Federation.Peer.{clear}
use freetetra.Federation.Hub.{Hub, Remote, store}
use freetetra.Federation.Hub.Events.{
  Event, registered, unregistered, renamed, timer_fired, gated, own_subscriber, own_affiliate,
  own_call_start, own_call_end, own_voice, own_sds, own_station, own_position, route_start,
  route_voice, route_end, route_reply, peer_sync, peer_subscriber, peer_affiliate, peer_start,
  peer_end, peer_sds, peer_position, peer_station, step, run,
}
use freetetra.Federation.Hub.Tables.{HasTablesOf, moved}
use freetetra.Federation.Hub.Quiet.{Passes, step-IsQuiet}
use freetetra.Federation.Hub.Registry.{
  peer_key, close_peer, close_other, redeem_pending, register_peer, rename_peer, key_of,
  schedule_pending_cleanup, unregister_peer, pending_timer,
}
use Prim.Native.String.{String}
use text.Mathlib.Text.{◌==◌ as str_eq}
use text.Mathlib.TextEquality.{eq_iff}
use freetetra.Federation.Hub.Waiting.{
  IsWaiting, SparesAt, Spare, quiet-IsWaiting, close_other-IsQuiet, redeem_pending-IsWaiting,
  insert_peer-IsWaiting, another, left_by_delete, left_by_insert, key_of-found, key_of-none,
  insert_own, insert_only,
}

module _ {X : Type 0} where
  register_peer-IsWaiting :
      (h : Hub X) (q : ℕ) (key : String) (r : ℕ) (p : Remote X)
      → SparesAt h key r (registered q)
      → IsWaiting h key r p
      → IsWaiting (register_peer h q) key r p
  unfolding register_peer
  register_peer-IsWaiting h q key r p (other, differ) w =
      let k = peer_key (h.heap q).name (h.heap q).direction in
      let h1 = redeem_pending h q k in
      let w1 = redeem_pending-IsWaiting h q k key r p other differ w in
      let h2 = close_other h1 (lookup k h1.peers) q in
      let w2 = quiet-IsWaiting h2 h1 key r p (close_other-IsQuiet h1 (lookup k h1.peers) q r) w1 in
      let (there, only, free, same) = insert_peer-IsWaiting h1 q k key r p differ w1 in
      let (_, pending, _) = close_other-IsQuiet h1 (lookup k h1.peers) q r in
      (w2.0, w2.1, free, w2.3)

  rename_peer-IsWaiting :
      (h : Hub X) (q : ℕ) (name key : String) (r : ℕ) (p : Remote X)
      → SparesAt h key r (renamed q name)
      → IsWaiting h key r p
      → IsWaiting (rename_peer h q name) key r p
  unfolding rename_peer
  rename_peer-IsWaiting h q name key r p (other, differ) w =
      let k = peer_key name (h.heap q).direction in
      let old_key = peer_key (h.heap q).name (h.heap q).direction in
      elim (Bool-cases (str_eq old_key k)) [
        | inl e ↦ rw (e, rename_peer) w
        | inr e ↦
            let h1 = close_other h (lookup k h.peers) q in
            let (there, only, free, same) =
              quiet-IsWaiting h1 h key r p (close_other-IsQuiet h (lookup k h.peers) q r) w in
            let free' : lookup key (insert k q (delete old_key h1.peers)) ≡ none = ground (
              arith,
              free,
              differ,
              lookup-insert k key q (delete old_key h1.peers),
              lookup-delete old_key key h1.peers,
            ) in
            let same' : HasTablesOf ((moved h q name).heap r) p = unfold store in rw other same in
            let w' =
              redeem_pending-IsWaiting (moved h q name) q k key r p other differ
                (there, only, free', same') in
            rw (e, rename_peer) (w'.0, w'.1, w'.2, w'.3)
      ]

  schedule-IsWaiting :
      (h : Hub X) (k : String) (q : ℕ) (key : String) (r : ℕ) (p : Remote X)
      → (r == q) ≡ false
      → str_eq k key ≡ false
      → IsWaiting h key r p
      → IsWaiting (schedule_pending_cleanup h k q) key r p
  unfolding schedule_pending_cleanup store clear
  schedule-IsWaiting h k q key r p other differ (there, only, free, same) =
      elim (Option-cases (lookup k h.pending_peers)) [
        | inl e ↦
            rw (e, schedule_pending_cleanup)
              (
                ground (arith, there, differ, lookup-insert k key q h.pending_peers),
                λ j f. only j (left_by_insert k j r q h.pending_peers other f),
                free,
                same,
              )
        | inr (old, e) ↦ elim (Bool-cases (old == q)) [
          | inl own ↦ rw (e, schedule_pending_cleanup, own) (there, only, free, same)
          | inr not_own ↦
              let apart : (r == old) ≡ false = another h k key r old only e differ in
              rw (e, schedule_pending_cleanup, not_own)
                (
                  ground (
                    arith,
                    there,
                    differ,
                    lookup-insert k key q (delete k h.pending_peers),
                    lookup-delete k key h.pending_peers,
                  ),
                  λ j f. only j (
                      left_by_delete k j r h.pending_peers
                        (left_by_insert k j r q (delete k h.pending_peers) other f)),
                  free,
                  rw apart same,
                )
        ]
      ]

  unregister_peer-IsWaiting :
      (h : Hub X) (q : ℕ) (key : String) (r : ℕ) (p : Remote X)
      → (r == q) ≡ false
      → IsWaiting h key r p
      → IsWaiting (unregister_peer h q) key r p
  unfolding unregister_peer
  unregister_peer-IsWaiting h q key r p other (there, only, free, same) =
      let closed : Hub X = record h { heap = store h.heap q (close_peer (h.heap q)) } in
      let same' : HasTablesOf (closed.heap r) p = unfold store in rw other same in
      elim (Option-cases (key_of q h.peers)) [
        | inl e ↦ rw (e, unregister_peer) (there, only, free, same')
        | inr (k, e) ↦
            let gone : Hub X = record closed { peers = delete k h.peers } in
            let free' : lookup key gone.peers ≡ none =
              ground (arith, free, lookup-delete k key h.peers) in
            let w : IsWaiting gone key r p = (there, only, free', same') in
            let differ : str_eq k key ≡ false =
              ground (arith, free, key_of-found q k h.peers e, eq_iff k key) in
            elim (Bool-cases (str_eq k "")) [
              | inl empty ↦ rw (e, unregister_peer, empty) w
              | inr full ↦
                  rw (e, unregister_peer, full) (schedule-IsWaiting gone k q key r p other differ w)
            ]
      ]

  pending_timer-IsWaiting :
      (h : Hub X) (k : String) (q : ℕ) (key : String) (r : ℕ) (p : Remote X)
      → (r == q) ≡ false
      → IsWaiting h key r p
      → IsWaiting (pending_timer h k q) key r p
  unfolding pending_timer store clear
  pending_timer-IsWaiting h k q key r p other (there, only, free, same) = (
    ground (arith, there, other, ==_iff r q, eq_iff k key, lookup-delete k key h.pending_peers),
    λ j f. only j (ground (arith, f, lookup-delete k j h.pending_peers)),
    free,
    rw other same,
  )

  quiet_step :
      (h : Hub X) (e : Event X) (key : String) (r : ℕ) (p : Remote X)
      → Passes r e
      → IsWaiting h key r p
      → IsWaiting (step h e) key r p
  quiet_step h e key r p c w = quiet-IsWaiting (step h e) h key r p (step-IsQuiet h e r c) w

  -- Any operation that spares the lost peer leaves it waiting.
  step-IsWaiting :
      (h : Hub X) (e : Event X) (key : String) (r : ℕ) (p : Remote X)
      → SparesAt h key r e
      → IsWaiting h key r p
      → IsWaiting (step h e) key r p
  unfolding step
  step-IsWaiting h (registered q) key r p c w = register_peer-IsWaiting h q key r p c w
  step-IsWaiting h (unregistered q) key r p c w = unregister_peer-IsWaiting h q key r p c w
  step-IsWaiting h (renamed q name) key r p c w = rename_peer-IsWaiting h q name key r p c w
  step-IsWaiting h (timer_fired k q) key r p c w = pending_timer-IsWaiting h k q key r p c w
  step-IsWaiting h (gated ctrl now) key r p c w = quiet_step h (gated ctrl now) key r p c w
  step-IsWaiting h (own_subscriber o issi action gs) key r p c w =
      quiet_step h (own_subscriber o issi action gs) key r p c w
  step-IsWaiting h (own_affiliate o issi action gs) key r p c w =
      quiet_step h (own_affiliate o issi action gs) key r p c w
  step-IsWaiting h (own_call_start o u s g p' v) key r p c w =
      quiet_step h (own_call_start o u s g p' v) key r p c w
  step-IsWaiting h (own_call_end o u cause) key r p c w =
      quiet_step h (own_call_end o u cause) key r p c w
  step-IsWaiting h (own_voice o u content) key r p c w =
      quiet_step h (own_voice o u content) key r p c w
  step-IsWaiting h (own_sds o s d content) key r p c w =
      quiet_step h (own_sds o s d content) key r p c w
  step-IsWaiting h (own_station o origin x) key r p c w =
      quiet_step h (own_station o origin x) key r p c w
  step-IsWaiting h (own_position o issi x site) key r p c w =
      quiet_step h (own_position o issi x site) key r p c w
  step-IsWaiting h (route_start o u s d p' v) key r p c w =
      quiet_step h (route_start o u s d p' v) key r p c w
  step-IsWaiting h (route_voice o u content) key r p c w =
      quiet_step h (route_voice o u content) key r p c w
  step-IsWaiting h (route_end o u cause) key r p c w =
      quiet_step h (route_end o u cause) key r p c w
  step-IsWaiting h (route_reply o u state cause) key r p c w =
      quiet_step h (route_reply o u state cause) key r p c w
  step-IsWaiting h (peer_sync q subscribers) key r p c w =
      quiet_step h (peer_sync q subscribers) key r p c w
  step-IsWaiting h (peer_subscriber o q ctrl action issi gs) key r p c w =
      quiet_step h (peer_subscriber o q ctrl action issi gs) key r p c w
  step-IsWaiting h (peer_affiliate o q ctrl action issi gs) key r p c w =
      quiet_step h (peer_affiliate o q ctrl action issi gs) key r p c w
  step-IsWaiting h (peer_start o q ctrl u s g d p' v) key r p c w =
      quiet_step h (peer_start o q ctrl u s g d p' v) key r p c w
  step-IsWaiting h (peer_end o q ctrl u cause) key r p c w =
      quiet_step h (peer_end o q ctrl u cause) key r p c w
  step-IsWaiting h (peer_sds o q ctrl s d content) key r p c w =
      quiet_step h (peer_sds o q ctrl s d content) key r p c w
  step-IsWaiting h (peer_position o q ctrl issi x site) key r p c w =
      quiet_step h (peer_position o q ctrl issi x site) key r p c w
  step-IsWaiting h (peer_station o q ctrl x) key r p c w =
      quiet_step h (peer_station o q ctrl x) key r p c w

  pub run-IsWaiting :
      (h : Hub X) (es : List (Event X)) (key : String) (r : ℕ) (p : Remote X)
      → Spare h key r es
      → IsWaiting h key r p
      → IsWaiting (run h es) key r p
  unfolding run
  run-IsWaiting h [] key r p c w = w
  run-IsWaiting h (e ∷ es) key r p c w =
      run-IsWaiting (step h e) es key r p c.1 (step-IsWaiting h e key r p c.0 w)

  -- A peer that was lost under a key that is not empty waits, and holds its tables.
  pub lost-IsWaiting :
      (h : Hub X) (r : ℕ) (key : String)
      → key_of r h.peers ≡ some key
      → str_eq key "" ≡ false
      → key_of r h.pending_peers ≡ none
      → IsWaiting (unregister_peer h r) key r (h.heap r)
  unfolding unregister_peer schedule_pending_cleanup close_peer clear
  lost-IsWaiting h r key e full new =
      let pending = h.pending_peers in
      let free : lookup key (delete key h.peers) ≡ none =
        ground (arith, lookup-delete key key h.peers, eq_iff key key) in
      let not_there = λ (j : String). key_of-none r j pending new in
      elim (Option-cases (lookup key pending)) [
        | inl none_there ↦
            rw (e, unregister_peer, full, none_there, schedule_pending_cleanup)
              (
                insert_own key r pending,
                λ j f. insert_only key j r pending (not_there j) f,
                free,
                unfold store in ground (arith, ==_iff r r),
              )
        | inr (old, there) ↦
            let not_r : (old == r) ≡ false = ground (arith, there, not_there key, ==_iff old r) in
            rw (e, unregister_peer, full, there, schedule_pending_cleanup, not_r)
              (
                insert_own key r (delete key pending),
                λ j f.
                    insert_only key j r (delete key pending)
                      (λ g. not_there j (left_by_delete key j r pending g)) f,
                free,
                unfold store in ground (arith, not_r, ==_iff r r, ==_iff old r, ==_iff r old),
              )
      ]
