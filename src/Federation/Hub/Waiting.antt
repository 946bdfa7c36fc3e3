-- ===== src/Federation/Hub/Waiting.antt =====
-- internal/federation/hub.go: a peer that was lost waits under its key while other peers come and go.
use freetetra.Prelude.{
  ap, ℕ, ◌≡◌, ◌≢◌, refl, sym, ◌∙◌, arith, false, List, [], ◌∷◌, Option, none, some, Option-cases,
  Bool-cases, ◌==◌, ==_iff, inl, inr,
}
use freetetra.Prelude.Maps.{lookup, insert, delete, text_key, lookup-insert, lookup-delete}
use freetetra.Federation.Peer.{adopt_peer_state}
use freetetra.Federation.Hub.{Hub, Remote, store}
use freetetra.Federation.Hub.Events.{
  Event, registered, unregistered, renamed, timer_fired, peer_sync, peer_subscriber, peer_affiliate,
  step,
}
use freetetra.Federation.Hub.Tables.{HasTablesOf, IsQuiet}
use freetetra.Federation.Hub.Registry.{peer_key, close_peer, close_other, redeem_pending, key_of}
use Prim.Native.String.{String}
use text.Mathlib.Text.{◌==◌ as str_eq}
use text.Mathlib.TextEquality.{eq_iff}

pub left_by_delete :
    (k j : String) (r : ℕ) (m : List (String × ℕ))
    → lookup j (delete k m) ≡ some r
    → lookup j m ≡ some r
left_by_delete k j r m e = ground (arith, e, lookup-delete k j m)

pub left_by_insert :
    (k j : String) (r q : ℕ) (m : List (String × ℕ))
    → (r == q) ≡ false
    → lookup j (insert k q m) ≡ some r
    → lookup j m ≡ some r
left_by_insert k j r q m other e = ground (arith, e, lookup-insert k j q m, ==_iff r q, other)

-- What `key_of` says of a lookup.
pub key_of-found :
    (q : ℕ) (k : String) (m : List (String × ℕ)) → key_of q m ≡ some k → lookup k m ≢ none
unfolding key_of lookup
key_of-found q k [] e none_there = absurd (ground (arith, e))
key_of-found q k ((i, x) ∷ m) e none_there =
    ground (arith, e, none_there, eq_iff i k, key_of-found q k m)

pub key_of-none :
    (r : ℕ) (k : String) (m : List (String × ℕ)) → key_of r m ≡ none → lookup k m ≢ some r
unfolding key_of lookup
key_of-none r k [] e there = absurd (ground (arith, there))
key_of-none r k ((i, x) ∷ m) e there = ground (arith, e, there, ==_iff x r, key_of-none r k m)

pub insert_own :
    (key : String) (r : ℕ) (m : List (String × ℕ)) → lookup key (insert key r m) ≡ some r
insert_own key r m = ground (arith, lookup-insert key key r m, eq_iff key key)

pub insert_only :
    (key j : String) (r : ℕ) (m : List (String × ℕ))
    → lookup j m ≢ some r
    → lookup j (insert key r m) ≡ some r
    → j ≡ key
insert_only key j r m new e =
    ground (arith, new, e, lookup-insert key j r m, eq_iff key j, eq_iff j key)

module _ {X : Type 0} where
  -- The event is of another peer than `r`, and connects none under the key.
  abbrev pub SparesAt : Hub X → String → ℕ → Event X → Type 0
  SparesAt h key r (registered q) =
      ((r == q) ≡ false) × (str_eq (peer_key (h.heap q).name (h.heap q).direction) key ≡ false)
  SparesAt h key r (renamed q name) =
      ((r == q) ≡ false) × (str_eq (peer_key name (h.heap q).direction) key ≡ false)
  SparesAt h key r (unregistered q) = (r == q) ≡ false
  SparesAt h key r (timer_fired k q) = (r == q) ≡ false
  SparesAt h key r (peer_sync q _) = (r == q) ≡ false
  SparesAt h key r (peer_subscriber _ q _ _ _ _) = (r == q) ≡ false
  SparesAt h key r (peer_affiliate _ q _ _ _ _) = (r == q) ≡ false
  SparesAt h key r _ = Unit

  abbrev pub Spare : Hub X → String → ℕ → List (Event X) → Type 0
  Spare h key r [] = Unit
  Spare h key r (e ∷ es) = SparesAt h key r e × Spare (step h e) key r es

  -- The peer `r` waits under the key, and only there, with the tables of `p`.
  abbrev pub IsWaiting : Hub X → String → ℕ → Remote X → Type 0
  IsWaiting h key r p =
      (lookup key h.pending_peers ≡ some r)
      × ((k : String) → lookup k h.pending_peers ≡ some r → k ≡ key)
      × (lookup key h.peers ≡ none)
      × HasTablesOf (h.heap r) p

  pub quiet-IsWaiting :
      (h' h : Hub X) (key : String) (r : ℕ) (p : Remote X)
      → IsQuiet h' h r
      → IsWaiting h key r p
      → IsWaiting h' key r p
  quiet-IsWaiting h' h key r p (peers, pending, (a, b)) (there, only, free, (c, d)) = (
    ap (lookup key) pending ∙ there,
    λ k e. only k (sym (ap (lookup k) pending) ∙ e),
    ap (lookup key) peers ∙ free,
    (a ∙ c, b ∙ d),
  )

  pub close_other-IsQuiet :
      (h : Hub X) (found : Option ℕ) (q r : ℕ) → IsQuiet (close_other h found q) h r
  unfolding close_other store close_peer
  close_other-IsQuiet h none q r = (refl, refl, (refl, refl))
  close_other-IsQuiet h (some old) q r = ground (arith, ==_iff r old)

  -- Who waits under another key is another peer.
  pub another :
      (h : Hub X) (k key : String) (r old : ℕ)
      → ((j : String) → lookup j h.pending_peers ≡ some r → j ≡ key)
      → lookup k h.pending_peers ≡ some old
      → str_eq k key ≡ false
      → (r == old) ≡ false
  another h k key r old only e differ = elim (Bool-cases (r == old)) [
    | inr other ↦ other
    | inl same ↦
        let is_key : k ≡ key = only k (e ∙ ap some (sym ((==_iff r old).0 same))) in
        absurd (ground (arith, differ, is_key, eq_iff k key))
  ]

  pub redeem_pending-IsWaiting :
      (h : Hub X) (q : ℕ) (k key : String) (r : ℕ) (p : Remote X)
      → (r == q) ≡ false
      → str_eq k key ≡ false
      → IsWaiting h key r p
      → IsWaiting (redeem_pending h q k) key r p
  unfolding redeem_pending store adopt_peer_state
  redeem_pending-IsWaiting h q k key r p other differ (there, only, free, same) =
      elim (Option-cases (lookup k h.pending_peers)) [
        | inl e ↦ rw (e, redeem_pending) (there, only, free, same)
        | inr (old, e) ↦
            let apart : (r == old) ≡ false = another h k key r old only e differ in
            rw (e, redeem_pending)
              (
                rw (lookup-delete k key h.pending_peers, differ) there,
                λ j f. only j (left_by_delete k j r h.pending_peers f),
                free,
                rw (apart, other) same,
              )
      ]

  pub insert_peer-IsWaiting :
      (h : Hub X) (q : ℕ) (k key : String) (r : ℕ) (p : Remote X)
      → str_eq k key ≡ false
      → IsWaiting h key r p
      → IsWaiting (record h { peers = insert k q h.peers }) key r p
  insert_peer-IsWaiting h q k key r p differ (there, only, free, same) =
      (there, only, rw (lookup-insert k key q h.peers, differ) free, same)
