-- ===== src/Federation/Hub/Private.antt =====
-- internal/federation/hub.go: a private call from its start to its end.
use freetetra.Prelude.{
  ◌∙◌, Option, Bool-cases, ℕ, ◌≡◌, ◌≢◌, refl, ap, ◌⊎◌, arith, Bool, false, List, [], ◌∷◌, none,
  some, All, ==_iff, Option-cases, inl, inr,
}
use freetetra.Prelude.Maps.{lookup, insert, text_key, lookup-insert, lookup-delete}
use freetetra.Federation.Hub.{
  pass_on, relay_to_peers, Hub, Message, store, find_peer_for_issi, outgoing,
}
use freetetra.Federation.Hub.Events.{
  Outside, Event, registered, unregistered, renamed, timer_fired, gated, own_subscriber,
  own_affiliate, own_call_start, own_call_end, own_voice, own_sds, own_station, own_position,
  route_start, route_voice, route_end, route_reply, peer_sync, peer_subscriber, peer_affiliate,
  peer_start, peer_end, peer_sds, peer_position, peer_station, step, run,
}
use freetetra.Federation.Hub.Updates.{
  subscriber_updated, affiliation_updated, subscriber_update_steps, affiliate_update_steps,
}
use freetetra.Federation.Hub.Tables.{moved}
use freetetra.Federation.Hub.Registry.{
  register_peer, rename_peer, unregister_peer, pending_timer, redeem_pending, close_other,
  schedule_pending_cleanup, key_of, peer_key,
}
use freetetra.Federation.Hub.Calls.{
  broadcast_subscriber, broadcast_affiliate, broadcast_call_start, broadcast_sds, broadcast_station,
  broadcast_position_sample, peer_of_call, send_out, broadcast_voice_frame, broadcast_call_end,
  route_call_start_to_peer_for_issi, route_voice_frame_for_call, route_call_end_for_call,
  route_call_reply_for_call,
}
use freetetra.Federation.Hub.Handle.{
  control_gate, handle_sync_response, handle_sds_relay, handle_position_sample,
  handle_station_update, handle_call_start, relay_call_start, handle_call_end, relay_call_end,
}
use Prim.Native.String.{String}
use text.Mathlib.Text.{◌==◌ as str_eq}
use text.Mathlib.TextEquality.{eq_iff}

-- The event neither starts nor ends the call.
abbrev pub Leaves : {X : Type 0} → String → Event X → Type 0
Leaves u (route_start _ v _ _ _ _) = str_eq v u ≡ false
Leaves u (route_end _ v _) = str_eq v u ≡ false
Leaves u (peer_start _ _ _ v _ _ _ _ _) = str_eq v u ≡ false
Leaves u (peer_end _ _ _ v _) = str_eq v u ≡ false
Leaves u _ = Unit

module _ {X : Type 0} where
  -- The start finds no peer, or binds the call to the name of one.
  route_start-cases :
      (new_id : String) (now : ℕ) (choices : ℕ → Bool) (h : Hub X) (u : String) (s d p v : ℕ)
      → (route_call_start_to_peer_for_issi new_id now choices h u s d p v ≡ (h, none))
        ⊎ ((name : String) × ((route_call_start_to_peer_for_issi new_id now choices h u s d p v).1
              ≡ some name)
            × ((route_call_start_to_peer_for_issi new_id now choices h u s d p v).0.private_calls
                ≡ insert u name h.private_calls))
  unfolding route_call_start_to_peer_for_issi outgoing
  route_start-cases new_id now choices h u s d p v = elim (Option-cases (find_peer_for_issi h d)) [
    | inl e ↦ inl (rw (e, route_call_start_to_peer_for_issi) refl)
    | inr (r, e) ↦ inr (rw (e, route_call_start_to_peer_for_issi) ((h.heap r).name, refl, refl))
  ]

  pass_on-calls :
      (h : Hub X) (r : ℕ) (ctrl : Message X) (choices : ℕ → Bool)
      → (pass_on h r ctrl choices).private_calls ≡ h.private_calls
  unfolding pass_on relay_to_peers
  pass_on-calls h r ctrl choices = ground arith

  close_other-calls :
      (h : Hub X) (found : Option ℕ) (r : ℕ)
      → (close_other h found r).private_calls ≡ h.private_calls
  unfolding close_other
  close_other-calls h none r = refl
  close_other-calls h (some old) r = ground arith

  redeem_pending-calls :
      (h : Hub X) (r : ℕ) (key : String) → (redeem_pending h r key).private_calls ≡ h.private_calls
  unfolding redeem_pending
  redeem_pending-calls h r key = elim (Option-cases (lookup key h.pending_peers)) [
    | inl e ↦ rw (e, redeem_pending) refl
    | inr (old, e) ↦ rw (e, redeem_pending) refl
  ]

  -- The operations on the connections.
  register_peer-calls : (h : Hub X) (r : ℕ) → (register_peer h r).private_calls ≡ h.private_calls
  unfolding register_peer
  register_peer-calls h r = close_other-calls _ _ r ∙ redeem_pending-calls h r _

  rename_peer-calls :
      (h : Hub X) (r : ℕ) (name : String) → (rename_peer h r name).private_calls ≡ h.private_calls
  unfolding rename_peer
  rename_peer-calls h r name =
      let new_key = peer_key name (h.heap r).direction in
      elim (Bool-cases (str_eq (peer_key (h.heap r).name (h.heap r).direction) new_key)) [
        | inl e ↦ rw (e, rename_peer) refl
        | inr e ↦
            rw (e, rename_peer)
              (redeem_pending-calls (moved h r name) r new_key
                ∙ close_other-calls h (lookup new_key h.peers) r)
      ]

  schedule_pending_cleanup-calls :
      (h : Hub X) (key : String) (r : ℕ)
      → (schedule_pending_cleanup h key r).private_calls ≡ h.private_calls
  unfolding schedule_pending_cleanup
  schedule_pending_cleanup-calls h key r = elim (Option-cases (lookup key h.pending_peers)) [
    | inl e ↦ rw (e, schedule_pending_cleanup) refl
    | inr (old, e) ↦ rw (e, schedule_pending_cleanup) (ground arith)
  ]

  unregister_peer-calls :
      (h : Hub X) (r : ℕ) → (unregister_peer h r).private_calls ≡ h.private_calls
  unfolding unregister_peer
  unregister_peer-calls h r = elim (Option-cases (key_of r h.peers)) [
    | inl e ↦ rw (e, unregister_peer) refl
    | inr (key, e) ↦ elim (Bool-cases (str_eq key "")) [
      | inl none_left ↦ rw (e, unregister_peer, none_left) refl
      | inr some_key ↦ rw (e, unregister_peer, some_key) (schedule_pending_cleanup-calls _ key r)
    ]
  ]

  broadcast_affiliate-calls :
      (o : Outside) (h : Hub X) (issi : ℕ) (action : String) (gs : List ℕ)
      → (broadcast_affiliate o.new_id o.now o.choices h issi action gs).private_calls
        ≡ h.private_calls
  unfolding broadcast_affiliate send_out outgoing
  broadcast_affiliate-calls o h issi action gs = ground arith

  step-Leaves :
      (h : Hub X) (e : Event X) (u : String)
      → Leaves u e
      → lookup u (step h e).private_calls ≡ lookup u h.private_calls
  unfolding step route_voice_frame_for_call route_call_end_for_call route_call_reply_for_call
      handle_call_start handle_call_end relay_call_start relay_call_end broadcast_voice_frame
      broadcast_call_end send_out outgoing
  step-Leaves h (registered r) u l = ap (lookup u) (register_peer-calls h r)
  step-Leaves h (unregistered r) u l = ap (lookup u) (unregister_peer-calls h r)
  step-Leaves h (renamed r name) u l = ap (lookup u) (rename_peer-calls h r name)
  step-Leaves h (timer_fired key r) u l = unfold pending_timer in refl
  step-Leaves h (gated ctrl now) u l = unfold control_gate in ground arith
  step-Leaves h (own_subscriber o issi action gs) u l = unfold broadcast_subscriber in refl
  step-Leaves h (own_affiliate o issi action gs) u l =
      ap (lookup u) (broadcast_affiliate-calls o h issi action gs)
  step-Leaves h (own_call_start o v s g p w) u l = unfold broadcast_call_start in ground arith
  step-Leaves h (own_call_end o v cause) u l = refl
  step-Leaves h (own_voice o v content) u l = refl
  step-Leaves h (own_sds o s d content) u l = unfold broadcast_sds in ground arith
  step-Leaves h (own_station o origin x) u l = unfold broadcast_station in refl
  step-Leaves h (own_position o issi x site) u l = unfold broadcast_position_sample in refl
  step-Leaves h (route_start o v s d p w) u l =
      elim (route_start-cases o.new_id o.now o.choices h v s d p w) [
        | inl e ↦ ap (λ x. lookup u x.0.private_calls) e
        | inr (name, _, calls) ↦ rw calls (rw (lookup-insert v u name h.private_calls, l) refl)
      ]
  step-Leaves h (route_voice o v content) u l = ground arith
  step-Leaves h (route_end o v cause) u l = ground (arith, lookup-delete v u h.private_calls)
  step-Leaves h (route_reply o v state cause) u l = ground arith
  step-Leaves h (peer_sync r subscribers) u l = unfold handle_sync_response in refl
  step-Leaves h (peer_subscriber o r ctrl action issi gs) u l =
      ap (λ x. lookup u x.private_calls) (subscriber_update_steps h r ctrl action issi gs o.choices)
      ∙ ap (lookup u) (
          pass_on-calls
            (record h {
              heap = store h.heap r (subscriber_updated (h.heap r) ctrl.origin action issi gs);
            })
            r ctrl o.choices)
  step-Leaves h (peer_affiliate o r ctrl action issi gs) u l =
      ap (λ x. lookup u x.private_calls) (affiliate_update_steps h r ctrl action issi gs o.choices)
      ∙ ap (lookup u) (
          pass_on-calls
            (record h { heap = store h.heap r (affiliation_updated (h.heap r) action issi gs) }) r
            ctrl o.choices)
  step-Leaves h (peer_start o r ctrl v s g d p w) u l =
      ground (arith, lookup-insert v u (h.heap r).name h.private_calls)
  step-Leaves h (peer_end o r ctrl v cause) u l = ground (arith, lookup-delete v u h.private_calls)
  step-Leaves h (peer_sds o r ctrl s d content) u l =
      unfold handle_sds_relay in ap (lookup u) (pass_on-calls h r ctrl o.choices)
  step-Leaves h (peer_position o r ctrl issi x site) u l =
      unfold handle_position_sample in ap (lookup u) (pass_on-calls h r ctrl o.choices)
  step-Leaves h (peer_station o r ctrl x) u l =
      unfold handle_station_update in ap (lookup u) (pass_on-calls h r ctrl o.choices)

  run-Leaves :
      (h : Hub X) (es : List (Event X)) (u : String)
      → All (Leaves u) es
      → lookup u (run h es).private_calls ≡ lookup u h.private_calls
  unfolding run
  run-Leaves h [] u l = refl
  run-Leaves h (e ∷ es) u l = rw (run-Leaves (step h e) es u l.1) (step-Leaves h e u l.0)

  start_binds :
      (o : Outside) (h : Hub X) (u : String) (s d p v : ℕ) {name : String}
      → (route_call_start_to_peer_for_issi o.new_id o.now o.choices h u s d p v).1 ≡ some name
      → lookup u (step h (route_start o u s d p v)).private_calls ≡ some name
  unfolding step
  start_binds o h u s d p v e = elim (route_start-cases o.new_id o.now o.choices h u s d p v) [
    | inl none_found ↦ absurd (ground (arith, e, none_found))
    | inr (n, answer, calls) ↦
        rw (calls, lookup-insert u u n h.private_calls) (ground (arith, e, answer, eq_iff u u))
  ]

  -- The peers other than that of the call.
  bound_voice :
      (o : Outside) (h : Hub X) (u name : String) (content : List ℕ) (j : ℕ)
      → lookup u h.private_calls ≡ some name
      → peer_of_call h name ≢ some j
      → (step h (route_voice o u content)).heap j ≡ h.heap j
  unfolding step route_voice_frame_for_call store
  bound_voice o h u name content j e other = elim (Option-cases (peer_of_call h name)) [
    | inl none_there ↦ rw (e, route_voice_frame_for_call, none_there) refl
    | inr (r, there) ↦ ground (arith, e, there, other, ==_iff j r)
  ]

  bound_end :
      (o : Outside) (h : Hub X) (u name : String) (cause j : ℕ)
      → lookup u h.private_calls ≡ some name
      → peer_of_call h name ≢ some j
      → (step h (route_end o u cause)).heap j ≡ h.heap j
  unfolding step route_call_end_for_call store outgoing peer_of_call
  bound_end o h u name cause j e other = ground (arith, e, other, λ (r : ℕ). ==_iff j r)

  end_frees :
      (o : Outside) (h : Hub X) (u : String) (cause : ℕ)
      → lookup u (step h (route_end o u cause)).private_calls ≡ none
  unfolding step route_call_end_for_call outgoing broadcast_call_end send_out
  end_frees o h u cause = ground (arith, eq_iff u u, lookup-delete u u h.private_calls)

  -- Once the start of a private call was sent to a peer, and after any operations of the hub that
  -- neither route a start or an end of this call nor take one from a peer (connections that come, go,
  -- are renamed or time out, the hub's own broadcasts, other calls, and messages of peers), the call
  -- is still bound to the name of that peer: its voice frames and its end change no other peer than
  -- the one that stands under that name by then, and after its end it is not bound.
  pub private_call_lem :
      (h : Hub X) (o : Outside) (u : String) (s d p v : ℕ) (es : List (Event X)) {name : String}
      (o1 : Outside) (content : List ℕ) (o2 : Outside) (cause j : ℕ)
      → (route_call_start_to_peer_for_issi o.new_id o.now o.choices h u s d p v).1 ≡ some name
      → All (Leaves u) es
      → peer_of_call (run (step h (route_start o u s d p v)) es) name ≢ some j
      → let h' = run (step h (route_start o u s d p v)) es in
        (lookup u h'.private_calls ≡ some name)
        × ((step h' (route_voice o1 u content)).heap j ≡ h'.heap j)
        × ((step h' (route_end o2 u cause)).heap j ≡ h'.heap j)
        × (lookup u (step h' (route_end o2 u cause)).private_calls ≡ none)
  private_call_lem h o u s d p v es {name} o1 content o2 cause j e l other =
      let h' = run (step h (route_start o u s d p v)) es in
      let bound : lookup u h'.private_calls ≡ some name =
        rw (run-Leaves (step h (route_start o u s d p v)) es u l) (start_binds o h u s d p v e) in
      (
        bound,
        bound_voice o1 h' u name content j bound other,
        bound_end o2 h' u name cause j bound other,
        end_frees o2 h' u cause,
      )
