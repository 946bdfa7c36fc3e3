-- ===== src/Federation/Hub/Routes.antt =====
-- internal/federation/hub.go: what happens between the peers and the Brew service leaves the connections
-- and the tables of the other peers alone.
use freetetra.Prelude.{
  ℕ, ◌≡◌, refl, false, List, [], ◌∷◌, Option-cases, Bool-cases, ◌==◌, inl, inr, not, ◌⊎◌,
}
use freetetra.Prelude.Maps.{lookup, has_key, delete, text_key}
use freetetra.Federation.Mesh.{is_in_path, should_relay, prepare_relay}
use freetetra.Federation.Hub.{
  call_start, call_end, call_reply, affiliate_update, Payload, Hub, Message, store, control_to,
  voice_to, outgoing, find_peer_for_issi, is_federated_gssi,
}
use freetetra.Federation.Hub.Calls.{
  broadcast_affiliate, broadcast_call_start, broadcast_call_end, broadcast_voice_frame,
  peer_of_call, route_call_start_to_peer_for_issi, route_voice_frame_for_call,
  route_call_end_for_call, route_call_reply_for_call, federated_gssis, add_names, affiliate_action,
}
use freetetra.Federation.Hub.Handle.{
  handle_call_start, handle_call_end, relay_call_start, relay_call_end,
}
use freetetra.Federation.Hub.Events.{Outside}
use freetetra.Federation.Hub.Tables.{
  HasTablesOf, IsQuiet, control_to-HasTablesOf, voice_to-HasTablesOf, store-HasTablesOf,
  send_each-HasTablesOf, send_out-IsQuiet,
}
use Prim.Native.String.{String}

list_cases : {A : Type 0} (xs : List A) → (xs ≡ []) ⊎ ((x : A) × (rest : List A) × (xs ≡ x ∷ rest))
list_cases [] = inl refl
list_cases (x ∷ rest) = inr (x, rest, refl)

module _ {X : Type 0} where
  pub broadcast_voice_frame-IsQuiet :
      (o : Outside) (h : Hub X) (u : String) (content : List ℕ) (r : ℕ)
      → IsQuiet (broadcast_voice_frame o.new_id o.now o.choices h u content) h r
  unfolding broadcast_voice_frame
  broadcast_voice_frame-IsQuiet o h u content r = (
    refl,
    refl,
    send_each-HasTablesOf (voice_to u content o.choices) (λ _. false) h.heap [] h.peers r
        (voice_to-HasTablesOf u content o.choices),
  )

  pub broadcast_call_start-IsQuiet :
      (o : Outside) (h : Hub X) (u : String) (s g p v : ℕ) (r : ℕ)
      → IsQuiet (broadcast_call_start o.new_id o.now o.choices h u s g p v) h r
  unfolding broadcast_call_start outgoing
  broadcast_call_start-IsQuiet o h u s g p v r =
      let ctrl = (outgoing h h.server_name (call_start u s g 0 p v) o.new_id o.now).1 in
      elim (Bool-cases (is_federated_gssi g)) [
        | inl e ↦ rw e (
          refl,
          refl,
          send_each-HasTablesOf (control_to ctrl o.choices) (λ _. false) h.heap [] h.peers r
              (control_to-HasTablesOf ctrl o.choices),
        )
        | inr e ↦ rw e (refl, refl, (refl, refl))
      ]

  pub broadcast_affiliate-IsQuiet :
      (o : Outside) (h : Hub X) (issi : ℕ) (action : String) (gs : List ℕ) (r : ℕ)
      → IsQuiet (broadcast_affiliate o.new_id o.now o.choices h issi action gs) h r
  unfolding broadcast_affiliate
  broadcast_affiliate-IsQuiet o h issi action gs r = elim (list_cases (federated_gssis gs)) [
    | inl e ↦ rw (e, broadcast_affiliate) (refl, refl, (refl, refl))
    | inr (g, rest, e) ↦
        rw (e, broadcast_affiliate)
          (send_out-IsQuiet o.new_id o.now o.choices h h.server_name
            (affiliate_update (affiliate_action action) issi (g ∷ rest)) r)
  ]

  -- A message of the hub's own to one peer.
  sent_to-HasTablesOf :
      (o : Outside) (h : Hub X) (payload : Payload X) (q r : ℕ)
      → HasTablesOf
          (store h.heap q
            (control_to (outgoing h h.server_name payload o.new_id o.now).1 o.choices q (h.heap q))
            r)
          (h.heap r)
  sent_to-HasTablesOf o h payload q r =
      let ctrl = (outgoing h h.server_name payload o.new_id o.now).1 in
      store-HasTablesOf h.heap q (control_to ctrl o.choices q (h.heap q)) r
        (control_to-HasTablesOf ctrl o.choices q (h.heap q))

  pub route_start-IsQuiet :
      (o : Outside) (h : Hub X) (u : String) (s d p v : ℕ) (r : ℕ)
      → IsQuiet (route_call_start_to_peer_for_issi o.new_id o.now o.choices h u s d p v).0 h r
  unfolding route_call_start_to_peer_for_issi outgoing
  route_start-IsQuiet o h u s d p v r = elim (Option-cases (find_peer_for_issi h d)) [
    | inl e ↦ rw (e, route_call_start_to_peer_for_issi) (refl, refl, (refl, refl))
    | inr (q, e) ↦
        rw (e, route_call_start_to_peer_for_issi)
          (refl, refl, sent_to-HasTablesOf o h (call_start u s 0 d p v) q r)
  ]

  pub route_voice-IsQuiet :
      (o : Outside) (h : Hub X) (u : String) (content : List ℕ) (r : ℕ)
      → IsQuiet (route_voice_frame_for_call o.new_id o.now o.choices h u content) h r
  unfolding route_voice_frame_for_call
  route_voice-IsQuiet o h u content r = elim (Option-cases (lookup u h.private_calls)) [
    | inl e ↦ rw (e, route_voice_frame_for_call) (broadcast_voice_frame-IsQuiet o h u content r)
    | inr (name, e) ↦ elim (Option-cases (peer_of_call h name)) [
      | inl e' ↦ rw (e, route_voice_frame_for_call, e') (refl, refl, (refl, refl))
      | inr (q, e') ↦
          rw (e, route_voice_frame_for_call, e')
            (
              refl,
              refl,
              store-HasTablesOf h.heap q (voice_to u content o.choices q (h.heap q)) r
                  (voice_to-HasTablesOf u content o.choices q (h.heap q)),
            )
    ]
  ]

  pub route_end-IsQuiet :
      (o : Outside) (h : Hub X) (u : String) (cause : ℕ) (r : ℕ)
      → IsQuiet (route_call_end_for_call o.new_id o.now o.choices h u cause) h r
  unfolding route_call_end_for_call broadcast_call_end outgoing
  route_end-IsQuiet o h u cause r =
      let h' = record h { private_calls = delete u h.private_calls } in
      elim (Option-cases (lookup u h.private_calls)) [
        | inl e ↦
            rw (e, route_call_end_for_call)
              (send_out-IsQuiet o.new_id o.now o.choices
                (record h' { active_calls = delete u h'.active_calls }) h.server_name
                (call_end u cause) r)
        | inr (name, e) ↦ elim (Option-cases (peer_of_call h' name)) [
          | inl e' ↦ rw (e, route_call_end_for_call, e') (refl, refl, (refl, refl))
          | inr (q, e') ↦
              rw (e, route_call_end_for_call, e')
                (refl, refl, sent_to-HasTablesOf o h' (call_end u cause) q r)
        ]
      ]

  pub route_reply-IsQuiet :
      (o : Outside) (h : Hub X) (u : String) (state cause : ℕ) (r : ℕ)
      → IsQuiet (route_call_reply_for_call o.new_id o.now o.choices h u state cause).0 h r
  unfolding route_call_reply_for_call outgoing
  route_reply-IsQuiet o h u state cause r = elim (Option-cases (lookup u h.private_calls)) [
    | inl e ↦ rw (e, route_call_reply_for_call) (refl, refl, (refl, refl))
    | inr (name, e) ↦ elim (Option-cases (peer_of_call h name)) [
      | inl e' ↦ rw (e, route_call_reply_for_call, e') (refl, refl, (refl, refl))
      | inr (q, e') ↦
          rw (e, route_call_reply_for_call, e')
            (refl, refl, sent_to-HasTablesOf o h (call_reply u state cause) q r)
    ]
  ]

  pub relay_call_start-IsQuiet :
      (o : Outside) (h : Hub X) (q : ℕ) (ctrl : Message X) (u : String) (r : ℕ)
      → IsQuiet (relay_call_start h q ctrl u o.choices) h r
  unfolding relay_call_start
  relay_call_start-IsQuiet o h q ctrl u r = elim (Bool-cases (should_relay ctrl)) [
    | inr e ↦ rw e (refl, refl, (refl, refl))
    | inl e ↦ rw e (
      refl,
      refl,
      send_each-HasTablesOf (control_to (prepare_relay h.mesh ctrl) o.choices) (is_in_path ctrl)
          h.heap ((h.heap q).name ∷ []) h.peers r
          (control_to-HasTablesOf (prepare_relay h.mesh ctrl) o.choices),
    )
  ]

  pub relay_call_end-IsQuiet :
      (o : Outside) (h : Hub X) (q : ℕ) (ctrl : Message X) (r : ℕ)
      → IsQuiet (relay_call_end h q ctrl o.choices) h r
  unfolding relay_call_end
  relay_call_end-IsQuiet o h q ctrl r = elim (Bool-cases (should_relay ctrl)) [
    | inr e ↦ rw e (refl, refl, (refl, refl))
    | inl e ↦ rw e (
      refl,
      refl,
      send_each-HasTablesOf (control_to (prepare_relay h.mesh ctrl) o.choices) (is_in_path ctrl)
          h.heap ((h.heap q).name ∷ []) h.peers r
          (control_to-HasTablesOf (prepare_relay h.mesh ctrl) o.choices),
    )
  ]

  pub peer_start-IsQuiet :
      (o : Outside) (h : Hub X) (q : ℕ) (ctrl : Message X) (u : String) (s g d p v : ℕ) (r : ℕ)
      → IsQuiet (handle_call_start h q ctrl u s g d p v o.choices).0 h r
  unfolding handle_call_start
  peer_start-IsQuiet o h q ctrl u s g d p v r = elim (Bool-cases (not (d == 0))) [
    | inl e ↦ rw e (refl, refl, (refl, refl))
    | inr e ↦ rw e (
        relay_call_start-IsQuiet o (record h { active_calls = add_names u [] h.active_calls }) q
          ctrl u r)
  ]

  pub peer_end-IsQuiet :
      (o : Outside) (h : Hub X) (q : ℕ) (ctrl : Message X) (u : String) (cause : ℕ) (r : ℕ)
      → IsQuiet (handle_call_end h q ctrl u cause o.choices).0 h r
  unfolding handle_call_end
  peer_end-IsQuiet o h q ctrl u cause r = elim (Bool-cases (has_key u h.private_calls)) [
    | inl e ↦ rw e (refl, refl, (refl, refl))
    | inr e ↦ rw e (
        relay_call_end-IsQuiet o
          (record h {
            private_calls = delete u h.private_calls;
            active_calls = delete u h.active_calls;
          })
          q ctrl r)
  ]
