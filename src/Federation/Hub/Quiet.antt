-- ===== src/Federation/Hub/Quiet.antt =====
-- internal/federation/hub.go: every operation but those on the connections leaves the connections and
-- the tables of the other peers alone.
use freetetra.Prelude.{ℕ, ◌≡◌, refl, arith, ◌∙◌, ap, Bool, false, none, some, ◌==◌, if◌then◌else◌}
use freetetra.Prelude.Maps.{delete, text_key}
use freetetra.Federation.Hub.{
  pass_on, sds_relay, subscriber_update, station_update, position_sample, call_end, Hub, Message,
  Remote, store,
}
use freetetra.Federation.Hub.Calls.{
  broadcast_subscriber, broadcast_station, broadcast_position_sample, broadcast_call_end,
  broadcast_sds, subscriber_action,
}
use freetetra.Federation.Hub.Handle.{
  control_gate, handle_sync_response, handle_sds_relay, handle_position_sample,
  handle_station_update,
}
use freetetra.Federation.Hub.Events.{
  Event, registered, unregistered, renamed, timer_fired, gated, own_subscriber, own_affiliate,
  own_call_start, own_call_end, own_voice, own_sds, own_station, own_position, route_start,
  route_voice, route_end, route_reply, peer_sync, peer_subscriber, peer_affiliate, peer_start,
  peer_end, peer_sds, peer_position, peer_station, step,
}
use freetetra.Federation.Hub.Tables.{IsQuiet, pass_on-IsQuiet, send_out-IsQuiet}
use freetetra.Federation.Hub.Updates.{
  subscriber_updated, affiliation_updated, subscriber_update_steps, affiliate_update_steps,
}
use text.Mathlib.Text.{◌==◌ as str_eq}
use freetetra.Federation.Hub.Routes.{
  broadcast_voice_frame-IsQuiet, broadcast_call_start-IsQuiet, broadcast_affiliate-IsQuiet,
  route_start-IsQuiet, route_voice-IsQuiet, route_end-IsQuiet, route_reply-IsQuiet,
  peer_start-IsQuiet, peer_end-IsQuiet,
}

module _ {X : Type 0} where
  -- A write to another peer, and the relay behind it.
  pass_on-store-IsQuiet :
      (h : Hub X) (q : ℕ) (p : Remote X) (ctrl : Message X) (choices : ℕ → Bool) (r : ℕ)
      → (r == q) ≡ false
      → IsQuiet (pass_on (record h { heap = store h.heap q p }) q ctrl choices) h r
  pass_on-store-IsQuiet h q p ctrl choices r other =
      let (peers, pending, (a, b)) =
        pass_on-IsQuiet (record h { heap = store h.heap q p }) q ctrl choices r in
      let same : store h.heap q p r ≡ h.heap r = unfold store in rw other refl in
      (peers, pending, (a ∙ ap (λ x. x.issis) same, b ∙ ap (λ x. x.gssi_affiliations) same))

  -- The operation is one that neither connects, loses, renames or retires a peer nor updates `r`.
  abbrev pub Passes : ℕ → Event X → Type 0
  Passes r (registered q) = ⊥
  Passes r (unregistered q) = ⊥
  Passes r (renamed q name) = ⊥
  Passes r (timer_fired key q) = ⊥
  Passes r (peer_sync q _) = (r == q) ≡ false
  Passes r (peer_subscriber _ q _ _ _ _) = (r == q) ≡ false
  Passes r (peer_affiliate _ q _ _ _ _) = (r == q) ≡ false
  Passes r _ = Unit

  pub step-IsQuiet : (h : Hub X) (e : Event X) (r : ℕ) → Passes r e → IsQuiet (step h e) h r
  unfolding step
  step-IsQuiet h (registered q) r c = absurd c
  step-IsQuiet h (unregistered q) r c = absurd c
  step-IsQuiet h (renamed q name) r c = absurd c
  step-IsQuiet h (timer_fired key q) r c = absurd c
  step-IsQuiet h (gated ctrl now) r c = unfold control_gate in ground arith
  step-IsQuiet h (own_subscriber o issi action gs) r c =
      unfold broadcast_subscriber in
      send_out-IsQuiet o.new_id o.now o.choices h h.server_name
        (subscriber_update (subscriber_action action) issi gs) r
  step-IsQuiet h (own_affiliate o issi action gs) r c =
      broadcast_affiliate-IsQuiet o h issi action gs r
  step-IsQuiet h (own_call_start o u s g p v) r c = broadcast_call_start-IsQuiet o h u s g p v r
  step-IsQuiet h (own_call_end o u cause) r c =
      unfold broadcast_call_end in
      send_out-IsQuiet o.new_id o.now o.choices
        (record h { active_calls = delete u h.active_calls }) h.server_name (call_end u cause) r
  step-IsQuiet h (own_voice o u content) r c = broadcast_voice_frame-IsQuiet o h u content r
  step-IsQuiet h (own_sds o s d none) r c = unfold broadcast_sds in (refl, refl, (refl, refl))
  step-IsQuiet h (own_sds o s d (some raw)) r c =
      unfold broadcast_sds in
      send_out-IsQuiet o.new_id o.now o.choices h h.server_name (sds_relay s d raw) r
  step-IsQuiet h (own_station o origin x) r c =
      unfold broadcast_station in
      send_out-IsQuiet o.new_id o.now o.choices h
        (if str_eq origin "" then h.server_name else origin) (station_update x) r
  step-IsQuiet h (own_position o issi x site) r c =
      unfold broadcast_position_sample in
      send_out-IsQuiet o.new_id o.now o.choices h h.server_name (position_sample issi x site) r
  step-IsQuiet h (route_start o u s d p v) r c = route_start-IsQuiet o h u s d p v r
  step-IsQuiet h (route_voice o u content) r c = route_voice-IsQuiet o h u content r
  step-IsQuiet h (route_end o u cause) r c = route_end-IsQuiet o h u cause r
  step-IsQuiet h (route_reply o u state cause) r c = route_reply-IsQuiet o h u state cause r
  step-IsQuiet h (peer_sync q subscribers) r c =
      unfold handle_sync_response store in rw c (refl, refl, (refl, refl))
  step-IsQuiet h (peer_subscriber o q ctrl action issi gs) r c =
      rw (subscriber_update_steps h q ctrl action issi gs o.choices) (
        pass_on-store-IsQuiet h q (subscriber_updated (h.heap q) ctrl.origin action issi gs) ctrl
          o.choices r c)
  step-IsQuiet h (peer_affiliate o q ctrl action issi gs) r c =
      rw (affiliate_update_steps h q ctrl action issi gs o.choices) (
        pass_on-store-IsQuiet h q (affiliation_updated (h.heap q) action issi gs) ctrl o.choices r
          c)
  step-IsQuiet h (peer_start o q ctrl u s g d p v) r c = peer_start-IsQuiet o h q ctrl u s g d p v r
  step-IsQuiet h (peer_end o q ctrl u cause) r c = peer_end-IsQuiet o h q ctrl u cause r
  step-IsQuiet h (peer_sds o q ctrl s d content) r c =
      unfold handle_sds_relay in pass_on-IsQuiet h q ctrl o.choices r
  step-IsQuiet h (peer_position o q ctrl issi x site) r c =
      unfold handle_position_sample in pass_on-IsQuiet h q ctrl o.choices r
  step-IsQuiet h (peer_station o q ctrl x) r c =
      unfold handle_station_update in pass_on-IsQuiet h q ctrl o.choices r
