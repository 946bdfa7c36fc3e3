-- ===== src/Federation/Peer/Tests.antt =====
-- internal/federation/peer.go: the theorems at concrete histories.
use freetetra.Prelude.{ℕ, ◌%◌, ◌≤◌, ◌≡◌, refl, ◌↔◌, true, false, List, [], ◌∷◌, ◌++◌, length}
use freetetra.Prelude.Maps.{lookup, insert, delete, number_key}
use freetetra.Federation.Peer.{
  Peer, new_peer, has_issi, has_subscribers_on_gssi, send_capacity, remove_member, add_member,
  register_issi, affiliate_issi, control_frame, take_frame, send_control, send_voice_frame, offer,
  write_next, count_sent,
}
use freetetra.Federation.Peer.Tidy.{IsTidy}
use freetetra.Federation.Peer.Refine.{
  Op, register, affiliate, apply, run, affiliated, registered, has_issi-run,
  has_subscribers_on_gssi-run, run-new_peer-IsTidy,
}
use freetetra.Federation.Peer.Queue.{
  Use, put_control, put_voice, write, Line, lost, controls, voices, connected, use_queue, run_queue,
  all_added, run_queue_order,
}

-- A subscriber that registers again loses its old groups.
abbrev history : List Op
history = register 7 "" ∷ affiliate 7 (20 ∷ 21 ∷ []) ∷ register 7 "x" ∷ affiliate 7 (22 ∷ []) ∷ []

abbrev peer : Peer ℕ ℕ
peer = new_peer "far" "outgoing"

old_group_gone : has_subscribers_on_gssi (run peer history) 20 ≡ false
unfolding has_subscribers_on_gssi run apply register_issi affiliate_issi remove_member add_member
    new_peer lookup insert delete
old_group_gone = refl

has_issi-run_example : has_issi (run peer history) 7 ≡ registered history (λ _. false) 7
has_issi-run_example = has_issi-run ℕ ℕ "far" "outgoing" history 7

has_subscribers_on_gssi-run_example :
    (has_subscribers_on_gssi (run peer history) 22 ≡ true)
    ↔ ((j : ℕ) × (affiliated history (λ _ _. false) 22 j ≡ true))
has_subscribers_on_gssi-run_example = has_subscribers_on_gssi-run ℕ ℕ "far" "outgoing" history 22

run-new_peer-IsTidy_example : IsTidy (run peer history).gssi_affiliations
run-new_peer-IsTidy_example = run-new_peer-IsTidy ℕ ℕ "far" "outgoing" history

-- The third frame is taken from the queue and lost; the fourth is not written.
abbrev uses : List (Use ℕ)
uses =
    put_control 1 false
    ∷ put_voice "u" (9 ∷ []) false
    ∷ put_control 2 false
    ∷ put_control 3 false
    ∷ write (take_frame true)
    ∷ write (take_frame true)
    ∷ write (take_frame false)
    ∷ write (take_frame true)
    ∷ []

abbrev first : Line ℕ ℕ
first = connected "far" "outgoing"

abbrev line : Line ℕ ℕ
line = run_queue first uses

third_lost :
    (lost line.loop ≡ control_frame 2 ∷ [])
    × (line.peer.send ≡ control_frame 3 ∷ [])
    × (line.peer.sent_control ≡ 1)
unfolding run_queue use_queue send_control send_voice_frame offer write_next count_sent new_peer
third_lost = (refl, refl, refl)

run_queue_order_example :
    (line.written ++ (lost line.loop ++ line.peer.send) ≡ all_added first uses)
    × (length line.peer.send ≤ send_capacity)
    × (line.peer.sent_control ≡ controls line.written % 0x1_0000_0000_0000_0000)
    × (line.peer.sent_voice ≡ voices line.written % 0x1_0000_0000_0000_0000)
run_queue_order_example = run_queue_order ℕ ℕ "far" "outgoing" uses
