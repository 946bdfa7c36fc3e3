-- ===== src/Federation/Peer.antt =====
-- internal/federation/peer.go: a connected peer, with the tables of the subscribers behind it and the
-- queue of frames to it. `C` is the type of control messages and `E` that of errors.
pub mod Tables
pub mod Tidy
pub mod Refine
pub mod Queue
mod Tests
use freetetra.Prelude.{
  ℕ, ◌+◌, ◌%◌, ◌≡◌, Bool, true, false, ◌&&◌, ◌||◌, not, List, [], ◌∷◌, ◌++◌, Option, none, some,
  length, ltb, if◌then◌else◌,
}
use freetetra.Prelude.Maps.{lookup, has_key, insert, delete, number_key}
use Prim.Native.String.{String}
use text.Mathlib.Text.{◌==◌ as str_eq}

-- `map[uint32]map[uint32]bool`: the subscribers affiliated to each group.
abbrev pub Members : Type 0
Members = List (ℕ × Bool)

abbrev pub Affiliations : Type 0
Affiliations = List (ℕ × Members)

pub data Frame (C : Type 0) : Type 0 where
  control_frame : C → Frame C
  voice_frame : String → List ℕ → Frame C

pub record Peer (C E : Type 0) : Type 0 where
  pub name : String
  pub direction : String
  pub issis : List (ℕ × String)
  pub gssi_affiliations : Affiliations
  pub send : List (Frame C)
  pub done : Bool
  pub close_err : Option E
  pub sent_control : ℕ
  pub sent_voice : ℕ
  pub dropped_control : ℕ
  pub dropped_voice : ℕ

abbrev pub send_capacity : ℕ
send_capacity = 256

abbrev add_u64 : ℕ → ℕ → ℕ
add_u64 a b = (a + b) % 0x1_0000_0000_0000_0000

abbrev pub is_empty : Members → Bool
is_empty [] = true
is_empty (_ ∷ _) = false

abbrev pub members_or_empty : Option Members → Members
members_or_empty none = []
members_or_empty (some ms) = ms

-- The loop of `RegisterISSI` and `DeregisterISSI` over all groups.
unfoldable pub remove_member : ℕ → Affiliations → Affiliations
remove_member issi [] = []
remove_member issi ((gssi, members) ∷ rest) =
    let rest' = remove_member issi rest in
    let members' = delete issi members in
    if is_empty members' then rest' else (gssi, members') ∷ rest'

-- The loop of `AffiliateISSI` over the groups given.
unfoldable pub add_member : ℕ → List ℕ → Affiliations → Affiliations
add_member issi [] m = m
add_member issi (gssi ∷ gssis) m =
    add_member issi gssis (insert gssi (insert issi true (members_or_empty (lookup gssi m))) m)

-- A round of the loop of `DeaffiliateISSI`.
unfoldable pub drop_from : ℕ → ℕ → Affiliations → Affiliations
drop_from issi gssi m = elim (lookup gssi m) [
  | none ↦ m
  | some members ↦
      let members' = delete issi members in
      if is_empty members' then delete gssi m else insert gssi members' m
]

unfoldable pub drop_member : ℕ → List ℕ → Affiliations → Affiliations
drop_member issi [] m = m
drop_member issi (gssi ∷ gssis) m = drop_member issi gssis (drop_from issi gssi m)

-- What a send returns: nil, also when the frame was dropped, or `context.Canceled`.
pub data Sent : Type 0 where
  accepted canceled : Sent

-- Which case the `select` of `writeLoop` takes: it leaves when the peer is closed or the stream's
-- context has ended, or takes a frame, and the stream's `Send` succeeds or not.
pub data Round : Type 0 where
  leave : Round
  take_frame : Bool → Round

pub data Wrote (C : Type 0) : Type 0 where
  waits returned : Wrote C
  wrote failed : Frame C → Wrote C

module _ {C E : Type 0} where
  unfoldable pub new_peer : String → String → Peer C E
  new_peer name direction = record {
    name = name;
    direction = direction;
    issis = [];
    gssi_affiliations = [];
    send = [];
    done = false;
    close_err = none;
    sent_control = 0;
    sent_voice = 0;
    dropped_control = 0;
    dropped_voice = 0;
  }

  unfoldable pub register_issi : Peer C E → ℕ → String → Peer C E
  register_issi p issi origin = record p {
    issis = insert issi (if str_eq origin "" then p.name else origin) p.issis;
    gssi_affiliations = remove_member issi p.gssi_affiliations;
  }

  unfoldable pub deregister_issi : Peer C E → ℕ → Peer C E
  deregister_issi p issi = record p {
    issis = delete issi p.issis;
    gssi_affiliations = remove_member issi p.gssi_affiliations;
  }

  unfoldable pub affiliate_issi : Peer C E → ℕ → List ℕ → Peer C E
  affiliate_issi p issi gssis = record p {
    gssi_affiliations = add_member issi gssis p.gssi_affiliations;
  }

  unfoldable pub deaffiliate_issi : Peer C E → ℕ → List ℕ → Peer C E
  deaffiliate_issi p issi gssis = record p {
    gssi_affiliations = drop_member issi gssis p.gssi_affiliations;
  }

  unfoldable pub has_subscribers_on_gssi : Peer C E → ℕ → Bool
  has_subscribers_on_gssi p gssi =
      ltb 0 (length (members_or_empty (lookup gssi p.gssi_affiliations)))

  unfoldable pub has_issi : Peer C E → ℕ → Bool
  has_issi p issi = has_key issi p.issis

  -- `Cleanup`.
  unfoldable pub clear : Peer C E → Peer C E
  clear p = record p { issis = []; gssi_affiliations = [] }

  -- `adoptPeerState`: the tables move from `src` to `dst`; the result is both.
  unfoldable pub adopt_peer_state : Peer C E → Peer C E → Peer C E × Peer C E
  adopt_peer_state dst src = (
    record dst { issis = src.issis; gssi_affiliations = src.gssi_affiliations },
    record src { issis = []; gssi_affiliations = [] },
  )

  unfoldable pub set_close_err : Peer C E → E → Peer C E
  set_close_err p e = elim p.close_err [ none ↦ record p { close_err = some e } | some _ ↦ p ]

  -- The `select` of a send. Where the queue has room and the peer is closed too, Go takes either
  -- case: `prefer_done` is its choice.
  unfoldable pub offer : Peer C E → Frame C → Bool → Option (Peer C E × Sent)
  offer p frame prefer_done =
      if ltb (length p.send) send_capacity && not (p.done && prefer_done)
      then some (record p { send = p.send ++ (frame ∷ []) }, accepted)
      else if p.done
      then some (p, canceled)
      else none

  unfoldable pub send_control : Peer C E → C → Bool → Peer C E × Sent
  unfolding offer
  send_control p ctrl prefer_done = elim (offer p (control_frame ctrl) prefer_done) [
    | some r ↦ r
    | none ↦ (record p { dropped_control = add_u64 p.dropped_control 1 }, accepted)
  ]

  unfoldable pub send_voice_frame : Peer C E → String → List ℕ → Bool → Peer C E × Sent
  unfolding offer
  send_voice_frame p call_uuid content prefer_done =
      elim (offer p (voice_frame call_uuid content) prefer_done) [
        | some r ↦ r
        | none ↦ (record p { dropped_voice = add_u64 p.dropped_voice 1 }, accepted)
      ]

  unfoldable pub count_sent : Peer C E → Frame C → Peer C E
  count_sent p (control_frame c) = record p { sent_control = add_u64 p.sent_control 1 }
  count_sent p (voice_frame u d) = record p { sent_voice = add_u64 p.sent_voice 1 }

  -- A round of `writeLoop`. It blocks while the queue is empty; a frame whose `Send` fails is taken
  -- from the queue all the same, and the loop returns.
  unfoldable pub write_next : Peer C E → Round → Peer C E × Wrote C
  unfolding count_sent
  write_next p leave = (p, returned)
  write_next p (take_frame succeeds) = elim p.send [
    | [] ↦ (p, waits)
    | frame ∷ rest ↦
        let p' = record p { send = rest } in
        if succeeds then (count_sent p' frame, wrote frame) else (p', failed frame)
  ]
