-- ===== src/Brew/Client.antt =====
-- internal/brew/client.go: a connected base station, its subscribers and the queue of packets to it.
pub mod Groups
use freetetra.Prelude.{
  ℕ, Bool, true, false, not, ◌||◌, List, [], ◌∷◌, ◌++◌, Option, none, some, length, ltb, ◌==◌,
  if◌then◌else◌, Outcome, ok, panic,
}
use freetetra.Prelude.Maps.{lookup, has_key, insert, delete, number_key}
use freetetra.Brew.Message.{
  SubscriberMessage, subscriber_deregister, subscriber_register, subscriber_reregister,
  subscriber_affiliate, subscriber_deaffiliate,
}
use Prim.Native.String.{String}

-- `map[uint32]struct{}`.
abbrev pub Groups : Type 0
Groups = List (ℕ × Unit)

pub record Client : Type 0 where
  pub id : String
  pub remote : String
  pub username : String
  pub send : List (List ℕ)
  pub closed : Bool
  pub subscribers : List (ℕ × Groups)

abbrev pub send_capacity : ℕ
send_capacity = 128

unfoldable pub new_client : String → String → String → Client
new_client id remote username = record {
  id = id;
  remote = remote;
  username = username;
  send = [];
  closed = false;
  subscribers = [];
}

-- A send on a closed channel panics.
unfoldable pub enqueue : Client → List ℕ → Outcome ⊥ (Client × Bool)
enqueue c payload =
    if c.closed
    then panic
    else if ltb (length c.send) send_capacity
    then ok (record c { send = c.send ++ (payload ∷ []) }, true)
    else ok (c, false)

-- Closing a closed channel panics.
unfoldable pub close : Client → Outcome ⊥ Client
close c = if c.closed then panic else ok (record c { closed = true })

-- The groups of `ensureSubscriber`.
unfoldable pub ensure_subscriber : ℕ → List (ℕ × Groups) → Groups
unfolding lookup
ensure_subscriber issi subscribers = elim (lookup issi subscribers) [ none ↦ [] | some s ↦ s ]

unfoldable pub add_groups : List ℕ → Groups → Groups
unfolding insert
add_groups [] s = s
add_groups (g ∷ gs) s = add_groups gs (insert g tt s)

unfoldable pub drop_groups : List ℕ → Groups → Groups
unfolding delete
drop_groups [] s = s
drop_groups (g ∷ gs) s = drop_groups gs (delete g s)

unfoldable pub apply_subscriber : Client → SubscriberMessage → Client
unfolding ensure_subscriber add_groups drop_groups insert delete
apply_subscriber c msg =
    let s = ensure_subscriber msg.number c.subscribers in
    let t = msg.msg_type in
    if t == subscriber_register || t == subscriber_reregister
    then record c { subscribers = insert msg.number s c.subscribers }
    else if t == subscriber_deregister
    then record c { subscribers = delete msg.number c.subscribers }
    else if t == subscriber_affiliate
    then record c { subscribers = insert msg.number (add_groups msg.groups s) c.subscribers }
    else if t == subscriber_deaffiliate
    then record c { subscribers = insert msg.number (drop_groups msg.groups s) c.subscribers }
    else c

unfoldable pub any_has_group : ℕ → List (ℕ × Groups) → Bool
unfolding lookup
any_has_group gssi [] = false
any_has_group gssi ((_, s) ∷ subscribers) = has_key gssi s || any_has_group gssi subscribers

unfoldable pub is_attached_to : Client → ℕ → Bool
unfolding any_has_group
is_attached_to c gssi = any_has_group gssi c.subscribers

unfoldable pub has_subscriber : Client → ℕ → Bool
unfolding lookup
has_subscriber c number = has_key number c.subscribers
