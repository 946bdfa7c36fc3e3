-- ===== src/Brew/Client/Groups.antt =====
-- internal/brew/client.go: the tables of a client implement two relations, which subscribers are
-- known and which groups each of them is affiliated to, over every history of messages.
use freetetra.Prelude.{
  ℕ, ◌≡◌, refl, ap, sym, ◌∙◌, ◌↔◌, arith, Bool, true, false, not, ◌&&◌, ◌||◌, List, [], ◌∷◌, ◌==◌,
  if◌then◌else◌, ==_iff, inl, inr, Bool-cases,
}
use freetetra.Prelude.Maps.{
  lookup, has_key, insert, delete, number_key, contains, lookup-insert, lookup-delete, IsMap,
  insert-IsMap, delete-IsMap,
}
use freetetra.Brew.Message.{
  SubscriberMessage, subscriber_deregister, subscriber_register, subscriber_reregister,
  subscriber_affiliate, subscriber_deaffiliate,
}
use freetetra.Brew.Client.{
  Client, Groups, new_client, ensure_subscriber, add_groups, drop_groups, apply_subscriber,
  any_has_group, is_attached_to, has_subscriber,
}
use Prim.Native.String.{String}
use mathlib.Core.Path.{fun_ext}

-- The subscriber is affiliated to the group.
unfoldable pub in_group : List (ℕ × Groups) → ℕ → ℕ → Bool
in_group subscribers n g = has_key g (ensure_subscriber n subscribers)

-- What a message makes of "subscriber n is affiliated to group g".
unfoldable pub affiliated_after : SubscriberMessage → (ℕ → ℕ → Bool) → ℕ → ℕ → Bool
affiliated_after msg was n g =
    let t = msg.msg_type in
    if not (msg.number == n)
    then was n g
    else if t == subscriber_deregister
    then false
    else if t == subscriber_affiliate
    then was n g || contains g msg.groups
    else if t == subscriber_deaffiliate
    then was n g && not (contains g msg.groups)
    else was n g

-- And of "subscriber n is known".
unfoldable pub known_after : SubscriberMessage → (ℕ → Bool) → ℕ → Bool
known_after msg was n =
    let t = msg.msg_type in
    if not (msg.number == n)
    then was n
    else if t == subscriber_deregister
    then false
    else was n
      || t == subscriber_register
      || t == subscriber_reregister
      || t == subscriber_affiliate
      || t == subscriber_deaffiliate

unfoldable pub affiliated : List SubscriberMessage → (ℕ → ℕ → Bool) → ℕ → ℕ → Bool
affiliated [] was = was
affiliated (m ∷ ms) was = affiliated ms (affiliated_after m was)

unfoldable pub known : List SubscriberMessage → (ℕ → Bool) → ℕ → Bool
known [] was = was
known (m ∷ ms) was = known ms (known_after m was)

unfoldable pub apply_all : Client → List SubscriberMessage → Client
apply_all c [] = c
apply_all c (m ∷ ms) = apply_all (apply_subscriber c m) ms

has_key-add_groups :
    (g : ℕ) (gs : List ℕ) (s : Groups)
    → has_key g (add_groups gs s) ≡ (has_key g s || contains g gs)
unfolding add_groups contains
has_key-add_groups g [] s = ground arith
has_key-add_groups g (h ∷ gs) s =
    ground (arith, has_key-add_groups g gs (insert h tt s), lookup-insert h g tt s, ==_iff h g)

has_key-drop_groups :
    (g : ℕ) (gs : List ℕ) (s : Groups)
    → has_key g (drop_groups gs s) ≡ (has_key g s && not (contains g gs))
unfolding drop_groups contains
has_key-drop_groups g [] s = ground arith
has_key-drop_groups g (h ∷ gs) s =
    ground (arith, has_key-drop_groups g gs (delete h s), lookup-delete h g s, ==_iff h g)

in_group-insert :
    (subscribers : List (ℕ × Groups)) (k : ℕ) (s : Groups) (n g : ℕ)
    → in_group (insert k s subscribers) n g
      ≡ (if k == n then has_key g s else in_group subscribers n g)
unfolding in_group ensure_subscriber
in_group-insert subscribers k s n g = ground (arith, lookup-insert k n s subscribers)

in_group-delete :
    (subscribers : List (ℕ × Groups)) (k n g : ℕ)
    → in_group (delete k subscribers) n g ≡ (if k == n then false else in_group subscribers n g)
unfolding in_group ensure_subscriber lookup
in_group-delete subscribers k n g = ground (arith, lookup-delete k n subscribers)

apply-affiliated :
    (c : Client) (m : SubscriberMessage) (n g : ℕ)
    → in_group (apply_subscriber c m).subscribers n g
      ≡ affiliated_after m (in_group c.subscribers) n g
unfolding apply_subscriber affiliated_after
apply-affiliated c m n g =
    let s = ensure_subscriber m.number c.subscribers in
    let same : has_key g s ≡ in_group c.subscribers m.number g = unfold in_group in refl in
    ground (
      arith,
      same,
      in_group-insert c.subscribers m.number s n g,
      in_group-insert c.subscribers m.number (add_groups m.groups s) n g,
      in_group-insert c.subscribers m.number (drop_groups m.groups s) n g,
      in_group-delete c.subscribers m.number n g,
      has_key-add_groups g m.groups s,
      has_key-drop_groups g m.groups s,
      ==_iff m.number n,
    )

apply-known :
    (c : Client) (m : SubscriberMessage) (n : ℕ)
    → has_subscriber (apply_subscriber c m) n ≡ known_after m (has_subscriber c) n
unfolding apply_subscriber known_after has_subscriber
apply-known c m n =
    let s = ensure_subscriber m.number c.subscribers in
    ground (
      arith,
      lookup-insert m.number n s c.subscribers,
      lookup-insert m.number n (add_groups m.groups s) c.subscribers,
      lookup-insert m.number n (drop_groups m.groups s) c.subscribers,
      lookup-delete m.number n c.subscribers,
      ==_iff m.number n,
    )

run-affiliated :
    (c : Client) (ms : List SubscriberMessage) (n g : ℕ)
    → in_group (apply_all c ms).subscribers n g ≡ affiliated ms (in_group c.subscribers) n g
unfolding apply_all affiliated
run-affiliated c [] n g = refl
run-affiliated c (m ∷ ms) n g =
    run-affiliated (apply_subscriber c m) ms n g
    ∙ ap (λ was. affiliated ms was n g) (fun_ext (λ n'. fun_ext (λ g'. apply-affiliated c m n' g')))

run-known :
    (c : Client) (ms : List SubscriberMessage) (n : ℕ)
    → has_subscriber (apply_all c ms) n ≡ known ms (has_subscriber c) n
unfolding apply_all known
run-known c [] n = refl
run-known c (m ∷ ms) n =
    run-known (apply_subscriber c m) ms n
    ∙ ap (λ was. known ms was n) (fun_ext (λ n'. apply-known c m n'))

apply-IsMap :
    (c : Client) (m : SubscriberMessage)
    → IsMap c.subscribers
    → IsMap (apply_subscriber c m).subscribers
unfolding apply_subscriber
apply-IsMap c m h =
    let s = ensure_subscriber m.number c.subscribers in
    ground (
      arith,
      insert-IsMap m.number s c.subscribers h,
      insert-IsMap m.number (add_groups m.groups s) c.subscribers h,
      insert-IsMap m.number (drop_groups m.groups s) c.subscribers h,
      delete-IsMap m.number c.subscribers h,
      h,
    )

run-IsMap :
    (c : Client) (ms : List SubscriberMessage)
    → IsMap c.subscribers
    → IsMap (apply_all c ms).subscribers
unfolding apply_all
run-IsMap c [] h = h
run-IsMap c (m ∷ ms) h = run-IsMap (apply_subscriber c m) ms (apply-IsMap c m h)

any_has_group→ :
    (g : ℕ) (subscribers : List (ℕ × Groups))
    → IsMap subscribers
    → any_has_group g subscribers ≡ true
    → (n : ℕ) × (in_group subscribers n g ≡ true)
unfolding any_has_group in_group ensure_subscriber lookup
any_has_group→ g [] h e = absurd (ground (arith, e))
any_has_group→ g ((i, s) ∷ subscribers) h e = elim (Bool-cases (has_key g s)) [
  | inl here ↦ (i, ground (arith, here, ==_iff i i))
  | inr absent ↦
      let (n, there) = any_has_group→ g subscribers h.1 (ground (arith, e, absent)) in
      (n, ground (arith, there, h.0, ==_iff i n))
]

any_has_group← :
    (g n : ℕ) (subscribers : List (ℕ × Groups))
    → in_group subscribers n g ≡ true
    → any_has_group g subscribers ≡ true
unfolding any_has_group in_group ensure_subscriber lookup
any_has_group← g n [] e = absurd (ground (arith, e))
any_has_group← g n ((i, s) ∷ subscribers) e = ground (arith, e, any_has_group← g n subscribers)

-- After any history of subscriber messages to a new client, `HasSubscriber` answers whether the
-- subscriber is known by that history.
pub has_subscriber-apply_all :
    (id remote username : String) (ms : List SubscriberMessage) (n : ℕ)
    → has_subscriber (apply_all (new_client id remote username) ms) n ≡ known ms (λ _. false) n
unfolding new_client
has_subscriber-apply_all id remote username ms n =
    run-known (new_client id remote username) ms n
    ∙ ap (λ was. known ms was n) (fun_ext (λ n'. unfold has_subscriber lookup in refl))

-- After any history of subscriber messages to a new client, `IsAttachedTo` holds exactly if some
-- subscriber is affiliated to the group by that history.
pub is_attached_to-apply_all :
    (id remote username : String) (ms : List SubscriberMessage) (g : ℕ)
    → (is_attached_to (apply_all (new_client id remote username) ms) g ≡ true)
      ↔ ((n : ℕ) × (affiliated ms (λ _ _. false) n g ≡ true))
unfolding is_attached_to new_client
is_attached_to-apply_all id remote username ms g = (
  λ e.
      let (n, there) = any_has_group→ g after.subscribers (run-IsMap start ms tt) e in
      (n, sym (same n) ∙ there),
  λ (n, e). any_has_group← g n after.subscribers (same n ∙ e),
)
  where
    start : Client
    start = new_client id remote username

    after : Client
    after = apply_all start ms

    same : (n : ℕ) → in_group after.subscribers n g ≡ affiliated ms (λ _ _. false) n g
    same n =
        run-affiliated start ms n g
        ∙ ap (λ was. affiliated ms was n g)
            (fun_ext (λ n'. fun_ext (λ g'. unfold in_group ensure_subscriber lookup in refl)))
