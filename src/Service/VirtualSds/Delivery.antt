-- ===== src/Service/VirtualSds/Delivery.antt =====
-- internal/service/virtual_sds.go: what a reader gets.
use freetetra.Prelude.{
  ℕ, suc, zero, ◌+◌, ◌-◌, ◌≡◌, ◌<◌, refl, ap, sym, ◌∙◌, arith, Bool, List, [], ◌∷◌, some, leb,
  if◌then◌else◌, take, Bool-cases, inl, inr,
}
use freetetra.Prelude.Maps.{lookup, number_key}
use freetetra.Service.VirtualSds.{VirtualSds, VirtualSdsMessage, EndpointState}
use freetetra.Service.VirtualSds.Messages.{
  filter_from, filter_virtual_messages, consume_from, effective_limit, virtual_sds_messages,
}

-- The messages after a number.
abbrev pub after : ℕ → List VirtualSdsMessage → List VirtualSdsMessage
after since [] = []
after since (m ∷ ms) = if leb m.seq since then after since ms else m ∷ after since ms

take_empty : (n : ℕ) → take {A = VirtualSdsMessage} n [] ≡ []
take_empty zero = refl
take_empty (suc n) = refl

take_first :
    (limit got : ℕ) (m : VirtualSdsMessage) (ms : List VirtualSdsMessage)
    → got < limit
    → take (limit - got) (m ∷ ms) ≡ m ∷ take (limit - (got + 1)) ms
take_first limit got m ms h =
    let e : limit - got ≡ suc (limit - (got + 1)) = omega (arith, h) in ap (λ n. take n (m ∷ ms)) e

filter_from_lem :
    (ms : List VirtualSdsMessage) (since limit got : ℕ)
    → got < limit
    → filter_from ms since limit got ≡ take (limit - got) (after since ms)
unfolding filter_from
filter_from_lem [] since limit got h = sym (take_empty (limit - got))
filter_from_lem (m ∷ ms) since limit got h = elim (Bool-cases (leb m.seq since)) [
  | inl old ↦ rw (old, filter_from) (filter_from_lem ms since limit got h)
  | inr fresh ↦ elim (Bool-cases (leb limit (got + 1))) [
    | inl full ↦
        let last : limit - (got + 1) ≡ 0 = ground (arith, full) in
        rw (fresh, filter_from, full)
          (sym (
            take_first limit got m (after since ms) h ∙ ap (λ n. m ∷ take n (after since ms)) last))
    | inr more ↦
        rw (fresh, filter_from, more)
          (ap (λ r. m ∷ r) (filter_from_lem ms since limit (got + 1) (ground (arith, more)))
            ∙ sym (take_first limit got m (after since ms) h))
  ]
]

consume_from_lem :
    (ms : List VirtualSdsMessage) (since limit got : ℕ)
    → (consume_from ms since limit got).0 ≡ take (limit - got) (after since ms)
unfolding consume_from
consume_from_lem [] since limit got = sym (take_empty (limit - got))
consume_from_lem (m ∷ ms) since limit got = elim (Bool-cases (leb m.seq since)) [
  | inl old ↦ rw (old, consume_from) (consume_from_lem ms since limit got)
  | inr fresh ↦ elim (Bool-cases (leb limit got)) [
    | inl full ↦
        let none_left : limit - got ≡ 0 = ground (arith, full) in
        rw (fresh, consume_from, full, none_left)
          (consume_from_lem ms since limit got ∙ ap (λ n. take n (after since ms)) none_left)
    | inr more ↦
        rw (fresh, consume_from, more)
          (ap (λ r. m ∷ r) (consume_from_lem ms since limit (got + 1))
            ∙ sym (take_first limit got m (after since ms) (ground (arith, more))))
  ]
]

limit_lem : (limit : ℕ) → 0 < effective_limit limit
unfolding effective_limit
limit_lem limit = ground arith

-- Taking messages away or not, a reader gets the first messages after its number, up to its limit.
pub virtual_sds_messages_lem :
    (s : VirtualSds) (issi since limit : ℕ) (consume : Bool) (now : ℕ) (ep : EndpointState)
    → lookup issi s.endpoints ≡ some ep
    → (virtual_sds_messages s issi since limit consume now).1
      ≡ some (take (effective_limit limit) (after since ep.messages))
unfolding virtual_sds_messages filter_virtual_messages effective_limit
virtual_sds_messages_lem s issi since limit consume now ep e =
    let most = effective_limit limit in
    let whole : take (most - 0) (after since ep.messages) ≡ take most (after since ep.messages) =
      ap (λ n. take n (after since ep.messages)) (omega arith) in
    elim (Bool-cases consume) [
      | inl takes ↦
          rw (e, virtual_sds_messages, takes)
            (ap some (consume_from_lem ep.messages since most 0 ∙ whole))
      | inr reads ↦
          rw (e, virtual_sds_messages, reads)
            (ap some (filter_from_lem ep.messages since most 0 (limit_lem limit) ∙ whole))
    ]
