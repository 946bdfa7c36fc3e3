-- ===== src/Service/VirtualSds/Counts.antt =====
-- internal/service/virtual_sds.go: what the operations do to the numbers of the messages.
use freetetra.Prelude.{
  ℕ, suc, zero, ◌+◌, ◌-◌, ◌%◌, ◌≡◌, ◌≤◌, ◌<◌, ◌⊎◌, refl, ap, arith, Bool, true, false, ◌||◌, ◌&&◌,
  List, [], ◌∷◌, ◌++◌, Option, none, some, leb, ◌==◌, ==_iff, if◌then◌else◌, length, drop,
  Bool-cases, Option-cases, inl, inr,
}
use freetetra.Prelude.Maps.{lookup, insert, number_key, lookup-insert, lookup-delete}
use freetetra.Service.VirtualSds.{
  VirtualSds, VirtualSdsMessage, EndpointState, virtual_sds_message_limit, new_endpoint,
  name_endpoint, delete_virtual_sds_endpoint,
}
use freetetra.Service.VirtualSds.Messages.{
  consume_from, effective_limit, virtual_sds_messages, maybe_store_virtual_sds_message, store_in,
  keep_last, stamp,
}
use freetetra.Service.VirtualSds.Groups.{
  ensure_group_callout_virtual_endpoint, allocate_candidate, assign_candidate, find_candidate,
  fallback_candidate,
}

-- How many messages have the number.
unfoldable pub count : ℕ → List VirtualSdsMessage → ℕ
count n [] = 0
count n (m ∷ ms) = (if m.seq == n then 1 else 0) + count n ms

pub count-append :
    (n : ℕ) (xs ys : List VirtualSdsMessage) → count n (xs ++ ys) ≡ count n xs + count n ys
unfolding count
count-append n [] ys = omega arith
count-append n (x ∷ xs) ys = omega (arith, count-append n xs ys)

count-drop : (n k : ℕ) (xs : List VirtualSdsMessage) → count n (drop k xs) ≤ count n xs
unfolding count
count-drop n zero xs = omega arith
count-drop n (suc k) [] = omega arith
count-drop n (suc k) (x ∷ xs) = omega (arith, count-drop n k xs)

count-keep_last :
    (n : ℕ) (xs : List VirtualSdsMessage) (m : VirtualSdsMessage)
    → count n (keep_last xs m) ≤ count n xs + (if m.seq == n then 1 else 0)
unfolding keep_last count
count-keep_last n xs m =
    let all = xs ++ (m ∷ []) in
    ground
      (arith, count-append n xs (m ∷ []), count-drop n (length all - virtual_sds_message_limit) all)

count-consume_from :
    (n : ℕ) (ms : List VirtualSdsMessage) (since limit got : ℕ)
    → count n (consume_from ms since limit got).0 + count n (consume_from ms since limit got).1
      ≡ count n ms
unfolding consume_from count
count-consume_from n [] since limit got = refl
count-consume_from n (m ∷ ms) since limit got =
    elim (Bool-cases (leb m.seq since || leb limit got)) [
      | inl stays ↦
          rw (stays, consume_from) (omega (arith, count-consume_from n ms since limit got))
      | inr goes ↦
          rw (goes, consume_from) (omega (arith, count-consume_from n ms since limit (got + 1)))
    ]

-- The messages that an endpoint keeps.
unfoldable pub messages_of : ℕ → VirtualSds → List VirtualSdsMessage
unfolding lookup
messages_of issi s = elim (lookup issi s.endpoints) [ none ↦ [] | some ep ↦ ep.messages ]

-- The messages after an endpoint is written.
pub messages_of-insert :
    (s : VirtualSds) (issi t : ℕ) (ep : EndpointState) (m : List (ℕ × ℕ)) (seq : ℕ)
    → messages_of t
        (record { endpoints = insert issi ep s.endpoints; group_callout = m; sds_seq = seq })
      ≡ (if issi == t then ep.messages else messages_of t s)
unfolding messages_of
messages_of-insert s issi t ep m seq = ground (arith, lookup-insert issi t ep s.endpoints)

pub stored_lem :
    (s : VirtualSds) (issi : ℕ) (ep : EndpointState)
    → lookup issi s.endpoints ≡ some ep
    → messages_of issi s ≡ ep.messages
unfolding messages_of
stored_lem s issi ep e = rw (e, messages_of) refl

pub name_endpoint_shape :
    (s : VirtualSds) (issi : ℕ) (name : List ℕ) (now : ℕ)
    → (ep : EndpointState) × ((name_endpoint s issi name now).0 ≡ record {
      endpoints = insert issi ep s.endpoints;
      group_callout = s.group_callout;
      sds_seq = s.sds_seq;
    })
      × (ep.messages ≡ messages_of issi s)
unfolding name_endpoint messages_of
name_endpoint_shape s issi name now = elim (Option-cases (lookup issi s.endpoints)) [
  | inl e ↦ (
    record (new_endpoint issi now) { name = name; updated = now },
    rw (e, name_endpoint) refl,
    rw (e, messages_of) refl,
  )
  | inr (ep, e) ↦ (
    record ep { name = name; updated = now },
    rw (e, name_endpoint) refl,
    rw (e, messages_of) refl,
  )
]

pub name_endpoint_lem :
    (s : VirtualSds) (issi t : ℕ) (name : List ℕ) (now : ℕ)
    → (messages_of t (name_endpoint s issi name now).0 ≡ messages_of t s)
      × ((name_endpoint s issi name now).0.sds_seq ≡ s.sds_seq)
name_endpoint_lem s issi t name now =
    let (ep, e, same) = name_endpoint_shape s issi name now in
    let put = messages_of-insert s issi t ep s.group_callout s.sds_seq in
    (ground (arith, e, same, put, ==_iff issi t), ap (λ r. r.sds_seq) e)

assign_candidate_lem :
    (s : VirtualSds) (gssi candidate t now : ℕ)
    → (messages_of t (assign_candidate s gssi candidate now).0 ≡ messages_of t s)
      × ((assign_candidate s gssi candidate now).0.sds_seq ≡ s.sds_seq)
unfolding assign_candidate messages_of
assign_candidate_lem s gssi candidate t now =
    unfold messages_of in name_endpoint_lem s candidate t _ now

allocate_candidate_lem :
    (s : VirtualSds) (gssi t now : ℕ)
    → (messages_of t (allocate_candidate s gssi now).0 ≡ messages_of t s)
      × ((allocate_candidate s gssi now).0.sds_seq ≡ s.sds_seq)
unfolding allocate_candidate
allocate_candidate_lem s gssi t now = elim (Option-cases (find_candidate s gssi 0 10000)) [
  | inl e ↦ rw (e, allocate_candidate) (assign_candidate_lem s gssi (fallback_candidate gssi) t now)
  | inr (candidate, e) ↦ rw (e, allocate_candidate) (assign_candidate_lem s gssi candidate t now)
]

pub ensure_lem :
    (s : VirtualSds) (gssi t now : ℕ)
    → (messages_of t (ensure_group_callout_virtual_endpoint s gssi now).0 ≡ messages_of t s)
      × ((ensure_group_callout_virtual_endpoint s gssi now).0.sds_seq ≡ s.sds_seq)
unfolding ensure_group_callout_virtual_endpoint
ensure_lem s gssi t now = elim (Option-cases (lookup gssi s.group_callout)) [
  | inl e ↦ rw (e, ensure_group_callout_virtual_endpoint) (allocate_candidate_lem s gssi t now)
  | inr (issi, e) ↦ elim (Bool-cases (issi == 0)) [
    | inl unset ↦
        rw (e, ensure_group_callout_virtual_endpoint, unset) (allocate_candidate_lem s gssi t now)
    | inr given ↦
        rw (e, ensure_group_callout_virtual_endpoint, given) (name_endpoint_lem s issi t _ now)
  ]
]

pub delete_lem :
    (s : VirtualSds) (issi t n : ℕ)
    → (count n (messages_of t (delete_virtual_sds_endpoint s issi).0) ≤ count n (messages_of t s))
      × ((delete_virtual_sds_endpoint s issi).0.sds_seq ≡ s.sds_seq)
unfolding delete_virtual_sds_endpoint messages_of count
delete_lem s issi t n = ground (arith, lookup-delete issi t s.endpoints, ==_iff issi t)

pub store_in_lem :
    (ep : EndpointState) (msg : VirtualSdsMessage) (now : ℕ)
    → (store_in ep msg now).messages ≡ keep_last ep.messages msg
unfolding store_in
store_in_lem ep msg now = ground arith

stamp_lem : (msg : VirtualSdsMessage) (seq now : ℕ) → (stamp msg seq now).seq ≡ seq
unfolding stamp
stamp_lem msg seq now = refl

-- What the events may do to the number of messages that an endpoint keeps or has given.
abbrev pub Counts : ℕ → VirtualSds → VirtualSds → List VirtualSdsMessage → Type 0
Counts t s s' out =
    ((s'.sds_seq ≡ s.sds_seq)
      × ((n : ℕ) → count n out + count n (messages_of t s') ≤ count n (messages_of t s)))
    ⊎ ((s'.sds_seq ≡ s.sds_seq + 1)
        × ((n : ℕ)
            → count n out + count n (messages_of t s')
              ≤ count n (messages_of t s) + (if s.sds_seq + 1 == n then 1 else 0)))

pub store-Counts :
    (s : VirtualSds) (issi t : ℕ) (msg : VirtualSdsMessage) (now : ℕ)
    → s.sds_seq + 1 < 0x1_0000_0000_0000_0000
    → Counts t s (maybe_store_virtual_sds_message s issi msg now).0 []
unfolding maybe_store_virtual_sds_message count
store-Counts s issi t msg now small = elim (Bool-cases (issi == 0)) [
  | inl unset ↦ rw (unset, maybe_store_virtual_sds_message) (inl (refl, λ n. omega arith))
  | inr set ↦ elim (Option-cases (lookup issi s.endpoints)) [
    | inl e ↦ rw (set, maybe_store_virtual_sds_message, e) (inl (refl, λ n. omega arith))
    | inr (ep, e) ↦
        let seq = (s.sds_seq + 1) % 0x1_0000_0000_0000_0000 in
        let is_seq : seq ≡ s.sds_seq + 1 = omega (arith, small) in
        let ep' = store_in ep (stamp msg seq now) now in
        rw (set, maybe_store_virtual_sds_message, e)
          (inr (
            is_seq,
            λ n. ground (
              arith,
              messages_of-insert s issi t ep' s.group_callout seq,
              stored_lem s issi ep e,
              store_in_lem ep (stamp msg seq now) now,
              count-keep_last n ep.messages (stamp msg seq now),
              stamp_lem msg seq now,
              is_seq,
              ==_iff issi t,
            ),
          ))
  ]
]

-- The messages that a read takes away from an endpoint.
unfoldable pub taken : ℕ → ℕ → Bool → Option (List VirtualSdsMessage) → List VirtualSdsMessage
taken t issi consume none = []
taken t issi consume (some ms) = if issi == t && consume then ms else []

pub read-Counts :
    (s : VirtualSds) (issi t since limit : ℕ) (consume : Bool) (now : ℕ)
    → Counts t s
        (virtual_sds_messages s issi since limit consume now).0
        (taken t issi consume (virtual_sds_messages s issi since limit consume now).1)
unfolding virtual_sds_messages taken count
read-Counts s issi t since limit false now = elim (Option-cases (lookup issi s.endpoints)) [
  | inl e ↦ rw (e, virtual_sds_messages) (inl (refl, λ n. omega arith))
  | inr (ep, e) ↦ rw (e, virtual_sds_messages) (inl (refl, λ n. ground arith))
]
read-Counts s issi t since limit true now = elim (Option-cases (lookup issi s.endpoints)) [
  | inl e ↦ rw (e, virtual_sds_messages) (inl (refl, λ n. omega arith))
  | inr (ep, e) ↦
      rw (e, virtual_sds_messages)
        (inl (
          refl,
          λ n. ground (
            arith,
            messages_of-insert s issi t
                (record ep {
                  messages = (consume_from ep.messages since (effective_limit limit) 0).1;
                  updated = now;
                })
                s.group_callout s.sds_seq,
            stored_lem s issi ep e,
            count-consume_from n ep.messages since (effective_limit limit) 0,
            ==_iff issi t,
          ),
        ))
]
