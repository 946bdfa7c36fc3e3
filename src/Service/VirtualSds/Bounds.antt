-- ===== src/Service/VirtualSds/Bounds.antt =====
-- internal/service/virtual_sds.go: no endpoint keeps more than 400 messages.
use freetetra.Prelude.{
  ℕ, ◌+◌, ◌-◌, ◌%◌, ◌≤◌, arith, Bool, ◌||◌, List, [], ◌∷◌, ◌++◌, leb, ◌==◌, ==_iff, length,
  Bool-cases, Option-cases, inl, inr, length-drop, length-append,
}
use freetetra.Prelude.Maps.{lookup, number_key, lookup-delete}
use freetetra.Service.VirtualSds.{
  VirtualSds, VirtualSdsMessage, virtual_sds_message_limit, upsert_virtual_sds_endpoint,
  delete_virtual_sds_endpoint, normalize_name,
}
use freetetra.Service.VirtualSds.Messages.{
  consume_from, effective_limit, virtual_sds_messages, maybe_store_virtual_sds_message, store_in,
  keep_last, stamp,
}
use freetetra.Service.VirtualSds.Histories.{
  Event, upserts, deletes, ensures, stores, reads, step, run, new_virtual_sds,
}
use freetetra.Service.VirtualSds.Counts.{
  messages_of, messages_of-insert, name_endpoint_lem, ensure_lem, store_in_lem, stored_lem,
}

length-keep_last :
    (ms : List VirtualSdsMessage) (m : VirtualSdsMessage)
    → length ms ≤ virtual_sds_message_limit
    → length (keep_last ms m) ≤ virtual_sds_message_limit
unfolding keep_last
length-keep_last ms m h =
    let all = ms ++ (m ∷ []) in
    ground (arith, length-append ms (m ∷ []), length-drop (length all - 400) all)

length-consume_from :
    (ms : List VirtualSdsMessage) (since limit got : ℕ)
    → length (consume_from ms since limit got).1 ≤ length ms
unfolding consume_from
length-consume_from [] since limit got = omega arith
length-consume_from (m ∷ ms) since limit got =
    elim (Bool-cases (leb m.seq since || leb limit got)) [
      | inl stays ↦ rw (stays, consume_from) (omega (arith, length-consume_from ms since limit got))
      | inr goes ↦
          rw (goes, consume_from) (omega (arith, length-consume_from ms since limit (got + 1)))
    ]

store-IsBounded :
    (s : VirtualSds) (issi t : ℕ) (msg : VirtualSdsMessage) (now : ℕ)
    → length (messages_of t s) ≤ virtual_sds_message_limit
    → length (messages_of t (maybe_store_virtual_sds_message s issi msg now).0)
      ≤ virtual_sds_message_limit
unfolding maybe_store_virtual_sds_message
store-IsBounded s issi t msg now v = elim (Bool-cases (issi == 0)) [
  | inl unset ↦ rw (unset, maybe_store_virtual_sds_message) v
  | inr set ↦ elim (Option-cases (lookup issi s.endpoints)) [
    | inl e ↦ rw (set, maybe_store_virtual_sds_message, e) v
    | inr (ep, e) ↦
        let seq = (s.sds_seq + 1) % 0x1_0000_0000_0000_0000 in
        let ep' = store_in ep (stamp msg seq now) now in
        rw (set, maybe_store_virtual_sds_message, e)
          (ground (
            arith,
            messages_of-insert s issi t ep' s.group_callout seq,
            stored_lem s issi ep e,
            store_in_lem ep (stamp msg seq now) now,
            length-keep_last ep.messages (stamp msg seq now),
            ==_iff issi t,
          ))
  ]
]

read-IsBounded :
    (s : VirtualSds) (issi t since limit : ℕ) (consume : Bool) (now : ℕ)
    → length (messages_of t s) ≤ virtual_sds_message_limit
    → length (messages_of t (virtual_sds_messages s issi since limit consume now).0)
      ≤ virtual_sds_message_limit
unfolding virtual_sds_messages
read-IsBounded s issi t since limit consume now v = elim (Option-cases (lookup issi s.endpoints)) [
  | inl e ↦ rw (e, virtual_sds_messages) v
  | inr (ep, e) ↦
      let rest = (consume_from ep.messages since (effective_limit limit) 0).1 in
      rw (e, virtual_sds_messages)
        (ground (
          arith,
          messages_of-insert s issi t (record ep { messages = rest; updated = now }) s.group_callout
              s.sds_seq,
          stored_lem s issi ep e,
          length-consume_from ep.messages since (effective_limit limit) 0,
          ==_iff issi t,
        ))
]

delete-IsBounded :
    (s : VirtualSds) (issi t : ℕ)
    → length (messages_of t s) ≤ virtual_sds_message_limit
    → length (messages_of t (delete_virtual_sds_endpoint s issi).0) ≤ virtual_sds_message_limit
unfolding delete_virtual_sds_endpoint messages_of
delete-IsBounded s issi t v = ground (arith, v, lookup-delete issi t s.endpoints, ==_iff issi t)

step-IsBounded :
    (t : ℕ) (s : VirtualSds) (e : Event)
    → length (messages_of t s) ≤ virtual_sds_message_limit
    → length (messages_of t (step s e)) ≤ virtual_sds_message_limit
unfolding step upsert_virtual_sds_endpoint
step-IsBounded t s (upserts issi name now) v =
    rw ((name_endpoint_lem s issi t (normalize_name name issi) now).0) v
step-IsBounded t s (deletes issi) v = delete-IsBounded s issi t v
step-IsBounded t s (ensures gssi now) v = rw ((ensure_lem s gssi t now).0) v
step-IsBounded t s (stores issi msg now) v = store-IsBounded s issi t msg now v
step-IsBounded t s (reads issi since limit consume now) v =
    read-IsBounded s issi t since limit consume now v

run-IsBounded :
    (t : ℕ) (s : VirtualSds) (es : List Event)
    → length (messages_of t s) ≤ virtual_sds_message_limit
    → length (messages_of t (run s es)) ≤ virtual_sds_message_limit
unfolding run
run-IsBounded t s [] v = v
run-IsBounded t s (e ∷ es) v = run-IsBounded t (step s e) es (step-IsBounded t s e v)

-- After any history of operations at a new service no endpoint keeps more than 400 messages.
pub messages_bounded :
    (t : ℕ) (es : List Event)
    → length (messages_of t (run new_virtual_sds es)) ≤ virtual_sds_message_limit
messages_bounded t es =
    run-IsBounded t new_virtual_sds es (unfold messages_of lookup in omega arith)
