-- ===== src/Service/VirtualSds/Messages.antt =====
-- internal/service/virtual_sds.go: storing and reading messages.
use freetetra.Prelude.{
  ℕ, ◌+◌, ◌-◌, ◌%◌, Bool, true, false, ◌||◌, List, [], ◌∷◌, ◌++◌, Option, none, some, ltb, leb,
  ◌==◌, if◌then◌else◌, length, drop,
}
use freetetra.Prelude.Maps.{lookup, insert, number_key}
use freetetra.Service.VirtualSds.{
  VirtualSds, VirtualSdsMessage, EndpointState, virtual_sds_message_limit, trim_space, same_text,
  rx, tx,
}

-- The messages of an endpoint with a new one: the last 400.
unfoldable pub keep_last : List VirtualSdsMessage → VirtualSdsMessage → List VirtualSdsMessage
keep_last messages msg =
    let all = messages ++ (msg ∷ []) in
    if ltb virtual_sds_message_limit (length all)
    then drop (length all - virtual_sds_message_limit) all
    else all

-- The message as it is stored.
unfoldable pub stamp : VirtualSdsMessage → ℕ → ℕ → VirtualSdsMessage
unfolding trim_space same_text
stamp msg seq now = record msg {
  seq = seq;
  time = if msg.time == 0 then now else msg.time;
  direction = if same_text (trim_space msg.direction) [] then rx else msg.direction;
}

unfoldable pub store_in : EndpointState → VirtualSdsMessage → ℕ → EndpointState
unfolding keep_last same_text
store_in ep msg now =
    let kept = record ep { messages = keep_last ep.messages msg; updated = now } in
    if same_text msg.direction tx
    then record kept { last_tx = now; tx_count = (ep.tx_count + 1) % 0x1_0000_0000_0000_0000 }
    else record kept { last_rx = now; rx_count = (ep.rx_count + 1) % 0x1_0000_0000_0000_0000 }

unfoldable pub maybe_store_virtual_sds_message :
    VirtualSds → ℕ → VirtualSdsMessage → ℕ → VirtualSds × Bool
unfolding lookup insert stamp store_in
maybe_store_virtual_sds_message s issi msg now =
    if issi == 0 then (s, false) else elim (lookup issi s.endpoints) [
      | none ↦ (s, false)
      | some ep ↦
          let seq = (s.sds_seq + 1) % 0x1_0000_0000_0000_0000 in
          (
            record s {
              sds_seq = seq;
              endpoints = insert issi (store_in ep (stamp msg seq now) now) s.endpoints;
            },
            true,
          )
    ]

-- The loop of `filterVirtualMessages`; `got` is the number of messages in `out`.
unfoldable pub filter_from : List VirtualSdsMessage → ℕ → ℕ → ℕ → List VirtualSdsMessage
filter_from [] since limit got = []
filter_from (m ∷ ms) since limit got = elim (leb m.seq since) [
  | true ↦ filter_from ms since limit got
  | false ↦ elim (leb limit (got + 1)) [
    | true ↦ m ∷ []
    | false ↦ m ∷ filter_from ms since limit (got + 1)
  ]
]

unfoldable pub filter_virtual_messages : List VirtualSdsMessage → ℕ → ℕ → List VirtualSdsMessage
unfolding filter_from
filter_virtual_messages messages since limit = filter_from messages since limit 0

-- The loop of `virtualSDSMessages` that takes messages away: those it gives, and those that remain.
unfoldable pub consume_from :
    List VirtualSdsMessage → ℕ → ℕ → ℕ → List VirtualSdsMessage × List VirtualSdsMessage
consume_from [] since limit got = ([], [])
consume_from (m ∷ ms) since limit got = elim (leb m.seq since || leb limit got) [
  | true ↦ let (out, remaining) = consume_from ms since limit got in (out, m ∷ remaining)
  | false ↦ let (out, remaining) = consume_from ms since limit (got + 1) in (m ∷ out, remaining)
]

-- A limit that is not positive is 0 here.
unfoldable pub effective_limit : ℕ → ℕ
effective_limit limit =
    if limit == 0
    then virtual_sds_message_limit
    else if ltb virtual_sds_message_limit limit
    then virtual_sds_message_limit
    else limit

-- No result if there is no such endpoint.
unfoldable pub virtual_sds_messages :
    VirtualSds → ℕ → ℕ → ℕ → Bool → ℕ → VirtualSds × Option (List VirtualSdsMessage)
unfolding lookup insert filter_virtual_messages consume_from effective_limit
virtual_sds_messages s issi since limit consume now =
    let most = effective_limit limit in
    elim (lookup issi s.endpoints) [
      | none ↦ (s, none)
      | some ep ↦
          let (out, remaining) = consume_from ep.messages since most 0 in
          if consume
          then (
            record s {
              endpoints =
                  insert issi (record ep { messages = remaining; updated = now }) s.endpoints;
            },
            some out,
          )
          else (s, some (filter_virtual_messages ep.messages since most))
    ]
