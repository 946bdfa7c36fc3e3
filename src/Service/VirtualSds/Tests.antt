-- ===== src/Service/VirtualSds/Tests.antt =====
-- Tests of internal/service/virtual_sds.go.
use freetetra.Prelude.{
  ℕ, ◌+◌, ◌≤◌, ◌<◌, ◌≡◌, refl, arith, true, false, List, [], ◌∷◌, some, map, length,
}
use freetetra.Prelude.Maps.{lookup, insert, number_key}
use freetetra.Service.VirtualSds.{
  VirtualSds, VirtualSdsMessage, EndpointState, virtual_sds_message_limit, name_endpoint,
  normalize_name, upsert_virtual_sds_endpoint, trim_space, trim_left, is_space, same_text, digits,
  has_prefix, tx,
}
use freetetra.Service.VirtualSds.Messages.{
  maybe_store_virtual_sds_message, virtual_sds_messages, consume_from, effective_limit, stamp,
  store_in, keep_last,
}
use freetetra.Service.VirtualSds.Groups.{
  ensure_group_callout_virtual_endpoint, allocate_candidate, assign_candidate, find_candidate,
  is_usable, is_occupied,
}
use freetetra.Service.VirtualSds.Counts.{count, messages_of, taken}
use freetetra.Service.VirtualSds.Delivery.{virtual_sds_messages_lem}
use freetetra.Service.VirtualSds.Histories.{
  Event, upserts, ensures, stores, reads, step, run, new_virtual_sds, given, all_given, taken_once,
}
use freetetra.Service.VirtualSds.Bounds.{messages_bounded}
use freetetra.Service.VirtualSds.Pool.{own_numbers}
use freetetra.Service.VirtualSds.Search.{GetsFromPool, ensure_group_callout_virtual_endpoint_lem}

abbrev message : ℕ → VirtualSdsMessage
message source = record {
  seq = 0;
  time = 5;
  direction = tx;
  call_id = "";
  session = "";
  source = source;
  destination = 2201;
  frame_type = 0;
  kind = "text";
  payload_hex = "";
  text = "";
  wrapped = false;
}

-- Three messages for an endpoint, of which a reader takes two and then the rest.
abbrev events : List Event
events =
    upserts 2201 [] 1
    ∷ stores 2201 (message 1) 2
    ∷ stores 2201 (message 2) 3
    ∷ stores 2201 (message 3) 4
    ∷ reads 2201 0 2 true 5
    ∷ reads 2201 0 2 true 6
    ∷ []

all_taken : map (λ m. m.source) (all_given 2201 new_virtual_sds events) ≡ 1 ∷ 2 ∷ 3 ∷ []
unfolding all_given given taken step upsert_virtual_sds_endpoint name_endpoint normalize_name
    trim_space trim_left is_space same_text digits maybe_store_virtual_sds_message stamp store_in
    keep_last virtual_sds_messages consume_from effective_limit lookup insert
all_taken = refl

taken_once_example :
    count 0x8000_0000_0000_0001 (all_given 2201 new_virtual_sds events)
      + count 0x8000_0000_0000_0001 (messages_of 2201 (run new_virtual_sds events))
    ≤ 1
taken_once_example = taken_once 2201 0x8000_0000_0000_0001 events (omega arith)

messages_bounded_example :
    length (messages_of 2201 (run new_virtual_sds events)) ≤ virtual_sds_message_limit
messages_bounded_example = messages_bounded 2201 events

abbrev full : EndpointState
full = record {
  issi = 2201;
  name = [];
  created = 1;
  updated = 1;
  last_rx = 0;
  last_tx = 0;
  rx_count = 0;
  tx_count = 0;
  messages =
      record (message 1) { seq = 11 }
      ∷ record (message 2) { seq = 12 }
      ∷ record (message 3) { seq = 13 }
      ∷ [];
}

abbrev service : VirtualSds
service = record { endpoints = (2201, full) ∷ []; group_callout = []; sds_seq = 13 }

virtual_sds_messages_lem_example :
    (virtual_sds_messages service 2201 11 1 false 9).1 ≡ some (record (message 2) { seq = 12 } ∷ [])
unfolding effective_limit lookup
virtual_sds_messages_lem_example = virtual_sds_messages_lem service 2201 11 1 false 9 full refl

-- Two groups with the same place in the pool.
abbrev groups : List Event
groups = ensures 91 1 ∷ ensures 10091 2 ∷ []

own_numbers_example :
    (970000 ≤ 970092) × (970092 < 990000) × (970092 < 980000 → ◌≡◌ {A = ℕ} 10091 10091)
unfolding run step ensure_group_callout_virtual_endpoint allocate_candidate assign_candidate
    find_candidate is_usable is_occupied name_endpoint digits has_prefix lookup insert
own_numbers_example = own_numbers groups 10091 10091 970092 refl refl

ensure_group_callout_virtual_endpoint_lem_example :
    GetsFromPool service 91 (ensure_group_callout_virtual_endpoint service 91 1)
unfolding lookup is_usable is_occupied
ensure_group_callout_virtual_endpoint_lem_example =
    ensure_group_callout_virtual_endpoint_lem service 91 970500 1 refl refl (omega arith)
      (omega arith)
