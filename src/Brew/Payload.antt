-- ===== src/Brew/Payload.antt =====
-- internal/brew/protocol.go: `parseFixedString` and the payloads that `parseCallControl` reads.
pub mod Safety
pub mod Fits
pub mod RoundTrip
use freetetra.Prelude.{
  ℕ, ◌||◌, List, [], ◌∷◌, length, ok, err, ◌>>=◌, index, slice, slice_from, ltb, leb, ◌==◌,
  if◌then◌else◌,
}
use freetetra.Prelude.Bytes.{uint16, uint32}
use freetetra.Brew.Message.{
  call_state_group_tx, call_state_group_idle, call_state_setup_request, call_state_setup_accept,
  call_state_setup_reject, call_state_call_alert, call_state_connect_request,
  call_state_connect_confirm, call_state_call_release, call_state_short_transfer,
  call_state_simplex_granted, call_state_simplex_idle, call_state_pdp_request,
  call_state_pdp_accept, call_state_pdp_reject, call_state_pdp_release, CallPayload,
  group_transmission, circular_call, circular_grant, short_data, short_transfer_status,
  packet_request, packet_context, cause, empty, raw, Result, too_short,
}

-- `raw[:i]` at the first zero byte, and all of `raw` if there is none.
unfoldable pub parse_fixed_string : List ℕ → List ℕ
parse_fixed_string [] = []
parse_fixed_string (b ∷ bs) = if b == 0 then [] else b ∷ parse_fixed_string bs

parse_group_tx : List ℕ → Result CallPayload
parse_group_tx payload = if ltb (length payload) 12 then err too_short else do
  source ← slice 0 4 payload >>= uint32
  destination ← slice 4 8 payload >>= uint32
  priority ← index 8 payload
  access ← index 9 payload
  service' ← slice 10 12 payload >>= uint16
  ok (
      group_transmission (record {
        source = source;
        destination = destination;
        priority = priority;
        access = access;
        service = service';
      }))

parse_cause : List ℕ → Result CallPayload
parse_cause payload =
    if ltb (length payload) 1 then err too_short else do ok (cause (← index 0 payload))

parse_circular_call : List ℕ → Result CallPayload
parse_circular_call payload = if ltb (length payload) 51 then err too_short else do
  source ← slice 0 4 payload >>= uint32
  destination ← slice 4 8 payload >>= uint32
  number ← slice 8 40 payload
  priority ← index 40 payload
  service' ← index 41 payload
  mode ← index 42 payload
  duplex ← index 43 payload
  method ← index 44 payload
  communication ← index 45 payload
  grant ← index 46 payload
  permission ← index 47 payload
  timeout ← index 48 payload
  ownership ← index 49 payload
  queued ← index 50 payload
  ok (
      circular_call (record {
        source = source;
        destination = destination;
        number = parse_fixed_string number;
        priority = priority;
        service = service';
        mode = mode;
        duplex = duplex;
        method = method;
        communication = communication;
        grant = grant;
        permission = permission;
        timeout = timeout;
        ownership = ownership;
        queued = queued;
      }))

parse_circular_grant : List ℕ → Result CallPayload
parse_circular_grant payload = if ltb (length payload) 2 then err too_short else do
  grant ← index 0 payload
  permission ← index 1 payload
  ok (circular_grant (record { grant = grant; permission = permission }))

-- The 40-byte form, or the 2-byte status.
parse_short_transfer : List ℕ → Result CallPayload
parse_short_transfer payload =
    if leb 40 (length payload)
    then (do
      source ← slice 0 4 payload >>= uint32
      destination ← slice 4 8 payload >>= uint32
      number ← slice 8 40 payload
      ok (
          short_data (record {
            source = source;
            destination = destination;
            number = parse_fixed_string number;
          })))
    else if leb 2 (length payload)
    then (do
      status ← slice 0 2 payload >>= uint16
      ok (short_transfer_status (record { pre_coded_status = status })))
    else err too_short

parse_packet_request : List ℕ → Result CallPayload
parse_packet_request payload = if ltb (length payload) 9 then err too_short else do
  number ← slice 0 4 payload >>= uint32
  flags ← index 4 payload
  profile ← slice 5 9 payload >>= uint32
  authenticator ← slice_from 9 payload
  ok (
      packet_request (record {
        number = number;
        flags = flags;
        profile = profile;
        authenticator = authenticator;
      }))

parse_packet_context : List ℕ → Result CallPayload
parse_packet_context payload = if ltb (length payload) 25 then err too_short else do
  flags ← index 0 payload
  ipv4 ← slice 1 5 payload >>= uint32
  ipv6 ← slice 5 21 payload
  profile ← slice 21 25 payload >>= uint32
  ok (packet_context (record { flags = flags; ipv4 = ipv4; ipv6 = ipv6; profile = profile }))

-- The switch on the state; each helper above is one of its cases.
unfoldable pub parse_call_payload : ℕ → List ℕ → Result CallPayload
unfolding parse_group_tx parse_cause parse_circular_call parse_circular_grant parse_short_transfer
    parse_packet_request parse_packet_context
parse_call_payload state payload =
    if state == call_state_group_tx
    then parse_group_tx payload
    else if state == call_state_group_idle
        || state == call_state_setup_reject
        || state == call_state_call_release
        || state == call_state_pdp_reject
        || state == call_state_pdp_release
    then parse_cause payload
    else if state == call_state_setup_accept || state == call_state_call_alert
    then ok empty
    else if state == call_state_setup_request || state == call_state_connect_request
    then parse_circular_call payload
    else if state == call_state_connect_confirm
        || state == call_state_simplex_granted
        || state == call_state_simplex_idle
    then parse_circular_grant payload
    else if state == call_state_short_transfer
    then parse_short_transfer payload
    else if state == call_state_pdp_request
    then parse_packet_request payload
    else if state == call_state_pdp_accept
    then parse_packet_context payload
    else ok (raw payload)
