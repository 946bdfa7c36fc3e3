-- ===== src/Brew/Build.antt =====
-- internal/brew/protocol.go: the `Build…` functions for subscribers, calls, errors and services.
-- `time.Now()` is the pair of arguments `unix` and `nanosecond`, and JSON arrives encoded.
use freetetra.Prelude.{
  ℕ, ◌-◌, Option, none, some, List, [], ◌∷◌, ◌++◌, length, take, replicate, ok, err, ◌==◌,
  if◌then◌else◌,
}
use freetetra.Prelude.Bytes.{put_u16, put_u32, put_u64}
use freetetra.Brew.Message.{
  class_subscriber, class_call_control, class_error, class_service, call_state_group_tx,
  call_state_short_transfer, call_state_pdp_request, call_state_pdp_accept, CircularCallPayload,
  CircularGrantPayload, ShortDataPayload, PacketRequestPayload, PacketContextPayload, CallPayload,
  group_transmission, circular_call, circular_grant, short_data, short_transfer_status,
  packet_request, packet_context, cause, empty, raw, bytes, nil, other, CallControlMessage, Result,
  nil_message, group_payload_state, status_payload_state, unsupported_payload,
}

-- `buf := make([]byte, size); copy(buf, value)`
unfoldable pub fixed_string : List ℕ → ℕ → List ℕ
fixed_string value size = take size value ++ replicate (size - length value) 0

unfoldable pub put_groups : List ℕ → List ℕ
put_groups [] = []
put_groups (g ∷ gs) = put_u32 g ++ put_groups gs

unfoldable pub build_subscriber : (unix nanosecond : ℕ) → ℕ → ℕ → List ℕ → List ℕ
build_subscriber unix nanosecond action issi groups =
    class_subscriber
    ∷ action
    ∷ (put_u32 issi ++ (put_u64 unix ++ (put_u32 nanosecond ++ put_groups groups)))

unfoldable pub build_call_control : ℕ → List ℕ → List ℕ → List ℕ
build_call_control state call_id payload = class_call_control ∷ state ∷ (call_id ++ payload)

unfoldable pub build_call_control_no_payload : ℕ → List ℕ → List ℕ
unfolding build_call_control
build_call_control_no_payload state call_id = build_call_control state call_id []

unfoldable pub build_call_control_with_cause : ℕ → List ℕ → ℕ → List ℕ
unfolding build_call_control
build_call_control_with_cause state call_id c = build_call_control state call_id (c ∷ [])

unfoldable pub build_group_tx_with_access : List ℕ → ℕ → ℕ → ℕ → ℕ → ℕ → List ℕ
unfolding build_call_control
build_group_tx_with_access call_id source_issi dest_gssi priority access service =
    build_call_control call_state_group_tx call_id
      (put_u32 source_issi ++ (put_u32 dest_gssi ++ (priority ∷ access ∷ put_u16 service)))

unfoldable pub build_circular_call : ℕ → List ℕ → CircularCallPayload → List ℕ
unfolding build_call_control
build_circular_call state call_id p = build_call_control state call_id (
    put_u32 p.source
    ++ (put_u32 p.destination
        ++ (fixed_string p.number 32
            ++ (p.priority ∷ p.service ∷ p.mode ∷ p.duplex ∷ p.method ∷ p.communication ∷ p.grant
                ∷ p.permission ∷ p.timeout ∷ p.ownership ∷ p.queued ∷ []))))

unfoldable pub build_circular_grant : ℕ → List ℕ → CircularGrantPayload → List ℕ
unfolding build_call_control
build_circular_grant state call_id p =
    build_call_control state call_id (p.grant ∷ p.permission ∷ [])

unfoldable pub build_short_data : List ℕ → ShortDataPayload → List ℕ
unfolding build_call_control
build_short_data call_id p =
    build_call_control call_state_short_transfer call_id
      (put_u32 p.source ++ (put_u32 p.destination ++ fixed_string p.number 32))

unfoldable pub build_short_transfer_status : List ℕ → ℕ → List ℕ
unfolding build_call_control
build_short_transfer_status call_id status =
    build_call_control call_state_short_transfer call_id (put_u16 status)

unfoldable pub build_packet_request : List ℕ → PacketRequestPayload → List ℕ
unfolding build_call_control
build_packet_request call_id p =
    build_call_control call_state_pdp_request call_id
      (put_u32 p.number ++ (p.flags ∷ (put_u32 p.profile ++ p.authenticator)))

unfoldable pub build_packet_context : List ℕ → PacketContextPayload → List ℕ
unfolding build_call_control
build_packet_context call_id p =
    build_call_control call_state_pdp_accept call_id
      (p.flags ∷ (put_u32 p.ipv4 ++ (p.ipv6 ++ put_u32 p.profile)))

-- The switch on the payload's type.
build_payload : ℕ → List ℕ → CallPayload → Result (List ℕ)
build_payload state call_id (group_transmission p) =
    if state == call_state_group_tx
    then ok
        (build_group_tx_with_access call_id p.source p.destination p.priority p.access p.service)
    else err (group_payload_state state)
build_payload state call_id (circular_call p) = ok (build_circular_call state call_id p)
build_payload state call_id (circular_grant p) = ok (build_circular_grant state call_id p)
build_payload state call_id (short_data p) = ok (build_short_data call_id p)
build_payload state call_id (short_transfer_status p) =
    if state == call_state_short_transfer
    then ok (build_short_transfer_status call_id p.pre_coded_status)
    else err (status_payload_state state)
build_payload state call_id (packet_request p) = ok (build_packet_request call_id p)
build_payload state call_id (packet_context p) = ok (build_packet_context call_id p)
build_payload state call_id (cause c) = ok (build_call_control_with_cause state call_id c)
build_payload state call_id empty = ok (build_call_control_no_payload state call_id)
build_payload state call_id (raw d) = ok (build_call_control state call_id d)
build_payload state call_id (bytes d) = ok (build_call_control state call_id d)
build_payload state call_id nil = ok (build_call_control_no_payload state call_id)
build_payload state call_id other = err unsupported_payload

-- `none` is the nil message.
unfoldable pub build_call_control_from_message : Option CallControlMessage → Result (List ℕ)
unfolding build_payload
build_call_control_from_message none = err nil_message
build_call_control_from_message (some m) = build_payload m.call_state m.identifier m.payload

unfoldable pub build_error : ℕ → List ℕ → List ℕ
build_error error_type payload = class_error ∷ error_type ∷ payload

unfoldable pub build_service : ℕ → List ℕ → List ℕ
build_service service_type json = class_service ∷ service_type ∷ (json ++ (0 ∷ []))
