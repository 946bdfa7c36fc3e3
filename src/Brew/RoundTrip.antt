-- ===== src/Brew/RoundTrip.antt =====
-- internal/brew/protocol.go: what the builders write, read back by `ParseMessage`.
use freetetra.Prelude.{
  ℕ, ◌+◌, ◌-◌, ◌<◌, ◌≡◌, refl, arith, false, Option, some, List, [], ◌∷◌, ◌++◌, length, All, ok,
  ltb, index, slice, slice_from, slice_to-append,
}
use freetetra.Prelude.Bytes.{put_u32, put_u64, uint32, uint64, u32_sum, u64_sum, IsU32, IsU64}
use freetetra.Brew.Message.{
  Error, CallControlMessage, CallPayload, call_control, subscriber, error, service,
  group_transmission, circular_call, circular_grant, short_data, short_transfer_status,
  packet_request, packet_context, cause, empty, raw, bytes, nil, other,
}
use freetetra.Brew.Payload.{parse_call_payload}
use freetetra.Brew.Payload.RoundTrip.States.{
  FitsState, payload_bytes, parse_call_payload-payload_bytes,
}
use freetetra.Brew.Parse.{
  parse_groups, parse_subscriber, zero_position, parse_call_control, parse_error, parse_service,
  parse_message,
}
use freetetra.Brew.Uuid.{CopiesUuid, header_long, header_id, header_rest}
use freetetra.Brew.Build.{
  put_groups, build_subscriber, build_call_control, build_call_control_from_message,
  build_group_tx_with_access, build_circular_call, build_circular_grant, build_short_data,
  build_short_transfer_status, build_packet_request, build_packet_context,
  build_call_control_with_cause, build_call_control_no_payload, build_error, build_service,
}

parse_groups-put_groups : (gs : List ℕ) → All IsU32 gs → parse_groups (put_groups gs) ≡ gs
unfolding parse_groups put_groups put_u32
parse_groups-put_groups [] h = refl
parse_groups-put_groups (g ∷ gs) h = rw (u32_sum g h.0, parse_groups-put_groups gs h.1)

-- The JSON text ends at its first zero byte.
service_cut :
    (i : ℕ) (s : List ℕ) → All (λ b. 0 < b) s → zero_position i (s ++ (0 ∷ [])) ≡ i + length s
unfolding zero_position
service_cut i [] h = omega arith
service_cut i (b ∷ s) h = ground (arith, h.0, service_cut (i + 1) s h.1)

build-payload_bytes :
    (s : ℕ) (id : List ℕ) (p : CallPayload)
    → FitsState s p
    → build_call_control_from_message
        (some (record { call_state = s; identifier = id; payload = p }))
      ≡ ok (build_call_control s id (payload_bytes p))
unfolding build_call_control_from_message payload_bytes build_call_control
    build_group_tx_with_access build_circular_call build_circular_grant build_short_data
    build_short_transfer_status build_packet_request build_packet_context
    build_call_control_with_cause build_call_control_no_payload
build-payload_bytes s id (group_transmission p) h = rw h.0
build-payload_bytes s id (circular_call p) h = refl
build-payload_bytes s id (circular_grant p) h = refl
build-payload_bytes s id (short_data p) h = rw h.0
build-payload_bytes s id (short_transfer_status p) h = rw h.0
build-payload_bytes s id (packet_request p) h = rw h.0
build-payload_bytes s id (packet_context p) h = rw h.0
build-payload_bytes s id (cause c) h = refl
build-payload_bytes s id empty h = refl
build-payload_bytes s id (raw d) h = refl
build-payload_bytes s id (bytes d) h = absurd h
build-payload_bytes s id nil h = absurd h
build-payload_bytes s id other h = absurd h

module _ (uuid_from_bytes : List ℕ → Option (List ℕ)) where
  -- A subscriber message whose numbers fit their widths is read back with its action, number, time,
  -- fraction and groups.
  pub parse_message-build_subscriber :
      (unix nanosecond action issi : ℕ) (groups : List ℕ)
      → IsU64 unix
      → IsU32 nanosecond
      → IsU32 issi
      → All IsU32 groups
      → parse_message uuid_from_bytes (build_subscriber unix nanosecond action issi groups)
        ≡ ok (
            subscriber (record {
              msg_type = action;
              number = issi;
              time = unix;
              fraction = nanosecond;
              groups = groups;
            }))
  unfolding parse_message build_subscriber parse_subscriber put_u64 put_u32 uint32 uint64 slice
      slice_from index
  parse_message-build_subscriber unix nanosecond action issi groups h k l m =
      let packet = build_subscriber unix nanosecond action issi groups in
      let two : ltb (length packet) 2 ≡ false = ground arith in
      let long : ltb (length packet) 18 ≡ false = ground arith in
      rw (
        two,
        long,
        u32_sum issi l,
        u64_sum unix h,
        u32_sum nanosecond k,
        parse_groups-put_groups groups m,
      )

  -- An error message is read back with its type and its content, whatever its type is.
  pub parse_message-build_error :
      (error_type : ℕ) (d : List ℕ)
      → parse_message uuid_from_bytes (build_error error_type d)
        ≡ ok (error (record { error_type = error_type; content = d }))
  unfolding parse_message build_error parse_error slice_from index
  parse_message-build_error t d =
      let two : ltb (length (build_error t d)) 2 ≡ false = ground arith in rw two

  -- A service message whose JSON text has no zero byte is read back as it was built.
  pub parse_message-build_service :
      (service_type : ℕ) (json : List ℕ)
      → All (λ b. 0 < b) json
      → parse_message uuid_from_bytes (build_service service_type json)
        ≡ ok (service (record { service_type = service_type; json_data = json }))
  unfolding parse_message build_service parse_service slice slice_from index
  parse_message-build_service t json h =
      let two : ltb (length (build_service t json)) 2 ≡ false = ground arith in
      let len : 2 + length json - 2 ≡ length json = omega arith in
      rw (
        two,
        service_cut 2 json h,
        len,
        slice_to-append {E = Error} (length json) json (0 ∷ []) refl,
      )

  call_header :
      (s : ℕ) (id d : List ℕ) (p : CallPayload)
      → CopiesUuid uuid_from_bytes
      → length id ≡ 16
      → parse_call_payload s d ≡ ok p
      → parse_message uuid_from_bytes (build_call_control s id d)
        ≡ ok (call_control (record { call_state = s; identifier = id; payload = p }))
  unfolding parse_message build_call_control parse_call_control index
  call_header s id d p copies whole e = rw (
    header_long id d whole 0xf1 s 2 (omega arith),
    header_long id d whole 0xf1 s 18 (omega arith),
    header_id id d whole 0xf1 s,
    copies id whole,
    header_rest id d whole 0xf1 s,
    e,
  )

  -- If `uuid.FromBytes` copies 16 bytes, a call message with a 16-byte identifier whose payload belongs
  -- to its state is built without an error, and `ParseMessage` reads the packet back as the same
  -- message.
  pub parse_message-build_call_control_from_message :
      (m : CallControlMessage)
      → CopiesUuid uuid_from_bytes
      → length m.identifier ≡ 16
      → FitsState m.call_state m.payload
      → (packet : List ℕ) × (build_call_control_from_message (some m) ≡ ok packet)
        × (parse_message uuid_from_bytes packet ≡ ok (call_control m))
  parse_message-build_call_control_from_message m copies whole fits = (
    build_call_control m.call_state m.identifier (payload_bytes m.payload),
    build-payload_bytes m.call_state m.identifier m.payload fits,
    call_header m.call_state m.identifier (payload_bytes m.payload) m.payload copies whole
        (parse_call_payload-payload_bytes m.call_state m.payload fits),
  )
