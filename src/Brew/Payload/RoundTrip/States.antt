-- ===== src/Brew/Payload/RoundTrip/States.antt =====
-- Which payloads belong to which call state, and that each is read back under its state.
use freetetra.Prelude.{ℕ, ◌<◌, ◌≡◌, ◌⊎◌, inl, inr, arith, List, [], ◌∷◌, ◌++◌, length, index, ok}
use freetetra.Prelude.Bytes.{put_u16, put_u32, IsU16, IsU32}
use freetetra.Brew.Message.{
  CallPayload, group_transmission, circular_call, circular_grant, short_data, short_transfer_status,
  packet_request, packet_context, cause, empty, raw, bytes, nil, other,
}
use freetetra.Brew.Payload.{parse_call_payload}
use freetetra.Brew.Build.{fixed_string}
use freetetra.Brew.Payload.RoundTrip.{
  IsText, fixed_then, circular_rest, group_tx-round_trip, circular_call-round_trip,
  short_data-round_trip, short_transfer_status-round_trip, packet_request-round_trip,
  packet_context-round_trip,
}

-- The payload is one that the state carries, and its fields fit their widths.
abbrev pub FitsState : ℕ → CallPayload → Type 0
FitsState s (group_transmission p) =
    (s ≡ 2) × IsU32 p.source × IsU32 p.destination × IsU16 p.service
FitsState s (circular_call p) =
    ((s ≡ 4) ⊎ (s ≡ 8)) × IsU32 p.source × IsU32 p.destination × IsText 32 p.number
FitsState s (circular_grant p) = (s ≡ 9) ⊎ (s ≡ 12) ⊎ (s ≡ 13)
FitsState s (short_data p) = (s ≡ 11) × IsU32 p.source × IsU32 p.destination × IsText 32 p.number
FitsState s (short_transfer_status p) = (s ≡ 11) × IsU16 p.pre_coded_status
FitsState s (packet_request p) = (s ≡ 14) × IsU32 p.number × IsU32 p.profile
FitsState s (packet_context p) = (s ≡ 15) × IsU32 p.ipv4 × (length p.ipv6 ≡ 16) × IsU32 p.profile
FitsState s (cause c) = (s ≡ 3) ⊎ (s ≡ 6) ⊎ (s ≡ 10) ⊎ (s ≡ 16) ⊎ (s ≡ 17)
FitsState s empty = (s ≡ 5) ⊎ (s ≡ 7)
FitsState s (raw d) = (s < 2) ⊎ (17 < s)
FitsState s (bytes d) = ⊥
FitsState s nil = ⊥
FitsState s other = ⊥

-- The payload's bytes, as the builders append them to the header.
unfoldable pub payload_bytes : CallPayload → List ℕ
payload_bytes (group_transmission p) =
    put_u32 p.source ++ (put_u32 p.destination ++ (p.priority ∷ p.access ∷ put_u16 p.service))
payload_bytes (circular_call p) =
    put_u32 p.source
    ++ (put_u32 p.destination
        ++ (fixed_string p.number 32
            ++ (p.priority ∷ p.service ∷ p.mode ∷ p.duplex ∷ p.method ∷ p.communication ∷ p.grant
                ∷ p.permission ∷ p.timeout ∷ p.ownership ∷ p.queued ∷ [])))
payload_bytes (circular_grant p) = p.grant ∷ p.permission ∷ []
payload_bytes (short_data p) =
    put_u32 p.source ++ (put_u32 p.destination ++ fixed_string p.number 32)
payload_bytes (short_transfer_status p) = put_u16 p.pre_coded_status
payload_bytes (packet_request p) =
    put_u32 p.number ++ (p.flags ∷ (put_u32 p.profile ++ p.authenticator))
payload_bytes (packet_context p) = p.flags ∷ (put_u32 p.ipv4 ++ (p.ipv6 ++ put_u32 p.profile))
payload_bytes (cause c) = c ∷ []
payload_bytes empty = []
payload_bytes (raw d) = d
payload_bytes (bytes d) = d
payload_bytes nil = []
payload_bytes other = []

parse_call_payload-raw :
    (s : ℕ) (d : List ℕ) → (s < 2) ⊎ (17 < s) → parse_call_payload s d ≡ ok (raw d)
unfolding parse_call_payload
parse_call_payload-raw s d (inl h) = ground arith
parse_call_payload-raw s d (inr h) = ground arith

pub parse_call_payload-payload_bytes :
    (s : ℕ) (p : CallPayload) → FitsState s p → parse_call_payload s (payload_bytes p) ≡ ok p
unfolding parse_call_payload payload_bytes fixed_then circular_rest index
parse_call_payload-payload_bytes s (group_transmission p) (e, h, k, l) =
    rw e (group_tx-round_trip p h k l)
parse_call_payload-payload_bytes s (circular_call p) (e, h, k, l) = elim e [
  | inl e ↦ rw e (circular_call-round_trip p h k l)
  | inr e ↦ rw e (circular_call-round_trip p h k l)
]
parse_call_payload-payload_bytes s (circular_grant p) h = elim h [
  | inl e ↦ rw e
  | inr (inl e) ↦ rw e
  | inr (inr e) ↦ rw e
]
parse_call_payload-payload_bytes s (short_data p) (e, h, k, l) =
    rw e (short_data-round_trip p h k l)
parse_call_payload-payload_bytes s (short_transfer_status p) (e, h) =
    rw e (short_transfer_status-round_trip p h)
parse_call_payload-payload_bytes s (packet_request p) (e, h, k) =
    rw e (packet_request-round_trip p h k)
parse_call_payload-payload_bytes s (packet_context p) (e, h, k, l) =
    rw e (packet_context-round_trip p h k l)
parse_call_payload-payload_bytes s (cause c) h = elim h [
  | inl e ↦ rw e
  | inr (inl e) ↦ rw e
  | inr (inr (inl e)) ↦ rw e
  | inr (inr (inr (inl e))) ↦ rw e
  | inr (inr (inr (inr e))) ↦ rw e
]
parse_call_payload-payload_bytes s empty h = elim h [ inl e ↦ rw e | inr e ↦ rw e ]
parse_call_payload-payload_bytes s (raw d) h = parse_call_payload-raw s d h
parse_call_payload-payload_bytes s (bytes d) h = absurd h
parse_call_payload-payload_bytes s nil h = absurd h
parse_call_payload-payload_bytes s other h = absurd h
