-- ===== src/Brew/Parse/Safety.antt =====
-- `ParseMessage` never reads out of range: on every input it returns a message or an error.
use freetetra.Prelude.{
  ℕ, ◌+◌, ◌≤◌, arith, List, [], ◌∷◌, length, drop, length-drop, ok, ◌>>=◌, Safe, ok_safe, err_safe,
  ltb, ◌==◌, Option, none, some, slice_from_ok, slice_ok, Safe->>=,
}
use freetetra.Prelude.Bytes.{read_u64, read_index, read_slice, read_rest, read_u16, read_u32}
use freetetra.Brew.Message.{
  Error, Result, class_subscriber, class_call_control, class_frame, class_error, class_service,
}
use freetetra.Brew.Payload.{parse_call_payload}
use freetetra.Brew.Payload.Safety.{guard-Safe, if-Safe, parse_call_payload-Safe}
use freetetra.Brew.FrameData.{payload_bytes_for_bits, cut_frame_payload, validate_frame_payload}
use freetetra.Brew.FrameData.Safety.{validate_frame_payload-Safe, cut_frame_payload-Safe}
use freetetra.Brew.Parse.{
  parse_subscriber, zero_position, reject, id_or, parse_call_control, parse_frame, parse_error,
  parse_service, parse_message,
}

subscriber-Safe : (t : ℕ) (packet : List ℕ) → Safe (parse_subscriber t packet)
unfolding parse_subscriber
subscriber-Safe t packet = guard-Safe 18 packet _ _ λ h.
    read_u32 18 packet h 2 6 _ (omega arith) (omega arith) λ number.
      read_u64 18 packet h 6 14 _ (omega arith) (omega arith) λ time.
        read_u32 18 packet h 14 18 _ (omega arith) (omega arith)
          λ fraction. read_rest 18 packet h 18 _ (omega arith) λ rest. ok_safe _

reject-Safe : (v : Option Error) → Safe (reject v)
reject-Safe none = ok_safe tt
reject-Safe (some e) = err_safe e

-- The position that the loop finds lies between its start and the end.
pub zero_position_bounds :
    (i : ℕ) (bs : List ℕ) → (i ≤ zero_position i bs) × (zero_position i bs ≤ i + length bs)
unfolding zero_position
zero_position_bounds i [] = omega arith
zero_position_bounds i (b ∷ bs) = ground (arith, zero_position_bounds (i + 1) bs)

error-Safe : (t : ℕ) (packet : List ℕ) → 2 ≤ length packet → Safe (parse_error t packet)
unfolding parse_error
error-Safe t packet h = read_rest 2 packet h 2 _ (omega arith) λ rest. ok_safe _

service-Safe : (t : ℕ) (packet : List ℕ) → 2 ≤ length packet → Safe (parse_service t packet)
unfolding parse_service
service-Safe t packet h =
    let end = zero_position 2 (drop 2 packet) in
    rw (slice_from_ok {E = Error} 2 packet h) (
      rw
        (slice_ok {E = Error} 2 end packet (zero_position_bounds 2 (drop 2 packet)).0
          (omega (arith, zero_position_bounds 2 (drop 2 packet), length-drop 2 packet)))
        (ok_safe _))

map-Safe : {A B : Type 0} (m : Result A) (f : A → B) → Safe m → Safe (m >>= λ a. ok (f a))
map-Safe m f s = Safe->>= m _ s λ a _. ok_safe _

id_or-Safe : (e : Error) (id : Option (List ℕ)) → Safe (id_or e id)
id_or-Safe e (some id) = ok_safe id
id_or-Safe e none = err_safe e

module _ (uuid_from_bytes : List ℕ → Option (List ℕ)) where
  call_control-Safe :
      (state : ℕ) (packet : List ℕ) → Safe (parse_call_control uuid_from_bytes state packet)
  unfolding parse_call_control
  call_control-Safe state packet = guard-Safe 18 packet _ _ λ h.
      read_slice 18 packet h 2 18 _ (omega arith) (omega arith) λ b.
        Safe->>= (id_or _ (uuid_from_bytes b)) _ (id_or-Safe _ (uuid_from_bytes b)) λ id _.
          read_rest 18 packet h 18 _ (omega arith) λ payload.
            Safe->>= (parse_call_payload state payload) _ (parse_call_payload-Safe state payload)
              λ p _. ok_safe _

  frame-Safe :
      (frame_type : ℕ) (packet : List ℕ) → Safe (parse_frame uuid_from_bytes frame_type packet)
  unfolding parse_frame
  frame-Safe frame_type packet = guard-Safe 20 packet _ _ λ h.
      read_slice 20 packet h 2 18 _ (omega arith) (omega arith) λ b.
        Safe->>= (id_or _ (uuid_from_bytes b)) _ (id_or-Safe _ (uuid_from_bytes b)) λ id _.
          read_u16 20 packet h 18 20 _ (omega arith) (omega arith) λ bits.
            read_rest 20 packet h 20 _ (omega arith) λ payload.
              if-Safe (ltb (length payload) (payload_bytes_for_bits bits)) (err_safe _) (
                Safe->>= (cut_frame_payload frame_type (payload_bytes_for_bits bits) payload) _
                  (cut_frame_payload-Safe frame_type (payload_bytes_for_bits bits) payload)
                  λ cut _.
                    Safe->>= (validate_frame_payload frame_type cut) _
                      (validate_frame_payload-Safe frame_type cut)
                      λ verdict _.
                        Safe->>= (reject verdict) _ (reject-Safe verdict) λ _ _. ok_safe _)

  -- Whatever the bytes and whatever `uuid.FromBytes` answers, `ParseMessage` returns a message or an
  -- error, and no index or slice in it or in what it calls is out of range.
  pub parse_message-Safe : (packet : List ℕ) → Safe (parse_message uuid_from_bytes packet)
  unfolding parse_message
  parse_message-Safe packet = guard-Safe 2 packet _ _ λ h.
      read_index 2 packet h 0 _ (omega arith) λ class. read_index 2 packet h 1 _ (omega arith) λ t.
        if-Safe (class == class_subscriber) (map-Safe _ _ (subscriber-Safe t packet)) (
          if-Safe (class == class_call_control) (map-Safe _ _ (call_control-Safe t packet)) (
            if-Safe (class == class_frame) (map-Safe _ _ (frame-Safe t packet)) (
              if-Safe (class == class_error) (map-Safe _ _ (error-Safe t packet h)) (
                if-Safe (class == class_service) (map-Safe _ _ (service-Safe t packet h))
                  (err_safe _)))))
