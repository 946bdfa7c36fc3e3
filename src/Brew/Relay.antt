-- ===== src/Brew/Relay.antt =====
-- internal/brew/protocol.go: a call message that was parsed, built again and parsed again.
use freetetra.Prelude.{ℕ, ◌≡◌, arith, Option, some, List, length, All, ok, ◌>>=◌, ltb, ◌==◌}
use freetetra.Prelude.Bytes.{IsByte}
use freetetra.Prelude.Ensures.{
  Ensures, ensures_ok, ensures_err, Ensures-ok, Ensures->>=, Ensures-if, get_index, get_slice,
  get_rest,
}
use freetetra.Brew.Message.{
  Error, Result, class_subscriber, class_call_control, class_frame, class_error, class_service,
  invalid_call_uuid, CallControlMessage, ParsedMessage, subscriber, call_control, frame, error,
  service,
}
use freetetra.Brew.Payload.{parse_call_payload}
use freetetra.Brew.Payload.Fits.{parse_call_payload-FitsState}
use freetetra.Brew.Payload.RoundTrip.States.{FitsState}
use freetetra.Brew.Parse.{
  id_or, parse_subscriber, parse_call_control, parse_frame, parse_error, parse_service,
  parse_message,
}
use freetetra.Brew.Build.{build_call_control_from_message}
use freetetra.Brew.Uuid.{CopiesUuid}
use freetetra.Brew.RoundTrip.{parse_message-build_call_control_from_message}

abbrev IsWellFormed : CallControlMessage → Type 0
IsWellFormed m = (length m.identifier ≡ 16) × FitsState m.call_state m.payload

abbrev IsWellFormedMessage : ParsedMessage → Type 0
IsWellFormedMessage (call_control m) = IsWellFormed m
IsWellFormedMessage (subscriber _) = Unit
IsWellFormedMessage (frame _) = Unit
IsWellFormedMessage (error _) = Unit
IsWellFormedMessage (service _) = Unit

copied-length :
    (from_bytes : List ℕ → Option (List ℕ)) (b : List ℕ) {id : List ℕ} (e : Error)
    → CopiesUuid from_bytes
    → length b ≡ 16
    → id_or e (from_bytes b) ≡ ok id
    → length id ≡ 16
copied-length from_bytes b e copies h q = let q' = rw (copies b h) at q in ground (arith, h, q')

map-IsWellFormed :
    {A : Type 0} (f : A → ParsedMessage) (m : Result A)
    → ((a : A) → IsWellFormedMessage (f a))
    → Ensures IsWellFormedMessage (m >>= λ a. ok (f a))
map-IsWellFormed f m h = Ensures->>= m _ λ a _. ensures_ok _ (h a)

module _ (uuid_from_bytes : List ℕ → Option (List ℕ)) (copies : CopiesUuid uuid_from_bytes)
    (packet : List ℕ) (h : All IsByte packet) where
  parse_call_control-IsWellFormed :
      (s : ℕ) → Ensures IsWellFormed (parse_call_control uuid_from_bytes s packet)
  unfolding parse_call_control
  parse_call_control-IsWellFormed s =
      Ensures-if (ltb (length packet) 18) (λ _. ensures_err _)
        λ _. get_slice packet h 2 18 _ λ b _ b_length.
          Ensures->>= (id_or invalid_call_uuid (uuid_from_bytes b)) _ λ id e.
            get_rest packet h 18 _ λ d bytes. Ensures->>= (parse_call_payload s d) _ λ p q.
              ensures_ok _ (
                copied-length uuid_from_bytes b invalid_call_uuid copies b_length e,
                Ensures-ok _ _ (parse_call_payload-FitsState d bytes s) q,
              )

  parse_message-IsWellFormed : Ensures IsWellFormedMessage (parse_message uuid_from_bytes packet)
  unfolding parse_message
  parse_message-IsWellFormed =
      Ensures-if (ltb (length packet) 2) (λ _. ensures_err _)
        λ _. get_index packet h 0 _ λ class. get_index packet h 1 _ λ t.
          Ensures-if (class == class_subscriber)
            (λ _. map-IsWellFormed subscriber (parse_subscriber t packet) (λ _. tt))
            λ _.
              Ensures-if (class == class_call_control)
                (λ _.
                  Ensures->>= (parse_call_control uuid_from_bytes t packet) _
                    λ m e. ensures_ok _ (Ensures-ok _ _ (parse_call_control-IsWellFormed t) e))
                λ _.
                  Ensures-if (class == class_frame)
                    (λ _. map-IsWellFormed frame (parse_frame uuid_from_bytes t packet) (λ _. tt))
                    λ _.
                      Ensures-if (class == class_error)
                        (λ _. map-IsWellFormed error (parse_error t packet) (λ _. tt))
                        λ _.
                          Ensures-if (class == class_service)
                            (λ _. map-IsWellFormed service (parse_service t packet) (λ _. tt))
                            (λ _. ensures_err _)

-- If `uuid.FromBytes` copies 16 bytes, a call message that `ParseMessage` read from bytes is built
-- again without an error, and the new packet is read as the same message.
pub parse_message-build_parsed :
    (uuid_from_bytes : List ℕ → Option (List ℕ)) (packet : List ℕ) (m : CallControlMessage)
    → CopiesUuid uuid_from_bytes
    → All IsByte packet
    → parse_message uuid_from_bytes packet ≡ ok (call_control m)
    → (packet' : List ℕ) × (build_call_control_from_message (some m) ≡ ok packet')
      × (parse_message uuid_from_bytes packet' ≡ ok (call_control m))
parse_message-build_parsed uuid_from_bytes packet m copies h e =
    let (whole, fits) =
      Ensures-ok IsWellFormedMessage _ (parse_message-IsWellFormed uuid_from_bytes copies packet h)
        e in
    parse_message-build_call_control_from_message uuid_from_bytes m copies whole fits
