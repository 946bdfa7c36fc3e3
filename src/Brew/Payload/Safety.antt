-- ===== src/Brew/Payload/Safety.antt =====
-- No payload makes `parseCallControl` read out of range.
use freetetra.Prelude.{
  ℕ, ◌≤◌, arith, Bool, true, false, inl, inr, List, length, Outcome, err, Safe, ok_safe, err_safe,
  ltb, leb, if◌then◌else◌, Bool-cases, leb→le,
}
use freetetra.Prelude.Bytes.{read_index, read_slice, read_rest, read_u16, read_u32}
use freetetra.Brew.Message.{Error}
use freetetra.Brew.Payload.{
  parse_group_tx, parse_cause, parse_circular_call, parse_circular_grant, parse_short_transfer,
  parse_packet_request, parse_packet_context, parse_call_payload,
}

-- A guard `if len < n { return err }` leaves a length of `n` at least.
pub guard-Safe {ℓ} :
    {B : Type ℓ} (n : ℕ) (xs : List ℕ) (e : Error) (k : Outcome Error B)
    → (n ≤ length xs → Safe k)
    → Safe (if ltb (length xs) n then err e else k)
guard-Safe n xs e k h = elim (Bool-cases (ltb (length xs) n)) [
  | inl short ↦ rw short (err_safe e)
  | inr long ↦ rw long (h (ground arith))
]

group_tx-Safe : (payload : List ℕ) → Safe (parse_group_tx payload)
unfolding parse_group_tx
group_tx-Safe payload = guard-Safe 12 payload _ _ λ h.
    read_u32 12 payload h 0 4 _ (omega arith) (omega arith) λ _.
      read_u32 12 payload h 4 8 _ (omega arith) (omega arith) λ _.
        read_index 12 payload h 8 _ (omega arith) λ _.
          read_index 12 payload h 9 _ (omega arith)
            λ _. read_u16 12 payload h 10 12 _ (omega arith) (omega arith) λ _. ok_safe _

cause-Safe : (payload : List ℕ) → Safe (parse_cause payload)
unfolding parse_cause
cause-Safe payload =
    guard-Safe 1 payload _ _ λ h. read_index 1 payload h 0 _ (omega arith) λ _. ok_safe _

circular_call-Safe : (payload : List ℕ) → Safe (parse_circular_call payload)
unfolding parse_circular_call
circular_call-Safe payload = guard-Safe 51 payload _ _ λ h.
    read_u32 51 payload h 0 4 _ (omega arith) (omega arith) λ _.
      read_u32 51 payload h 4 8 _ (omega arith) (omega arith) λ _.
        read_slice 51 payload h 8 40 _ (omega arith) (omega arith) λ _.
          read_index 51 payload h 40 _ (omega arith) λ _.
            read_index 51 payload h 41 _ (omega arith) λ _.
              read_index 51 payload h 42 _ (omega arith) λ _.
                read_index 51 payload h 43 _ (omega arith) λ _.
                  read_index 51 payload h 44 _ (omega arith) λ _.
                    read_index 51 payload h 45 _ (omega arith) λ _.
                      read_index 51 payload h 46 _ (omega arith) λ _.
                        read_index 51 payload h 47 _ (omega arith) λ _.
                          read_index 51 payload h 48 _ (omega arith) λ _.
                            read_index 51 payload h 49 _ (omega arith)
                              λ _. read_index 51 payload h 50 _ (omega arith) λ _. ok_safe _

circular_grant-Safe : (payload : List ℕ) → Safe (parse_circular_grant payload)
unfolding parse_circular_grant
circular_grant-Safe payload = guard-Safe 2 payload _ _ λ h.
    read_index 2 payload h 0 _ (omega arith)
      λ _. read_index 2 payload h 1 _ (omega arith) λ _. ok_safe _

packet_request-Safe : (payload : List ℕ) → Safe (parse_packet_request payload)
unfolding parse_packet_request
packet_request-Safe payload = guard-Safe 9 payload _ _ λ h.
    read_u32 9 payload h 0 4 _ (omega arith) (omega arith) λ _.
      read_index 9 payload h 4 _ (omega arith) λ _.
        read_u32 9 payload h 5 9 _ (omega arith) (omega arith)
          λ _. read_rest 9 payload h 9 _ (omega arith) λ _. ok_safe _

packet_context-Safe : (payload : List ℕ) → Safe (parse_packet_context payload)
unfolding parse_packet_context
packet_context-Safe payload = guard-Safe 25 payload _ _ λ h.
    read_index 25 payload h 0 _ (omega arith) λ _.
      read_u32 25 payload h 1 5 _ (omega arith) (omega arith) λ _.
        read_slice 25 payload h 5 21 _ (omega arith) (omega arith)
          λ _. read_u32 25 payload h 21 25 _ (omega arith) (omega arith) λ _. ok_safe _

short_transfer-Safe : (payload : List ℕ) → Safe (parse_short_transfer payload)
unfolding parse_short_transfer
short_transfer-Safe payload = elim (Bool-cases (leb 40 (length payload))) [
  | inl e ↦
      let h = leb→le 40 (length payload) e in
      rw e (
        read_u32 40 payload h 0 4 _ (omega arith) (omega arith) λ _.
          read_u32 40 payload h 4 8 _ (omega arith) (omega arith)
            λ _. read_slice 40 payload h 8 40 _ (omega arith) (omega arith) λ _. ok_safe _)
  | inr e ↦ elim (Bool-cases (leb 2 (length payload))) [
    | inl e' ↦
        let h = leb→le 2 (length payload) e' in
        rw (e, e') (read_u16 2 payload h 0 2 _ (omega arith) (omega arith) λ _. ok_safe _)
    | inr e' ↦ rw (e, e') (err_safe _)
  ]
]

pub if-Safe {ℓ} :
    {B : Type ℓ} (b : Bool) {x y : Outcome Error B} → Safe x → Safe y → Safe (if b then x else y)
if-Safe true s t = s
if-Safe false s t = t

pub parse_call_payload-Safe :
    (state : ℕ) (payload : List ℕ) → Safe (parse_call_payload state payload)
unfolding parse_call_payload
parse_call_payload-Safe state payload = if-Safe _ (group_tx-Safe payload) (
    if-Safe _ (cause-Safe payload) (
      if-Safe _ (ok_safe _) (
        if-Safe _ (circular_call-Safe payload) (
          if-Safe _ (circular_grant-Safe payload) (
            if-Safe _ (short_transfer-Safe payload) (
              if-Safe _ (packet_request-Safe payload)
                (if-Safe _ (packet_context-Safe payload) (ok_safe _))))))))
