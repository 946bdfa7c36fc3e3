-- ===== src/Brew/Payload/Fits.antt =====
-- Every payload that `parseCallControl` reads from bytes belongs to its state and fits its widths.
use freetetra.Prelude.{
  ℕ, ◌-◌, ◌≡◌, ◌⊎◌, arith, ◌||◌, List, [], ◌∷◌, length, All, Outcome, ltb, leb, ◌==◌,
}
use freetetra.Prelude.Bytes.{IsByte}
use freetetra.Prelude.Ensures.{
  Ensures, ensures_ok, ensures_err, Ensures-if, get_index, get_slice, get_rest, get_u16, get_u32,
}
use freetetra.Brew.Message.{Error, CallPayload}
use freetetra.Brew.Payload.{
  parse_fixed_string, parse_group_tx, parse_cause, parse_circular_call, parse_circular_grant,
  parse_short_transfer, parse_packet_request, parse_packet_context, parse_call_payload,
}
use freetetra.Brew.Payload.RoundTrip.{IsText}
use freetetra.Brew.Payload.RoundTrip.States.{FitsState}

-- The text of a fixed field has no zero byte and is no longer than the field.
parse_fixed_string-IsText : (s : List ℕ) → IsText (length s) (parse_fixed_string s)
unfolding parse_fixed_string
parse_fixed_string-IsText [] = omega arith
parse_fixed_string-IsText (b ∷ s) = ground (arith, parse_fixed_string-IsText s)

fixed_field-IsText : (s : List ℕ) → length s ≡ 40 - 8 → IsText 32 (parse_fixed_string s)
fixed_field-IsText s e = let post = parse_fixed_string-IsText s in (omega (arith, post.0), post.1)

-- The statement about one case of the switch.
abbrev Fits : ℕ → Outcome Error CallPayload → Type 0
Fits s m = Ensures (FitsState s) m

module _ (d : List ℕ) (h : All IsByte d) where
  group_tx-Fits : (s : ℕ) → s ≡ 2 → Fits s (parse_group_tx d)
  unfolding parse_group_tx
  group_tx-Fits s e =
      Ensures-if (ltb (length d) 12) (λ _. ensures_err _)
        (λ _. get_u32 d h 0 4 _ λ source source_fits.
          get_u32 d h 4 8 _ λ destination destination_fits. get_index d h 8 _ λ _.
            get_index d h 9 _ λ _.
              get_u16 d h 10 12 _
                λ kind kind_fits. ensures_ok _ (e, source_fits, destination_fits, kind_fits))

  cause-Fits : (s : ℕ) → (s ≡ 3) ⊎ (s ≡ 6) ⊎ (s ≡ 10) ⊎ (s ≡ 16) ⊎ (s ≡ 17) → Fits s (parse_cause d)
  unfolding parse_cause
  cause-Fits s e =
      Ensures-if (ltb (length d) 1) (λ _. ensures_err _)
        (λ _. get_index d h 0 _ λ _. ensures_ok _ e)

  circular_call-Fits : (s : ℕ) → (s ≡ 4) ⊎ (s ≡ 8) → Fits s (parse_circular_call d)
  unfolding parse_circular_call
  circular_call-Fits s e =
      Ensures-if (ltb (length d) 51) (λ _. ensures_err _)
        (λ _. get_u32 d h 0 4 _ λ source source_fits.
          get_u32 d h 4 8 _ λ destination destination_fits.
            get_slice d h 8 40 _ λ number _ number_length. get_index d h 40 _ λ _.
              get_index d h 41 _ λ _. get_index d h 42 _ λ _. get_index d h 43 _ λ _.
                get_index d h 44 _ λ _. get_index d h 45 _ λ _. get_index d h 46 _ λ _.
                  get_index d h 47 _ λ _. get_index d h 48 _ λ _. get_index d h 49 _ λ _.
                    get_index d h 50 _ λ _.
                      ensures_ok _
                        (e, source_fits, destination_fits, fixed_field-IsText number number_length))

  circular_grant-Fits : (s : ℕ) → (s ≡ 9) ⊎ (s ≡ 12) ⊎ (s ≡ 13) → Fits s (parse_circular_grant d)
  unfolding parse_circular_grant
  circular_grant-Fits s e =
      Ensures-if (ltb (length d) 2) (λ _. ensures_err _)
        (λ _. get_index d h 0 _ λ _. get_index d h 1 _ λ _. ensures_ok _ e)

  short_transfer-Fits : (s : ℕ) → s ≡ 11 → Fits s (parse_short_transfer d)
  unfolding parse_short_transfer
  short_transfer-Fits s e =
      Ensures-if (leb 40 (length d))
        (λ _. get_u32 d h 0 4 _ λ source source_fits.
          get_u32 d h 4 8 _ λ destination destination_fits.
            get_slice d h 8 40 _ λ number _ number_length.
              ensures_ok _
                (e, source_fits, destination_fits, fixed_field-IsText number number_length))
        (λ _.
          Ensures-if (leb 2 (length d))
            (λ _. get_u16 d h 0 2 _ λ status status_fits. ensures_ok _ (e, status_fits))
            (λ _. ensures_err _))

  packet_request-Fits : (s : ℕ) → s ≡ 14 → Fits s (parse_packet_request d)
  unfolding parse_packet_request
  packet_request-Fits s e =
      Ensures-if (ltb (length d) 9) (λ _. ensures_err _)
        (λ _. get_u32 d h 0 4 _ λ number number_fits. get_index d h 4 _ λ _.
          get_u32 d h 5 9 _ λ profile profile_fits.
            get_rest d h 9 _ λ _ _. ensures_ok _ (e, number_fits, profile_fits))

  packet_context-Fits : (s : ℕ) → s ≡ 15 → Fits s (parse_packet_context d)
  unfolding parse_packet_context
  packet_context-Fits s e =
      Ensures-if (ltb (length d) 25) (λ _. ensures_err _)
        (λ _. get_index d h 0 _ λ _. get_u32 d h 1 5 _ λ ipv4 ipv4_fits.
          get_slice d h 5 21 _ λ ipv6 _ ipv6_length.
            get_u32 d h 21 25 _
              λ profile profile_fits. ensures_ok _ (e, ipv4_fits, ipv6_length, profile_fits))

  pub parse_call_payload-FitsState : (s : ℕ) → Ensures (FitsState s) (parse_call_payload s d)
  unfolding parse_call_payload
  parse_call_payload-FitsState s =
      Ensures-if (s == 2) (λ e. group_tx-Fits s (ground arith))
        λ a.
          Ensures-if (s == 3 || s == 6 || s == 10 || s == 16 || s == 17)
            (λ e. cause-Fits s (ground arith))
            λ b.
              Ensures-if (s == 5 || s == 7) (λ e. ensures_ok _ (ground arith))
                λ c.
                  Ensures-if (s == 4 || s == 8) (λ e. circular_call-Fits s (ground arith))
                    λ f.
                      Ensures-if (s == 9 || s == 12 || s == 13)
                        (λ e. circular_grant-Fits s (ground arith))
                        λ g.
                          Ensures-if (s == 11) (λ e. short_transfer-Fits s (ground arith))
                            λ i.
                              Ensures-if (s == 14) (λ e. packet_request-Fits s (ground arith))
                                λ j.
                                  Ensures-if (s == 15) (λ e. packet_context-Fits s (ground arith))
                                    λ k. ensures_ok _ (ground arith)
