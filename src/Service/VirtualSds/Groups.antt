-- ===== src/Service/VirtualSds/Groups.antt =====
-- internal/service/virtual_sds.go: the endpoint that stands for a group in callouts.
use freetetra.Prelude.{
  ℕ, zero, suc, ◌+◌, ◌%◌, Bool, true, false, ◌&&◌, ◌||◌, not, List, [], ◌∷◌, ◌++◌, Option, none,
  some, ◌==◌,
}
use freetetra.Prelude.Maps.{lookup, insert, number_key}
use freetetra.Service.VirtualSds.{
  VirtualSds, callout_virtual_issi_base, callout_virtual_issi_span, callout_group_prefix, decimal,
  digits, has_prefix, name_endpoint,
}

-- Whether another group has the number: a lookup in `occupiedByGroup`.
unfoldable pub is_occupied : ℕ → ℕ → List (ℕ × ℕ) → Bool
is_occupied gssi candidate [] = false
is_occupied gssi candidate ((group, issi) ∷ m) =
    (not (group == gssi || issi == 0) && issi == candidate) || is_occupied gssi candidate m

-- Whether the group may take the number: no other group has it, and no endpoint but a group's.
unfoldable pub is_usable : VirtualSds → ℕ → ℕ → Bool
unfolding is_occupied lookup has_prefix
is_usable s gssi candidate =
    not (is_occupied gssi candidate s.group_callout) && (elim (lookup candidate s.endpoints) [
      | none ↦ true
      | some ep ↦ has_prefix callout_group_prefix ep.name
    ])

-- The loop over the pool, with the number of rounds that are left.
unfoldable pub find_candidate : VirtualSds → ℕ → ℕ → ℕ → Option ℕ
unfolding is_usable
find_candidate s gssi i zero = none
find_candidate s gssi i (suc rounds) =
    let candidate =
      callout_virtual_issi_base
      + (gssi % callout_virtual_issi_span + i) % callout_virtual_issi_span in
    elim (is_usable s gssi candidate) [
      | true ↦ some candidate
      | false ↦ find_candidate s gssi (i + 1) rounds
    ]

-- The number outside of the pool.
unfoldable pub fallback_candidate : ℕ → ℕ
fallback_candidate gssi =
    callout_virtual_issi_base + callout_virtual_issi_span + gssi % callout_virtual_issi_span

-- The endpoint, and the number for the group.
unfoldable pub assign_candidate : VirtualSds → ℕ → ℕ → ℕ → VirtualSds × ℕ × Bool
unfolding name_endpoint insert digits
assign_candidate s gssi candidate now =
    let (s', created) = name_endpoint s candidate (callout_group_prefix ++ decimal gssi) now in
    (record s' { group_callout = insert gssi candidate s'.group_callout }, candidate, created)

-- A number from the pool, or else outside of it.
unfoldable pub allocate_candidate : VirtualSds → ℕ → ℕ → VirtualSds × ℕ × Bool
unfolding find_candidate fallback_candidate assign_candidate
allocate_candidate s gssi now = elim (find_candidate s gssi 0 callout_virtual_issi_span) [
  | some candidate ↦ assign_candidate s gssi candidate now
  | none ↦ assign_candidate s gssi (fallback_candidate gssi) now
]

-- The new state, the number and whether an endpoint was made.
unfoldable pub ensure_group_callout_virtual_endpoint : VirtualSds → ℕ → ℕ → VirtualSds × ℕ × Bool
unfolding lookup name_endpoint allocate_candidate digits
ensure_group_callout_virtual_endpoint s gssi now = elim (lookup gssi s.group_callout) [
  | none ↦ allocate_candidate s gssi now
  | some issi ↦ elim (issi == 0) [
    | true ↦ allocate_candidate s gssi now
    | false ↦
        let (s', _) = name_endpoint s issi (callout_group_prefix ++ decimal gssi) now in
        (s', issi, false)
  ]
]
