-- ===== src/Service/VirtualSds/Search.antt =====
-- internal/service/virtual_sds.go: a group gets a number of the pool while there is one.
use freetetra.Prelude.{
  ℕ, suc, zero, ◌+◌, ◌-◌, ◌%◌, ◌≡◌, ◌≤◌, ◌<◌, refl, subst, sym, arith, Bool, true, ◌++◌, none, some,
  ◌==◌, ==_iff, Bool-cases, inl, inr,
}
use freetetra.Prelude.Maps.{lookup, number_key, lookup-insert}
use freetetra.Service.VirtualSds.{VirtualSds, callout_group_prefix, decimal, name_endpoint}
use freetetra.Service.VirtualSds.Groups.{
  is_usable, find_candidate, assign_candidate, allocate_candidate,
  ensure_group_callout_virtual_endpoint,
}
use freetetra.Service.VirtualSds.Pool.{find_candidate_lem}

find_candidate-some :
    (s : VirtualSds) (gssi i rounds k : ℕ)
    → k < rounds
    → is_usable s gssi (970000 + (gssi % 10000 + (i + k)) % 10000) ≡ true
    → (candidate : ℕ) × (find_candidate s gssi i rounds ≡ some candidate)
unfolding find_candidate
find_candidate-some s gssi i zero k h usable = absurd (omega (arith, h))
find_candidate-some s gssi i (suc rounds) k h usable =
    let c = 970000 + (gssi % 10000 + i) % 10000 in
    elim (Bool-cases (is_usable s gssi c)) [
      | inl found ↦ (c, rw (found, find_candidate) refl)
      | inr not_yet ↦ elim (Bool-cases (k == 0)) [
        | inl now ↦
            let here : 970000 + (gssi % 10000 + (i + k)) % 10000 ≡ c = ground (arith, now) in
            absurd (ground (arith, subst (λ r. is_usable s gssi r ≡ true) here usable, not_yet))
        | inr later ↦
            let same : i + k ≡ (i + 1) + (k - 1) = ground (arith, later) in
            let (candidate, e) =
              find_candidate-some s gssi (i + 1) rounds (k - 1) (ground (arith, later, h)) (
                subst (λ j. is_usable s gssi (970000 + (gssi % 10000 + j) % 10000) ≡ true) same
                  usable) in
            (candidate, rw (not_yet, find_candidate) e)
      ]
    ]

-- The answer is a number of the pool that was usable, and it is the group's from now on.
abbrev pub GetsFromPool : VirtualSds → ℕ → VirtualSds × ℕ × Bool → Type 0
GetsFromPool s gssi (s', issi, _) =
    (is_usable s gssi issi ≡ true)
    × (970000 ≤ issi)
    × (issi < 980000)
    × (lookup gssi s'.group_callout ≡ some issi)

allocate_candidate-some :
    (s : VirtualSds) (gssi candidate now : ℕ)
    → find_candidate s gssi 0 10000 ≡ some candidate
    → allocate_candidate s gssi now ≡ assign_candidate s gssi candidate now
unfolding allocate_candidate
allocate_candidate-some s gssi candidate now e = rw (e, allocate_candidate) refl

assign_candidate-GetsFromPool :
    (s : VirtualSds) (gssi candidate now : ℕ)
    → is_usable s gssi candidate ≡ true
    → 970000 ≤ candidate
    → candidate < 980000
    → GetsFromPool s gssi (assign_candidate s gssi candidate now)
unfolding assign_candidate
assign_candidate-GetsFromPool s gssi candidate now usable low high = (
  usable,
  low,
  high,
  ground (
    arith,
    lookup-insert gssi gssi candidate
        (name_endpoint s candidate (callout_group_prefix ++ decimal gssi) now).0.group_callout,
    ==_iff gssi gssi,
  ),
)

ensure-GetsFromPool :
    (s : VirtualSds) (gssi candidate now : ℕ)
    → lookup gssi s.group_callout ≡ none
    → find_candidate s gssi 0 10000 ≡ some candidate
    → GetsFromPool s gssi (ensure_group_callout_virtual_endpoint s gssi now)
unfolding ensure_group_callout_virtual_endpoint
ensure-GetsFromPool s gssi candidate now e found =
    let (good, low, high) = find_candidate_lem s gssi 0 10000 candidate found in
    let shape : ensure_group_callout_virtual_endpoint s gssi now
        ≡ assign_candidate s gssi candidate now =
      rw (e, ensure_group_callout_virtual_endpoint)
        (allocate_candidate-some s gssi candidate now found) in
    subst (GetsFromPool s gssi) (sym shape)
      (assign_candidate-GetsFromPool s gssi candidate now good low high)

-- The round in which the search comes to a number of the pool.
round_lem :
    (gssi usable : ℕ)
    → 970000 ≤ usable
    → usable < 980000
    → 970000 + (gssi % 10000 + (0 + (usable + 40000 - gssi % 10000 - 970000) % 10000)) % 10000
      ≡ usable
round_lem gssi usable low high = omega (arith, low, high)

-- A group that has no number yet gets a usable number of the pool, if one is usable: a number that no
-- other group has and whose endpoint, if there is one, has the name of a group's.
pub ensure_group_callout_virtual_endpoint_lem :
    (s : VirtualSds) (gssi usable now : ℕ)
    → lookup gssi s.group_callout ≡ none
    → is_usable s gssi usable ≡ true
    → 970000 ≤ usable
    → usable < 980000
    → GetsFromPool s gssi (ensure_group_callout_virtual_endpoint s gssi now)
ensure_group_callout_virtual_endpoint_lem s gssi usable now e free low high =
    let (candidate, found) =
      find_candidate-some s gssi 0 10000 ((usable + 40000 - gssi % 10000 - 970000) % 10000)
        (omega arith)
        (subst (λ r. is_usable s gssi r ≡ true) (sym (round_lem gssi usable low high)) free) in
    ensure-GetsFromPool s gssi candidate now e found
