-- ===== src/Service/VirtualSds/Pool.antt =====
-- internal/service/virtual_sds.go: the numbers that groups get in callouts.
use freetetra.Prelude.{
  ℕ, suc, zero, ◌+◌, ◌%◌, ◌≡◌, ◌≤◌, ◌<◌, ap, subst, sym, ◌∙◌, arith, Bool, true, false, List, [],
  ◌∷◌, some, ◌==◌, ==_iff, Bool-cases, Option-cases, inl, inr,
}
use freetetra.Prelude.Maps.{lookup, insert, number_key, lookup-insert}
use freetetra.Service.VirtualSds.{
  VirtualSds, VirtualSdsMessage, name_endpoint, upsert_virtual_sds_endpoint,
  delete_virtual_sds_endpoint, normalize_name,
}
use freetetra.Service.VirtualSds.Messages.{virtual_sds_messages, maybe_store_virtual_sds_message}
use freetetra.Service.VirtualSds.Groups.{
  is_occupied, is_usable, find_candidate, fallback_candidate, assign_candidate, allocate_candidate,
  ensure_group_callout_virtual_endpoint,
}
use freetetra.Service.VirtualSds.Histories.{
  Event, upserts, deletes, ensures, stores, reads, step, run, new_virtual_sds,
}
use freetetra.Service.VirtualSds.Counts.{name_endpoint_shape}

-- A number of another group is occupied.
is_occupied_lem :
    (gssi other issi : ℕ) (m : List (ℕ × ℕ))
    → lookup other m ≡ some issi
    → (other == gssi) ≡ false
    → 0 < issi
    → is_occupied gssi issi m ≡ true
unfolding is_occupied lookup
is_occupied_lem gssi other issi [] e d p = absurd (ground (arith, e))
is_occupied_lem gssi other issi ((group, i) ∷ m) e d p = elim (Bool-cases (group == other)) [
  | inl this ↦ ground (arith, this, e, d, p, ==_iff group other, ==_iff i issi, ==_iff i 0)
  | inr rest ↦
      ground (arith, rest, e, is_occupied_lem gssi other issi m (ground (arith, rest, e)) d p)
]

pub find_candidate_lem :
    (s : VirtualSds) (gssi i rounds candidate : ℕ)
    → find_candidate s gssi i rounds ≡ some candidate
    → (is_usable s gssi candidate ≡ true) × (970000 ≤ candidate) × (candidate < 980000)
unfolding find_candidate
find_candidate_lem s gssi i zero candidate e = absurd (ground (arith, e))
find_candidate_lem s gssi i (suc rounds) candidate e =
    let c = 970000 + (gssi % 10000 + i) % 10000 in
    elim (Bool-cases (is_usable s gssi c)) [
      | inl usable ↦
          let same : c ≡ candidate = ground (arith, e, usable) in
          (
            subst (λ r. is_usable s gssi r ≡ true) same usable,
            omega (arith, same),
            omega (arith, same),
          )
      | inr not_usable ↦
          find_candidate_lem s gssi (i + 1) rounds candidate (ground (arith, e, not_usable))
    ]

-- The numbers of groups: in range, and in the pool each for one group.
abbrev HasOwnNumbers : List (ℕ × ℕ) → Type 0
HasOwnNumbers m =
    ((g i : ℕ) → lookup g m ≡ some i → (970000 ≤ i) × (i < 990000))
    × ((g h i : ℕ) → lookup g m ≡ some i → lookup h m ≡ some i → i < 980000 → g ≡ h)

-- If another group has the new number, it was occupied.
new_owner :
    (m : List (ℕ × ℕ)) (gssi candidate other : ℕ)
    → (gssi == other) ≡ false
    → lookup other (insert gssi candidate m) ≡ some candidate
    → 0 < candidate
    → is_occupied gssi candidate m ≡ true
new_owner m gssi candidate other d e p =
    is_occupied_lem gssi other candidate m
      (ground (arith, e, d, lookup-insert gssi other candidate m))
      (ground (arith, d, ==_iff gssi other, ==_iff other gssi)) p

insert-HasOwnNumbers :
    (m : List (ℕ × ℕ)) (gssi candidate : ℕ)
    → HasOwnNumbers m
    → 970000 ≤ candidate
    → candidate < 990000
    → (candidate < 980000 → is_occupied gssi candidate m ≡ false)
    → HasOwnNumbers (insert gssi candidate m)
insert-HasOwnNumbers m gssi candidate (range, own) low high free = (
  λ g i e. ground (arith, e, lookup-insert gssi g candidate m, range g i, low, high),
  λ g h i e e' inside.
      let at_g = lookup-insert gssi g candidate m in
      let at_h = lookup-insert gssi h candidate m in
      elim (Bool-cases (gssi == g)) [
        | inl new_g ↦ elim (Bool-cases (gssi == h)) [
          | inl new_h ↦ ground (arith, new_g, new_h, ==_iff gssi g, ==_iff gssi h)
          | inr old_h ↦
              let is_i : candidate ≡ i = ground (arith, e, at_g, new_g) in
              let taken =
                new_owner m gssi candidate h old_h (e' ∙ ap some (sym is_i)) (omega (arith, low)) in
              absurd (ground (arith, taken, free (omega (arith, inside, is_i))))
        ]
        | inr old_g ↦ elim (Bool-cases (gssi == h)) [
          | inl new_h ↦
              let is_i : candidate ≡ i = ground (arith, e', at_h, new_h) in
              let taken =
                new_owner m gssi candidate g old_g (e ∙ ap some (sym is_i)) (omega (arith, low)) in
              absurd (ground (arith, taken, free (omega (arith, inside, is_i))))
          | inr old_h ↦
              own g h i (ground (arith, e, at_g, old_g)) (ground (arith, e', at_h, old_h)) inside
        ]
      ],
)

name_endpoint_numbers :
    (s : VirtualSds) (issi : ℕ) (name : List ℕ) (now : ℕ)
    → (name_endpoint s issi name now).0.group_callout ≡ s.group_callout
name_endpoint_numbers s issi name now =
    let (_, e, _) = name_endpoint_shape s issi name now in ap (λ r. r.group_callout) e

assign_candidate_numbers :
    (s : VirtualSds) (gssi candidate now : ℕ)
    → HasOwnNumbers s.group_callout
    → 970000 ≤ candidate
    → candidate < 990000
    → (candidate < 980000 → is_occupied gssi candidate s.group_callout ≡ false)
    → HasOwnNumbers (assign_candidate s gssi candidate now).0.group_callout
unfolding assign_candidate
assign_candidate_numbers s gssi candidate now v low high free =
    subst (λ m. HasOwnNumbers (insert gssi candidate m))
      (sym (name_endpoint_numbers s candidate _ now))
      (insert-HasOwnNumbers s.group_callout gssi candidate v low high free)

allocate_candidate_numbers :
    (s : VirtualSds) (gssi now : ℕ)
    → HasOwnNumbers s.group_callout
    → HasOwnNumbers (allocate_candidate s gssi now).0.group_callout
unfolding allocate_candidate fallback_candidate is_usable
allocate_candidate_numbers s gssi now v = elim (Option-cases (find_candidate s gssi 0 10000)) [
  | inl e ↦
      rw (e, allocate_candidate)
        (assign_candidate_numbers s gssi (fallback_candidate gssi) now v (omega arith) (omega arith)
          (λ inside. absurd (omega (arith, inside))))
  | inr (candidate, e) ↦
      let (usable, low, high) = find_candidate_lem s gssi 0 10000 candidate e in
      rw (e, allocate_candidate)
        (assign_candidate_numbers s gssi candidate now v low (omega (arith, high))
          (λ _. ground (arith, usable)))
]

ensure_numbers :
    (s : VirtualSds) (gssi now : ℕ)
    → HasOwnNumbers s.group_callout
    → HasOwnNumbers (ensure_group_callout_virtual_endpoint s gssi now).0.group_callout
unfolding ensure_group_callout_virtual_endpoint
ensure_numbers s gssi now v = elim (Option-cases (lookup gssi s.group_callout)) [
  | inl e ↦ rw (e, ensure_group_callout_virtual_endpoint) (allocate_candidate_numbers s gssi now v)
  | inr (issi, e) ↦ elim (Bool-cases (issi == 0)) [
    | inl unset ↦
        rw (e, ensure_group_callout_virtual_endpoint, unset)
          (allocate_candidate_numbers s gssi now v)
    | inr given ↦
        rw (e, ensure_group_callout_virtual_endpoint, given)
          (subst HasOwnNumbers (sym (name_endpoint_numbers s issi _ now)) v)
  ]
]

delete_numbers :
    (s : VirtualSds) (issi : ℕ)
    → s.group_callout ≡ (delete_virtual_sds_endpoint s issi).0.group_callout
unfolding delete_virtual_sds_endpoint
delete_numbers s issi = ground arith

store_numbers :
    (s : VirtualSds) (issi : ℕ) (msg : VirtualSdsMessage) (now : ℕ)
    → s.group_callout ≡ (maybe_store_virtual_sds_message s issi msg now).0.group_callout
unfolding maybe_store_virtual_sds_message
store_numbers s issi msg now = ground arith

read_numbers :
    (s : VirtualSds) (issi since limit : ℕ) (consume : Bool) (now : ℕ)
    → s.group_callout ≡ (virtual_sds_messages s issi since limit consume now).0.group_callout
unfolding virtual_sds_messages
read_numbers s issi since limit consume now = ground arith

step-HasOwnNumbers :
    (s : VirtualSds) (e : Event)
    → HasOwnNumbers s.group_callout
    → HasOwnNumbers (step s e).group_callout
unfolding step upsert_virtual_sds_endpoint
step-HasOwnNumbers s (upserts issi name now) v =
    subst HasOwnNumbers (sym (name_endpoint_numbers s issi (normalize_name name issi) now)) v
step-HasOwnNumbers s (deletes issi) v = subst HasOwnNumbers (delete_numbers s issi) v
step-HasOwnNumbers s (ensures gssi now) v = ensure_numbers s gssi now v
step-HasOwnNumbers s (stores issi msg now) v = subst HasOwnNumbers (store_numbers s issi msg now) v
step-HasOwnNumbers s (reads issi since limit consume now) v =
    subst HasOwnNumbers (read_numbers s issi since limit consume now) v

run-HasOwnNumbers :
    (s : VirtualSds) (es : List Event)
    → HasOwnNumbers s.group_callout
    → HasOwnNumbers (run s es).group_callout
unfolding run
run-HasOwnNumbers s [] v = v
run-HasOwnNumbers s (e ∷ es) v = run-HasOwnNumbers (step s e) es (step-HasOwnNumbers s e v)

-- After any history of operations at a new service, the number of every group lies from 970000 to
-- 989999, and two groups that have the same number below 980000 are the same group.
pub own_numbers :
    (es : List Event) (g h i : ℕ)
    → lookup g (run new_virtual_sds es).group_callout ≡ some i
    → lookup h (run new_virtual_sds es).group_callout ≡ some i
    → (970000 ≤ i) × (i < 990000) × (i < 980000 → g ≡ h)
own_numbers es g h i e e' =
    let (range, own) = run-HasOwnNumbers new_virtual_sds es (
      unfold lookup in
      (λ k j n. absurd (ground (arith, n)), λ k l j n n' _. absurd (ground (arith, n)))) in
    let (low, high) = range g i e in (low, high, own g h i e e')
