-- ===== src/Service/Callouts/Latest.antt =====
-- internal/service/callout_manager.go: the thread that latestGroupContext finds.
use freetetra.Prelude.{
  ℕ, ◌≡◌, ◌≤◌, ◌⊎◌, refl, sym, subst, arith, true, List, [], ◌∷◌, Option, none, some, ltb,
  Bool-cases, inl, inr,
}
use freetetra.Service.Callouts.{CalloutManager, CalloutThread, ThreadKey}
use freetetra.Service.Callouts.Rx.{is_open_for, newer, newest_open, latest_group_context}

-- The threads of a list.
unfoldable pub IsThread : CalloutThread → List (ThreadKey × CalloutThread) → Type 0
IsThread t [] = ⊥
IsThread t ((_, t') ∷ ts) = (t' ≡ t) ⊎ IsThread t ts

-- A result that is an open thread, at least as new as one that was there and as those of the list.
abbrev IsNewest : ℕ → ℕ → CalloutThread → CalloutThread → List (ThreadKey × CalloutThread) → Type 0
IsNewest source group best r ts =
    (best.updated ≤ r.updated)
    × ((t : CalloutThread)
        → IsThread t ts
        → is_open_for source group t ≡ true
        → t.updated ≤ r.updated)
    × (is_open_for source group r ≡ true)
    × ((r ≡ best) ⊎ IsThread r ts)

abbrev Finds :
    ℕ
    → ℕ
    → CalloutThread
    → Option (ThreadKey × CalloutThread)
    → List (ThreadKey × CalloutThread)
    → Type 0
Finds source group best result ts =
    (k : ThreadKey) × (r : CalloutThread) × (result ≡ some (k, r)) × IsNewest source group best r ts

older_bound :
    (source group : ℕ) (best t t' r : CalloutThread)
    → (is_open_for source group t ≡ true → t.updated ≤ best.updated)
    → best.updated ≤ r.updated
    → t ≡ t'
    → is_open_for source group t' ≡ true
    → t.updated ≤ r.updated
older_bound source group best t t' r older up same h =
    omega (arith, older (subst (λ u. is_open_for source group u ≡ true) (sym same) h), up)

-- A thread that is not newer is passed over; one that is takes the place.
older_next :
    (source group : ℕ) (k' : ThreadKey) (best t : CalloutThread)
    (result : Option (ThreadKey × CalloutThread)) (ts : List (ThreadKey × CalloutThread))
    → (is_open_for source group t ≡ true → t.updated ≤ best.updated)
    → Finds source group best result ts
    → Finds source group best result ((k', t) ∷ ts)
unfolding IsThread
older_next source group k' best t result ts older (k, r, e, (up, all, good, from)) = (
  k,
  r,
  e,
  (
    up,
    λ t' m h. elim m [
      | inl same ↦
          subst (λ u. u.updated ≤ r.updated) same
            (older_bound source group best t t' r older up same h)
      | inr rest ↦ all t' rest h
    ],
    good,
    elim from [ inl same ↦ inl same | inr rest ↦ inr (inr rest) ],
  ),
)

newer_next :
    (source group : ℕ) (k' : ThreadKey) (best t : CalloutThread)
    (result : Option (ThreadKey × CalloutThread)) (ts : List (ThreadKey × CalloutThread))
    → best.updated ≤ t.updated
    → Finds source group t result ts
    → Finds source group best result ((k', t) ∷ ts)
unfolding IsThread
newer_next source group k' best t result ts older (k, r, e, (up, all, good, from)) = (
  k,
  r,
  e,
  (
    omega (arith, older, up),
    λ t' m h. elim m [
      | inl same ↦ subst (λ u. u.updated ≤ r.updated) same up
      | inr rest ↦ all t' rest h
    ],
    good,
    inr (elim from [ inl same ↦ inl (sym same) | inr rest ↦ inr rest ]),
  ),
)

newest_open-some :
    (source group : ℕ) (k : ThreadKey) (best : CalloutThread)
    (ts : List (ThreadKey × CalloutThread))
    → is_open_for source group best ≡ true
    → Finds source group best (newest_open source group (some (k, best)) ts) ts
unfolding newest_open newer IsThread
newest_open-some source group k best [] h =
    (k, best, refl, (omega arith, λ t m _. absurd m, h, inl refl))
newest_open-some source group k best ((k', t) ∷ ts) h =
    elim (Bool-cases (is_open_for source group t)) [
      | inr other ↦
          rw (other, newest_open)
            (older_next source group k' best t (newest_open source group (some (k, best)) ts) ts
              (λ e. absurd (ground (arith, e, other))) (newest_open-some source group k best ts h))
      | inl good ↦ elim (Bool-cases (ltb best.updated t.updated)) [
        | inl later ↦
            rw (good, newest_open, later)
              (newer_next source group k' best t (newest_open source group (some (k', t)) ts) ts
                (ground (arith, later)) (newest_open-some source group k' t ts good))
        | inr not_later ↦
            rw (good, newest_open, not_later)
              (older_next source group k' best t (newest_open source group (some (k, best)) ts) ts
                (λ _. ground (arith, not_later)) (newest_open-some source group k best ts h))
      ]
    ]

newest_open-none :
    (source group : ℕ) (t : CalloutThread) (ts : List (ThreadKey × CalloutThread))
    → IsThread t ts
    → is_open_for source group t ≡ true
    → (k : ThreadKey) × (r : CalloutThread) × (newest_open source group none ts ≡ some (k, r))
      × (is_open_for source group r ≡ true)
      × IsThread r ts
      × (t.updated ≤ r.updated)
unfolding newest_open newer IsThread
newest_open-none source group t [] m h = absurd m
newest_open-none source group t ((k', t') ∷ ts) m h =
    elim (Bool-cases (is_open_for source group t')) [
      | inl good ↦
          let (k, r, e, (up, all, good', from)) = newest_open-some source group k' t' ts good in
          (
            k,
            r,
            rw (good, newest_open) e,
            good',
            elim from [ inl same ↦ inl (sym same) | inr rest ↦ inr rest ],
            elim m [
              | inl same ↦ subst (λ u. u.updated ≤ r.updated) same up
              | inr rest ↦ all t rest h
            ],
          )
      | inr other ↦
          let rest : IsThread t ts = elim m [
            | inl same ↦
                absurd (
                  ground
                    (arith, other, subst (λ u. is_open_for source group u ≡ true) (sym same) h))
            | inr rest ↦ rest
          ] in
          let (k, r, e, good', from, up) = newest_open-none source group t ts rest h in
          (k, r, rw (other, newest_open) e, good', inr from, up)
    ]

-- If the manager has an open callout to the group for the source, latestGroupContext gives an open
-- callout to the group for the source that is one of the manager's and that is at least as new.
pub latest_group_context_lem :
    (m : CalloutManager) (source group : ℕ) (t : CalloutThread)
    → IsThread t m.threads
    → is_open_for source group t ≡ true
    → (r : CalloutThread) × (latest_group_context m source group ≡ some r)
      × (is_open_for source group r ≡ true)
      × IsThread r m.threads
      × (t.updated ≤ r.updated)
unfolding latest_group_context
latest_group_context_lem m source group t there h =
    let (k, r, e, good, from, up) = newest_open-none source group t m.threads there h in
    (r, rw (e, latest_group_context) refl, good, from, up)
