-- ===== src/Federation/Mesh/Dedup.antt =====
-- internal/federation/mesh.go: how often the goroutines process the messages with one id.
use freetetra.Prelude.{
  none, Option-cases, ◌==◌, ==_iff, ℕ, ◌+◌, ◌≤◌, ◌≡◌, refl, inl, inr, ◌≢◌, arith, true, false, ◌&&◌,
  List, [], ◌∷◌, All, if◌then◌else◌, Bool-cases,
}
use freetetra.Prelude.Maps.{text_key}
use freetetra.Federation.Mesh.{
  passes_guards, Control, deduplication_window, cleanup, prepare_outgoing,
}
use Prim.Native.String.{String}
use text.Mathlib.Text.{◌==◌ as str_eq}
use freetetra.Federation.Mesh.Remember.{
  Remembers, lookup-keep_recent, mark_seen-Remembers, passes_guards-Remembers,
  mark_passed-Remembers, mark_passed-marks,
}
use freetetra.Federation.Mesh.Readers.{
  Readers, Event, guards, mark, send, tick, step, run, holds, processed_by, IsWithin,
}

module _ {P : Type 0} where
  step-Remembers :
      (s : Readers P) (e : Event P) (id : String) (start : ℕ)
      → IsWithin start e
      → Remembers s.router id (start + deduplication_window)
      → Remembers (step s e).router id (start + deduplication_window)
  unfolding step
  step-Remembers s (guards g ctrl) id start w r = elim (Option-cases (s.passed g)) [
    | inl free ↦ elim (Bool-cases (passes_guards s.router ctrl)) [
      | inl e ↦ rw (free, step, e) r
      | inr e ↦ rw (free, step, e) r
    ]
    | inr (m, busy) ↦ rw (busy, step) r
  ]
  step-Remembers s (mark g now) id start w r = elim (Option-cases (s.passed g)) [
    | inl free ↦ rw (free, step) r
    | inr (m, busy) ↦
        rw (busy, step)
          (mark_passed-Remembers s.router m id now (start + deduplication_window) (omega arith) r)
  ]
  step-Remembers s (send ctrl new_id now) id start w r =
      unfold prepare_outgoing in
      mark_seen-Remembers s.router id _ now (start + deduplication_window) (omega arith) r
  step-Remembers s (tick now) id start w (ts, e, k) =
      unfold cleanup in (ts, lookup-keep_recent now id ts s.router.seen (omega arith) e, k)

  run-Remembers :
      (s : Readers P) (es : List (Event P)) (id : String) (start : ℕ)
      → All (IsWithin start) es
      → Remembers s.router id (start + deduplication_window)
      → Remembers (run s es).router id (start + deduplication_window)
  unfolding run
  run-Remembers s [] id start w r = r
  run-Remembers s (e ∷ es) id start w r =
      run-Remembers (step s e) es id start w.1 (step-Remembers s e id start w.0 r)

  -- While the id is remembered, no other goroutine lets a message with it through the guards.
  guards-holds :
      (s : Readers P) (h : ℕ) (ctrl : Control P) (g : ℕ) (id : String) (until : ℕ)
      → id ≢ ""
      → Remembers s.router id until
      → holds id ((step s (guards h ctrl)).passed g) ≡ holds id (s.passed g)
  unfolding step
  guards-holds s h ctrl g id until some_id r = elim (Option-cases (s.passed h)) [
    | inr (m, busy) ↦ rw (busy, step) refl
    | inl free ↦ elim (Bool-cases (passes_guards s.router ctrl)) [
      | inr e ↦ rw (free, step, e) refl
      | inl e ↦
          let other : str_eq ctrl.msg_id id ≡ false =
            ground (arith, e, passes_guards-Remembers s.router ctrl id until some_id r) in
          rw (free, step, e) (ground (arith, other, free, ==_iff g h))
    ]
  ]

  mark_own : (s : Readers P) (h now g : ℕ) → (h == g) ≡ true → (step s (mark h now)).passed g ≡ none
  unfolding step
  mark_own s h now g own =
      let is_g : h ≡ g = (==_iff h g).0 own in
      rw is_g (elim (Option-cases (s.passed g)) [
        | inl free ↦ rw (free, step) free
        | inr (m, busy) ↦ rw (busy, step) (ground (arith, ==_iff g g))
      ])

  mark_other :
      (s : Readers P) (h now g : ℕ) → (h == g) ≡ false → (step s (mark h now)).passed g ≡ s.passed g
  unfolding step
  mark_other s h now g other = elim (Option-cases (s.passed h)) [
    | inl free ↦ rw (free, step) refl
    | inr (m, busy) ↦ rw (busy, step) (ground (arith, ==_iff g h, ==_iff h g, other))
  ]

  mark_marks :
      (s : Readers P) (g now : ℕ) (id : String) (until : ℕ)
      → until ≤ now + deduplication_window
      → id ≢ ""
      → holds id (s.passed g) ≡ true
      → Remembers (step s (mark g now)).router id until
  unfolding step
  mark_marks s g now id until h some_id held = elim (Option-cases (s.passed g)) [
    | inl free ↦ absurd (ground (arith, held, free))
    | inr (m, busy) ↦
        let same : str_eq m.msg_id id ≡ true = rw busy at held in
        rw (busy, step) (mark_passed-marks s.router m id now until h some_id same)
  ]

  marks_own :
      (s : Readers P) (h now g : ℕ) (id : String) (start : ℕ)
      → start ≤ now
      → id ≢ ""
      → (h == g && holds id (s.passed g)) ≡ true
      → Remembers (step s (mark h now)).router id (start + deduplication_window)
  marks_own s h now g id start after some_id marked =
      let own : (h == g) ≡ true = ground (arith, marked) in
      let held : holds id (s.passed g) ≡ true = ground (arith, marked) in
      let is_g : h ≡ g = (==_iff h g).0 own in
      rw is_g (mark_marks s g now id (start + deduplication_window) (omega arith) some_id held)

  -- While the id is remembered, a goroutine processes a message with it only if it holds one.
  processed_by-Remembers :
      (g : ℕ) (id : String) (start : ℕ) (s : Readers P) (es : List (Event P))
      → id ≢ ""
      → Remembers s.router id (start + deduplication_window)
      → All (IsWithin start) es
      → processed_by g id s es ≤ (if holds id (s.passed g) then 1 else 0)
  unfolding processed_by step
  processed_by-Remembers g id start s [] some_id r w = ground arith
  processed_by-Remembers g id start s (guards h ctrl ∷ es) some_id r w =
      let next = step s (guards h ctrl) in
      let same = guards-holds s h ctrl g id (start + deduplication_window) some_id r in
      let rest =
        processed_by-Remembers g id start next es some_id
          (step-Remembers s (guards h ctrl) id start tt r) w.1 in
      rw same at rest
  processed_by-Remembers g id start s (mark h now ∷ es) some_id r w =
      let next = step s (mark h now) in
      let rest =
        processed_by-Remembers g id start next es some_id
          (step-Remembers s (mark h now) id start w.0 r) w.1 in
      elim (Bool-cases (h == g)) [
        | inl own ↦
            let none_left : processed_by g id next es ≤ 0 = rw (mark_own s h now g own) at rest in
            rw own (ground (arith, none_left))
        | inr other ↦
            let same_left : processed_by g id next es ≤ (if holds id (s.passed g) then 1 else 0) =
              rw (mark_other s h now g other) at rest in
            rw other same_left
      ]
  processed_by-Remembers g id start s (send ctrl new_id now ∷ es) some_id r w =
      processed_by-Remembers g id start (step s (send ctrl new_id now)) es some_id
        (step-Remembers s (send ctrl new_id now) id start w.0 r) w.1
  processed_by-Remembers g id start s (tick now ∷ es) some_id r w =
      processed_by-Remembers g id start (step s (tick now)) es some_id
        (step-Remembers s (tick now) id start w.0 r) w.1

  -- A goroutine that marks a message with the id remembers it.
  processed_by-marks :
      (g : ℕ) (id : String) (start : ℕ) (s : Readers P) (es : List (Event P))
      → id ≢ ""
      → All (IsWithin start) es
      → 1 ≤ processed_by g id s es
      → Remembers (run s es).router id (start + deduplication_window)
  unfolding processed_by run
  processed_by-marks g id start s [] some_id w n = absurd (omega (arith, n))
  processed_by-marks g id start s (guards h ctrl ∷ es) some_id w n =
      processed_by-marks g id start (step s (guards h ctrl)) es some_id w.1 n
  processed_by-marks g id start s (mark h now ∷ es) some_id w n =
      let next = step s (mark h now) in
      elim (Bool-cases (h == g && holds id (s.passed g))) [
        | inl now_marked ↦
            run-Remembers next es id start w.1
              (marks_own s h now g id start (omega arith) some_id now_marked)
        | inr not_now ↦ processed_by-marks g id start next es some_id w.1 (rw not_now at n)
      ]
  processed_by-marks g id start s (send ctrl new_id now ∷ es) some_id w n =
      processed_by-marks g id start (step s (send ctrl new_id now)) es some_id w.1 n
  processed_by-marks g id start s (tick now ∷ es) some_id w n =
      processed_by-marks g id start (step s (tick now)) es some_id w.1 n

  processed_by_once :
      (g : ℕ) (id : String) (start : ℕ) (s : Readers P) (es : List (Event P))
      → id ≢ ""
      → All (IsWithin start) es
      → processed_by g id s es ≤ 1
  unfolding processed_by
  processed_by_once g id start s [] some_id w = omega arith
  processed_by_once g id start s (guards h ctrl ∷ es) some_id w =
      processed_by_once g id start (step s (guards h ctrl)) es some_id w.1
  processed_by_once g id start s (mark h now ∷ es) some_id w =
      let next = step s (mark h now) in
      elim (Bool-cases (h == g && holds id (s.passed g))) [
        | inl now_marked ↦
            let rest =
              processed_by-Remembers g id start next es some_id
                (marks_own s h now g id start (omega arith) some_id now_marked) w.1 in
            let own : (h == g) ≡ true = ground (arith, now_marked) in
            let none_left : processed_by g id next es ≤ 0 = rw (mark_own s h now g own) at rest in
            rw now_marked (omega (arith, none_left))
        | inr not_now ↦ rw not_now (processed_by_once g id start next es some_id w.1)
      ]
  processed_by_once g id start s (send ctrl new_id now ∷ es) some_id w =
      processed_by_once g id start (step s (send ctrl new_id now)) es some_id w.1
  processed_by_once g id start s (tick now ∷ es) some_id w =
      processed_by_once g id start (step s (tick now)) es some_id w.1

  -- However the goroutines that read from the peers, the hub's own messages and the cleanups take
  -- turns, also between the guards of `ShouldProcess` and its mark: of the messages with an id, not
  -- the empty one, each goroutine processes at most one in 30 seconds; and after one goroutine has
  -- processed one, another processes none in the rest of the 30 seconds, or one if it had already
  -- passed the guards with it.
  pub processed_once :
      (id : String) (start : ℕ) (s : Readers P) (before after : List (Event P)) (f g : ℕ)
      → id ≢ ""
      → All (IsWithin start) before
      → All (IsWithin start) after
      → 1 ≤ processed_by f id s before
      → (processed_by f id s before ≤ 1)
        × (processed_by g id (run s before) after
            ≤ (if holds id ((run s before).passed g) then 1 else 0))
  processed_once id start s before after f g some_id w w' n = (
    processed_by_once f id start s before some_id w,
    processed_by-Remembers g id start (run s before) after some_id
        (processed_by-marks f id start s before some_id w n) w',
  )
