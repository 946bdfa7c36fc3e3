-- ===== src/Federation/Mesh/Readers.antt =====
-- internal/federation/mesh.go: `ShouldProcess` as the goroutines that read from the peers run it, each
-- with its guards and its mark as two steps.
use freetetra.Prelude.{
  Bool, none, Option, ◌==◌, ℕ, ◌+◌, ◌≤◌, false, ◌&&◌, List, [], ◌∷◌, some, if◌then◌else◌,
}
use freetetra.Prelude.Maps.{text_key}
use freetetra.Federation.Mesh.{
  passes_guards, mark_passed, Control, MeshRouter, deduplication_window, cleanup, prepare_outgoing,
}
use Prim.Native.String.{String}
use text.Mathlib.Text.{◌==◌ as str_eq}

-- The router and the goroutines that read from the peers: the message that one has let through the
-- guards and not yet marked.
pub record Readers (P : Type 0) : Type 0 where
  pub router : MeshRouter
  pub passed : ℕ → Option (Control P)

-- A step of a goroutine `g`: the guards for a message, or the mark of the one that passed; or a
-- message of the hub's own, or a cleanup.
pub data Event (P : Type 0) : Type 0 where
  guards : ℕ → Control P → Event P
  mark : ℕ → ℕ → Event P
  send : Control P → String → ℕ → Event P
  tick : ℕ → Event P

module _ {P : Type 0} where
  abbrev pub set_passed : (ℕ → Option (Control P)) → ℕ → Option (Control P) → ℕ → Option (Control P)
  set_passed passed g m j = if j == g then m else passed j

  -- A goroutine takes no other message before it has marked the one that passed.
  unfoldable pub step : Readers P → Event P → Readers P
  step s (guards g ctrl) = elim (s.passed g) [
    | some _ ↦ s
    | none ↦
        if passes_guards s.router ctrl
        then record s { passed = set_passed s.passed g (some ctrl) }
        else s
  ]
  step s (mark g now) = elim (s.passed g) [
    | none ↦ s
    | some ctrl ↦ record {
      router = mark_passed s.router ctrl now;
      passed = set_passed s.passed g none;
    }
  ]
  step s (send ctrl new_id now) = record s {
    router = (prepare_outgoing s.router ctrl new_id now).0;
  }
  step s (tick now) = record s { router = cleanup s.router now }

  unfoldable pub run : Readers P → List (Event P) → Readers P
  run s [] = s
  run s (e ∷ es) = run (step s e) es

  -- The goroutine stands between the guards and the mark with a message of this id.
  abbrev pub holds : String → Option (Control P) → Bool
  holds id none = false
  holds id (some ctrl) = str_eq ctrl.msg_id id

  -- How many messages with this id `ShouldProcess` lets the goroutine process.
  unfoldable pub processed_by : ℕ → String → Readers P → List (Event P) → ℕ
  processed_by g id s [] = 0
  processed_by g id s (mark h now ∷ es) =
      let rest = processed_by g id (step s (mark h now)) es in
      if h == g && holds id (s.passed g) then rest + 1 else rest
  processed_by g id s (guards h ctrl ∷ es) = processed_by g id (step s (guards h ctrl)) es
  processed_by g id s (send ctrl new_id now ∷ es) =
      processed_by g id (step s (send ctrl new_id now)) es
  processed_by g id s (tick now ∷ es) = processed_by g id (step s (tick now)) es

  -- The event falls into the window that begins at `start`, if it reads the clock.
  abbrev pub IsWithin : ℕ → Event P → Type 0
  IsWithin start (guards _ _) = Unit
  IsWithin start (mark _ t) = (start ≤ t) × (t ≤ start + deduplication_window)
  IsWithin start (send _ _ t) = (start ≤ t) × (t ≤ start + deduplication_window)
  IsWithin start (tick t) = (start ≤ t) × (t ≤ start + deduplication_window)
