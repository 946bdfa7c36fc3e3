-- ===== src/Federation/Mesh/Remember.antt =====
-- internal/federation/mesh.go: how long the router remembers an id, and what it refuses meanwhile.
use freetetra.Prelude.{
  ℕ, ◌+◌, ◌≤◌, ◌≡◌, refl, ◌⊎◌, inl, inr, ◌≢◌, arith, true, false, List, [], ◌∷◌, some, Bool-cases,
}
use freetetra.Prelude.Maps.{lookup, text_key, lookup-insert}
use freetetra.Federation.Mesh.{
  passes_guards, mark_passed, Control, MeshRouter, deduplication_window, keep_recent, mark_seen,
  already_seen, should_process,
}
use Prim.Native.String.{String}
use text.Mathlib.Text.{◌==◌ as str_eq}
use text.Mathlib.TextEquality.{eq_iff}

-- The id is recorded with a time that a cleanup before `until` keeps.
abbrev pub Remembers : MeshRouter → String → ℕ → Type 0
Remembers mr id until =
    (ts : ℕ) × (lookup id mr.seen ≡ some ts) × (until ≤ ts + deduplication_window)

pub lookup-keep_recent :
    (now : ℕ) (id : String) (ts : ℕ) (m : List (String × ℕ))
    → now ≤ ts + deduplication_window
    → lookup id m ≡ some ts
    → lookup id (keep_recent now m) ≡ some ts
unfolding lookup keep_recent
lookup-keep_recent now id ts [] h e = cc
lookup-keep_recent now id ts ((i, t) ∷ m) h e =
    ground (arith, eq_iff i id, lookup-keep_recent now id ts m h)

pub mark_seen-Remembers :
    (mr : MeshRouter) (id other : String) (now until : ℕ)
    → until ≤ now + deduplication_window
    → Remembers mr id until
    → Remembers (mark_seen mr other now) id until
unfolding mark_seen
mark_seen-Remembers mr id other now until h (ts, e, k) = elim (Bool-cases (str_eq other id)) [
  | inl same ↦ (now, rw (lookup-insert other id now mr.seen, same), h)
  | inr differ ↦ (ts, rw (lookup-insert other id now mr.seen, differ) e, k)
]

module _ {P : Type 0} where
  -- The three outcomes of `ShouldProcess`.
  pub should_process-cases :
      (mr : MeshRouter) (ctrl : Control P) (now : ℕ)
      → (should_process mr ctrl now ≡ (mr, false))
        ⊎ ((should_process mr ctrl now ≡ (mr, true)) × (ctrl.msg_id ≡ ""))
        ⊎ ((should_process mr ctrl now ≡ (mark_seen mr ctrl.msg_id now, true))
            × (already_seen mr ctrl.msg_id ≡ false)
            × (str_eq ctrl.msg_id "" ≡ false))
  unfolding should_process passes_guards mark_passed
  should_process-cases mr ctrl now = ground (arith, eq_iff ctrl.msg_id "")

  -- A message that passes the guards has an id that is not remembered.
  pub passes_guards-Remembers :
      (mr : MeshRouter) (ctrl : Control P) (id : String) (until : ℕ)
      → id ≢ ""
      → Remembers mr id until
      → str_eq ctrl.msg_id id ≡ true
      → passes_guards mr ctrl ≡ false
  unfolding passes_guards already_seen
  passes_guards-Remembers mr ctrl id until some_id (ts, e, k) same =
      let is_id : ctrl.msg_id ≡ id = (eq_iff ctrl.msg_id id).0 same in
      let seen : lookup ctrl.msg_id mr.seen ≡ some ts = rw is_id e in
      ground (arith, seen, eq_iff ctrl.msg_id "", is_id, some_id)

  pub mark_passed-Remembers :
      (mr : MeshRouter) (ctrl : Control P) (id : String) (now until : ℕ)
      → until ≤ now + deduplication_window
      → Remembers mr id until
      → Remembers (mark_passed mr ctrl now) id until
  unfolding mark_passed
  mark_passed-Remembers mr ctrl id now until h r = elim (Bool-cases (str_eq ctrl.msg_id "")) [
    | inl e ↦ rw e r
    | inr e ↦ rw e (mark_seen-Remembers mr id ctrl.msg_id now until h r)
  ]

  pub mark_passed-marks :
      (mr : MeshRouter) (ctrl : Control P) (id : String) (now until : ℕ)
      → until ≤ now + deduplication_window
      → id ≢ ""
      → str_eq ctrl.msg_id id ≡ true
      → Remembers (mark_passed mr ctrl now) id until
  unfolding mark_passed mark_seen
  mark_passed-marks mr ctrl id now until h some_id same =
      let is_id : ctrl.msg_id ≡ id = (eq_iff ctrl.msg_id id).0 same in
      let has_id : str_eq ctrl.msg_id "" ≡ false =
        ground (arith, eq_iff ctrl.msg_id "", is_id, some_id) in
      (now, rw has_id (rw (lookup-insert ctrl.msg_id id now mr.seen, same) refl), h)
