-- ===== src/Federation/Mesh/Travel.antt =====
-- internal/federation/mesh.go: a message that is relayed from server to server. Each server takes the
-- message with `ShouldProcess` and passes it on with `PrepareRelay` if `ShouldRelay` allows it.
use freetetra.Prelude.{
  ℕ, ◌+◌, ◌<◌, ◌≡◌, refl, ◌∙◌, arith, true, false, ◌&&◌, ◌||◌, List, [], ◌∷◌, ◌++◌, Option, none,
  some, if◌then◌else◌, Bool-cases, inl, inr, length, length-append,
}
use freetetra.Federation.Mesh.{
  Control, MeshRouter, path_has, should_process, prepare_relay, should_relay,
}
use Prim.Native.String.{String}
use text.Mathlib.Text.{◌==◌ as str_eq}
use text.Mathlib.TextEquality.{eq_iff}

-- No server stands twice on the path.
abbrev pub IsLoopFree : List String → Type 0
IsLoopFree [] = Unit
IsLoopFree (hop ∷ hops) = (path_has hop hops ≡ false) × IsLoopFree hops

path_has-append :
    (name hop : String) (path : List String)
    → path_has name (path ++ (hop ∷ [])) ≡ (path_has name path || str_eq hop name)
unfolding path_has
path_has-append name hop [] = ground arith
path_has-append name hop (x ∷ path) = ground (arith, path_has-append name hop path)

append-IsLoopFree :
    (hop : String) (path : List String)
    → path_has hop path ≡ false
    → IsLoopFree path
    → IsLoopFree (path ++ (hop ∷ []))
unfolding path_has
append-IsLoopFree hop [] h l = (refl, tt)
append-IsLoopFree hop (x ∷ path) h l = ground (
  arith,
  eq_iff hop x,
  eq_iff x hop,
  path_has-append x hop path,
  append-IsLoopFree hop path,
  l.0,
  l.1,
)

module _ {ℓ} {P : Type ℓ} where
  -- The servers that a message visits one after the other, each at its own time; `none` if one of
  -- them drops it or does not pass it on.
  unfoldable pub travel : List (MeshRouter × ℕ) → Control P → Option (Control P)
  travel [] ctrl = some ctrl
  travel ((mr, now) ∷ servers) ctrl =
      let rest = travel servers (prepare_relay mr ctrl) in
      if (should_process mr ctrl now).1 && should_relay ctrl then rest else none

  -- The facts that `ShouldProcess` and `ShouldRelay` check before a relay.
  passed_on :
      (mr : MeshRouter) (now : ℕ) (ctrl : Control P)
      → ((should_process mr ctrl now).1 && should_relay ctrl) ≡ true
      → (path_has mr.server_name ctrl.path ≡ false) × (1 < ctrl.ttl) × (ctrl.ttl < 0x8000_0000)
  unfolding should_process should_relay
  passed_on mr now ctrl h = ground arith

  prepare_relay_lem :
      (mr : MeshRouter) (ctrl : Control P)
      → 1 < ctrl.ttl
      → ctrl.ttl < 0x8000_0000
      → ((prepare_relay mr ctrl).ttl + 1 ≡ ctrl.ttl)
        × (length (prepare_relay mr ctrl).path ≡ length ctrl.path + 1)
  unfolding prepare_relay
  prepare_relay_lem mr ctrl h k =
      (omega arith, length-append ctrl.path (mr.server_name ∷ []) ∙ omega arith)

  -- A message that starts with a positive ttl and a path without loops, and is passed on by every
  -- server of a route, gains one hop and loses one of its ttl for each of them, keeps a positive
  -- ttl, and its path is still without loops. So there are fewer servers than the first ttl.
  pub travel_lem :
      (servers : List (MeshRouter × ℕ)) (ctrl : Control P) {ctrl' : Control P}
      → IsLoopFree ctrl.path
      → 0 < ctrl.ttl
      → travel servers ctrl ≡ some ctrl'
      → IsLoopFree ctrl'.path
        × (length ctrl'.path ≡ length ctrl.path + length servers)
        × (ctrl'.ttl + length servers ≡ ctrl.ttl)
        × (0 < ctrl'.ttl)
  unfolding travel
  travel_lem [] ctrl l pos h = ground arith
  travel_lem ((mr, now) ∷ servers) ctrl {ctrl'} l pos h =
      elim (Bool-cases ((should_process mr ctrl now).1 && should_relay ctrl)) [
        | inr stop ↦ absurd (ground (arith, h, stop))
        | inl go ↦
            let (fresh, low, high) = passed_on mr now ctrl go in
            let rest : travel servers (prepare_relay mr ctrl) ≡ some ctrl' =
              ground (arith, h, go) in
            let relayed = prepare_relay_lem mr ctrl low high in
            let (loop_free, len, ttl, left) =
              travel_lem servers (prepare_relay mr ctrl)
                (unfold prepare_relay in append-IsLoopFree mr.server_name ctrl.path fresh l)
                (omega (arith, relayed)) rest in
            (loop_free, omega (arith, len, relayed), omega (arith, ttl, relayed), left)
      ]
