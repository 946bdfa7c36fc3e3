-- ===== src/Federation/Mesh/Tests.antt =====
-- internal/federation/mesh.go: the theorems at concrete messages.
use freetetra.Prelude.{
  none, if◌then◌else◌, ℕ, ◌+◌, ◌≤◌, ◌<◌, ◌≡◌, refl, ◌≢◌, arith, List, [], ◌∷◌, some, length,
}
use freetetra.Prelude.Maps.{lookup, insert, text_key}
use freetetra.Federation.Mesh.{
  passes_guards, mark_passed, already_seen, mark_seen, Control, MeshRouter, cleanup, keep_recent,
  path_has, should_process, prepare_relay, should_relay,
}
use freetetra.Federation.Mesh.Readers.{
  Readers, Event, guards, mark, tick, step, run, holds, processed_by,
}
use freetetra.Federation.Mesh.Dedup.{processed_once}
use freetetra.Federation.Mesh.Travel.{IsLoopFree, travel, travel_lem}
use Prim.Native.String.{String}
use text.Mathlib.TextEquality.{eq_iff}

abbrev router : String → MeshRouter
router name = record { server_name = name; seen = [] }

abbrev hello : Control ℕ
hello = record {
  origin = "a";
  protocol_version = 2;
  msg_id = "m1";
  ttl = 10;
  path = "a" ∷ [];
  payload = 0;
}

abbrev idle : Readers ℕ
idle = record { router = router "b"; passed = λ _. none }

-- The goroutine 0 has processed the message; then the goroutine 1 tries it.
abbrev first : List (Event ℕ)
first = guards 0 hello ∷ mark 0 100 ∷ []

abbrev second : List (Event ℕ)
second = tick 200 ∷ guards 1 hello ∷ mark 1 300 ∷ []

only_one : (processed_by 0 "m1" idle first ≡ 1) × (processed_by 1 "m1" (run idle first) second ≡ 0)
unfolding processed_by run step passes_guards mark_passed already_seen mark_seen cleanup keep_recent
    path_has lookup insert
only_one = (refl, refl)

-- Both goroutines pass the guards before one of them marks the id: both process the message.
abbrev crossed : List (Event ℕ)
crossed = guards 0 hello ∷ guards 1 hello ∷ mark 0 100 ∷ []

both_process :
    (processed_by 0 "m1" idle crossed ≡ 1)
    × (processed_by 1 "m1" (run idle crossed) (mark 1 101 ∷ []) ≡ 1)
unfolding processed_by run step passes_guards mark_passed already_seen mark_seen path_has lookup
    insert
both_process = (refl, refl)

-- After the window the same id is processed again.
again_later :
    processed_by 1 "m1"
      (run idle first)
      (tick 40000000000 ∷ guards 1 hello ∷ mark 1 40000000001 ∷ [])
    ≡ 1
unfolding processed_by run step passes_guards mark_passed already_seen mark_seen cleanup keep_recent
    path_has lookup insert
again_later = refl

m1_not_empty : ◌≢◌ {A = String} "m1" ""
m1_not_empty = ground (arith, eq_iff "m1" "")

one_processed : 1 ≤ processed_by 0 "m1" idle first
one_processed = ground (arith, only_one)

processed_once_example :
    (processed_by 0 "m1" idle first ≤ 1)
    × (processed_by 1 "m1" (run idle first) second
        ≤ (if holds "m1" ((run idle first).passed 1) then 1 else 0))
processed_once_example =
    processed_once "m1" 100 idle first second 0 1 m1_not_empty (omega arith) (omega arith)
      one_processed

abbrev route : List (MeshRouter × ℕ)
route = (router "b", 1) ∷ (router "c", 2) ∷ []

abbrev arrived : Control ℕ
arrived = record hello { ttl = 8; path = "a" ∷ "b" ∷ "c" ∷ [] }

route_passed : travel route hello ≡ some arrived
unfolding travel should_process prepare_relay should_relay path_has lookup insert
route_passed = refl

travel_lem_example :
    IsLoopFree arrived.path
    × (length arrived.path ≡ 1 + 2)
    × (arrived.ttl + 2 ≡ 10)
    × (0 < arrived.ttl)
travel_lem_example =
    travel_lem route hello (unfold path_has in (refl, tt)) (omega arith) route_passed
