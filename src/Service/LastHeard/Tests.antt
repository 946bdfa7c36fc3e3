-- ===== src/Service/LastHeard/Tests.antt =====
-- Tests of internal/service/last_heard.go.
use freetetra.Prelude.{◌≤◌, ◌≡◌, refl, arith, List, [], ◌∷◌, map, length, ok}
use freetetra.Service.LastHeard.{
  LastHeardBuffer, new_last_heard_buffer, snapshot, is_service_issi, is_ignored_gssi,
}
use freetetra.Service.LastHeard.Start.{heard_start, is_heard}
use freetetra.Service.LastHeard.Refine.{Event, starts, ends, run, heard, run_lem}

-- Three calls at a buffer of two, of which the service's own is not heard, and a fourth.
abbrev events : List Event
events =
    starts "a" 1001 91 "subscriber" 0
    ∷ starts "bot" 900001 91 "injected" 1
    ∷ starts "b" 1002 91 "peer" 2
    ∷ ends "a" 5_000_000
    ∷ starts "c" 1003 92 "peer" 6_000_000
    ∷ ends "b" 9_000_000
    ∷ []

newest_first : map (λ e. e.call_id) (heard 2 [] events) ≡ "c" ∷ "b" ∷ []
unfolding heard heard_start is_heard is_service_issi is_ignored_gssi
newest_first = refl

run_lem_example :
    (b : LastHeardBuffer) × (run (new_last_heard_buffer 2) events ≡ ok b)
    × (length b.entries ≤ 2)
    × (snapshot b ≡ heard 2 [] events)
run_lem_example = run_lem 2 events (omega arith)
