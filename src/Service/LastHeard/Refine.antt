-- ===== src/Service/LastHeard/Refine.antt =====
-- internal/service/last_heard.go: the buffer with its index is a list of the last calls.
use freetetra.Prelude.{
  ℕ, suc, ◌≡◌, ◌≤◌, ◌<◌, refl, ap, sym, ◌∙◌, arith, List, [], ◌∷◌, ◌++◌, none, some, if◌then◌else◌,
  length, Option-cases, inl, inr, Outcome, ok, ◌>>=◌,
}
use freetetra.Prelude.Maps.{lookup, text_key}
use freetetra.Service.LastHeard.{
  LastHeardEntry, LastHeardBuffer, new_last_heard_buffer, ended, start, end, snapshot,
}
use freetetra.Service.LastHeard.Positions.{
  position, IsDistinct, end_in, end_in-missing, end_at_lem, position-end_in, end_in-IsDistinct,
}
use freetetra.Service.LastHeard.Start.{heard_start, IsIndexed, Becomes, start_lem}
use mathlib.Core.List.{reverse, reverse-cons}
use Prim.Native.String.{String}
use text.Mathlib.Text.{◌==◌ as str_eq}

length-end_in :
    (id : String) (now : ℕ) (es : List LastHeardEntry) → length (end_in id now es) ≡ length es
length-end_in id now [] = refl
length-end_in id now (e ∷ es) = ap suc (length-end_in id now es)

end_in-append :
    (id : String) (now : ℕ) (es fs : List LastHeardEntry)
    → end_in id now (es ++ fs) ≡ end_in id now es ++ end_in id now fs
end_in-append id now [] fs = refl
end_in-append id now (e ∷ es) fs =
    ap (λ r. (if str_eq e.call_id id then ended now e else e) ∷ r) (end_in-append id now es fs)

reverse-end_in :
    (id : String) (now : ℕ) (es : List LastHeardEntry)
    → reverse (end_in id now es) ≡ end_in id now (reverse es)
reverse-end_in id now [] = refl
reverse-end_in id now (e ∷ es) =
    rw (reverse-cons e es, end_in-append id now (reverse es) (e ∷ []), ← reverse-end_in id now es)
      (reverse-cons (if str_eq e.call_id id then ended now e else e) (end_in id now es))

end_lem :
    (b : LastHeardBuffer) (id : String) (now : ℕ)
    → IsIndexed b
    → Becomes b.max_len (end b id now) (end_in id now (snapshot b))
unfolding end snapshot
end_lem b id now (index, distinct, short) = elim (Option-cases (lookup id b.by_id)) [
  | inl missing ↦
      let nowhere : position id b.entries ≡ none = ground (arith, index id, missing) in
      (
        b,
        rw (missing, end) refl,
        (index, distinct, short),
        refl,
        sym (ap reverse (end_in-missing id now b.entries nowhere))
            ∙ reverse-end_in id now b.entries,
      )
  | inr (i, there) ↦
      let stands : position id b.entries ≡ some i = ground (arith, index id, there) in
      (
        record b { entries = end_in id now b.entries },
        rw (there, end, end_at_lem id now i b.entries distinct stands) refl,
        (
          λ other. index other ∙ sym (position-end_in id other now b.entries),
          end_in-IsDistinct id now b.entries distinct,
          rw (length-end_in id now b.entries) short,
        ),
        refl,
        reverse-end_in id now b.entries,
      )
]

-- The calls that the service reports.
pub data Event : Type 0 where
  starts : String → ℕ → ℕ → String → ℕ → Event
  ends : String → ℕ → Event

unfoldable pub step : LastHeardBuffer → Event → Outcome String LastHeardBuffer
step b (starts id source_issi dest_gssi origin now) = start b id source_issi dest_gssi origin now
step b (ends id now) = end b id now

unfoldable pub run : LastHeardBuffer → List Event → Outcome String LastHeardBuffer
run b [] = ok b
run b (e ∷ es) = step b e >>= λ b'. run b' es

-- The reference: the last calls as one list, newest first, of which an operation keeps the first
-- `max_len`.
unfoldable pub heard : ℕ → List LastHeardEntry → List Event → List LastHeardEntry
unfolding heard_start
heard max_len es [] = es
heard max_len es (starts id source_issi dest_gssi origin now ∷ events) =
    heard max_len (heard_start max_len es id source_issi dest_gssi origin now) events
heard max_len es (ends id now ∷ events) = heard max_len (end_in id now es) events

run-IsIndexed :
    (b : LastHeardBuffer) (max_len : ℕ) (es : List LastHeardEntry) (events : List Event)
    → 0 < max_len
    → IsIndexed b
    → b.max_len ≡ max_len
    → snapshot b ≡ es
    → Becomes max_len (run b events) (heard max_len es events)
unfolding run heard step
run-IsIndexed b max_len es [] positive v m s = (b, refl, v, m, s)
run-IsIndexed b max_len es (starts id source_issi dest_gssi origin now ∷ events) positive v m s =
    let first : Becomes max_len (start b id source_issi dest_gssi origin now)
        (heard_start max_len es id source_issi dest_gssi origin now) =
      rw (← m, ← s) (start_lem b id source_issi dest_gssi origin now (rw m positive) v) in
    let (b1, e1, v1, m1, s1) = first in
    let rest = run-IsIndexed b1 max_len _ events positive v1 m1 s1 in rw e1 rest
run-IsIndexed b max_len es (ends id now ∷ events) positive v m s =
    let first : Becomes max_len (end b id now) (end_in id now es) =
      rw (← m, ← s) (end_lem b id now v) in
    let (b1, e1, v1, m1, s1) = first in
    rw e1 (run-IsIndexed b1 max_len (end_in id now es) events positive v1 m1 s1)

-- If the buffer keeps at least one entry: after any history of calls a new buffer has read and written
-- nothing out of range, has at most as many entries as it keeps, and shows the list of the reference.
pub run_lem :
    (max_len : ℕ) (events : List Event)
    → 0 < max_len
    → (b : LastHeardBuffer) × (run (new_last_heard_buffer max_len) events ≡ ok b)
      × (length b.entries ≤ max_len)
      × (snapshot b ≡ heard max_len [] events)
unfolding new_last_heard_buffer
run_lem max_len events positive =
    let (b, e, (_, _, short), m, s) =
      run-IsIndexed (new_last_heard_buffer max_len) max_len [] events positive
        (unfold lookup position IsDistinct in (λ id. refl, tt, omega arith)) refl
        (unfold snapshot in refl) in
    (b, e, rw (← m) short, s)
