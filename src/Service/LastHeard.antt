-- ===== src/Service/LastHeard.antt =====
-- internal/service/last_heard.go: the list of the last calls. Call ids and names are texts, times are
-- nanoseconds; `now` is the clock, which does not go back.
pub mod Positions
pub mod Start
pub mod Refine
mod Tests
use freetetra.Prelude.{
  ℕ, zero, suc, ◌+◌, ◌-◌, ◌/◌, Bool, ◌&&◌, ◌||◌, List, [], ◌∷◌, ◌++◌, Option, none, some, ltb, leb,
  ◌==◌, if◌then◌else◌, length, Outcome, ok, panic, index, slice_from, ◌>>=◌, map,
}
use freetetra.Prelude.Maps.{lookup, insert, text_key}
use mathlib.Core.List.{reverse}
use Prim.Native.String.{String}
use text.Mathlib.Text.{◌==◌ as str_eq}

-- The name, which nothing sets, is left out.
pub record LastHeardEntry : Type 0 where
  pub call_id : String
  pub source_issi : ℕ
  pub callsign : String
  pub dest_gssi : ℕ
  pub started_at : ℕ
  pub ended_at : Option ℕ
  pub duration_ms : ℕ
  pub origin : String

pub record LastHeardBuffer : Type 0 where
  pub entries : List LastHeardEntry
  pub max_len : ℕ
  pub by_id : List (String × ℕ)

unfoldable pub new_last_heard_buffer : ℕ → LastHeardBuffer
new_last_heard_buffer max_len = record { entries = []; max_len = max_len; by_id = [] }

unfoldable pub is_service_issi : ℕ → Bool
is_service_issi issi = leb 900000 issi && leb issi 999999

unfoldable pub is_ignored_gssi : ℕ → Bool
is_ignored_gssi gssi = gssi == 262999

-- The new index, from a position on.
unfoldable pub index_from : ℕ → List LastHeardEntry → List (String × ℕ) → List (String × ℕ)
unfolding insert
index_from i [] m = m
index_from i (e ∷ es) m = index_from (i + 1) es (insert e.call_id i m)

-- The entry that `Start` makes.
abbrev pub new_entry : String → ℕ → ℕ → String → ℕ → LastHeardEntry
new_entry id source_issi dest_gssi origin now = record {
  call_id = id;
  source_issi = source_issi;
  callsign = "";
  dest_gssi = dest_gssi;
  started_at = now;
  ended_at = none;
  duration_ms = 0;
  origin = origin;
}

-- The index of the new entry is -1 in Go if the list keeps no entry, and 0 here; no entry stands under
-- either.
unfoldable pub start :
    LastHeardBuffer → String → ℕ → ℕ → String → ℕ → Outcome String LastHeardBuffer
unfolding lookup insert index_from slice_from is_service_issi is_ignored_gssi
start b id source_issi dest_gssi origin now =
    if is_service_issi source_issi || is_ignored_gssi dest_gssi
    then ok b
    else elim (lookup id b.by_id) [
      | some _ ↦ ok b
      | none ↦
          let entries = b.entries ++ (new_entry id source_issi dest_gssi origin now ∷ []) in
          if ltb b.max_len (length entries)
          then (slice_from (length entries - b.max_len) entries >>= λ kept. ok (record b {
            entries = kept;
            by_id = insert id (length kept - 1) (index_from 0 kept []);
          }))
          else ok (record b { entries = entries; by_id = insert id (length entries - 1) b.by_id })
    ]

-- The entry at its end.
abbrev pub ended : ℕ → LastHeardEntry → LastHeardEntry
ended now e = record e { ended_at = some now; duration_ms = (now - e.started_at) / 1_000_000 }

-- The writes to `entries[i]`.
unfoldable pub end_at : ℕ → ℕ → List LastHeardEntry → Outcome String (List LastHeardEntry)
end_at now i [] = panic
end_at now zero (e ∷ es) = ok (ended now e ∷ es)
end_at now (suc i) (e ∷ es) = end_at now i es >>= λ r. ok (e ∷ r)

unfoldable pub end : LastHeardBuffer → String → ℕ → Outcome String LastHeardBuffer
unfolding lookup end_at
end b id now = elim (lookup id b.by_id) [
  | none ↦ ok b
  | some i ↦ end_at now i b.entries >>= λ entries. ok (record b { entries = entries })
]

unfoldable pub snapshot : LastHeardBuffer → List LastHeardEntry
snapshot b = reverse b.entries

-- `lookup` is the list of radio ids.
unfoldable pub enrich_callsigns : LastHeardBuffer → (ℕ → String) → List LastHeardEntry
unfolding snapshot
enrich_callsigns b lookup_callsign =
    map
      (λ e.
        let cs = lookup_callsign e.source_issi in
        if str_eq cs "" then e else record e { callsign = cs })
      (snapshot b)
