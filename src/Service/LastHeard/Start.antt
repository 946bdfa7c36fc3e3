-- ===== src/Service/LastHeard/Start.antt =====
-- internal/service/last_heard.go: what the start of a call makes of the buffer.
use freetetra.Prelude.{
  ℕ, suc, ◌+◌, ◌-◌, ◌≡◌, ◌≤◌, ◌<◌, refl, ap, sym, ◌∙◌, arith, Bool, true, false, ◌||◌, List, [],
  ◌∷◌, ◌++◌, none, some, if◌then◌else◌, length, drop, take, take_all, length-drop, length-reverse,
  reverse-drop, drop-append_le, Bool-cases, Option-cases, inl, inr, Outcome, ok, ltb, slice_from,
  slice_from_ok, length-append,
}
use freetetra.Prelude.Maps.{lookup, insert, text_key, lookup-insert}
use freetetra.Service.LastHeard.{
  LastHeardEntry, LastHeardBuffer, index_from, start, snapshot, new_entry, is_service_issi,
  is_ignored_gssi,
}
use freetetra.Service.LastHeard.Positions.{
  position, IsDistinct, position-append, append-IsDistinct, drop-IsDistinct, position-drop,
  lookup-index_from,
}
use mathlib.Core.List.{reverse, reverse-append, reverse-cons}
use Prim.Native.String.{String}
use text.Mathlib.Text.{◌==◌ as str_eq}
use text.Mathlib.TextEquality.{eq_iff}

-- Whether a call stands in the list.
unfoldable pub is_heard : String → List LastHeardEntry → Bool
is_heard id [] = false
is_heard id (e ∷ es) = str_eq e.call_id id || is_heard id es

is_heard-append :
    (id : String) (es fs : List LastHeardEntry)
    → is_heard id (es ++ fs) ≡ (is_heard id es || is_heard id fs)
unfolding is_heard
is_heard-append id [] fs = refl
is_heard-append id (e ∷ es) fs = ground (arith, is_heard-append id es fs)

is_heard-reverse :
    (id : String) (es : List LastHeardEntry)
    → is_heard id (reverse es) ≡ (elim (position id es) [ none ↦ false | some _ ↦ true ])
unfolding is_heard position
is_heard-reverse id [] = refl
is_heard-reverse id (e ∷ es) =
    rw (reverse-cons e es, is_heard-append id (reverse es) (e ∷ []))
      (ground (arith, is_heard-reverse id es))

-- The same list without an index, newest first: what a call leaves of it.
unfoldable pub heard_start :
    ℕ → List LastHeardEntry → String → ℕ → ℕ → String → ℕ → List LastHeardEntry
unfolding is_heard is_service_issi is_ignored_gssi
heard_start max_len es id source_issi dest_gssi origin now =
    if is_service_issi source_issi || is_ignored_gssi dest_gssi
    then es
    else if is_heard id es
    then es
    else take max_len (new_entry id source_issi dest_gssi origin now ∷ es)

-- The index says where each call stands, no call stands twice and the list keeps its length.
abbrev pub IsIndexed : LastHeardBuffer → Type 0
IsIndexed b =
    ((id : String) → lookup id b.by_id ≡ position id b.entries)
    × IsDistinct b.entries
    × (length b.entries ≤ b.max_len)

-- The index with the new entry at the end.
new_index :
    (es : List LastHeardEntry) (e : LastHeardEntry) (m : List (String × ℕ)) (id : String)
    → position e.call_id es ≡ none
    → (str_eq e.call_id id ≡ false → lookup id m ≡ position id es)
    → lookup id (insert e.call_id (length (es ++ (e ∷ [])) - 1) m) ≡ position id (es ++ (e ∷ []))
new_index es e m id fresh others =
    let last : length (es ++ (e ∷ [])) - 1 ≡ length es = omega (arith, length-append es (e ∷ [])) in
    let stored = lookup-insert e.call_id id (length es) m in
    rw last (elim (Bool-cases (str_eq e.call_id id)) [
      | inl this ↦
          let missing : position id es ≡ none = ground (arith, fresh, this, eq_iff e.call_id id) in
          ground (arith, this, stored, position-append id es e, missing)
      | inr other ↦ ground (arith, other, stored, position-append id es e, others other)
    ])

-- The buffer with a new entry behind those that it keeps.
abbrev with_entry :
    LastHeardBuffer → LastHeardEntry → List LastHeardEntry → List (String × ℕ) → LastHeardBuffer
with_entry b e es m = record b {
  entries = es ++ (e ∷ []);
  by_id = insert e.call_id (length (es ++ (e ∷ [])) - 1) m;
}

with_entry-IsIndexed :
    (b : LastHeardBuffer) (e : LastHeardEntry) (es : List LastHeardEntry) (m : List (String × ℕ))
    → position e.call_id es ≡ none
    → IsDistinct es
    → length es < b.max_len
    → ((id : String) → str_eq e.call_id id ≡ false → lookup id m ≡ position id es)
    → IsIndexed (with_entry b e es m)
with_entry-IsIndexed b e es m fresh distinct short others = (
  λ id. new_index es e m id fresh (others id),
  append-IsDistinct es e distinct fresh,
  omega (arith, length-append es (e ∷ []), short),
)

rev_kept :
    (b : LastHeardBuffer) (e : LastHeardEntry) (n : ℕ)
    → n ≡ length (b.entries ++ (e ∷ [])) - b.max_len
    → 0 < b.max_len
    → b.max_len < length (b.entries ++ (e ∷ []))
    → reverse (drop n b.entries ++ (e ∷ [])) ≡ take b.max_len (e ∷ reverse b.entries)
rev_kept b e n is_n positive over =
    let size : length (b.entries ++ (e ∷ [])) ≡ length b.entries + 1 =
      length-append b.entries (e ∷ []) in
    let rest : suc (length b.entries - n) ≡ b.max_len = omega (arith, is_n, size, positive, over) in
    reverse-append (drop n b.entries) (e ∷ [])
    ∙ ap (λ r. e ∷ r) (reverse-drop n b.entries)
    ∙ ap (λ k. take k (e ∷ reverse b.entries)) rest

-- The entries that a full buffer keeps, and its new index without the new entry.
kept_lem :
    (b : LastHeardBuffer) (e : LastHeardEntry) (n : ℕ)
    → n ≡ length (b.entries ++ (e ∷ [])) - b.max_len
    → position e.call_id b.entries ≡ none
    → IsIndexed b
    → 0 < b.max_len
    → b.max_len < length (b.entries ++ (e ∷ []))
    → (slice_from {E = String} n (b.entries ++ (e ∷ [])) ≡ ok (drop n b.entries ++ (e ∷ [])))
      × IsIndexed
          (with_entry b e (drop n b.entries) (index_from 0 (drop n b.entries ++ (e ∷ [])) []))
      × (reverse (drop n b.entries ++ (e ∷ [])) ≡ take b.max_len (e ∷ reverse b.entries))
unfolding lookup
kept_lem b e n is_n fresh (index, distinct, short) positive over =
    let size : length (b.entries ++ (e ∷ [])) ≡ length b.entries + 1 =
      length-append b.entries (e ∷ []) in
    let few : n ≤ length b.entries = omega (arith, is_n, size) in
    let es = drop n b.entries in
    let split = drop-append_le n b.entries (e ∷ []) few in
    let fresh' = position-drop n e.call_id b.entries fresh in
    let distinct' = drop-IsDistinct n b.entries distinct in
    let rebuilt = λ (id : String).
      lookup-index_from id 0 (es ++ (e ∷ [])) [] (append-IsDistinct es e distinct' fresh') in
    (
      slice_from_ok n (b.entries ++ (e ∷ [])) (omega (arith, few, size)) ∙ ap ok split,
      with_entry-IsIndexed b e es (index_from 0 (es ++ (e ∷ [])) []) fresh' distinct'
          (omega (arith, is_n, size, length-drop n b.entries, over, positive))
          (λ id other. ground (arith, rebuilt id, other, position-append id es e)),
      rev_kept b e n is_n positive over,
    )

-- What an operation gives: no panic, a buffer that is indexed, and this list.
abbrev pub Becomes : ℕ → Outcome String LastHeardBuffer → List LastHeardEntry → Type 0
Becomes max_len result es =
    (b : LastHeardBuffer) × (result ≡ ok b)
    × IsIndexed b
    × (b.max_len ≡ max_len)
    × (snapshot b ≡ es)

pub start_lem :
    (b : LastHeardBuffer) (id : String) (source_issi dest_gssi : ℕ) (origin : String) (now : ℕ)
    → 0 < b.max_len
    → IsIndexed b
    → Becomes b.max_len
        (start b id source_issi dest_gssi origin now)
        (heard_start b.max_len (snapshot b) id source_issi dest_gssi origin now)
unfolding start heard_start snapshot
start_lem b id source_issi dest_gssi origin now positive (index, distinct, short) =
    let e = new_entry id source_issi dest_gssi origin now in
    let known = is_heard-reverse id b.entries in
    elim (Bool-cases (is_service_issi source_issi || is_ignored_gssi dest_gssi)) [
      | inl ignored ↦ (
        b,
        rw (ignored, start) refl,
        (index, distinct, short),
        refl,
        rw (ignored, heard_start) refl,
      )
      | inr heard ↦ elim (Option-cases (lookup id b.by_id)) [
        | inr (i, there) ↦
            let stands : is_heard id (reverse b.entries) ≡ true =
              ground (arith, known, index id, there) in
            (
              b,
              rw (heard, start, there) refl,
              (index, distinct, short),
              refl,
              rw (heard, heard_start, stands) refl,
            )
        | inl missing ↦
            let fresh : position id b.entries ≡ none = ground (arith, index id, missing) in
            let absent : is_heard id (reverse b.entries) ≡ false = ground (arith, known, fresh) in
            let size = length-append b.entries (e ∷ []) in
            elim (Bool-cases (ltb b.max_len (length (b.entries ++ (e ∷ []))))) [
              | inl over ↦
                  let n = length (b.entries ++ (e ∷ [])) - b.max_len in
                  let (kept, indexed, view) =
                    kept_lem b e n refl fresh (index, distinct, short) positive
                      (ground (arith, over)) in
                  (
                    with_entry b e (drop n b.entries)
                        (index_from 0 (drop n b.entries ++ (e ∷ [])) []),
                    rw (heard, start, missing, over, kept) refl,
                    indexed,
                    refl,
                    rw (heard, heard_start, absent) view,
                  )
              | inr fits ↦
                  let short' : length b.entries < b.max_len = ground (arith, size, fits) in
                  (
                    with_entry b e b.entries b.by_id,
                    rw (heard, start, missing, fits) refl,
                    with_entry-IsIndexed b e b.entries b.by_id fresh distinct short'
                        (λ other _. index other),
                    refl,
                    rw (heard, heard_start, absent)
                        (reverse-append b.entries (e ∷ [])
                          ∙ sym (
                              take_all b.max_len (e ∷ reverse b.entries)
                                (omega (arith, length-reverse b.entries, short')))),
                  )
            ]
      ]
    ]
