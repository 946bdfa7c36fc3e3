-- ===== src/Service/LastHeard/Positions.antt =====
-- internal/service/last_heard.go: where the entry of a call stands.
use freetetra.Prelude.{
  ℕ, ◌+◌, ◌≡◌, refl, arith, true, false, List, [], ◌∷◌, ◌++◌, Option, none, some, if◌then◌else◌,
  length, drop, zero, suc, ok, map,
}
use freetetra.Prelude.Maps.{lookup, insert, text_key, lookup-insert}
use freetetra.Service.LastHeard.{LastHeardEntry, index_from, ended, end_at}
use Prim.Native.String.{String}
use text.Mathlib.Text.{◌==◌ as str_eq}
use text.Mathlib.TextEquality.{eq_iff}

unfoldable pub position : String → List LastHeardEntry → Option ℕ
position id [] = none
position id (e ∷ es) =
    if str_eq e.call_id id
    then some 0
    else elim (position id es) [ none ↦ none | some i ↦ some (i + 1) ]

-- No call stands in two entries.
unfoldable pub IsDistinct : List LastHeardEntry → Type 0
unfolding position
IsDistinct [] = Unit
IsDistinct (e ∷ es) = (position e.call_id es ≡ none) × IsDistinct es

pub position-append :
    (id : String) (es : List LastHeardEntry) (e : LastHeardEntry)
    → position id (es ++ (e ∷ [])) ≡ (elim (position id es) [
      | some i ↦ some i
      | none ↦ if str_eq e.call_id id then some (length es) else none
    ])
unfolding position
position-append id [] e = ground arith
position-append id (x ∷ es) e = ground (arith, position-append id es e)

pub append-IsDistinct :
    (es : List LastHeardEntry) (e : LastHeardEntry)
    → IsDistinct es
    → position e.call_id es ≡ none
    → IsDistinct (es ++ (e ∷ []))
unfolding position IsDistinct
append-IsDistinct [] e d h = (refl, tt)
append-IsDistinct (x ∷ es) e (n, d) h = (
  ground (
    arith,
    position-append x.call_id es e,
    n,
    h,
    eq_iff x.call_id e.call_id,
    eq_iff e.call_id x.call_id,
  ),
  append-IsDistinct es e d (ground (arith, h)),
)

pub drop-IsDistinct : (n : ℕ) (es : List LastHeardEntry) → IsDistinct es → IsDistinct (drop n es)
unfolding IsDistinct
drop-IsDistinct zero es d = d
drop-IsDistinct (suc n) [] d = tt
drop-IsDistinct (suc n) (e ∷ es) (_, d) = drop-IsDistinct n es d

pub position-drop :
    (n : ℕ) (id : String) (es : List LastHeardEntry)
    → position id es ≡ none
    → position id (drop n es) ≡ none
unfolding position
position-drop zero id es h = h
position-drop (suc n) id [] h = refl
position-drop (suc n) id (e ∷ es) h = position-drop n id es (ground (arith, h))

-- What the new index answers.
pub lookup-index_from :
    (id : String) (i : ℕ) (es : List LastHeardEntry) (m : List (String × ℕ))
    → IsDistinct es
    → lookup id (index_from i es m)
      ≡ (elim (position id es) [ some k ↦ some (i + k) | none ↦ lookup id m ])
unfolding index_from position IsDistinct
lookup-index_from id i [] m d = refl
lookup-index_from id i (e ∷ es) m (n, d) = ground (
  arith,
  lookup-index_from id (i + 1) es (insert e.call_id i m) d,
  n,
  lookup-insert e.call_id id i m,
  eq_iff e.call_id id,
)

-- What the end of a call leaves: the entry of the call ends, and no entry moves.
abbrev pub end_in : String → ℕ → List LastHeardEntry → List LastHeardEntry
end_in id now es = map (λ e. if str_eq e.call_id id then ended now e else e) es

pub end_in-missing :
    (id : String) (now : ℕ) (es : List LastHeardEntry)
    → position id es ≡ none
    → end_in id now es ≡ es
unfolding position
end_in-missing id now [] h = refl
end_in-missing id now (e ∷ es) h = ground (arith, h, end_in-missing id now es (ground (arith, h)))

pub end_at_lem :
    (id : String) (now i : ℕ) (es : List LastHeardEntry)
    → IsDistinct es
    → position id es ≡ some i
    → end_at now i es ≡ ok (end_in id now es)
unfolding position IsDistinct end_at
end_at_lem id now i [] d h = absurd (ground (arith, h))
end_at_lem id now zero (e ∷ es) (n, d) h =
    let this : str_eq e.call_id id ≡ true = ground (arith, h) in
    let alone : position id es ≡ none = ground (arith, n, this, eq_iff e.call_id id) in
    rw (this, end_in-missing id now es alone) refl
end_at_lem id now (suc i) (e ∷ es) (n, d) h =
    let other : str_eq e.call_id id ≡ false = ground (arith, h) in
    let there : position id es ≡ some i = ground (arith, h, other) in
    rw (other, end_at_lem id now i es d there) refl

pub position-end_in :
    (id other : String) (now : ℕ) (es : List LastHeardEntry)
    → position other (end_in id now es) ≡ position other es
unfolding position
position-end_in id other now [] = refl
position-end_in id other now (e ∷ es) = ground (arith, position-end_in id other now es)

pub end_in-IsDistinct :
    (id : String) (now : ℕ) (es : List LastHeardEntry)
    → IsDistinct es
    → IsDistinct (end_in id now es)
unfolding position IsDistinct
end_in-IsDistinct id now [] d = tt
end_in-IsDistinct id now (e ∷ es) (n, d) =
    (ground (arith, n, position-end_in id e.call_id now es), end_in-IsDistinct id now es d)
