-- ===== src/Federation/Peer/Tables.antt =====
-- internal/federation/peer.go: who is affiliated to which group after each operation on the tables.
use freetetra.Prelude.{
  ℕ, ◌≡◌, refl, arith, Bool, true, false, ◌&&◌, ◌||◌, not, List, [], ◌∷◌, none, some, ◌==◌,
  if◌then◌else◌, Option-cases, inl, inr, ==_iff,
}
use freetetra.Prelude.Maps.{
  contains, lookup, has_key, insert, delete, number_key, lookup-insert, lookup-delete, IsMap,
}
use freetetra.Federation.Peer.{
  Members, Affiliations, is_empty, members_or_empty, remove_member, add_member, drop_from,
  drop_member,
}

-- The subscriber `issi` is affiliated to `gssi`.
unfoldable pub is_member : ℕ → ℕ → Affiliations → Bool
is_member gssi issi m = has_key issi (members_or_empty (lookup gssi m))

is_empty-lookup : (j : ℕ) (ms : Members) → is_empty ms ≡ true → lookup j ms ≡ none
unfolding lookup
is_empty-lookup j [] h = refl
is_empty-lookup j (x ∷ ms) h = cc

has_key-delete :
    (i j : ℕ) (ms : Members) → has_key j (delete i ms) ≡ (if i == j then false else has_key j ms)
has_key-delete i j ms = ground (arith, lookup-delete i j ms)

has_key-insert :
    (i j : ℕ) (ms : Members)
    → has_key j (insert i true ms) ≡ (if i == j then true else has_key j ms)
has_key-insert i j ms = ground (arith, lookup-insert i j true ms)

-- Removing a subscriber from all groups leaves the others where they are.
pub is_member-remove_member :
    (g i j : ℕ) (m : Affiliations)
    → IsMap m
    → is_member g j (remove_member i m) ≡ (if i == j then false else is_member g j m)
unfolding is_member lookup remove_member
is_member-remove_member g i j [] h = ground arith
is_member-remove_member g i j ((g', ms) ∷ m) h = ground (
  arith,
  h.0,
  has_key-delete i j ms,
  is_empty-lookup j (delete i ms),
  is_member-remove_member g i j m h.1,
  ==_iff g' g,
)

is_member-insert :
    (g i j gssi : ℕ) (m : Affiliations)
    → is_member g j (insert gssi (insert i true (members_or_empty (lookup gssi m))) m)
      ≡ (is_member g j m || (i == j && gssi == g))
unfolding is_member
is_member-insert g i j gssi m = ground (
  arith,
  lookup-insert gssi g (insert i true (members_or_empty (lookup gssi m))) m,
  has_key-insert i j (members_or_empty (lookup gssi m)),
  ==_iff gssi g,
)

-- Affiliating a subscriber adds it to the groups given, and to no others.
pub is_member-add_member :
    (g i j : ℕ) (gs : List ℕ) (m : Affiliations)
    → is_member g j (add_member i gs m) ≡ (is_member g j m || (i == j && contains g gs))
unfolding add_member contains
is_member-add_member g i j [] m = ground arith
is_member-add_member g i j (gssi ∷ gs) m =
    let m' = insert gssi (insert i true (members_or_empty (lookup gssi m))) m in
    ground (arith, is_member-add_member g i j gs m', is_member-insert g i j gssi m, ==_iff gssi g)

is_member-drop_found :
    (g i j gssi : ℕ) (ms : Members) (m : Affiliations)
    → lookup gssi m ≡ some ms
    → is_member g j (drop_from i gssi m) ≡ (is_member g j m && not (i == j && gssi == g))
unfolding is_member drop_from
is_member-drop_found g i j gssi ms m e = ground (
  arith,
  e,
  lookup-delete gssi g m,
  lookup-insert gssi g (delete i ms) m,
  has_key-delete i j ms,
  is_empty-lookup j (delete i ms),
  ==_iff gssi g,
)

is_member-drop_from :
    (g i j gssi : ℕ) (m : Affiliations)
    → is_member g j (drop_from i gssi m) ≡ (is_member g j m && not (i == j && gssi == g))
is_member-drop_from g i j gssi m = elim (Option-cases (lookup gssi m)) [
  | inr (ms, e) ↦ is_member-drop_found g i j gssi ms m e
  | inl e ↦ unfold is_member drop_from lookup in ground (arith, e, ==_iff gssi g)
]

-- Deaffiliating a subscriber takes it out of the groups given, and out of no others.
pub is_member-drop_member :
    (g i j : ℕ) (gs : List ℕ) (m : Affiliations)
    → is_member g j (drop_member i gs m) ≡ (is_member g j m && not (i == j && contains g gs))
unfolding drop_member contains
is_member-drop_member g i j [] m = ground arith
is_member-drop_member g i j (gssi ∷ gs) m = ground (
  arith,
  is_member-drop_member g i j gs (drop_from i gssi m),
  is_member-drop_from g i j gssi m,
  ==_iff gssi g,
)
