-- ===== src/Federation/Peer/Tidy.antt =====
-- internal/federation/peer.go: the tables stay tidy: no group stands twice, and none has an empty set.
use freetetra.Prelude.{
  ℕ, ◌≡◌, ◌↔◌, refl, arith, true, false, List, [], ◌∷◌, none, length, ltb, Bool-cases, Option-cases,
  inl, inr,
}
use freetetra.Prelude.Maps.{
  lookup, has_key, insert, delete, number_key, IsMap, insert-IsMap, delete-IsMap,
}
use freetetra.Federation.Peer.Tables.{is_member}
use freetetra.Federation.Peer.{
  Members, Affiliations, is_empty, members_or_empty, remove_member, add_member, drop_from,
  drop_member,
}

abbrev HasNoEmpty : Affiliations → Type 0
HasNoEmpty [] = Unit
HasNoEmpty ((g, ms) ∷ m) = (is_empty ms ≡ false) × HasNoEmpty m

pub record IsTidy (m : Affiliations) : Type 0 where
  pub distinct : IsMap m
  pub filled : HasNoEmpty m

lookup-remove_member :
    (i g : ℕ) (m : Affiliations) → lookup g m ≡ none → lookup g (remove_member i m) ≡ none
unfolding lookup remove_member
lookup-remove_member i g [] h = refl
lookup-remove_member i g ((g', ms) ∷ m) h = ground (arith, h, lookup-remove_member i g m)

remove_member-IsMap : (i : ℕ) (m : Affiliations) → IsMap m → IsMap (remove_member i m)
unfolding remove_member
remove_member-IsMap i [] h = tt
remove_member-IsMap i ((g, ms) ∷ m) h =
    ground (arith, h.0, lookup-remove_member i g m, remove_member-IsMap i m h.1)

remove_member-HasNoEmpty : (i : ℕ) (m : Affiliations) → HasNoEmpty (remove_member i m)
unfolding remove_member
remove_member-HasNoEmpty i [] = tt
remove_member-HasNoEmpty i ((g, ms) ∷ m) = ground (arith, remove_member-HasNoEmpty i m)

pub remove_member-IsTidy : (i : ℕ) (m : Affiliations) → IsTidy m → IsTidy (remove_member i m)
remove_member-IsTidy i m t = record {
  distinct = remove_member-IsMap i m t.distinct;
  filled = remove_member-HasNoEmpty i m;
}

insert-HasNoEmpty :
    (g : ℕ) (ms : Members) (m : Affiliations)
    → is_empty ms ≡ false
    → HasNoEmpty m
    → HasNoEmpty (insert g ms m)
unfolding insert
insert-HasNoEmpty g ms [] e h = (e, tt)
insert-HasNoEmpty g ms ((g', ms') ∷ m) e h =
    ground (arith, h.0, h.1, insert-HasNoEmpty g ms m e h.1)

delete-HasNoEmpty : (g : ℕ) (m : Affiliations) → HasNoEmpty m → HasNoEmpty (delete g m)
unfolding delete
delete-HasNoEmpty g [] h = tt
delete-HasNoEmpty g ((g', ms') ∷ m) h = ground (arith, h.0, h.1, delete-HasNoEmpty g m h.1)

insert-filled : (i : ℕ) (ms : Members) → is_empty (insert i true ms) ≡ false
unfolding insert
insert-filled i [] = refl
insert-filled i (x ∷ ms) = ground arith

pub add_member-IsTidy :
    (i : ℕ) (gs : List ℕ) (m : Affiliations) → IsTidy m → IsTidy (add_member i gs m)
unfolding add_member
add_member-IsTidy i [] m t = t
add_member-IsTidy i (g ∷ gs) m t =
    let ms = insert i true (members_or_empty (lookup g m)) in
    add_member-IsTidy i gs (insert g ms m) (record {
      distinct = insert-IsMap g ms m t.distinct;
      filled = insert-HasNoEmpty g ms m (insert-filled i (members_or_empty (lookup g m))) t.filled;
    })

drop_from-IsTidy : (i g : ℕ) (m : Affiliations) → IsTidy m → IsTidy (drop_from i g m)
unfolding drop_from
drop_from-IsTidy i g m t = elim (Option-cases (lookup g m)) [
  | inl e ↦ rw (e, drop_from) t
  | inr (ms, e) ↦ elim (Bool-cases (is_empty (delete i ms))) [
    | inl gone ↦
        rw (e, drop_from, gone)
          (record {
            distinct = delete-IsMap g m t.distinct;
            filled = delete-HasNoEmpty g m t.filled;
          })
    | inr left ↦
        rw (e, drop_from, left)
          (record {
            distinct = insert-IsMap g (delete i ms) m t.distinct;
            filled = insert-HasNoEmpty g (delete i ms) m left t.filled;
          })
  ]
]

pub drop_member-IsTidy :
    (i : ℕ) (gs : List ℕ) (m : Affiliations) → IsTidy m → IsTidy (drop_member i gs m)
unfolding drop_member
drop_member-IsTidy i [] m t = t
drop_member-IsTidy i (g ∷ gs) m t =
    drop_member-IsTidy i gs (drop_from i g m) (drop_from-IsTidy i g m t)

first_member : (ms : Members) → ltb 0 (length ms) ≡ true → (j : ℕ) × (has_key j ms ≡ true)
unfolding lookup
first_member [] h = cc
first_member ((j, b) ∷ ms) h = (j, ground arith)

some_member : (j : ℕ) (ms : Members) → has_key j ms ≡ true → ltb 0 (length ms) ≡ true
unfolding lookup
some_member j [] h = cc
some_member j (x ∷ ms) h = ground arith

-- A group has a set that is not empty exactly if a subscriber is in it.
pub filled_iff :
    (g : ℕ) (m : Affiliations)
    → (ltb 0 (length (members_or_empty (lookup g m))) ≡ true) ↔ ((j : ℕ) × (is_member g j m ≡ true))
unfolding is_member
filled_iff g m = (
  λ h. first_member (members_or_empty (lookup g m)) h,
  λ (j, h). some_member j (members_or_empty (lookup g m)) h,
)
