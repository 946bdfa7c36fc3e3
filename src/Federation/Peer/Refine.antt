-- ===== src/Federation/Peer/Refine.antt =====
-- internal/federation/peer.go: the tables implement two relations, who is registered and who is
-- affiliated to which group, over every history of operations.
use freetetra.Prelude.{
  ℕ, ◌≡◌, refl, ◌↔◌, ap, sym, ◌∙◌, arith, Bool, true, false, ◌&&◌, ◌||◌, not, List, [], ◌∷◌, ◌==◌,
  if◌then◌else◌,
}
use freetetra.Prelude.Maps.{contains, lookup, number_key, lookup-insert, lookup-delete}
use freetetra.Federation.Peer.{
  Peer, new_peer, register_issi, deregister_issi, affiliate_issi, deaffiliate_issi, clear, has_issi,
  has_subscribers_on_gssi,
}
use freetetra.Federation.Peer.Tables.{
  is_member, is_member-remove_member, is_member-add_member, is_member-drop_member,
}
use freetetra.Federation.Peer.Tidy.{
  IsTidy, remove_member-IsTidy, add_member-IsTidy, drop_member-IsTidy, filled_iff,
}
use Prim.Native.String.{String}
use text.Mathlib.Text.{◌==◌ as str_eq}
use mathlib.Core.Path.{fun_ext}

pub data Op : Type 0 where
  register : ℕ → String → Op
  deregister : ℕ → Op
  affiliate : ℕ → List ℕ → Op
  deaffiliate : ℕ → List ℕ → Op
  cleanup : Op

-- What an operation makes of the relation "subscriber j is affiliated to group g".
unfoldable pub affiliated_after : Op → (ℕ → ℕ → Bool) → ℕ → ℕ → Bool
affiliated_after (register i _) was g j = if i == j then false else was g j
affiliated_after (deregister i) was g j = if i == j then false else was g j
affiliated_after (affiliate i gs) was g j = was g j || (i == j && contains g gs)
affiliated_after (deaffiliate i gs) was g j = was g j && not (i == j && contains g gs)
affiliated_after cleanup was g j = false

-- And of the relation "subscriber j is registered".
unfoldable pub registered_after : Op → (ℕ → Bool) → ℕ → Bool
registered_after (register i _) was j = i == j || was j
registered_after (deregister i) was j = was j && not (i == j)
registered_after (affiliate i gs) was j = was j
registered_after (deaffiliate i gs) was j = was j
registered_after cleanup was j = false

-- The relations after a history, oldest operation first.
unfoldable pub affiliated : List Op → (ℕ → ℕ → Bool) → ℕ → ℕ → Bool
affiliated [] was = was
affiliated (op ∷ ops) was = affiliated ops (affiliated_after op was)

unfoldable pub registered : List Op → (ℕ → Bool) → ℕ → Bool
registered [] was = was
registered (op ∷ ops) was = registered ops (registered_after op was)

module _ {C E : Type 0} where
  unfoldable pub apply : Peer C E → Op → Peer C E
  apply p (register i origin) = register_issi p i origin
  apply p (deregister i) = deregister_issi p i
  apply p (affiliate i gs) = affiliate_issi p i gs
  apply p (deaffiliate i gs) = deaffiliate_issi p i gs
  apply p cleanup = clear p

  unfoldable pub run : Peer C E → List Op → Peer C E
  run p [] = p
  run p (op ∷ ops) = run (apply p op) ops

  apply-IsTidy :
      (p : Peer C E) (op : Op) → IsTidy p.gssi_affiliations → IsTidy (apply p op).gssi_affiliations
  unfolding apply register_issi deregister_issi affiliate_issi deaffiliate_issi clear
  apply-IsTidy p (register i origin) t = remove_member-IsTidy i p.gssi_affiliations t
  apply-IsTidy p (deregister i) t = remove_member-IsTidy i p.gssi_affiliations t
  apply-IsTidy p (affiliate i gs) t = add_member-IsTidy i gs p.gssi_affiliations t
  apply-IsTidy p (deaffiliate i gs) t = drop_member-IsTidy i gs p.gssi_affiliations t
  apply-IsTidy p cleanup t = record { distinct = tt; filled = tt }

  apply-affiliated :
      (p : Peer C E) (op : Op) (g j : ℕ)
      → IsTidy p.gssi_affiliations
      → is_member g j (apply p op).gssi_affiliations
        ≡ affiliated_after op (λ g' j'. is_member g' j' p.gssi_affiliations) g j
  unfolding apply register_issi deregister_issi affiliate_issi deaffiliate_issi clear
      affiliated_after
  apply-affiliated p (register i origin) g j t =
      is_member-remove_member g i j p.gssi_affiliations t.distinct
  apply-affiliated p (deregister i) g j t =
      is_member-remove_member g i j p.gssi_affiliations t.distinct
  apply-affiliated p (affiliate i gs) g j t = is_member-add_member g i j gs p.gssi_affiliations
  apply-affiliated p (deaffiliate i gs) g j t = is_member-drop_member g i j gs p.gssi_affiliations
  apply-affiliated p cleanup g j t = unfold is_member lookup in refl

  apply-registered :
      (p : Peer C E) (op : Op) (j : ℕ)
      → has_issi (apply p op) j ≡ registered_after op (λ j'. has_issi p j') j
  unfolding apply register_issi deregister_issi affiliate_issi deaffiliate_issi clear
      registered_after has_issi
  apply-registered p (register i origin) j =
      ground (arith, lookup-insert i j (if str_eq origin "" then p.name else origin) p.issis)
  apply-registered p (deregister i) j = ground (arith, lookup-delete i j p.issis)
  apply-registered p (affiliate i gs) j = refl
  apply-registered p (deaffiliate i gs) j = refl
  apply-registered p cleanup j = unfold lookup in refl

  run-IsTidy :
      (p : Peer C E) (ops : List Op)
      → IsTidy p.gssi_affiliations
      → IsTidy (run p ops).gssi_affiliations
  unfolding run
  run-IsTidy p [] t = t
  run-IsTidy p (op ∷ ops) t = run-IsTidy (apply p op) ops (apply-IsTidy p op t)

  run-affiliated :
      (p : Peer C E) (ops : List Op) (g j : ℕ)
      → IsTidy p.gssi_affiliations
      → is_member g j (run p ops).gssi_affiliations
        ≡ affiliated ops (λ g' j'. is_member g' j' p.gssi_affiliations) g j
  unfolding run affiliated
  run-affiliated p [] g j t = refl
  run-affiliated p (op ∷ ops) g j t =
      run-affiliated (apply p op) ops g j (apply-IsTidy p op t)
      ∙ ap (λ was. affiliated ops was g j)
          (fun_ext (λ g'. fun_ext (λ j'. apply-affiliated p op g' j' t)))

  run-registered :
      (p : Peer C E) (ops : List Op) (j : ℕ)
      → has_issi (run p ops) j ≡ registered ops (λ j'. has_issi p j') j
  unfolding run registered
  run-registered p [] j = refl
  run-registered p (op ∷ ops) j =
      run-registered (apply p op) ops j
      ∙ ap (λ was. registered ops was j) (fun_ext (λ j'. apply-registered p op j'))

module _ (C E : Type 0) where
  -- After any history of operations on a new peer, `HasISSI` answers whether the subscriber is
  -- registered by that history.
  pub has_issi-run :
      (name direction : String) (ops : List Op) (j : ℕ)
      → has_issi (run (new_peer {C = C} {E = E} name direction) ops) j
        ≡ registered ops (λ _. false) j
  unfolding new_peer
  has_issi-run name direction ops j =
      run-registered (new_peer name direction) ops j
      ∙ ap (λ was. registered ops was j) (fun_ext (λ j'. unfold has_issi lookup in refl))

  -- After any history of operations on a new peer, `HasSubscribersOnGSSI` holds exactly if some
  -- subscriber is affiliated to the group by that history.
  pub has_subscribers_on_gssi-run :
      (name direction : String) (ops : List Op) (g : ℕ)
      → (has_subscribers_on_gssi (run (new_peer {C = C} {E = E} name direction) ops) g ≡ true)
        ↔ ((j : ℕ) × (affiliated ops (λ _ _. false) g j ≡ true))
  unfolding has_subscribers_on_gssi new_peer
  has_subscribers_on_gssi-run name direction ops g =
      (λ h. let (j, e) = members.0 h in (j, sym (same j) ∙ e), λ (j, e). members.1 (j, same j ∙ e))
    where
      start : Peer C E
      start = new_peer name direction

      members :
          (has_subscribers_on_gssi (run start ops) g ≡ true)
          ↔ ((j : ℕ) × (is_member g j (run start ops).gssi_affiliations ≡ true))
      members = filled_iff g (run start ops).gssi_affiliations

      same :
          (j : ℕ)
          → is_member g j (run start ops).gssi_affiliations ≡ affiliated ops (λ _ _. false) g j
      same j =
          run-affiliated start ops g j (record { distinct = tt; filled = tt })
          ∙ ap (λ was. affiliated ops was g j)
              (fun_ext (λ g'. fun_ext (λ j'. unfold is_member lookup in refl)))

  -- After any history of operations on a new peer, no group stands twice in the table and none has
  -- an empty set.
  pub run-new_peer-IsTidy :
      (name direction : String) (ops : List Op)
      → IsTidy (run (new_peer {C = C} {E = E} name direction) ops).gssi_affiliations
  unfolding new_peer
  run-new_peer-IsTidy name direction ops =
      run-IsTidy (new_peer name direction) ops (record { distinct = tt; filled = tt })
