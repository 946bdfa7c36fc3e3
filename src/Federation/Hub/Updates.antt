-- ===== src/Federation/Hub/Updates.antt =====
-- internal/federation/hub.go: what messages from a peer change in the tables, and which of them pass
-- the gate.
use freetetra.Federation.Mesh.Remember.{should_process-cases}
use freetetra.Prelude.{
  ◌∙◌, sym, inl, inr, ℕ, ◌≡◌, refl, arith, Bool, true, ◌||◌, ◌&&◌, not, ltb, false, ◌++◌, List, [],
  ◌∷◌, ◌==◌, if◌then◌else◌,
}
use freetetra.Prelude.Maps.{lookup-insert, text_key}
use freetetra.Federation.Mesh.{
  passes_guards, MeshRouter, Control, path_has, prepare_relay, should_process, already_seen,
  mark_seen,
}
use freetetra.Federation.Peer.{register_issi, deregister_issi, affiliate_issi, deaffiliate_issi}
use freetetra.Federation.Hub.{
  Hub, Message, Remote, Action, action_unspecified, action_register, action_deregister,
  action_affiliate, action_deaffiliate, store, pass_on,
}
use freetetra.Federation.Hub.Handle.{
  is_control_plane, control_gate, handle_subscriber_update, handle_affiliate_update,
}
use freetetra.Federation.Hub.Tables.{HasTablesOf, pass_on-IsQuiet}
use Prim.Native.String.{String}
use text.Mathlib.Text.{◌==◌ as str_eq}
use text.Mathlib.TextEquality.{eq_iff}

-- An int32 as its bit pattern is positive.
abbrev pub positive : ℕ → Bool
positive t = ltb 0 t && ltb t 0x8000_0000

path_has-append :
    (name : String) (a b : List String)
    → path_has name (a ++ b) ≡ (path_has name a || path_has name b)
unfolding path_has
path_has-append name [] b = refl
path_has-append name (hop ∷ hops) b = ground (arith, path_has-append name hops b)

already_seen-mark_seen :
    (mr : MeshRouter) (id other : String) (now : ℕ)
    → already_seen (mark_seen mr id now) other ≡ (str_eq id other || already_seen mr other)
unfolding already_seen mark_seen
already_seen-mark_seen mr id other now = ground (arith, lookup-insert id other now mr.seen)

-- The message is one that the mesh lets through: not the server's own, with ttl left, not on its
-- path already, and without an id or with one that was not seen.
abbrev pub fresh : {P : Type 0} → MeshRouter → Control P → Bool
fresh mr ctrl =
    not (str_eq ctrl.origin mr.server_name)
    && positive ctrl.ttl
    && not (path_has mr.server_name ctrl.path)
    && (str_eq ctrl.msg_id "" || not (already_seen mr ctrl.msg_id))

module _ {P : Type 0} where
  should_process_answer :
      (mr : MeshRouter) (ctrl : Control P) (now : ℕ)
      → (should_process mr ctrl now).1 ≡ fresh mr ctrl
  unfolding should_process passes_guards
  should_process_answer mr ctrl now = ground arith

  should_process_seen :
      (mr : MeshRouter) (ctrl : Control P) (now : ℕ) (id : String)
      → already_seen (should_process mr ctrl now).0 id ≡ (
          already_seen mr id
          || ((should_process mr ctrl now).1 && not (str_eq id "") && str_eq ctrl.msg_id id))
  should_process_seen mr ctrl now id = elim (should_process-cases mr ctrl now) [
    | inl e ↦ rw e (ground arith)
    | inr (inl (e, no_id)) ↦ rw e (ground (arith, no_id, eq_iff ctrl.msg_id id, eq_iff id ""))
    | inr (inr (e, new, has_id)) ↦
        rw (e, already_seen-mark_seen mr ctrl.msg_id id now)
          (ground (arith, eq_iff ctrl.msg_id id, eq_iff id "", has_id))
  ]

  should_process_on_path :
      (mr : MeshRouter) (ctrl : Control P) (now : ℕ)
      → path_has mr.server_name ctrl.path ≡ true
      → (should_process mr ctrl now).1 ≡ false
  should_process_on_path mr ctrl now e = rw (should_process_answer mr ctrl now) (ground (arith, e))

module _ {X : Type 0} where
  -- The peer after the update of a subscriber, and after that of an affiliation.
  abbrev pub subscriber_updated : Remote X → String → Action → ℕ → List ℕ → Remote X
  subscriber_updated p origin action_register issi gssis =
      affiliate_issi (register_issi p issi origin) issi gssis
  subscriber_updated p origin action_deregister issi gssis = deregister_issi p issi
  subscriber_updated p origin _ issi gssis = p

  abbrev pub affiliation_updated : Remote X → Action → ℕ → List ℕ → Remote X
  affiliation_updated p action_affiliate issi gssis = affiliate_issi p issi gssis
  affiliation_updated p action_deaffiliate issi gssis = deaffiliate_issi p issi gssis
  affiliation_updated p _ issi gssis = p

  pub subscriber_update_steps :
      (h : Hub X) (r : ℕ) (ctrl : Message X) (action : Action) (issi : ℕ) (gssis : List ℕ)
      (choices : ℕ → Bool)
      → handle_subscriber_update h r ctrl action issi gssis choices
        ≡ pass_on
            (record h {
              heap = store h.heap r (subscriber_updated (h.heap r) ctrl.origin action issi gssis);
            })
            r
            ctrl
            choices
  unfolding handle_subscriber_update
  subscriber_update_steps h r ctrl action_unspecified issi gssis choices = refl
  subscriber_update_steps h r ctrl action_register issi gssis choices = refl
  subscriber_update_steps h r ctrl action_deregister issi gssis choices = refl
  subscriber_update_steps h r ctrl action_affiliate issi gssis choices = refl
  subscriber_update_steps h r ctrl action_deaffiliate issi gssis choices = refl

  pub affiliate_update_steps :
      (h : Hub X) (r : ℕ) (ctrl : Message X) (action : Action) (issi : ℕ) (gssis : List ℕ)
      (choices : ℕ → Bool)
      → handle_affiliate_update h r ctrl action issi gssis choices
        ≡ pass_on
            (record h { heap = store h.heap r (affiliation_updated (h.heap r) action issi gssis) })
            r
            ctrl
            choices
  unfolding handle_affiliate_update
  affiliate_update_steps h r ctrl action_unspecified issi gssis choices = refl
  affiliate_update_steps h r ctrl action_register issi gssis choices = refl
  affiliate_update_steps h r ctrl action_deregister issi gssis choices = refl
  affiliate_update_steps h r ctrl action_affiliate issi gssis choices = refl
  affiliate_update_steps h r ctrl action_deaffiliate issi gssis choices = refl

  -- The updates of a subscriber and of an affiliation change the tables of the peer that they came
  -- from, as their action says, and of no other peer, whether they are relayed or not.
  pub handle_updates_lem :
      (h : Hub X) (r : ℕ) (ctrl : Message X) (action : Action) (issi : ℕ) (gssis : List ℕ)
      (choices : ℕ → Bool) (j : ℕ)
      → HasTablesOf
          ((handle_subscriber_update h r ctrl action issi gssis choices).heap j)
          (if j == r then subscriber_updated (h.heap r) ctrl.origin action issi gssis else h.heap j)
        × HasTablesOf
            ((handle_affiliate_update h r ctrl action issi gssis choices).heap j)
            (if j == r then affiliation_updated (h.heap r) action issi gssis else h.heap j)
  unfolding store
  handle_updates_lem h r ctrl action issi gssis choices j =
      let p = subscriber_updated (h.heap r) ctrl.origin action issi gssis in
      let q = affiliation_updated (h.heap r) action issi gssis in
      (
        rw (subscriber_update_steps h r ctrl action issi gssis choices)
            (pass_on-IsQuiet (record h { heap = store h.heap r p }) r ctrl choices j).2,
        rw (affiliate_update_steps h r ctrl action issi gssis choices)
            (pass_on-IsQuiet (record h { heap = store h.heap r q }) r ctrl choices j).2,
      )

  -- What a server that the message was relayed to may send back: the path has grown.
  abbrev pub come_back : Hub X → Message X → List String → ℕ → Message X
  come_back h ctrl hops ttl = record (prepare_relay h.mesh ctrl) {
    path = (prepare_relay h.mesh ctrl).path ++ hops;
    ttl = ttl;
  }

  back_on_path :
      (mr : MeshRouter) (ctrl : Message X) (hops : List String)
      → path_has mr.server_name ((prepare_relay mr ctrl).path ++ hops) ≡ true
  unfolding prepare_relay path_has
  back_on_path mr ctrl hops = ground (
    arith,
    path_has-append mr.server_name (ctrl.path ++ (mr.server_name ∷ [])) hops,
    path_has-append mr.server_name ctrl.path (mr.server_name ∷ []),
    eq_iff mr.server_name mr.server_name,
  )

  -- At a hub whose router has the hub's server name, where nothing else uses the router while the gate
  -- runs: a message of the control plane passes the gate unless the hub is its origin, and any other
  -- one exactly if it is fresh (not the hub's own, with a positive ttl, without the hub on its path,
  -- and with no id or one not seen); afterwards the ids seen are those seen before and that of a
  -- fresh message that is not of the control plane. The message that the hub relays does not pass
  -- the gate again, along whatever servers and with whatever ttl it comes back and whatever ids are
  -- then remembered, unless it is of the control plane.
  pub control_gate_lem :
      (h : Hub X) (ctrl : Message X) (now : ℕ) (id : String) (h' : Hub X) (hops : List String)
      (ttl later : ℕ)
      → h.mesh.server_name ≡ h.server_name
      → h'.mesh.server_name ≡ h.server_name
      → ((control_gate h ctrl now).1 ≡ (
          if is_control_plane ctrl.payload
          then not (str_eq ctrl.origin h.server_name)
          else fresh h.mesh ctrl))
        × (already_seen (control_gate h ctrl now).0.mesh id ≡ (
            already_seen h.mesh id
            || (not (is_control_plane ctrl.payload)
                && fresh h.mesh ctrl
                && not (str_eq id "")
                && str_eq ctrl.msg_id id)))
        × ((not (is_control_plane ctrl.payload)
              && (control_gate h' (come_back h ctrl hops ttl) later).1)
            ≡ false)
  unfolding control_gate
  control_gate_lem h ctrl now id h' hops ttl later same same' =
      let back = come_back h ctrl hops ttl in
      let same_kind : is_control_plane back.payload ≡ is_control_plane ctrl.payload =
        unfold prepare_relay in refl in
      (
        ground (arith, should_process_answer h.mesh ctrl now),
        ground
            (arith, should_process_answer h.mesh ctrl now, should_process_seen h.mesh ctrl now id),
        ground (
          arith,
          same_kind,
          should_process_on_path h'.mesh back later
              (rw (same' ∙ sym same) (back_on_path h.mesh ctrl hops)),
        ),
      )
