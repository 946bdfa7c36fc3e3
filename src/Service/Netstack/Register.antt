-- ===== src/Service/Netstack/Register.antt =====
-- internal/service/netstack_bridge.go: new and expired calls keep the locks in order.
use freetetra.Prelude.{
  ℕ, ◌≡◌, sym, subst, ◌∙◌, ◌⊎◌, arith, false, List, none, some, ltb, if◌then◌else◌, Option-cases,
  Bool-cases, inl, inr, ◌==◌,
}
use freetetra.Prelude.Maps.{lookup, delete, text_key, lookup-insert, lookup-delete}
use freetetra.Service.Netstack.{
  Bridge, BridgeCall, RouteLock, arm_route_lock, drop_call_no_lock, drop_call, set_call,
  clear_expired, put_session,
}
use freetetra.Service.Netstack.Messages.{evict_route}
use freetetra.Service.Netstack.Locks.{
  holder, HoldsLocks, holder-delete, drop_call_lem, drop_call-HoldsLocks, arm_route_lock_lem,
  ttl_lem,
}
use Prim.Native.String.{String}
use text.Mathlib.Text.{◌==◌ as str_eq}
use text.Mathlib.TextEquality.{eq_iff}

-- A lock is deleted and its call gone, if it had one.
unlock-HoldsLocks :
    (b : Bridge) (key : String) (lock : RouteLock) (calls : List (String × BridgeCall))
    (traffic : List (String × String))
    → HoldsLocks b
    → lookup key b.route_locks ≡ some lock
    → ((id : String)
        → lookup id calls ≡ (if str_eq lock.call_id id then none else lookup id b.calls_by_id))
    → HoldsLocks (record b {
      calls_by_id = calls;
      calls_by_traffic = traffic;
      route_locks = delete key b.route_locks;
    })
unlock-HoldsLocks b key lock calls traffic v e gone id c there =
    elim (Bool-cases (str_eq lock.call_id id)) [
      | inl this ↦ absurd (ground (arith, this, gone id, there))
      | inr other ↦
          let (id_ok, held) = v id c (ground (arith, other, gone id, there)) in
          let locked : holder key b.route_locks ≡ some lock.call_id =
            unfold holder in ground (arith, e) in
          (
            id_ok,
            ground (
              arith,
              held,
              locked,
              other,
              holder-delete key c.route_key b.route_locks,
              eq_iff key c.route_key,
              eq_iff lock.call_id id,
            ),
          )
    ]

-- The calls without that of a lock, which may have none.
gone-none :
    (b : Bridge) (call_id id : String)
    → lookup call_id b.calls_by_id ≡ none
    → lookup id b.calls_by_id ≡ (if str_eq call_id id then none else lookup id b.calls_by_id)
gone-none b call_id id e = ground (arith, e, eq_iff call_id id)

gone-some :
    (b : Bridge) (call : BridgeCall) (call_id id : String)
    → HoldsLocks b
    → lookup call_id b.calls_by_id ≡ some call
    → lookup id (delete call.netstack_id b.calls_by_id)
      ≡ (if str_eq call_id id then none else lookup id b.calls_by_id)
gone-some b call call_id id v e =
    let own_id = (v call_id call e).0 in
    ground (arith, own_id, lookup-delete call.netstack_id id b.calls_by_id)

pub clear_expired-HoldsLocks :
    (b : Bridge) (session : BridgeCall) (lock : RouteLock)
    → HoldsLocks b
    → lookup session.route_key b.route_locks ≡ some lock
    → HoldsLocks (clear_expired b session lock).0
      × (holder session.route_key (clear_expired b session lock).0.route_locks ≡ none)
unfolding clear_expired drop_call_no_lock
clear_expired-HoldsLocks b session lock v e =
    let free : holder session.route_key (delete session.route_key b.route_locks) ≡ none =
      holder-delete session.route_key session.route_key b.route_locks
      ∙ ground (arith, eq_iff session.route_key session.route_key) in
    elim (Option-cases (lookup lock.call_id b.calls_by_id)) [
      | inl n ↦
          rw (n, clear_expired)
            (
              unlock-HoldsLocks b session.route_key lock b.calls_by_id b.calls_by_traffic v e
                  (λ id. gone-none b lock.call_id id n),
              free,
            )
      | inr (stale, s) ↦
          rw (s, clear_expired)
            (
              unlock-HoldsLocks b session.route_key lock (delete stale.netstack_id b.calls_by_id)
                  b.calls_by_traffic v e (λ id. gone-some b stale lock.call_id id v s),
              free,
            )
    ]

pub evict_route-HoldsLocks :
    (b : Bridge) (route : String) (now : ℕ) → HoldsLocks b → HoldsLocks (evict_route b route now).0
unfolding evict_route drop_call_no_lock
evict_route-HoldsLocks b route now v = elim (Option-cases (lookup route b.route_locks)) [
  | inl n ↦ rw (n, evict_route) v
  | inr (lock, e) ↦ elim (Bool-cases (ltb now lock.expires_at)) [
    | inl held ↦ rw (e, evict_route, held) v
    | inr expired ↦ elim (Option-cases (lookup lock.call_id b.calls_by_id)) [
      | inl n ↦
          rw (e, evict_route, expired, n)
            (unlock-HoldsLocks b route lock b.calls_by_id b.calls_by_traffic v e
              (λ id. gone-none b lock.call_id id n))
      | inr (call, s) ↦
          rw (e, evict_route, expired, s)
            (unlock-HoldsLocks b route lock (delete call.netstack_id b.calls_by_id)
              b.calls_by_traffic v e (λ id. gone-some b call lock.call_id id v s))
    ]
  ]
]

-- No other call holds the route.
abbrev pub IsFreeFor : BridgeCall → Bridge → Type 0
IsFreeFor session b =
    (holder session.route_key b.route_locks ≡ none)
    ⊎ (holder session.route_key b.route_locks ≡ some session.netstack_id)

place-HoldsLocks :
    (b : Bridge) (session : BridgeCall) (traffic : List (String × String)) (now ttl : ℕ)
    → HoldsLocks b
    → IsFreeFor session b
    → (ttl == 0) ≡ false
    → HoldsLocks (
        arm_route_lock
          (record (set_call b session.netstack_id session) { calls_by_traffic = traffic })
          session.route_key
          session.netstack_id
          now
          ttl)
unfolding set_call
place-HoldsLocks b session traffic now ttl v free positive id c there =
    let placed = record (set_call b session.netstack_id session) { calls_by_traffic = traffic } in
    let (calls, locks) =
      arm_route_lock_lem placed session.route_key session.netstack_id c.route_key now ttl
        positive in
    let stored = lookup-insert session.netstack_id id session b.calls_by_id in
    elim (Bool-cases (str_eq session.netstack_id id)) [
      | inl this ↦
          let is_session : session ≡ c = ground (arith, this, stored, calls, there) in
          let same = (eq_iff session.netstack_id id).0 this in
          ground (arith, is_session, same, locks, eq_iff session.route_key c.route_key)
      | inr other ↦
          let (id_ok, held) = v id c (ground (arith, other, stored, calls, there)) in
          (
            id_ok,
            ground (
              arith,
              locks,
              held,
              free,
              other,
              eq_iff session.route_key c.route_key,
              eq_iff session.netstack_id id,
            ),
          )
    ]

pub put_session-HoldsLocks :
    (b : Bridge) (session : BridgeCall) (now : ℕ)
    → HoldsLocks b
    → IsFreeFor session b
    → HoldsLocks (put_session b session now).0
unfolding put_session
put_session-HoldsLocks b session now v free =
    elim (Option-cases (lookup session.netstack_id b.calls_by_id)) [
      | inl n ↦
          rw (n, put_session)
            (place-HoldsLocks b session _ now _ v free
              (ttl_lem (set_call b session.netstack_id session)).0)
      | inr (prev, e) ↦
          let own = v session.netstack_id prev e in
          let prev_there : lookup prev.netstack_id b.calls_by_id ≡ some prev =
            subst (λ k. lookup k b.calls_by_id ≡ some prev) (sym own.0) e in
          let dropped =
            drop_call_lem b prev session.netstack_id session.route_key (rw own.0 own.1) in
          let free' : IsFreeFor session (drop_call b prev) = ground (arith, dropped, free) in
          rw (e, put_session)
            (place-HoldsLocks (drop_call b prev) session _ now _
              (drop_call-HoldsLocks b prev v prev_there) free'
              (ttl_lem (set_call (drop_call b prev) session.netstack_id session)).0)
    ]
