-- ===== src/Service/Netstack/Locks.antt =====
-- internal/service/netstack_bridge.go: every call holds the lock of its route, so no two calls have the
-- same route.
use freetetra.Prelude.{
  ℕ, ◌+◌, ◌≡◌, refl, ◌∙◌, arith, false, List, Option, none, some, if◌then◌else◌, Option-cases,
  Bool-cases, inl, inr, ◌==◌,
}
use freetetra.Prelude.Maps.{lookup, insert, delete, text_key, lookup-insert, lookup-delete}
use freetetra.Service.Netstack.{
  Bridge, BridgeCall, RouteLock, pending_max_age, route_timeout, touch_route_lock, arm_route_lock,
  release_route_lock, drop_call_no_lock, drop_call, set_call,
}
use Prim.Native.String.{String}
use text.Mathlib.Text.{◌==◌ as str_eq}
use text.Mathlib.TextEquality.{eq_iff}

-- The call that holds the lock of a route.
unfoldable pub holder : String → List (String × RouteLock) → Option String
holder key locks = elim (lookup key locks) [ none ↦ none | some lock ↦ some lock.call_id ]

-- Each call stands under its id and holds the lock of its route.
abbrev pub HoldsLocks : Bridge → Type 0
HoldsLocks b =
    (id : String) (call : BridgeCall)
    → lookup id b.calls_by_id ≡ some call
    → (call.netstack_id ≡ id) × (holder call.route_key b.route_locks ≡ some id)

holder-insert :
    (key route : String) (lock : RouteLock) (locks : List (String × RouteLock))
    → holder route (insert key lock locks)
      ≡ (if str_eq key route then some lock.call_id else holder route locks)
unfolding holder
holder-insert key route lock locks = ground (arith, lookup-insert key route lock locks)

pub holder-delete :
    (key route : String) (locks : List (String × RouteLock))
    → holder route (delete key locks) ≡ (if str_eq key route then none else holder route locks)
unfolding holder
holder-delete key route locks = ground (arith, lookup-delete key route locks)

-- What the operations do to the calls and to the holders.
pub touch_route_lock_lem :
    (b : Bridge) (key id route : String) (now : ℕ)
    → ((touch_route_lock b key id now).calls_by_id ≡ b.calls_by_id)
      × (holder route (touch_route_lock b key id now).route_locks ≡ holder route b.route_locks)
unfolding touch_route_lock
touch_route_lock_lem b key id route now = elim (Option-cases (lookup key b.route_locks)) [
  | inl e ↦ rw (e, touch_route_lock) (refl, refl)
  | inr (lock, e) ↦
      let lock' : RouteLock = record lock { expires_at = now + route_timeout b } in
      let moved = holder-insert key route lock' b.route_locks in
      let held : holder key b.route_locks ≡ some lock.call_id =
        unfold holder in ground (arith, e) in
      ground (arith, e, moved, held, eq_iff key route, eq_iff lock.call_id id)
]

pub arm_route_lock_lem :
    (b : Bridge) (key id route : String) (now ttl : ℕ)
    → (ttl == 0) ≡ false
    → ((arm_route_lock b key id now ttl).calls_by_id ≡ b.calls_by_id)
      × (holder route (arm_route_lock b key id now ttl).route_locks
          ≡ (if str_eq key route then some id else holder route b.route_locks))
unfolding arm_route_lock
arm_route_lock_lem b key id route now ttl h =
    let lock : RouteLock = record { call_id = id; expires_at = now + ttl } in
    let armed = holder-insert key route lock b.route_locks in ground (arith, h, armed)

-- A lock that is released by its holder.
release_route_lock_lem :
    (b : Bridge) (key id route : String)
    → holder key b.route_locks ≡ some id
    → ((release_route_lock b key id).calls_by_id ≡ b.calls_by_id)
      × (holder route (release_route_lock b key id).route_locks
          ≡ (if str_eq key route then none else holder route b.route_locks))
unfolding release_route_lock
release_route_lock_lem b key id route h = elim (Option-cases (lookup key b.route_locks)) [
  | inl e ↦ absurd (unfold holder in ground (arith, h, e))
  | inr (lock, e) ↦
      let same : lock.call_id ≡ id = unfold holder in ground (arith, h, e) in
      ground (arith, e, same, eq_iff lock.call_id id, holder-delete key route b.route_locks)
]

-- A call that holds its lock and is dropped: it and its lock go.
pub drop_call_lem :
    (b : Bridge) (call : BridgeCall) (id route : String)
    → holder call.route_key b.route_locks ≡ some call.netstack_id
    → (lookup id (drop_call b call).calls_by_id
        ≡ (if str_eq call.netstack_id id then none else lookup id b.calls_by_id))
      × (holder route (drop_call b call).route_locks
          ≡ (if str_eq call.route_key route then none else holder route b.route_locks))
unfolding drop_call drop_call_no_lock
drop_call_lem b call id route h =
    let b' = drop_call_no_lock b call in
    let released = release_route_lock_lem b' call.route_key call.netstack_id route h in
    ground (arith, released, lookup-delete call.netstack_id id b.calls_by_id)

pub drop_call-HoldsLocks :
    (b : Bridge) (call : BridgeCall)
    → HoldsLocks b
    → lookup call.netstack_id b.calls_by_id ≡ some call
    → HoldsLocks (drop_call b call)
drop_call-HoldsLocks b call v e id c there =
    let own = v call.netstack_id call e in
    let (calls, locks) = drop_call_lem b call id c.route_key own.1 in
    elim (Bool-cases (str_eq call.netstack_id id)) [
      | inl gone ↦ absurd (ground (arith, gone, calls, there))
      | inr other ↦
          let (id_ok, held) = v id c (ground (arith, other, calls, there)) in
          (
            id_ok,
            ground (
              arith,
              locks,
              held,
              own,
              other,
              eq_iff call.netstack_id id,
              eq_iff call.route_key c.route_key,
            ),
          )
    ]

pub set_call-HoldsLocks :
    (b : Bridge) (id : String) (old call : BridgeCall)
    → HoldsLocks b
    → lookup id b.calls_by_id ≡ some old
    → call.netstack_id ≡ old.netstack_id
    → call.route_key ≡ old.route_key
    → HoldsLocks (set_call b id call)
unfolding set_call
set_call-HoldsLocks b id old call v e same_id same_route other c there =
    let stored = lookup-insert id other call b.calls_by_id in
    elim (Bool-cases (str_eq id other)) [
      | inl this ↦
          let is_call : call ≡ c = ground (arith, this, stored, there) in
          ground (arith, v id old e, this, is_call, same_id, same_route, eq_iff id other)
      | inr not_this ↦ v other c (ground (arith, not_this, stored, there))
    ]

pub touch_route_lock-HoldsLocks :
    (b : Bridge) (key id : String) (now : ℕ)
    → HoldsLocks b
    → HoldsLocks (touch_route_lock b key id now)
touch_route_lock-HoldsLocks b key id now v other c there =
    let (calls, locks) = touch_route_lock_lem b key id c.route_key now in
    let (id_ok, held) = v other c (rw (← calls) there) in (id_ok, locks ∙ held)

-- The ttls that the bridge uses are not 0.
pub ttl_lem : (b : Bridge) → ((pending_max_age b == 0) ≡ false) × ((route_timeout b == 0) ≡ false)
unfolding pending_max_age route_timeout
ttl_lem b = (ground arith, ground arith)

pub arm_route_lock-HoldsLocks :
    (b : Bridge) (key id : String) (now ttl : ℕ)
    → HoldsLocks b
    → holder key b.route_locks ≡ some id
    → (ttl == 0) ≡ false
    → HoldsLocks (arm_route_lock b key id now ttl)
arm_route_lock-HoldsLocks b key id now ttl v own positive other c there =
    let (calls, locks) = arm_route_lock_lem b key id c.route_key now ttl positive in
    let (id_ok, held) = v other c (rw (← calls) there) in
    (id_ok, ground (arith, locks, held, own, eq_iff key c.route_key))
