-- ===== src/Service/RateLimit/Window.antt =====
-- internal/service/ratelimit.go: how many failures in the window lead to a ban.
use freetetra.Prelude.{
  ℕ, ◌+◌, ◌≤◌, ◌<◌, ◌≡◌, refl, sym, subst, ◌⊎◌, inl, inr, arith, Bool, true, false, ◌||◌, List, [],
  ◌∷◌, ◌++◌, All, length, leb, if◌then◌else◌, Bool-cases,
}
use freetetra.Prelude.Maps.{lookup, insert, text_key, lookup-insert, lookup-delete}
use freetetra.Service.RateLimit.{
  AuthRateLimiter, new_auth_rate_limiter, auth_window, max_auth_attempts, attempts_after,
  attempts_of, record_failure, record_success,
}
use Prim.Native.String.{String}
use text.Mathlib.Text.{◌==◌ as str_eq}
use text.Mathlib.TextEquality.{eq_iff}

-- What happens at the limiter.
pub data Event : Type 0 where
  fails : String → ℕ → Event
  succeeds : String → Event

unfoldable pub step : AuthRateLimiter → Event → AuthRateLimiter
step rl (fails ip now) = (record_failure rl ip now).0
step rl (succeeds ip) = record_success rl ip

-- Whether one of the failures of the address answers that it is banned.
unfoldable pub bans : String → AuthRateLimiter → List Event → Bool
bans ip rl [] = false
bans ip rl (fails other now ∷ es) =
    let rest = bans ip (step rl (fails other now)) es in
    (if str_eq other ip then (record_failure rl other now).1 else false) || rest
bans ip rl (succeeds other ∷ es) = bans ip (step rl (succeeds other)) es

-- How many failures of the address there are.
unfoldable pub failures : String → List Event → ℕ
failures ip [] = 0
failures ip (fails other now ∷ es) =
    let rest = failures ip es in if str_eq other ip then rest + 1 else rest
failures ip (succeeds other ∷ es) = failures ip es

-- The event is no success of the address, and a failure falls into the window from `start` on.
abbrev pub FallsInto : String → ℕ → Event → Type 0
FallsInto ip start (fails other now) = (start ≤ now) × (now < start + auth_window)
FallsInto ip start (succeeds other) = str_eq other ip ≡ false

-- The attempts from `start` on.
count_from : ℕ → List ℕ → ℕ
count_from start [] = 0
count_from start (t ∷ ts) = let rest = count_from start ts in if leb start t then rest + 1 else rest

count_from-attempts_after :
    (start now : ℕ) (ts : List ℕ)
    → now < start + auth_window
    → count_from start (attempts_after now ts) ≡ count_from start ts
unfolding count_from attempts_after
count_from-attempts_after start now [] h = refl
count_from-attempts_after start now (t ∷ ts) h =
    ground (arith, count_from-attempts_after start now ts h)

count_from-append :
    (start now : ℕ) (ts : List ℕ)
    → start ≤ now
    → count_from start (ts ++ (now ∷ [])) ≡ count_from start ts + 1
unfolding count_from
count_from-append start now [] h = ground arith
count_from-append start now (t ∷ ts) h = ground (arith, count_from-append start now ts h)

count_from-length : (start : ℕ) (ts : List ℕ) → count_from start ts ≤ length ts
unfolding count_from
count_from-length start [] = omega arith
count_from-length start (t ∷ ts) = ground (arith, count_from-length start ts)

-- A failure answers that the address is banned, or is counted.
record_failure-counts :
    (rl : AuthRateLimiter) (ip : String) (start now : ℕ)
    → start ≤ now
    → now < start + auth_window
    → ((record_failure rl ip now).1 ≡ true)
      ⊎ (count_from start (attempts_of (record_failure rl ip now).0 ip)
          ≡ count_from start (attempts_of rl ip) + 1)
        × (count_from start (attempts_of rl ip) + 1 < max_auth_attempts)
unfolding record_failure
record_failure-counts rl ip start now h k =
    let valid = attempts_after now (attempts_of rl ip) ++ (now ∷ []) in
    let stored : attempts_of (record rl { attempts = insert ip valid rl.attempts }) ip ≡ valid =
      unfold attempts_of in ground (arith, lookup-insert ip ip valid rl.attempts, eq_iff ip ip) in
    let counted = count_from-append start now (attempts_after now (attempts_of rl ip)) h in
    let kept = count_from-attempts_after start now (attempts_of rl ip) k in
    let bound = count_from-length start valid in
    elim (Bool-cases (leb max_auth_attempts (length valid))) [
      | inl full ↦ inl (ground (arith, full))
      | inr room ↦ inr (ground (arith, room, stored, counted, kept, bound))
    ]

attempts_of-other :
    (rl : AuthRateLimiter) (ip other : String) (now : ℕ)
    → str_eq other ip ≡ false
    → (attempts_of (record_failure rl other now).0 ip ≡ attempts_of rl ip)
      × (attempts_of (record_success rl other) ip ≡ attempts_of rl ip)
unfolding attempts_of record_failure record_success
attempts_of-other rl ip other now h =
    let valid = attempts_after now (attempts_of rl other) ++ (now ∷ []) in
    ground (
      arith,
      h,
      lookup-insert other ip valid rl.attempts,
      lookup-delete other ip rl.attempts,
      lookup-delete other ip (insert other valid rl.attempts),
    )

bans-counted :
    (rl : AuthRateLimiter) (ip : String) (start : ℕ) (es : List Event)
    → All (FallsInto ip start) es
    → max_auth_attempts ≤ count_from start (attempts_of rl ip) + failures ip es
    → count_from start (attempts_of rl ip) < max_auth_attempts
    → bans ip rl es ≡ true
unfolding bans failures step
bans-counted rl ip start [] h enough few = absurd (omega arith)
bans-counted rl ip start (succeeds other ∷ es) h enough few =
    let same = (attempts_of-other rl ip other 0 h.0).1 in
    bans-counted (record_success rl other) ip start es h.1 (rw same enough) (rw same few)
bans-counted rl ip start (fails other now ∷ es) h enough few = elim (Bool-cases (str_eq other ip)) [
  | inr differ ↦
      let same = (attempts_of-other rl ip other now differ).0 in
      let rest = bans-counted (record_failure rl other now).0 ip start es h.1 in
      ground (arith, differ, rest (rw same (ground (arith, enough, differ))) (rw same few))
  | inl this ↦
      let now_more : failures ip (fails other now ∷ es) ≡ failures ip es + 1 =
        ground (arith, this) in
      let at_ip : bans ip rl (fails ip now ∷ es) ≡ true =
        elim (record_failure-counts rl ip start now h.0.0 h.0.1) [
          | inl banned ↦ ground (arith, banned, eq_iff ip ip)
          | inr (counted, fewer) ↦
              let rest =
                bans-counted (record_failure rl ip now).0 ip start es h.1
                  (omega (arith, counted, enough, now_more)) (omega (arith, counted, fewer)) in
              ground (arith, rest, eq_iff ip ip)
        ] in
      subst (λ o. bans ip rl (fails o now ∷ es) ≡ true) (sym ((eq_iff other ip).0 this)) at_ip
]

few_attempts_after :
    (rl : AuthRateLimiter) (ip : String) (e : Event)
    → length (attempts_of rl ip) < max_auth_attempts
    → length (attempts_of (step rl e) ip) < max_auth_attempts
unfolding step attempts_of record_failure record_success
few_attempts_after rl ip (succeeds other) few =
    ground (arith, few, lookup-delete other ip rl.attempts)
few_attempts_after rl ip (fails other now) few =
    let valid = attempts_after now (attempts_of rl other) ++ (now ∷ []) in
    ground (
      arith,
      few,
      lookup-insert other ip valid rl.attempts,
      lookup-delete other ip (insert other valid rl.attempts),
    )

unfoldable pub run : AuthRateLimiter → List Event → AuthRateLimiter
run rl [] = rl
run rl (e ∷ es) = run (step rl e) es

few_attempts :
    (rl : AuthRateLimiter) (ip : String) (es : List Event)
    → length (attempts_of rl ip) < max_auth_attempts
    → length (attempts_of (run rl es) ip) < max_auth_attempts
unfolding run
few_attempts rl ip [] few = few
few_attempts rl ip (e ∷ es) few = few_attempts (step rl e) ip es (few_attempts_after rl ip e few)

-- Whatever happened before at a new limiter: once an address fails five times within the window,
-- without a success of its own in between and with whatever other addresses do, one of these
-- failures answers that it is banned.
pub bans_lem :
    (ip : String) (start : ℕ) (before es : List Event)
    → All (FallsInto ip start) es
    → max_auth_attempts ≤ failures ip es
    → bans ip (run new_auth_rate_limiter before) es ≡ true
unfolding attempts_of lookup
bans_lem ip start before es h enough =
    let rl = run new_auth_rate_limiter before in
    let few : length (attempts_of rl ip) < max_auth_attempts =
      few_attempts new_auth_rate_limiter ip before (omega arith) in
    bans-counted rl ip start es h (omega (arith, enough))
      (omega (arith, few, count_from-length start (attempts_of rl ip)))
