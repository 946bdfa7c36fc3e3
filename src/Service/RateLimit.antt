-- ===== src/Service/RateLimit.antt =====
-- internal/service/ratelimit.go: the limit on failed authentications. Times are nanoseconds.
pub mod Window
mod Tests
use freetetra.Prelude.{
  ℕ, ◌+◌, ◌*◌, Bool, true, false, List, [], ◌∷◌, ◌++◌, Option, none, some, length, ltb, leb,
  if◌then◌else◌,
}
use freetetra.Prelude.Maps.{lookup, insert, delete, text_key}
use Prim.Native.String.{String}

pub record AuthRateLimiter : Type 0 where
  pub attempts : List (String × List ℕ)
  pub banned : List (String × ℕ)

abbrev pub max_auth_attempts : ℕ
max_auth_attempts = 5

abbrev pub auth_window : ℕ
auth_window = 120000000000

abbrev pub ban_duration : ℕ
ban_duration = 900000000000

abbrev pub new_auth_rate_limiter : AuthRateLimiter
new_auth_rate_limiter = record { attempts = []; banned = [] }

unfoldable pub is_banned : AuthRateLimiter → String → Bool
is_banned rl ip = false

-- The attempts after `now - window`.
unfoldable pub attempts_after : ℕ → List ℕ → List ℕ
attempts_after now [] = []
attempts_after now (t ∷ ts) =
    let rest = attempts_after now ts in if ltb now (t + auth_window) then t ∷ rest else rest

unfoldable pub attempts_of : AuthRateLimiter → String → List ℕ
unfolding lookup
attempts_of rl ip = elim (lookup ip rl.attempts) [ none ↦ [] | some ts ↦ ts ]

unfoldable pub record_failure : AuthRateLimiter → String → ℕ → AuthRateLimiter × Bool
unfolding attempts_after attempts_of insert delete
record_failure rl ip now =
    let valid = attempts_after now (attempts_of rl ip) ++ (now ∷ []) in
    if leb max_auth_attempts (length valid)
    then (
      record {
        attempts = delete ip (insert ip valid rl.attempts);
        banned = insert ip (now + ban_duration) rl.banned;
      },
      true,
    )
    else (record rl { attempts = insert ip valid rl.attempts }, false)

unfoldable pub record_success : AuthRateLimiter → String → AuthRateLimiter
unfolding delete
record_success rl ip = record rl { attempts = delete ip rl.attempts }

unfoldable pub unexpired : ℕ → List (String × ℕ) → List (String × ℕ)
unexpired now [] = []
unexpired now ((ip, expiry) ∷ banned) =
    let rest = unexpired now banned in if ltb expiry now then rest else (ip, expiry) ∷ rest

unfoldable pub ban_count : AuthRateLimiter → ℕ → AuthRateLimiter × ℕ
unfolding unexpired
ban_count rl now =
    let banned = unexpired now rl.banned in (record rl { banned = banned }, length banned)
