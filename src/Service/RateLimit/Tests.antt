-- ===== src/Service/RateLimit/Tests.antt =====
-- internal/service/ratelimit.go: the theorem at concrete failures.
use freetetra.Prelude.{◌≡◌, refl, arith, true, false, List, [], ◌∷◌}
use freetetra.Prelude.Maps.{text_key}
use freetetra.Service.RateLimit.{new_auth_rate_limiter, is_banned}
use freetetra.Service.RateLimit.Window.{Event, fails, succeeds, run, bans, failures, bans_lem}

abbrev before : List Event
before = fails "a" 1 ∷ succeeds "a" ∷ []

abbrev events : List Event
events =
    fails "a" 100
    ∷ fails "a" 101
    ∷ succeeds "b"
    ∷ fails "a" 102
    ∷ fails "b" 103
    ∷ fails "a" 104
    ∷ fails "a" 105
    ∷ []

five : failures "a" events ≡ 5
unfolding failures
five = refl

bans_lem_example : bans "a" (run new_auth_rate_limiter before) events ≡ true
bans_lem_example =
    bans_lem "a" 100 before events
      (
        (omega arith, omega arith),
        (
          (omega arith, omega arith),
          (
            refl,
            (
              (omega arith, omega arith),
              (
                (omega arith, omega arith),
                ((omega arith, omega arith), ((omega arith, omega arith), tt)),
              ),
            ),
          ),
        ),
      )
      (omega (arith, five))

-- The answer is true, and yet the address is not refused.
not_refused : is_banned (run new_auth_rate_limiter events) "a" ≡ false
unfolding is_banned
not_refused = refl
