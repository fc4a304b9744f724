-- ===== src/Tests/RateLimit.antt =====
-- Instances of the theorems on the token bucket: 16 admissions, and 16 an hour from then on.
use nostr_swarm.Util.RateLimit.Bounds.{rate_is_limited, bucket, run_requests}
use nostr_swarm.Util.RateLimit.{TokenBucket}
use nostr_swarm.Base.{◌+◌, ◌-◌, ◌*◌, ◌≤◌, [], ◌∷◌, arith}

-- A token has 3600000 parts, of which 16 come back each millisecond.
abbrev admissions : TokenBucket
admissions = bucket 57600000 0 57600000 16 3600000

rate_is_limited_example :
    (run_requests (bucket 57600000 0 57600000 16 3600000) (0 ∷ 10 ∷ 5000 ∷ [])).1 * 3600000
    ≤ 57600000 + (6000 - 0) * 16
rate_is_limited_example =
    rate_is_limited 57600000 0 57600000 16 3600000 6000 (0 ∷ 10 ∷ 5000 ∷ [])
      (omega arith, (omega arith, (omega arith, omega arith)))
