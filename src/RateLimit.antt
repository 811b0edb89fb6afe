-- ===== src/RateLimit.antt =====
-- The token bucket that instances share (`tokenBucketScript` of
-- internal/middleware/ratelimit_redis.go). A rate is a fraction of two numbers, such as 1 over 5 for
-- one request in five seconds; times are nanoseconds, and tokens are counted in parts of which
-- `one_token` make a token, so that what the script computes in seconds and tokens is whole. The
-- rounding of floating point is left out. The clock by which keys expire is the one of the argument.
pub mod Bound
use stora_ecommerce.Prelude.{
  ℕ, zero, suc, ◌+◌, ◌-◌, ◌*◌, Bool, true, false, Option, none, some, List, [], ◌∷◌, ltb, leb,
  if◌then◌else◌,
}
use Prim.Native.Nat.{◌/◌}
use stora_ecommerce.Effect.{Result, ok, err}

-- The hash under a key, and when it expires.
pub record Bucket : Type 0 where
  pub tokens : ℕ
  pub ts : ℕ
  pub expires : ℕ

abbrev pub unit : ℕ
unit = 1000000000

-- `ARGV`: tokens per second as a fraction, and the capacity.
pub record Limit : Type 0 where
  pub rate : ℕ
  pub per : ℕ
  pub capacity : ℕ

abbrev pub one_token : Limit → ℕ
one_token l = l.per * unit

abbrev pub full : Limit → ℕ
full l = l.capacity * l.per * unit

-- `math.min(capacity, tokens + delta * rate)`
abbrev pub refilled : Limit → ℕ → Bucket → ℕ
refilled l now b =
    let tokens = b.tokens + (now - b.ts) * l.rate in if ltb tokens (full l) then tokens else full l

-- `math.ceil(capacity / rate) + 10` seconds, or an hour.
abbrev pub seconds : ℕ → ℕ → ℕ
seconds zero capacity = 3600
seconds (suc r) capacity = (capacity + r) / suc r + 10

abbrev pub lifetime : Limit → ℕ
lifetime l = seconds l.rate (l.capacity * l.per) * unit

-- The tokens that a call finds.
abbrev pub found : Limit → ℕ → Option Bucket → ℕ
found l now none = full l
found l now (some b) = if leb b.expires now then full l else refilled l now b

abbrev pub written : Limit → ℕ → ℕ → Bucket
written l now tokens = record { tokens = tokens; ts = now; expires = now + lifetime l }

-- One run of the script.
unfoldable pub take_token : Limit → ℕ → Option Bucket → Bool × Bucket
take_token l now b =
    let tokens = found l now b in
    if leb (one_token l) tokens
    then (true, written l now (tokens - one_token l))
    else (false, written l now tokens)

-- `redisStore.allow`: an error of Redis lets the request pass.
abbrev pub allow : Result Bool → Bool
allow (ok taken) = taken
allow (err e) = true

-- How many of the requests at these times are let through, and the bucket at the end.
unfoldable pub admitted : Limit → List ℕ → Option Bucket → ℕ × Option Bucket
admitted l [] b = (0, b)
admitted l (now ∷ times) b =
    let (taken, b') = take_token l now b in
    let (n, end) = admitted l times (some b') in (n + (if taken then 1 else 0), end)
