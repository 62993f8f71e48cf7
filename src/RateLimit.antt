-- ===== src/RateLimit.antt =====
-- The rate limiter: app/rate_limiter/token_bucket.lua, rate_limiter.py and decorator.py, with the
-- default settings of app/core/config.py.
pub mod Bound
pub mod Access
pub mod Shared
pub mod Model
mod Tests
use swiftpaste.Prelude.{ℕ, Option, none, some, if◌then◌else◌}
use swiftpaste.Prelude.Int.{ℤ, pos, ◌+ℤ◌, ◌-ℤ◌, ◌*ℤ◌, ltb_ℤ}

-- The hash that the script keeps under one key. Lua's numbers are exact at these sizes.
pub record Bucket : Type 0 where
  pub tokens : ℤ
  pub last_refill : ℤ

-- `math.min`
abbrev pub min_ℤ : ℤ → ℤ → ℤ
min_ℤ a b = if ltb_ℤ b a then b else a

-- HMGET gives no values for a key that is absent; then the bucket is new and full.
unfoldable pub load : ℤ → ℤ → Option Bucket → Bucket
load capacity now none = record { tokens = capacity; last_refill = now }
load capacity now (some b) = b

-- The tokens that are there at the time `now`.
unfoldable pub refilled : ℤ → ℤ → ℤ → Bucket → ℤ
refilled capacity refill_rate now b =
    let elapsed = now -ℤ b.last_refill in
    let refill = elapsed *ℤ refill_rate in min_ℤ capacity (b.tokens +ℤ refill)

-- One run of the script on the hash of its key: the reply, and what HSET writes. A refusal writes
-- nothing.
unfoldable pub token_bucket : ℤ → ℤ → ℤ → Option Bucket → ℕ × Option Bucket
unfolding load refilled
token_bucket capacity refill_rate now bucket =
    let tokens = refilled capacity refill_rate now (load capacity now bucket) in
    if ltb_ℤ tokens (pos 1)
    then (0, none)
    else (1, some (record { tokens = tokens -ℤ pos 1; last_refill = now }))
