-- ===== src/RateLimit/Access.antt =====
-- app/rate_limiter/rate_limiter.py and app/rate_limiter/decorator.py, over the hashes of a Redis.
use swiftpaste.Prelude.{
  ℕ, zero, ◌+◌, ◌*◌, String, ◌≡◌, Option, none, some, if◌then◌else◌, ◌==◌, ltb, str_eq, str_append,
}
use swiftpaste.Prelude.Int.{ℤ, pos}
use swiftpaste.Core.Config.{Settings}
use swiftpaste.Core.Errors.{AppError, Result, ok, err, app}
use swiftpaste.RateLimit.{Bucket, token_bucket}

-- The hashes of Redis, which drops a hash when its time is over: HMGET of the two fields, HSET, and EXPIRE
-- with the seconds that the hash is to live. Times are those of the clock of Redis, in milliseconds. After
-- an HSET with an EXPIRE the hash is there for these seconds, and no other key has changed.
pub record Hashes : Type 1 where
  pub Store : Type 0
  pub hmget : ℕ → String → Store → Option Bucket
  pub hset : String → Bucket → Store → Store
  pub expire : ℕ → String → ℕ → Store → Store
  pub hmget-expire-hset :
      (t seconds u : ℕ) (k j : String) (b : Bucket) (s : Store)
      → hmget u j (expire t k seconds (hset k b s)) ≡ (
          if str_eq k j then (if ltb u (t + 1000 * seconds) then some b else none) else hmget u j s)

-- The clocks at one run of the script: `int(time.time())` of the server, and that of Redis in milliseconds.
pub record Clocks : Type 0 where
  pub server : ℤ
  pub redis : ℕ

-- `given or default`
abbrev pub or_default : Option ℕ → ℕ → ℕ
or_default none default = default
or_default (some zero) default = default
or_default (some n) default = n

-- `f"rate_limit:{user_id}"`
unfoldable pub rate_key : String → String
rate_key user_id = str_append "rate_limit:" user_id

abbrev pub rate_limit_exceeded : AppError
rate_limit_exceeded = record {
  code = "RATE_LIMIT_EXCEEDED";
  message = "Rate Limit Exceeded";
  status_code = 429;
  details = none;
}

module _ (H : Hashes) where
  open H use {Store, hmget, hset, expire}

  -- The registered script, run by Redis as one step.
  unfoldable pub run_script : String → ℤ → ℤ → Clocks → Store → ℕ × Store
  run_script key capacity refill_rate clocks s =
      let (reply, written) =
        token_bucket capacity refill_rate clocks.server (hmget clocks.redis key s) in
      elim written [
        | none ↦ (reply, s)
        | some b ↦ (reply, expire clocks.redis key 3600 (hset key b s))
      ]

  unfoldable pub rate_limiter :
      Settings → Clocks → String → Option ℕ → Option ℕ → Store → Result (Unit {0}) × Store
  unfolding run_script
  rate_limiter settings clocks user_id capacity refill_rate s =
      let (allowed, s') =
        run_script (rate_key user_id) (pos (or_default capacity settings.capacity))
          (pos (or_default refill_rate settings.refill_rate)) clocks s in
      if allowed == 0 then (err (app rate_limit_exceeded), s') else (ok tt, s')

-- `capacity if capacity is not None else settings.CAPACITY`
abbrev pub unless_none : Option ℕ → ℕ → ℕ
unless_none none default = default
unless_none (some n) default = n

-- The caller as the decorator names it: the id of the user, or else the client's host.
abbrev pub caller : Option String → String → String
caller none host = host
caller (some user_id) host = user_id

-- `rate_limit(capacity, refill_rate)` around a handler that works on a state of its own.
module _ {A W : Type 0} (H : Hashes) where
  unfoldable pub rate_limit :
      Settings
      → Clocks
      → Option ℕ
      → Option ℕ
      → Option String
      → String
      → (W → Result A × W)
      → H.Store × W
      → Result A × (H.Store × W)
  rate_limit settings clocks capacity refill_rate user host handler (s, w) =
      let (checked, s') =
        rate_limiter H settings clocks (caller user host)
          (some (unless_none capacity settings.capacity))
          (some (unless_none refill_rate settings.refill_rate)) s in
      elim checked [
        | err e ↦ (err e, (s', w))
        | ok _ ↦ let (result, w') = handler w in (result, (s', w'))
      ]
