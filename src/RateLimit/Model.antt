-- ===== src/RateLimit/Model.antt =====
-- The hashes of a Redis in memory, each with the time at which it is dropped; a hash that HSET has made
-- stays until EXPIRE gives it a time.
use swiftpaste.Prelude.{
  ℕ, ◌+◌, ◌*◌, String, ◌≡◌, refl, Option, none, some, ltb, str_eq, if◌then◌else◌, Bool-cases, inl,
  inr,
}
use swiftpaste.RateLimit.{Bucket}
use swiftpaste.RateLimit.Access.{Hashes}

-- No time is `none`.
abbrev pub Memory : Type 0
Memory = String → Option (Bucket × Option ℕ)

abbrev pub read : ℕ → Option (Bucket × Option ℕ) → Option Bucket
read u none = none
read u (some (b, none)) = some b
read u (some (b, some end)) = if ltb u end then some b else none

abbrev pub with_end : ℕ → Option (Bucket × Option ℕ) → Option (Bucket × Option ℕ)
with_end end none = none
with_end end (some (b, old)) = some (b, some end)

abbrev pub set : String → Bucket → Memory → Memory
set k b s j = if str_eq k j then some (b, none) else s j

abbrev pub live_for : ℕ → String → ℕ → Memory → Memory
live_for t k seconds s j = if str_eq k j then with_end (t + 1000 * seconds) (s j) else s j

pub read-live_for :
    (t seconds u : ℕ) (k j : String) (b : Bucket) (s : Memory)
    → read u (live_for t k seconds (set k b s) j)
      ≡ (if str_eq k j then (if ltb u (t + 1000 * seconds) then some b else none) else read u (s j))
read-live_for t seconds u k j b s = elim (Bool-cases (str_eq k j)) [
  | inl same ↦ rw same refl
  | inr other ↦ rw other refl
]

abbrev pub hashes : Hashes
hashes = record {
  Store = Memory;
  hmget = λ u k s. read u (s k);
  hset = set;
  expire = live_for;
  hmget-expire-hset = read-live_for;
}
