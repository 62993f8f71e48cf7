-- ===== src/RateLimit/Shared.antt =====
-- Callers share the store and not their buckets: what one caller is granted does not depend on the
-- others, and is bounded as for a key alone, whose hash is never dropped.
use native.Mathlib.Nat.{zero-add}
use swiftpaste.Prelude.{
  ℕ, ◌+◌, ◌*◌, ◌≤◌, String, ◌≡◌, refl, ◌∙◌, sym, ap, false, ltb, Option, none, some, List, [], ◌∷◌,
  arith, str_eq, eq_iff, if◌then◌else◌, Bool-cases, Option-cases, inl, inr,
}
use text.Mathlib.TextPositions.{eq_refl}
use swiftpaste.Prelude.Int.{ℤ, pos, ◌+ℤ◌, ◌-ℤ◌, ◌*ℤ◌, ◌≤ℤ◌, int_laws}
use swiftpaste.Prelude.Text.{str_eq-str_append}
use swiftpaste.Core.Config.{Settings}
use swiftpaste.Core.Errors.{Result, ok, err}
use swiftpaste.RateLimit.{Bucket, token_bucket}
use swiftpaste.RateLimit.Bound.{
  grants, kept, AllUpTo, grants_bound, expire_is_harmless, hour_refills, written_bucket,
}
use swiftpaste.RateLimit.Access.{Hashes, Clocks, rate_key, or_default, run_script, rate_limiter}

-- The clocks at one caller's requests, and the values that the servers bring.
abbrev pub clocks_of : String → List (String × Clocks) → List Clocks
clocks_of caller [] = []
clocks_of caller ((id, clocks) ∷ later) =
    if str_eq id caller then clocks ∷ clocks_of caller later else clocks_of caller later

abbrev pub server_times : List Clocks → List ℤ
server_times [] = []
server_times (c ∷ later) = c.server ∷ server_times later

-- The clock of the server, in milliseconds, is at most `skew` before or after that of Redis.
abbrev pub IsNear : ℕ → Clocks → Type 0
IsNear skew c =
    (c.server *ℤ pos 1000 ≤ℤ pos (c.redis + skew))
    × (pos c.redis ≤ℤ (c.server *ℤ pos 1000) +ℤ pos skew)

abbrev pub AllNear : ℕ → List Clocks → Type 0
AllNear skew [] = Unit
AllNear skew (c ∷ later) = IsNear skew c × AllNear skew later

rate_key_eq : (a b : String) → str_eq (rate_key a) (rate_key b) ≡ str_eq a b
unfolding rate_key
rate_key_eq a b = str_eq-str_append "rate_limit:" a b

abbrev granted : Result (Unit {0}) → ℕ
granted (ok _) = 1
granted (err _) = 0

-- The script touches no other key.
hmget-run_script :
    (H : Hashes) (key j : String) (capacity refill_rate : ℤ) (c : Clocks) (s : H.Store) (u : ℕ)
    → str_eq key j ≡ false
    → H.hmget u j (run_script H key capacity refill_rate c s).1 ≡ H.hmget u j s
unfolding run_script
hmget-run_script H key j capacity refill_rate c s u other =
    elim (Option-cases (token_bucket capacity refill_rate c.server (H.hmget c.redis key s)).1) [
      | inl e ↦ rw (e, run_script) refl
      | inr (b, e) ↦
          rw (e, run_script) (H.hmget-expire-hset c.redis 3600 u key j b s ∙ rw other refl)
    ]

-- Under the key, Redis shows the bucket `g` until it drops it, which it does no sooner than an hour after
-- the last write, less the skew.
abbrev pub Shows : (H : Hashes) → ℕ → String → Option Bucket → H.Store → Type 0
Shows H skew key none s = (u : ℕ) → H.hmget u key s ≡ none
Shows H skew key (some b) s =
    (end : ℕ) × ((u : ℕ) → H.hmget u key s ≡ (if ltb u end then some b else none))
    × ((b.last_refill *ℤ pos 1000) +ℤ pos 3600000 ≤ℤ pos (end + skew))
    × (pos 0 ≤ℤ b.tokens)

module _ (H : Hashes) (capacity rate skew : ℕ) (key : String) where
  -- A hash that has been dropped makes no difference to the script.
  same_run :
      (g : Option Bucket) (s : H.Store) (c : Clocks)
      → 1 ≤ capacity
      → 1000 * capacity + 2 * (skew * rate) ≤ 3600000 * rate
      → Shows H skew key g s
      → IsNear skew c
      → token_bucket (pos capacity) (pos rate) c.server (H.hmget c.redis key s)
        ≡ token_bucket (pos capacity) (pos rate) c.server g
  same_run none s c one hour shown near = rw (shown c.redis) refl
  same_run (some b) s c one hour (end, shown, late, tokens) near =
      elim (Bool-cases (ltb c.redis end)) [
        | inl there ↦ rw (shown c.redis) (rw there refl)
        | inr dropped ↦ rw (shown c.redis) (
            rw dropped (
              sym (
                expire_is_harmless capacity rate b c.server one tokens (
                  hour_refills c.server b.last_refill capacity rate skew
                    (apart b c (ground (arith, dropped)) late near) hour))))
      ]
    where
      apart :
          (b : Bucket) (c : Clocks) {end : ℕ}
          → end ≤ c.redis
          → (b.last_refill *ℤ pos 1000) +ℤ pos 3600000 ≤ℤ pos (end + skew)
          → IsNear skew c
          → (b.last_refill *ℤ pos 1000) +ℤ pos 3600000 ≤ℤ (c.server *ℤ pos 1000) +ℤ pos (2 * skew)
      apart b c after late near = omega int_laws

  -- Redis goes on showing what the script leaves of the bucket.
  Shows-run_script :
      (g : Option Bucket) (s : H.Store) (c : Clocks)
      → token_bucket (pos capacity) (pos rate) c.server (H.hmget c.redis key s)
        ≡ token_bucket (pos capacity) (pos rate) c.server g
      → Shows H skew key g s
      → IsNear skew c
      → Shows H skew key
          (kept (token_bucket (pos capacity) (pos rate) c.server g).1 g)
          (run_script H key (pos capacity) (pos rate) c s).1
  unfolding run_script
  Shows-run_script g s c same shown near =
      elim (Option-cases (token_bucket (pos capacity) (pos rate) c.server g).1) [
        | inl refused ↦ rw (same, run_script) (rw (refused, run_script) shown)
        | inr (b, wrote) ↦
            let new_ = written_bucket (pos capacity) rate c.server g wrote in
            rw (same, run_script)
              (rw (wrote, run_script)
                (
                  c.redis + 3600000,
                  λ u. H.hmget-expire-hset c.redis 3600 u key key b s ∙ rw (eq_refl key) refl,
                  rw new_.0 (omega (int_laws, near.0)),
                  new_.1,
                ))
      ]

  Shows-same :
      (g : Option Bucket) (s s' : H.Store)
      → ((u : ℕ) → H.hmget u key s' ≡ H.hmget u key s)
      → Shows H skew key g s
      → Shows H skew key g s'
  Shows-same none s s' same shown = λ u. same u ∙ shown u
  Shows-same (some b) s s' same (end, shown, late, tokens) =
      (end, λ u. same u ∙ shown u, late, tokens)

module _ (H : Hashes) (settings : Settings) (capacity refill_rate : Option ℕ) where
  -- All callers' requests in the order in which Redis runs the script; how many of one caller's pass.
  pub admitted : String → List (String × Clocks) → H.Store → ℕ
  admitted caller [] s = 0
  admitted caller ((id, clocks) ∷ later) s =
      let (checked, s') = rate_limiter H settings clocks id capacity refill_rate s in
      (if str_eq id caller then granted checked else 0) + admitted caller later s'

  abbrev pub the_capacity : ℕ
  the_capacity = or_default capacity settings.capacity

  abbrev pub the_rate : ℕ
  the_rate = or_default refill_rate settings.refill_rate

  -- One call of the limiter is one run of the script on the caller's own hash.
  granted-rate_limiter :
      (c : Clocks) (id : String) (s : H.Store)
      → granted (rate_limiter H settings c id capacity refill_rate s).0
        ≡ (token_bucket
            (pos the_capacity)
            (pos the_rate)
            c.server
            (H.hmget c.redis (rate_key id) s)).0
  unfolding rate_limiter token_bucket
  granted-rate_limiter c id s = ground arith

  store-rate_limiter :
      (c : Clocks) (id : String) (s : H.Store)
      → (rate_limiter H settings c id capacity refill_rate s).1
        ≡ (run_script H (rate_key id) (pos the_capacity) (pos the_rate) c s).1
  unfolding rate_limiter
  store-rate_limiter c id s = ground arith

  module _ (skew : ℕ) (one : 1 ≤ the_capacity)
      (hour : 1000 * the_capacity + 2 * (skew * the_rate) ≤ 3600000 * the_rate) where
    admitted-grants :
        (caller : String) (visits : List (String × Clocks)) (s : H.Store) (g : Option Bucket)
        → Shows H skew (rate_key caller) g s
        → AllNear skew (clocks_of caller visits)
        → admitted caller visits s
          ≡ grants (pos the_capacity) (pos the_rate) (server_times (clocks_of caller visits)) g
    unfolding admitted grants
    admitted-grants caller [] s g shown near = refl
    admitted-grants caller ((id, c) ∷ later) s g shown near =
        let s' = (rate_limiter H settings c id capacity refill_rate s).1 in
        elim (Bool-cases (str_eq id caller)) [
          | inl same ↦
              let e : id ≡ caller = (eq_iff id caller).0 same in
              let near' : IsNear skew c × AllNear skew (clocks_of caller later) = rw same at near in
              let run =
                same_run H the_capacity the_rate skew (rate_key caller) g s c one hour shown
                  near'.0 in
              let stored : s'
                  ≡ (run_script H (rate_key caller) (pos the_capacity) (pos the_rate) c s).1 =
                store-rate_limiter c id s ∙ rw e refl in
              let passes : granted (rate_limiter H settings c id capacity refill_rate s).0
                  ≡ (token_bucket (pos the_capacity) (pos the_rate) c.server g).0 =
                cc (granted-rate_limiter c id s, e, run) in
              let shown' =
                Shows-run_script H the_capacity the_rate skew (rate_key caller) g s c run shown
                  near'.0 in
              let rest = admitted-grants caller later s' _ (rw stored shown') near'.1 in
              rw (same, passes, rest) refl
          | inr other ↦
              let rest =
                admitted-grants caller later s' g
                  (Shows-same H the_capacity the_rate skew (rate_key caller) g s s'
                    (λ u.
                      ap (H.hmget u (rate_key caller)) (store-rate_limiter c id s)
                      ∙ hmget-run_script H (rate_key id) (rate_key caller) (pos the_capacity)
                          (pos the_rate) c s u (rate_key_eq id caller ∙ other))
                    shown)
                  (rw other at near) in
              rw (other, rest) (zero-add _)
        ]

    -- With a capacity of at least one, clocks of the servers that are at most `skew` milliseconds away from
    -- that of Redis at the caller's requests, and a refill that makes up for the capacity within an hour less
    -- twice the skew, so that it does not matter that a bucket expires after an hour: whatever the other
    -- callers do, a caller without a bucket passes at most the capacity and the refill of the time from the
    -- caller's first request to `limit`, which none of the caller's clock values exceeds.
    pub admitted_bound :
        (caller : String) (visits : List (String × Clocks)) (s : H.Store) (limit : ℤ)
        (first : Clocks) (later : List Clocks)
        → ((u : ℕ) → H.hmget u (rate_key caller) s ≡ none)
        → clocks_of caller visits ≡ first ∷ later
        → AllNear skew (first ∷ later)
        → AllUpTo limit (server_times (first ∷ later))
        → pos (admitted caller visits s)
          ≤ℤ pos the_capacity +ℤ ((limit -ℤ first.server) *ℤ pos the_rate)
    admitted_bound caller visits s limit first later fresh own near h =
        rw (admitted-grants caller visits s none fresh (rw own near)) (
          rw own (grants_bound the_capacity the_rate limit first.server (server_times later) one h))
