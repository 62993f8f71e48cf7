-- ===== src/RateLimit/Bound.antt =====
-- How many requests the script of token_bucket.lua lets through on one key.
use swiftpaste.Prelude.{
  ℕ, ◌+◌, ◌-◌, ◌*◌, ◌≤◌, ◌≡◌, refl, ap, Option, none, some, List, [], ◌∷◌, arith, Bool-cases, inl,
  inr,
}
use swiftpaste.Prelude.Int.{
  ℤ, pos, pos_part, neg_part, ◌+ℤ◌, ◌-ℤ◌, ◌*ℤ◌, ◌≤ℤ◌, ltb_ℤ, int_laws, *ℤ_parts, *ℤ_split,
  *ℤ_nonneg, *ℤ_ge,
}
use swiftpaste.RateLimit.{Bucket, load, refilled, token_bucket}

-- The hash after a run that wrote `written`.
abbrev pub kept : Option Bucket → Option Bucket → Option Bucket
kept none old = old
kept (some b) old = some b

-- A sequence of requests on one key, by the clock value that each brings: the number let through.
unfoldable pub grants : ℤ → ℤ → List ℤ → Option Bucket → ℕ
grants capacity refill_rate [] bucket = 0
grants capacity refill_rate (now ∷ later) bucket =
    let (reply, written) = token_bucket capacity refill_rate now bucket in
    reply + grants capacity refill_rate later (kept written bucket)

abbrev pub AllUpTo : ℤ → List ℤ → Type 0
AllUpTo limit [] = Unit
AllUpTo limit (now ∷ later) = (now ≤ℤ limit) × AllUpTo limit later

module _ (capacity : ℤ) (rate : ℕ) where
  -- A refill fills no further than the capacity, and adds at most the rate times the time passed.
  pub refilled-le :
      (b : Bucket) (now : ℤ)
      → (refilled capacity (pos rate) now b ≤ℤ capacity)
        × (refilled capacity (pos rate) now b ≤ℤ b.tokens +ℤ ((now -ℤ b.last_refill) *ℤ pos rate))
  unfolding refilled
  refilled-le b now = ground arith

  module _ (limit : ℤ) where
    -- What the bucket can still give out until `limit`.
    abbrev pub credit : Bucket → ℤ
    credit b = b.tokens +ℤ ((limit -ℤ b.last_refill) *ℤ pos rate)

    abbrev after : Bucket → ℤ → Bucket
    after b now = record { tokens = refilled capacity (pos rate) now b -ℤ pos 1; last_refill = now }

    -- A run that is let through pays for itself with one token of the credit.
    credit-after :
        (b : Bucket) (now : ℤ)
        → pos 1 ≤ℤ refilled capacity (pos rate) now b
        → (credit (after b now) +ℤ pos 1 ≤ℤ credit b) × (pos 0 ≤ℤ (after b now).tokens)
    credit-after b now h = (
      omega (int_laws, (refilled-le b now).1, *ℤ_split limit b.last_refill now rate),
      omega int_laws,
    )

    pub grants-le-credit :
        (times : List ℤ) (b : Bucket)
        → AllUpTo limit times
        → pos 0 ≤ℤ b.tokens
        → b.last_refill ≤ℤ limit
        → pos (grants capacity (pos rate) times (some b)) ≤ℤ credit b
    unfolding grants token_bucket
    grants-le-credit [] b h t l =
        omega (int_laws, *ℤ_nonneg (limit -ℤ b.last_refill) rate (omega int_laws))
    grants-le-credit (now ∷ later) b h t l =
        elim (Bool-cases (ltb_ℤ (refilled capacity (pos rate) now b) (pos 1))) [
          | inl refused ↦ rw refused (omega (arith, grants-le-credit later b h.1 t l))
          | inr let_in ↦
              let enough : pos 1 ≤ℤ refilled capacity (pos rate) now b = ground arith in
              let paid = credit-after b now enough in
              rw let_in
                (omega (int_laws, paid.0, grants-le-credit later (after b now) h.1 paid.1 h.0))
        ]

-- Once the refill reaches the capacity the bucket is full.
refilled_full :
    (capacity : ℤ) (rate : ℕ) (b : Bucket) (now : ℤ)
    → capacity ≤ℤ b.tokens +ℤ ((now -ℤ b.last_refill) *ℤ pos rate)
    → refilled capacity (pos rate) now b ≡ capacity
unfolding refilled
refilled_full capacity rate b now h = grind int_laws

refilled_new :
    (capacity : ℤ) (rate : ℕ) (now : ℤ)
    → refilled capacity (pos rate) now (record { tokens = capacity; last_refill = now }) ≡ capacity
refilled_new capacity rate now =
    refilled_full capacity rate (record { tokens = capacity; last_refill = now }) now
      (omega (int_laws, *ℤ_nonneg (now -ℤ now) rate (omega int_laws)))

grants_new :
    (capacity rate : ℕ) (first : ℤ) (later : List ℤ)
    → 1 ≤ capacity
    → grants (pos capacity) (pos rate) (first ∷ later) none
      ≡ grants
          (pos capacity)
          (pos rate)
          (first ∷ later)
          (some (record { tokens = pos capacity; last_refill = first }))
unfolding grants token_bucket
grants_new capacity rate first later c = rw (refilled_new (pos capacity) rate first) (ground arith)

-- Whatever the clock values that the requests bring, in any order and up to `limit`, a fresh key lets
-- through at most the capacity and the refill of the time from the first request to `limit`.
pub grants_bound :
    (capacity rate : ℕ) (limit first : ℤ) (later : List ℤ)
    → 1 ≤ capacity
    → AllUpTo limit (first ∷ later)
    → pos (grants (pos capacity) (pos rate) (first ∷ later) none)
      ≤ℤ pos capacity +ℤ ((limit -ℤ first) *ℤ pos rate)
grants_bound capacity rate limit first later c h = rw (grants_new capacity rate first later c) (
    grants-le-credit (pos capacity) rate limit (first ∷ later)
      (record { tokens = pos capacity; last_refill = first }) h (omega arith) h.0)

-- With a capacity and a rate of at least one, and a bucket that is not below zero, a request that
-- comes a second or more after the last one that was let through is let through.
pub wait_is_granted :
    (capacity rate : ℕ) (b : Bucket) (now : ℤ)
    → 1 ≤ capacity
    → 1 ≤ rate
    → pos 0 ≤ℤ b.tokens
    → b.last_refill +ℤ pos 1 ≤ℤ now
    → (token_bucket (pos capacity) (pos rate) now (some b)).0 ≡ 1
unfolding token_bucket refilled
wait_is_granted capacity rate b now c r t h =
    grind (int_laws, *ℤ_ge (now -ℤ b.last_refill) rate (omega arith) (omega int_laws))

-- EXPIRE drops the hash of an idle key. With a capacity of at least one, a bucket that is not below
-- zero, and a refill since its last write that reaches the capacity, the script replies and writes
-- the same with and without the dropped hash.
pub expire_is_harmless :
    (capacity rate : ℕ) (b : Bucket) (now : ℤ)
    → 1 ≤ capacity
    → pos 0 ≤ℤ b.tokens
    → pos capacity ≤ℤ (now -ℤ b.last_refill) *ℤ pos rate
    → token_bucket (pos capacity) (pos rate) now (some b)
      ≡ token_bucket (pos capacity) (pos rate) now none
unfolding token_bucket
expire_is_harmless capacity rate b now c t h =
    rw
      (
        refilled_full (pos capacity) rate b now (omega int_laws),
        refilled_new (pos capacity) rate now,
      )
      (ground arith)

refill_parts :
    (n p capacity rate skew : ℕ)
    → n * 1000 + 3600000 ≤ p * 1000 + 2 * skew
    → 1000 * capacity + 2 * (skew * rate) ≤ 3600000 * rate
    → capacity + n * rate ≤ p * rate
refill_parts n p capacity rate skew apart c =
    let d = p * 1000 + 2 * skew - (n * 1000 + 3600000) in
    let e : n * 1000 + 3600000 + d ≡ p * 1000 + 2 * skew = omega arith in
    omega (arith, ap (λ (t : ℕ). t * rate) e)

-- The refill of an hour, less twice the skew of the clocks, reaches the capacity.
pub hour_refills :
    (now last : ℤ) (capacity rate skew : ℕ)
    → (last *ℤ pos 1000) +ℤ pos 3600000 ≤ℤ (now *ℤ pos 1000) +ℤ pos (2 * skew)
    → 1000 * capacity + 2 * (skew * rate) ≤ 3600000 * rate
    → pos capacity ≤ℤ (now -ℤ last) *ℤ pos rate
hour_refills now last capacity rate skew apart c = omega (
  int_laws,
  *ℤ_parts (now -ℤ last) rate,
  refill_parts (neg_part (now -ℤ last)) (pos_part (now -ℤ last)) capacity rate skew
      (omega (int_laws, *ℤ_parts last 1000, *ℤ_parts now 1000)) c,
)

-- What a run writes: its own time, and no fewer tokens than none.
pub written_bucket :
    (capacity : ℤ) (rate : ℕ) (now : ℤ) (o : Option Bucket) {b : Bucket}
    → (token_bucket capacity (pos rate) now o).1 ≡ some b
    → (b.last_refill ≡ now) × (pos 0 ≤ℤ b.tokens)
unfolding token_bucket
written_bucket capacity rate now o {b} e =
    let tokens = refilled capacity (pos rate) now (load capacity now o) in
    elim (Bool-cases (ltb_ℤ tokens (pos 1))) [
      | inl refused ↦ absurd (cc (rw refused at e))
      | inr let_in ↦
          let enough : pos 1 ≤ℤ tokens = ground arith in
          let same : record { tokens = tokens -ℤ pos 1; last_refill = now } ≡ b =
            some_injective (rw let_in at e) in
          rw (← same) (refl, omega int_laws)
    ]
  where
    some_injective : {x y : Bucket} → some x ≡ some y → x ≡ y
    some_injective h = cc
