-- ===== src/Routes/Limited.antt =====
-- The routes of a caller whose bucket is empty.
use swiftpaste.Prelude.{ℕ, zero, suc, String, ◌≡◌, refl, ◌∙◌, ap, arith, true, Option, none, some}
use swiftpaste.Prelude.Int.{ℤ, pos, ltb_ℤ, ◌+ℤ◌, ◌-ℤ◌, ◌*ℤ◌, ◌≤ℤ◌}
use swiftpaste.Core.Config.{Settings}
use swiftpaste.Core.Errors.{Result, err, app, ErrorResponse, handle}
use swiftpaste.RateLimit.{Bucket, refilled, token_bucket}
use swiftpaste.RateLimit.Bound.{refilled-le}
use swiftpaste.RateLimit.Access.{
  Hashes, Clocks, rate_key, or_default, rate_limit_exceeded, run_script, rate_limiter, caller,
  unless_none, rate_limit,
}
use swiftpaste.Jobs.Store.{JobStore}
use swiftpaste.Models.{User, SnippetCreate, SnippetUpdate, SnippetOut}
use swiftpaste.Snippets.Backend.{Backend}
use swiftpaste.Snippets.Common.{World}
use swiftpaste.Snippets.Create.{Draw}
use swiftpaste.Routes.{Request, failure, user_id, limited, create, update, delete, share}

-- A bucket that is there, and has less than one token even with the refill.
token_bucket-refused :
    (capacity : ℤ) (rate : ℕ) (now : ℤ) (b : Bucket)
    → b.tokens +ℤ ((now -ℤ b.last_refill) *ℤ pos rate) ≤ℤ pos 0
    → token_bucket capacity (pos rate) now (some b) ≡ (0, none)
unfolding token_bucket
token_bucket-refused capacity rate now b none_left =
    let low : ltb_ℤ (refilled capacity (pos rate) now b) (pos 1) ≡ true =
      ground (arith, refilled-le capacity rate b now, none_left) in
    rw (low, token_bucket) refl

or_default-same : (n : ℕ) → or_default (some n) n ≡ n
or_default-same zero = refl
or_default-same (suc n) = refl

module _ (H : Hashes) (settings : Settings) where
  -- Redis shows a bucket of the caller, and its tokens with the refill of the time since the last request
  -- that was let through are none.
  abbrev pub IsEmpty : H.Store → String → ℕ → Clocks → Type 0
  IsEmpty s id rate clocks =
      (b : Bucket) × (H.hmget clocks.redis (rate_key id) s ≡ some b)
      × (b.tokens +ℤ ((clocks.server -ℤ b.last_refill) *ℤ pos rate) ≤ℤ pos 0)

  refused-rate_limiter :
      (clocks : Clocks) (id : String) (capacity rate : Option ℕ) (s : H.Store)
      → IsEmpty s id (or_default rate settings.refill_rate) clocks
      → rate_limiter H settings clocks id capacity rate s ≡ (err (app rate_limit_exceeded), s)
  unfolding rate_limiter run_script
  refused-rate_limiter clocks id capacity rate s (b, there, none_left) =
      let refused =
        ap
          (token_bucket (pos (or_default capacity settings.capacity))
            (pos (or_default rate settings.refill_rate)) clocks.server)
          there
        ∙ token_bucket-refused (pos (or_default capacity settings.capacity))
            (or_default rate settings.refill_rate) clocks.server b none_left in
      rw (refused, rate_limiter, run_script) (rw refused refl)

module _ (H : Hashes) (B : Backend) (R : JobStore) (settings : Settings) where
  refused-limited :
      {A : Type 0} (q : Request) (capacity rate : Option ℕ) (user : Option User) (status : ℕ)
      (handler : World B R → Result A × World B R) (s : H.Store) (w : World B R)
      → IsEmpty H settings s
          (caller (user_id user) q.host)
          (or_default (some (unless_none rate settings.refill_rate)) settings.refill_rate)
          q.clock
      → limited H B R settings q capacity rate user status handler (s, w)
        ≡ (failure (handle q.request_id (app rate_limit_exceeded)), (s, w))
  unfolding limited rate_limit
  refused-limited q capacity rate user status handler s w empty =
      let refused =
        refused-rate_limiter H settings q.clock (caller (user_id user) q.host)
          (some (unless_none capacity settings.capacity))
          (some (unless_none rate settings.refill_rate)) s empty in
      rw (refused, limited, rate_limit)
        (rw (ap (λ (p : Result (Unit {0}) × H.Store). p.1) refused) refl)

  -- A user has a bucket in Redis whose tokens, with the refill under the settings, are none at the time of
  -- the request. The routes that create, update, delete and share answer it with 429, whatever they are
  -- asked and whatever the capacity is, and nothing changes.
  pub empty_bucket_refuses :
      (q : Request) (user : User) (s : H.Store) (w : World B R)
      → IsEmpty H settings s user.id settings.refill_rate q.clock
      → let refusal : ErrorResponse = record {
        status = 429;
        code = "RATE_LIMIT_EXCEEDED";
        message = "Rate Limit Exceeded";
        details = none;
        request_id = q.request_id;
      } in
        ((payload : SnippetCreate) (uuid : String) (now : ℕ) (first second : Draw)
          → create H B R settings q payload user uuid now first second (s, w)
            ≡ (failure refusal, (s, w)))
        × ((id : String) (payload : SnippetUpdate)
            → update H B R settings q id payload user (s, w) ≡ (failure refusal, (s, w)))
        × ((id uuid : String) (now : ℕ)
            → delete H B R settings q id user uuid now (s, w) ≡ (failure refusal, (s, w)))
        × ((id : String) (version : Option ℕ) (payload : SnippetOut) (now : ℕ)
            → share H B R settings q id version payload user now (s, w) ≡ (failure refusal, (s, w)))
  unfolding create update delete share
  empty_bucket_refuses q user s w empty =
      let shut : IsEmpty H settings s user.id
          (or_default (some settings.refill_rate) settings.refill_rate) q.clock =
        rw (or_default-same settings.refill_rate) empty in
      (
        λ payload uuid now first second. refused-limited q none none (some user) 201 _ s w shut,
        λ id payload. refused-limited q none none (some user) 200 _ s w shut,
        λ id uuid now. refused-limited q none none (some user) 204 _ s w shut,
        λ id version payload now. refused-limited q none none (some user) 201 _ s w shut,
      )
