-- ===== src/Snippets/Retries.antt =====
-- What `redis_get_with_retry` reads.
use swiftpaste.Prelude.{ℕ, zero, suc, String, ◌≡◌, refl, ◌⊎◌, ◌∙◌, none, inl, inr}
use swiftpaste.Core.Errors.{Failure, Result, ok, err}
use swiftpaste.Snippets.Backend.{Backend, Reply, answer, raised}
use swiftpaste.Snippets.View.{redis_get_with_retry}

pub Reply-cases : {A : Type 0} (r : Reply A) → (r ≡ raised) ⊎ ((a : A) × (r ≡ answer a))
Reply-cases raised = inl refl
Reply-cases (answer a) = inr (a, refl)

pub Result-cases :
    {A : Type 0} (r : Result A) → ((e : Failure) × (r ≡ err e)) ⊎ ((a : A) × (r ≡ ok a))
Result-cases (err e) = inl (e, refl)
Result-cases (ok a) = inr (a, refl)

module _ (B : Backend) where
  open B use {Cache, cached, redis_get}

  pub cached-retry :
      (attempts : ℕ) (key : String) (c : Cache) (j : String)
      → cached (redis_get_with_retry B attempts key c).1 j ≡ cached c j
  unfolding redis_get_with_retry
  cached-retry zero key c j = refl
  cached-retry (suc n) key c j = elim (Reply-cases (redis_get key c).0) [
    | inl down ↦
        rw (down, redis_get_with_retry)
          (cached-retry n key (redis_get key c).1 j ∙ B.cached-redis_get key c j)
    | inr (raw, up) ↦ rw (up, redis_get_with_retry) (B.cached-redis_get key c j)
  ]

  -- The retries give what is cached, or nothing.
  pub retry_reads :
      (attempts : ℕ) (key : String) (c : Cache)
      → ((redis_get_with_retry B attempts key c).0 ≡ none)
        ⊎ ((redis_get_with_retry B attempts key c).0 ≡ cached c key)
  unfolding redis_get_with_retry
  retry_reads zero key c = inl refl
  retry_reads (suc n) key c = elim (Reply-cases (redis_get key c).0) [
    | inl down ↦
        rw (down, redis_get_with_retry) (again down (retry_reads n key (redis_get key c).1))
    | inr (raw, up) ↦ inr (rw (up, redis_get_with_retry) (B.redis_get-answer key c up))
  ]
    where
      again :
          (redis_get key c).0 ≡ raised
          → ((redis_get_with_retry B n key (redis_get key c).1).0 ≡ none)
            ⊎ ((redis_get_with_retry B n key (redis_get key c).1).0
                ≡ cached (redis_get key c).1 key)
          → ((redis_get_with_retry B n key (redis_get key c).1).0 ≡ none)
            ⊎ ((redis_get_with_retry B n key (redis_get key c).1).0 ≡ cached c key)
      again down (inl e) = inl e
      again down (inr e) = inr (e ∙ B.cached-redis_get key c key)

  pub retry_none :
      (attempts : ℕ) (key : String) (c : Cache)
      → cached c key ≡ none
      → (redis_get_with_retry B attempts key c).0 ≡ none
  retry_none attempts key c e = elim (retry_reads attempts key c) [ inl h ↦ h | inr h ↦ h ∙ e ]
