-- ===== src/Snippets/Caching.antt =====
-- What `get_snippet_cached` returns and what it leaves in the cache.
use swiftpaste.Prelude.{
  ℕ, suc, String, ◌≡◌, refl, ap, ◌⊎◌, ◌∙◌, sym, true, false, Option, none, some, arith, Bool-cases,
  Option-cases, inl, inr,
}
use swiftpaste.Core.Config.{Settings}
use swiftpaste.Core.Errors.{Result, ok}
use swiftpaste.Jobs.Store.{JobStore}
use swiftpaste.Models.{VisibilityType, private, public, User, SnippetResponse}
use swiftpaste.Snippets.Backend.{Backend, answer}
use swiftpaste.Snippets.Common.{Metrics, World, count_hit, count_miss, count_error, cache_key}
use swiftpaste.Snippets.Retries.{Reply-cases, Result-cases, cached-retry, retry_none}
use swiftpaste.Snippets.View.{
  is_private, snippet_out_view, redis_get_with_retry, store_public, view_uncached,
  get_snippet_cached,
}

some_injective : {A : Type 0} {a b : A} → some a ≡ some b → a ≡ b
some_injective e = cc

public_of : (c : VisibilityType) → is_private c ≡ false → c ≡ public
public_of private e = cc
public_of public e = refl

module _ (B : Backend) (R : JobStore) (settings : Settings) where
  open B use {Db, Cache, Payload, cached, redis_setex, serialize}

  -- A payload under a key is an old one, or a response with a public version.
  abbrev pub IsOldOrPublic : Cache → String → Payload → Type 0
  IsOldOrPublic old j p =
      (cached old j ≡ some p)
      ⊎ ((r : SnippetResponse) × (p ≡ serialize r) × (r.current_version.visibility ≡ public))

  pub cache-store_public :
      (key : String) (r : SnippetResponse) (w : World B R)
      → is_private r.current_version.visibility ≡ false
      → (store_public B R settings key r w).cache
        ≡ (redis_setex key settings.cache_ttl_seconds (serialize r) w.cache).1
  unfolding store_public
  cache-store_public key r w open_ =
      elim (Reply-cases (redis_setex key settings.cache_ttl_seconds (serialize r) w.cache).0) [
        | inl down ↦ rw (open_, down, store_public)
        | inr (a, up) ↦ rw (open_, up, store_public)
      ]

  store_public_private :
      (key : String) (r : SnippetResponse) (w : World B R)
      → is_private r.current_version.visibility ≡ true
      → store_public B R settings key r w ≡ w
  unfolding store_public
  store_public_private key r w shut = rw (shut, store_public)

  store_public_adds :
      (key : String) (r : SnippetResponse) (w : World B R) (j : String) (p : Payload)
      → cached (store_public B R settings key r w).cache j ≡ some p
      → IsOldOrPublic w.cache j p
  store_public_adds key r w j p e = elim (Bool-cases (is_private r.current_version.visibility)) [
    | inl shut ↦ inl (rw (store_public_private key r w shut) at e)
    | inr open_ ↦
        let written = rw (cache-store_public key r w open_) at e in
        elim (B.redis_setex-either key settings.cache_ttl_seconds (serialize r) w.cache j) [
          | inl same ↦ inl (sym same ∙ written)
          | inr new ↦
              inr (
                r,
                some_injective (sym written ∙ new),
                public_of r.current_version.visibility open_,
              )
        ]
  ]

  view_uncached_adds :
      (short_id : String) (version : Option ℕ) (user : Option User) (now : ℕ) (w : World B R)
      (j : String) (p : Payload)
      → cached (view_uncached B R settings short_id version user now w).1.cache j ≡ some p
      → IsOldOrPublic w.cache j p
  unfolding view_uncached
  view_uncached_adds short_id version user now w j p e =
      elim (Result-cases (snippet_out_view B short_id version user now w.db)) [
        | inl (f, failed) ↦ inl (rw (failed, view_uncached) at e)
        | inr (r, viewed) ↦
            store_public_adds (cache_key short_id version) r w j p (rw (viewed, view_uncached) at e)
      ]

  store_public_keeps :
      (key : String) (r : SnippetResponse) (w : World B R)
      → ((store_public B R settings key r w).db ≡ w.db)
        × ((store_public B R settings key r w).metrics.cache_miss ≡ w.metrics.cache_miss)
  unfolding store_public
  store_public_keeps key r w = ground arith

  uncached_view :
      (short_id : String) (version : Option ℕ) (user : Option User) (now : ℕ) (w : World B R)
      → let (result, w') = view_uncached B R settings short_id version user now w in
        (result ≡ snippet_out_view B short_id version user now w.db)
        × (w'.db ≡ w.db)
        × (w'.metrics.cache_miss ≡ w.metrics.cache_miss)
  unfolding view_uncached
  uncached_view short_id version user now w =
      elim (Result-cases (snippet_out_view B short_id version user now w.db)) [
        | inl (f, failed) ↦ rw (failed, view_uncached) (refl, refl, refl)
        | inr (r, viewed) ↦
            let kept = store_public_keeps (cache_key short_id version) r w in
            rw (viewed, view_uncached) (refl, kept.0, kept.1)
      ]

  module _ (short_id : String) (version : Option ℕ) (user : Option User) (now : ℕ)
      (w : World B R) where
    -- The world after the read from the cache.
    abbrev pub after_read : Metrics → World B R
    after_read m = record w {
      cache = (redis_get_with_retry B 2 (cache_key short_id version) w.cache).1;
      metrics = m;
    }

    -- A call returns what it decodes, or views the snippet.
    read_cases :
        ((r : SnippetResponse) × (m : Metrics) × (get_snippet_cached B R settings short_id version
              user now w
            ≡ (ok r, after_read m)))
        ⊎ ((m : Metrics) × (get_snippet_cached B R settings short_id version user now w
              ≡ view_uncached B R settings short_id version user now (after_read m)))
    unfolding get_snippet_cached
    read_cases =
        elim (Option-cases (redis_get_with_retry B 2 (cache_key short_id version) w.cache).0) [
          | inl nothing ↦ inr (count_miss w.metrics, rw (nothing, get_snippet_cached))
          | inr (payload, raw) ↦ elim (Bool-cases (B.is_truthy payload)) [
            | inr empty ↦ inr (count_miss w.metrics, rw (raw, empty, get_snippet_cached))
            | inl full ↦ elim (Option-cases (B.deserialize payload)) [
              | inl broken ↦
                  inr
                    (count_error (count_hit w.metrics), rw (raw, full, broken, get_snippet_cached))
              | inr (r, decoded) ↦
                  inl (r, count_hit w.metrics, rw (raw, full, decoded, get_snippet_cached))
            ]
          ]
        ]

    pub cached_or_viewed :
        ((r : SnippetResponse) × ((get_snippet_cached B R settings short_id version user now w).0
            ≡ ok r))
        ⊎ ((get_snippet_cached B R settings short_id version user now w).0
            ≡ snippet_out_view B short_id version user now w.db)
    cached_or_viewed = elim read_cases [
      | inl (r, m, hit) ↦ inl (r, ap (λ (p : Result SnippetResponse × World B R). p.0) hit)
      | inr (m, miss) ↦ inr (
          ap (λ (p : Result SnippetResponse × World B R). p.0) miss
          ∙ (uncached_view short_id version user now (after_read m)).0)
    ]

    pub read_keeps_db : (get_snippet_cached B R settings short_id version user now w).1.db ≡ w.db
    read_keeps_db = elim read_cases [
      | inl (r, m, hit) ↦ ap (λ (p : Result SnippetResponse × World B R). p.1.db) hit
      | inr (m, miss) ↦
          ap (λ (p : Result SnippetResponse × World B R). p.1.db) miss
          ∙ (uncached_view short_id version user now (after_read m)).1
    ]

    missed :
        cached w.cache (cache_key short_id version) ≡ none
        → get_snippet_cached B R settings short_id version user now w
          ≡ view_uncached B R settings short_id version user now (after_read (count_miss w.metrics))
    unfolding get_snippet_cached
    missed nothing =
        rw (retry_none B 2 (cache_key short_id version) w.cache nothing, get_snippet_cached)

    -- Whatever Redis answers or raises, a read leaves no payload in the cache but those that were there
    -- and responses with a public version.
    pub read_caches_public :
        (j : String) (p : Payload)
        → cached (get_snippet_cached B R settings short_id version user now w).1.cache j ≡ some p
        → IsOldOrPublic w.cache j p
    read_caches_public j p e = elim read_cases [
      | inl (r, m, hit) ↦
          inl (sym (cached-retry B 2 (cache_key short_id version) w.cache j) ∙ (rw hit at e))
      | inr (m, miss) ↦
          elim (view_uncached_adds short_id version user now (after_read m) j p (rw miss at e)) [
            | inl old ↦ inl (sym (cached-retry B 2 (cache_key short_id version) w.cache j) ∙ old)
            | inr new ↦ inr new
          ]
    ]

    -- With nothing cached under its key, a read returns what the view returns, errors included, and
    -- counts one miss.
    pub read_through :
        cached w.cache (cache_key short_id version) ≡ none
        → let (result, w') = get_snippet_cached B R settings short_id version user now w in
          (result ≡ snippet_out_view B short_id version user now w.db)
          × (w'.db ≡ w.db)
          × (w'.metrics.cache_miss ≡ suc w.metrics.cache_miss)
    read_through nothing =
        rw (missed nothing)
          (uncached_view short_id version user now (after_read (count_miss w.metrics)))

    -- Where Redis answers with a cached response, that is what a read returns: to every user, at every
    -- time, and whatever the database holds.
    pub hit_ignores_access :
        (r : SnippetResponse) {v : Option Payload}
        → cached w.cache (cache_key short_id version) ≡ some (serialize r)
        → (B.redis_get (cache_key short_id version) w.cache).0 ≡ answer v
        → (get_snippet_cached B R settings short_id version user now w).0 ≡ ok r
    unfolding get_snippet_cached redis_get_with_retry
    hit_ignores_access r {v} there up =
        let raw : v ≡ some (serialize r) = B.redis_get-answer _ w.cache up ∙ there in
        rw (
          up,
          raw,
          B.is_truthy-serialize r,
          B.deserialize-serialize r,
          get_snippet_cached,
          redis_get_with_retry,
        )
