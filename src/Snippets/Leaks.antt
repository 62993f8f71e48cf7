-- ===== src/Snippets/Leaks.antt =====
-- What an update of the title alone leaves in the cache.
use text.Mathlib.TextPositions.{eq_refl}
use swiftpaste.Prelude.{ℕ, String, ◌≡◌, refl, ◌∙◌, ap, false, Option, none, some}
use swiftpaste.Core.Config.{Settings}
use swiftpaste.Core.Errors.{Result, ok, err, app}
use swiftpaste.Jobs.Store.{JobStore}
use swiftpaste.Models.{
  private, Snippet, SnippetVersion, User, model_dump, set_title, SnippetResponse,
}
use swiftpaste.Snippets.Backend.{Backend, answer}
use swiftpaste.Snippets.Common.{World, select_owned, with_content, cache_key}
use swiftpaste.Snippets.View.{access_restriction, snippet_out_view, get_snippet_cached}
use swiftpaste.Snippets.Caching.{hit_ignores_access}
use swiftpaste.Snippets.Update.{content_changed, refresh_cache, update_snippet}
use swiftpaste.Snippets.Versions.{owned_live, kept, by_short_id-change}
use swiftpaste.Snippets.Updates.{restricted, live_found}

module _ (B : Backend) (R : JobStore) (settings : Settings) where
  open B use {
    Db, by_id, by_short_id, version_row, update_snippet_row, cached, serialize, redis_setex,
  }

  -- An author's update that changes only the title of a private snippet writes the snippet into the
  -- cache. Where Redis takes the write and answers reads, a caller with no user then reads its
  -- content, which the view refuses.
  pub title_update_leaks :
      (title secret : String) (user : User) (w : World B R) (x : Snippet) (current : SnippetVersion)
      (now : ℕ)
      → select_owned B w.db x.id user ≡ some x
      → version_row w.db x.id x.version_counter ≡ some current
      → by_short_id w.db x.short_id ≡ some x
      → current.visibility ≡ private
      → current.content ≡ some secret
      → ((p : B.Payload) (c : B.Cache)
          → (redis_setex (cache_key x.short_id none) settings.cache_ttl_seconds p c).0 ≡ answer tt)
      → ((c : B.Cache)
          → (v : Option B.Payload) × ((B.redis_get (cache_key x.short_id none) c).0 ≡ answer v))
      → let (_, w') =
          update_snippet B R settings x.id
            (model_dump (record { title = some title; content = some secret }))
            user
            w in
        (snippet_out_view B x.short_id none none now w'.db ≡ err (app access_restriction))
        × ((r : SnippetResponse) × ((get_snippet_cached B R settings x.short_id none none now w').0
              ≡ ok r)
            × (r.current_version.content ≡ secret))
  unfolding refresh_cache
  title_update_leaks title secret user w x current now owned at short hidden has writes reads =
      let same : content_changed (some (some secret)) current.content ≡ false = rw (has, eq_refl) in
      let live = owned_live B w.db x.id user owned in
      let went = kept B R settings title (some secret) user w x current owned at same in
      let after : Snippet = record x { title = title } in
      let d₁ = update_snippet_row x.id (set_title title) w.db in
      let r = with_content after current (B.author d₁ x.author_id) secret in
      let key = cache_key x.short_id none in
      let c₁ = (redis_setex key settings.cache_ttl_seconds (serialize r) w.cache).1 in
      let stored =
        B.cached-redis_setex key settings.cache_ttl_seconds (serialize r) w.cache key
          (writes (serialize r) w.cache)
        ∙ rw eq_refl refl in
      let w₁ = record w { db = d₁; cache = c₁ } in
      let reaches : (update_snippet B R settings x.id
            (model_dump (record { title = some title; content = some secret })) user w)
          ≡ (ok r, w₁) =
        went ∙ rw (has, writes (serialize r) w.cache, refresh_cache) in
      (
        ap
              (λ (p : Result SnippetResponse × World B R).
                snippet_out_view B x.short_id none none now p.1.db)
              reaches
            ∙ restricted B R settings d₁ after current now
                (live_found B R settings d₁ x.short_id
                  (by_short_id-change B w.db x (set_title title) short) live)
                (B.version_row-update_snippet_row _ _ _ _ _ ∙ at) hidden,
        (
          r,
          ap
                (λ (p : Result SnippetResponse × World B R).
                  (get_snippet_cached B R settings x.short_id none none now p.1).0)
                reaches
              ∙ hit_ignores_access B R settings x.short_id none none now w₁ r stored (reads c₁).1,
          refl,
        ),
      )
