-- ===== src/Snippets/Updates.antt =====
-- What a caller of `update_snippet` sees afterwards.
use text.Mathlib.TextPositions.{eq_refl}
use mathlib.Core.Path.{subst}
use swiftpaste.Prelude.{
  ℕ, suc, String, ◌≡◌, refl, ◌∙◌, ap, true, ◌&&◌, Option, none, some, arith, str_eq, ◌==◌,
  if◌then◌else◌, inl,
}
use swiftpaste.Core.Config.{Settings}
use swiftpaste.Core.Errors.{Result, ok, err, app, other}
use swiftpaste.Jobs.Store.{JobStore}
use swiftpaste.Models.{
  private, public, Snippet, SnippetVersion, User, SnippetUpdate, model_dump, SnippetResponse,
}
use swiftpaste.Snippets.Backend.{Backend}
use swiftpaste.Snippets.Common.{
  World, count_creation, select_owned, select_by_short_id, is_live, with_content,
}
use swiftpaste.Snippets.View.{access_restriction, snippet_out_view, show_version}
use swiftpaste.Snippets.Access.{view-Shows}
use swiftpaste.Snippets.Update.{content_changed, refresh_cache, update_snippet}
use swiftpaste.Snippets.Versions.{Updated, owned_live, updated}

module _ (B : Backend) (R : JobStore) (settings : Settings) where
  open B use {
    Db, by_id, by_short_id, version_row, update_snippet_row, cached, serialize, redis_setex,
  }

  pub refresh_cache_keeps :
      (x : Snippet) (v : SnippetVersion) (w : World B R)
      → let w' = (refresh_cache B R settings x v w).1 in
        (w'.db ≡ w.db) × (w'.metrics.version_creations ≡ w.metrics.version_creations)
  unfolding refresh_cache
  refresh_cache_keeps x v w = ground arith

  module _ (title : String) (content : Option String) (user : User) (w : World B R) (x : Snippet)
      (current : SnippetVersion) (owned : select_owned B w.db x.id user ≡ some x)
      (at : version_row w.db x.id x.version_counter ≡ some current) where
    abbrev payload : SnippetUpdate
    payload = record { title = some title; content = content }

    -- The version that the update makes, whatever the visibility of the one before.
    abbrev pub next_version : SnippetVersion
    next_version = record {
      snippet_id = x.id;
      version = suc x.version_counter;
      content = content;
      visibility = public;
      expires_at = none;
    }

    pub updated_public :
        content_changed (some content) current.content ≡ true
        → version_row w.db x.id (suc x.version_counter) ≡ none
        → Updated B R settings title content user w x current owned at next_version
    updated_public changed free =
        subst (Updated B R settings title content user w x current owned at)
          (λ i. record next_version { visibility = B.insert_default-none public i })
          (updated B R settings title content user w x current owned at changed free)

    -- Where the content changes and the next number is free, an author's update of a snippet commits
    -- the title, the next number as the snippet's counter, and one version under it, which is public
    -- and has no expiry; every other version stays as it was.
    pub update_adds_version :
        content_changed (some content) current.content ≡ true
        → version_row w.db x.id (suc x.version_counter) ≡ none
        → let (_, w') = update_snippet B R settings x.id (model_dump payload) user w in
          (by_id w'.db x.id
            ≡ some (record x { title = title; version_counter = suc x.version_counter }))
          × ((j : String) (n : ℕ)
              → version_row w'.db j n ≡ (
                  if str_eq x.id j && suc x.version_counter == n
                  then some next_version
                  else version_row w.db j n))
          × (w'.metrics.version_creations ≡ suc w.metrics.version_creations)
    update_adds_version changed free =
        let u = updated_public changed free in
        let after = record x { title = title; version_counter = suc x.version_counter } in
        let w₁ = record w { db = u.d'; metrics = count_creation w.metrics } in
        let same = refresh_cache_keeps after next_version w₁ in
        rw u.goes_on (
          ap (λ (d : Db). by_id d x.id) same.0 ∙ u.row,
          λ j n. ap (λ (d : Db). version_row d j n) same.0 ∙ u.versions j n,
          same.1,
        )

    -- The database after an update whose content changes.
    pub db_updated :
        (changed : content_changed (some content) current.content ≡ true)
        (free : version_row w.db x.id (suc x.version_counter) ≡ none)
        → (update_snippet B R settings x.id (model_dump payload) user w).1.db
          ≡ (updated_public changed free).d'
    db_updated changed free =
        let u = updated_public changed free in
        ap (λ (p : Result SnippetResponse × World B R). p.1.db) u.goes_on
        ∙ (refresh_cache_keeps (record x { title = title; version_counter = suc x.version_counter })
            next_version (record w { db = u.d'; metrics = count_creation w.metrics })).0

  pub restricted :
      (d : Db) (x : Snippet) (v : SnippetVersion) (now : ℕ)
      → select_by_short_id B d x.short_id ≡ some x
      → version_row d x.id x.version_counter ≡ some v
      → v.visibility ≡ private
      → snippet_out_view B x.short_id none none now d ≡ err (app access_restriction)
  unfolding snippet_out_view show_version
  restricted d x v now found at hidden =
      rw (found, at, snippet_out_view) (rw (hidden, show_version))

  pub live_found :
      (d : Db) (k : String) {x : Snippet}
      → by_short_id d k ≡ some x
      → is_live x ≡ true
      → select_by_short_id B d k ≡ some x
  live_found d k short live = rw short (rw live)

  -- The author of a private snippet, whose next version number is free, changes its content: a
  -- caller with no user is refused before the update, and reads the new content after it.
  pub update_publishes :
      (title content : String) (user : User) (w : World B R) (x : Snippet)
      (current : SnippetVersion) (now : ℕ)
      → select_owned B w.db x.id user ≡ some x
      → version_row w.db x.id x.version_counter ≡ some current
      → by_short_id w.db x.short_id ≡ some x
      → current.visibility ≡ private
      → content_changed (some (some content)) current.content ≡ true
      → version_row w.db x.id (suc x.version_counter) ≡ none
      → let (_, w') =
          update_snippet B R settings x.id
            (model_dump (record { title = some title; content = some content }))
            user
            w in
        (snippet_out_view B x.short_id none none now w.db ≡ err (app access_restriction))
        × ((r : SnippetResponse) × (snippet_out_view B x.short_id none none now w'.db ≡ ok r)
            × (r.current_version.content ≡ content))
  update_publishes title content user w x current now owned at short hidden changed free =
      let live = owned_live B w.db x.id user owned in
      let u = updated_public title (some content) user w x current owned at changed free in
      let after : Snippet = record x { title = title; version_counter = suc x.version_counter } in
      let v = next_version title (some content) user w x current owned at in
      let r = with_content after v (B.author u.d' x.author_id) content in
      (
        restricted w.db x current now (live_found w.db x.short_id short live) at hidden,
        (
          r,
          rw (db_updated title (some content) user w x current owned at changed free) (
              (view-Shows B x.short_id none none now u.d' r).1 (record {
                x = after;
                v = v;
                content = content;
                found = live_found u.d' x.short_id (u.short short) live;
                version_found =
                    u.versions x.id (suc x.version_counter) ∙ rw (eq_refl x.id) (ground arith);
                has_content = refl;
                allowed = (inl refl, inl (λ t e. cc));
                is_response = refl;
              })),
          refl,
        ),
      )

  own_version :
      {A : Type 0} {a : A} (b : A) (i : String) (n : ℕ)
      → (if str_eq i i && n == n then a else b) ≡ a
  own_version b i n = rw (eq_refl i) (ground arith)

  view_broken :
      (d : Db) (x : Snippet) (v : SnippetVersion) (caller : Option User) (now : ℕ)
      → select_by_short_id B d x.short_id ≡ some x
      → version_row d x.id x.version_counter ≡ some v
      → v.visibility ≡ public
      → v.expires_at ≡ none
      → v.content ≡ none
      → snippet_out_view B x.short_id none caller now d ≡ err (other "ValidationError")
  unfolding snippet_out_view show_version
  view_broken d x v caller now found at open_ lasting null =
      rw (found, at, snippet_out_view)
        (rw (open_, show_version) (rw (lasting, show_version) (rw (null, show_version))))

  -- An author's update to a null content, which the schema lets through, where the latest version
  -- has a content and the next number is free: it raises; and yet the version without a content is
  -- committed as the latest, and `snippet_out_view` of the snippet's short id with no version named
  -- then raises for every caller.
  pub null_content_commits :
      (title : String) (user : User) (w : World B R) (x : Snippet) (current : SnippetVersion)
      (old : String)
      → select_owned B w.db x.id user ≡ some x
      → version_row w.db x.id x.version_counter ≡ some current
      → by_short_id w.db x.short_id ≡ some x
      → current.content ≡ some old
      → version_row w.db x.id (suc x.version_counter) ≡ none
      → let (result, w') =
          update_snippet B R settings x.id
            (model_dump (record { title = some title; content = none }))
            user
            w in
        (result ≡ err (other "UnboundLocalError"))
        × ((v : SnippetVersion) × (version_row w'.db x.id (suc x.version_counter) ≡ some v)
            × (v.content ≡ none))
        × ((caller : Option User) (now : ℕ)
            → snippet_out_view B x.short_id none caller now w'.db ≡ err (other "ValidationError"))
  unfolding refresh_cache
  null_content_commits title user w x current old owned at short had free =
      let changed : content_changed (some none) current.content ≡ true = rw had in
      let live = owned_live B w.db x.id user owned in
      let u = updated_public title none user w x current owned at changed free in
      let v = next_version title none user w x current owned at in
      let here =
        u.versions x.id (suc x.version_counter) ∙ own_version _ x.id (suc x.version_counter) in
      let d_eq = db_updated title none user w x current owned at changed free in
      (
        rw u.goes_on,
        (v, ap (λ (d : Db). version_row d x.id (suc x.version_counter)) d_eq ∙ here, refl),
        λ caller now.
            ap (snippet_out_view B x.short_id none caller now) d_eq
            ∙ view_broken u.d' (record x { title = title; version_counter = suc x.version_counter })
                v caller now (live_found u.d' x.short_id (u.short short) live) here refl refl refl,
      )
