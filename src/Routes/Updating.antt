-- ===== src/Routes/Updating.antt =====
-- The statuses that the route of an update answers with.
use swiftpaste.Prelude.{
  ℕ, String, ◌≡◌, refl, Bool, true, false, ◌||◌, Option, none, some, List, [], ◌∷◌, Option-cases,
  inl, inr,
}
use swiftpaste.Core.Config.{Settings}
use swiftpaste.RateLimit.Access.{Hashes}
use swiftpaste.Jobs.Store.{JobStore}
use swiftpaste.Models.{Snippet, SnippetVersion, User, SnippetUpdate, model_dump, count_version}
use swiftpaste.Snippets.Backend.{Backend}
use swiftpaste.Snippets.Common.{World, cache_key, select_owned, response}
use swiftpaste.Snippets.Update.{
  content_changed, visibility_changed, new_version, create_new_version, write_title, write_version,
  latest, refresh_cache, after_commit, update_rows, update_snippet,
}
use swiftpaste.Snippets.Retries.{Reply-cases, Result-cases}
use swiftpaste.Snippets.Creates.{Inserted-cases}
use swiftpaste.Routes.{Request, update}
use swiftpaste.Routes.Statuses.{status_of, one_of, Answers, limited-Answers}

abbrev update_statuses : List ℕ
update_statuses = 200 ∷ 404 ∷ 429 ∷ 500 ∷ 503 ∷ []

module _ (B : Backend) (id : Option String) where
  write_title-Answers :
      (title : Option (Option String)) (i : String) (d : B.Db)
      → Answers id 200 update_statuses (write_title B title i d)
  unfolding write_title
  write_title-Answers none i d = refl
  write_title-Answers (some none) i d = refl
  write_title-Answers (some (some t)) i d = refl

  create_new_version-Answers :
      (i : String) (content : Option String) (d : B.Db)
      → Answers id 200 update_statuses (create_new_version B i content none d)
  unfolding create_new_version
  create_new_version-Answers i content d =
      let d₁ = B.update_snippet_row i count_version d in
      elim (Option-cases (B.by_id d₁ i)) [
        | inl missing ↦ rw (missing, create_new_version) refl
        | inr (row, found) ↦
            elim (Inserted-cases
              (B.insert_version (new_version B i row.version_counter content none) d₁)) [
                | inl (e, failed) ↦ rw (found, failed, create_new_version) refl
                | inr (d₂, done) ↦ rw (found, done, create_new_version) refl
              ]
      ]

  write_version-Answers :
      (changed : Bool) (i : String) (payload : SnippetUpdate) (d : B.Db)
      → Answers id 200 update_statuses (write_version B changed i (model_dump payload) d)
  unfolding write_version model_dump
  write_version-Answers false i payload d = refl
  write_version-Answers true i payload d =
      elim (Result-cases (create_new_version B i payload.content none d)) [
        | inl (e, failed) ↦
            rw (failed, write_version)
              (rw failed at (create_new_version-Answers i payload.content d))
        | inr ((v, d'), done) ↦ rw (done, write_version) refl
      ]

module _ (B : Backend) (R : JobStore) (settings : Settings) (id : Option String) where
  refresh_cache-Answers :
      (x : Snippet) (v : SnippetVersion) (w : World B R)
      → Answers id 200 update_statuses (refresh_cache B R settings x v w).0
  unfolding refresh_cache
  refresh_cache-Answers x v w = elim (Result-cases (response x v (B.author w.db x.author_id))) [
    | inl (e, failed) ↦ rw (failed, refresh_cache) refl
    | inr (r, done) ↦
        elim (Reply-cases
          (B.redis_setex (cache_key x.short_id none) settings.cache_ttl_seconds (B.serialize r)
            w.cache).0) [
              | inl down ↦ rw (done, down, refresh_cache) refl
              | inr (u, up) ↦ rw (done, up, refresh_cache) refl
            ]
  ]

  after_commit-Answers :
      (i : String) (made : Option SnippetVersion) (w : World B R)
      → Answers id 200 update_statuses (after_commit B R settings i made w).0
  unfolding after_commit
  after_commit-Answers i made w = elim (Option-cases (B.by_id w.db i)) [
    | inl missing ↦ rw (missing, after_commit) refl
    | inr (x, found) ↦ elim (Option-cases (latest B made x w.db)) [
      | inl lost ↦ rw (found, lost, after_commit) refl
      | inr (v, at) ↦ rw (found, at, after_commit) (refresh_cache-Answers x v w)
    ]
  ]

  update_rows-Answers :
      (i : String) (payload : SnippetUpdate) (w : World B R) (current : SnippetVersion)
      → Answers id 200 update_statuses (update_rows B R settings i (model_dump payload) current w).0
  unfolding update_rows
  update_rows-Answers i payload w current =
      elim (Result-cases (write_title B (model_dump payload).title i w.db)) [
        | inl (e, failed) ↦
            rw (failed, update_rows)
              (rw failed at (write_title-Answers B id (model_dump payload).title i w.db))
        | inr (d₁, done) ↦
            let changed =
              content_changed (model_dump payload).content current.content
              || visibility_changed (model_dump payload).visibility current.visibility in
            elim (Result-cases (write_version B changed i (model_dump payload) d₁)) [
              | inl (e, failed) ↦
                  rw (done, failed, update_rows)
                    (rw failed at (write_version-Answers B id changed i payload d₁))
              | inr ((made, d₂), wrote) ↦
                  rw (done, wrote, update_rows) (after_commit-Answers i made _)
            ]
      ]

  update_snippet-Answers :
      (i : String) (payload : SnippetUpdate) (user : User) (w : World B R)
      → Answers id 200 update_statuses (update_snippet B R settings i (model_dump payload) user w).0
  unfolding update_snippet
  update_snippet-Answers i payload user w = elim (Option-cases (select_owned B w.db i user)) [
    | inl missing ↦ rw (missing, update_snippet) refl
    | inr (x, found) ↦ elim (Option-cases (B.version_row w.db x.id x.version_counter)) [
      | inl lost ↦ rw (found, lost, update_snippet) refl
      | inr (current, at) ↦ rw (found, at, update_snippet) (update_rows-Answers i payload w current)
    ]
  ]

-- Whatever is asked and whatever the stores hold, the route of an update answers with 200, 404, 429, 500
-- or 503.
pub update_answers :
    (H : Hashes) (B : Backend) (R : JobStore) (settings : Settings) (q : Request) (s : H.Store)
    (w : World B R) (i : String) (payload : SnippetUpdate) (user : User)
    → one_of
        (status_of (update H B R settings q i payload user (s, w)).0)
        (200 ∷ 404 ∷ 429 ∷ 500 ∷ 503 ∷ [])
      ≡ true
unfolding update
update_answers H B R settings q s w i payload user =
    limited-Answers H B R settings q none none (some user) 200 _ update_statuses s w refl
      (update_snippet-Answers B R settings q.request_id i payload user w)
