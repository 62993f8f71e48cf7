-- ===== src/Snippets/Update.antt =====
-- `create_new_version` and `update_snippet`.
use swiftpaste.Prelude.{ℕ, String, Bool, true, false, not, ◌||◌, Option, none, some, str_eq}
use swiftpaste.Core.Config.{Settings}
use swiftpaste.Core.Errors.{Result, ok, err, app, database, other}
use swiftpaste.Jobs.Store.{JobStore}
use swiftpaste.Models.{
  VisibilityType, private, public, default_visibility, Snippet, SnippetVersion, User,
  SnippetResponse, UpdateData, get, count_version, set_title,
}
use swiftpaste.Snippets.Backend.{Backend, inserted, refused, answer, raised}
use swiftpaste.Snippets.Common.{
  World, count_error, count_creation, cache_key, snippet_not_found, select_owned, response,
}

-- `"content" in data and data["content"] != current_version.content`
abbrev pub content_changed : Option (Option String) → Option String → Bool
content_changed none old = false
content_changed (some none) none = false
content_changed (some none) (some _) = true
content_changed (some (some _)) none = true
content_changed (some (some new)) (some old) = not (str_eq new old)

-- The same for the visibility, which is never null in a row.
abbrev pub visibility_changed : Option (Option VisibilityType) → VisibilityType → Bool
visibility_changed none old = false
visibility_changed (some none) old = true
visibility_changed (some (some private)) private = false
visibility_changed (some (some public)) public = false
visibility_changed (some (some private)) public = true
visibility_changed (some (some public)) private = true

module _ (B : Backend) where
  open B use {Db, by_id, version_row, insert_version, update_snippet_row, insert_default, author}

  -- The row that the flush inserts.
  abbrev pub new_version : String → ℕ → Option String → Option VisibilityType → SnippetVersion
  new_version snippet_id version content visibility = record {
    snippet_id = snippet_id;
    version = version;
    content = content;
    visibility = insert_default visibility default_visibility;
    expires_at = none;
  }

  unfoldable pub create_new_version :
      String → Option String → Option VisibilityType → Db → Result (SnippetVersion × Db)
  create_new_version id content visibility d =
      let d₁ = update_snippet_row id count_version d in
      elim (by_id d₁ id) [
        | none ↦ err (other "NoResultFound")
        | some row ↦
            let v = new_version id row.version_counter content visibility in
            elim (insert_version v d₁) [ inserted d₂ ↦ ok (v, d₂) | refused _ ↦ err database ]
      ]

  -- The title is flushed with the next statement; the column takes no null.
  unfoldable pub write_title : Option (Option String) → String → Db → Result Db
  write_title none id d = ok d
  write_title (some none) id d = err database
  write_title (some (some title)) id d = ok (update_snippet_row id (set_title title) d)

  -- The new version, if there is one.
  unfoldable pub write_version :
      Bool → String → UpdateData → Db → Result (Option SnippetVersion × Db)
  unfolding create_new_version
  write_version false id data_ d = ok (none, d)
  write_version true id data_ d =
      elim (create_new_version id (get data_.content) (get data_.visibility) d) [
        | err e ↦ err e
        | ok (v, d') ↦ ok (some v, d')
      ]

  -- `if snippet_version is None`: the latest version is read again.
  abbrev pub latest : Option SnippetVersion → Snippet → Db → Option SnippetVersion
  latest (some v) x d = some v
  latest none x d = version_row d x.id x.version_counter

module _ (B : Backend) (R : JobStore) where
  -- The `try` block and the `return`: where the response cannot be built, `resp` is not bound.
  unfoldable pub refresh_cache :
      Settings → Snippet → SnippetVersion → World B R → Result SnippetResponse × World B R
  refresh_cache settings x v w = elim (response x v (B.author w.db x.author_id)) [
    | err _ ↦ (err (other "UnboundLocalError"), record w { metrics = count_error w.metrics })
    | ok r ↦
        let (reply, c') =
          B.redis_setex (cache_key x.short_id none) settings.cache_ttl_seconds (B.serialize r)
            w.cache in
        elim reply [
          | answer _ ↦ (ok r, record w { cache = c' })
          | raised ↦ (ok r, record w { cache = c'; metrics = count_error w.metrics })
        ]
  ]

  abbrev count_made : Option SnippetVersion → World B R → World B R
  count_made none w = w
  count_made (some _) w = record w { metrics = count_creation w.metrics }

  -- After the commit.
  unfoldable pub after_commit :
      Settings → String → Option SnippetVersion → World B R → Result SnippetResponse × World B R
  unfolding refresh_cache
  after_commit settings id made w = elim (B.by_id w.db id) [
    | none ↦ (err (other "InvalidRequestError"), w)
    | some x ↦ elim (latest B made x w.db) [
      | none ↦ (err (other "NoResultFound"), w)
      | some v ↦ refresh_cache settings x v w
    ]
  ]

  -- From the two rows on; what raises before the commit is rolled back.
  unfoldable pub update_rows :
      Settings
      → String
      → UpdateData
      → SnippetVersion
      → World B R
      → Result SnippetResponse × World B R
  unfolding write_title write_version
  update_rows settings id data_ current w = elim (write_title B data_.title id w.db) [
    | err e ↦ (err e, w)
    | ok d₁ ↦
        elim (write_version B
          (content_changed data_.content current.content
            || visibility_changed data_.visibility current.visibility)
          id data_ d₁) [
            | err e ↦ (err e, w)
            | ok (made, d₂) ↦ after_commit settings id made (count_made made (record w { db = d₂ }))
          ]
  ]

  unfoldable pub update_snippet :
      Settings → String → UpdateData → User → World B R → Result SnippetResponse × World B R
  update_snippet settings id data_ user w = elim (select_owned B w.db id user) [
    | none ↦ (err (app (snippet_not_found "Snippet not found")), w)
    | some x ↦ elim (B.version_row w.db x.id x.version_counter) [
      | none ↦ (err (other "NoResultFound"), w)
      | some current ↦ update_rows settings id data_ current w
    ]
  ]
