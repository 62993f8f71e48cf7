-- ===== src/Snippets/View.antt =====
-- `snippet_out_view`, `redis_get_with_retry` and `get_snippet_cached`.
use swiftpaste.Prelude.{
  ℕ, zero, suc, String, Bool, true, false, not, ◌&&◌, Option, none, some, str_eq, ltb,
  if◌then◌else◌,
}
use swiftpaste.Core.Config.{Settings}
use swiftpaste.Core.Errors.{AppError, text, Result, ok, err, app, database}
use swiftpaste.Jobs.Store.{JobStore}
use swiftpaste.Models.{
  VisibilityType, private, public, Snippet, SnippetVersion, User, SnippetResponse,
}
use swiftpaste.Snippets.Backend.{Backend, answer, raised}
use swiftpaste.Snippets.Common.{
  World, count_hit, count_miss, count_error, cache_key, snippet_not_found, select_by_short_id,
  response,
}

abbrev pub access_restriction : AppError
access_restriction = record {
  code = "SNIPPET_ACCESS_RESTRICTION";
  message = "Snippet is private";
  status_code = 403;
  details = some (text "Login to access it.");
}

abbrev pub snippet_expired : AppError
snippet_expired = record {
  code = "SNIPPET_EXPIRED";
  message = "Snippet has expired";
  status_code = 423;
  details = some (text "Check with the author to extend it!");
}

-- `version_obj.visibility == VisibilityType.PRIVATE`
abbrev pub is_private : VisibilityType → Bool
is_private private = true
is_private public = false

abbrev pub is_none {ℓ} : {A : Type ℓ} → Option A → Bool
is_none none = true
is_none (some _) = false

-- `version_obj.expires_at is not None and version_obj.expires_at < now`
abbrev pub is_expired : Option ℕ → ℕ → Bool
is_expired none now = false
is_expired (some t) now = ltb t now

-- `user is None or snippet.author_id != user.id`
abbrev pub is_stranger : Option User → Snippet → Bool
is_stranger none x = true
is_stranger (some user) x = not (str_eq x.author_id user.id)

-- The version that the join keeps: the one asked for, or the one that the counter names.
abbrev pub wanted : Option ℕ → Snippet → ℕ
wanted none x = x.version_counter
wanted (some n) x = n

module _ (B : Backend) where
  -- The two checks and the response.
  unfoldable pub show_version :
      Snippet → SnippetVersion → Option User → ℕ → B.Db → Result SnippetResponse
  show_version x v user now d =
      if is_private v.visibility && is_none user
      then err (app access_restriction)
      else if is_expired v.expires_at now && is_stranger user x
      then err (app snippet_expired)
      else response x v (B.author d x.author_id)

  unfoldable pub snippet_out_view :
      String → Option ℕ → Option User → ℕ → B.Db → Result SnippetResponse
  unfolding show_version
  snippet_out_view short_id version user now d =
      let missing = err (app (snippet_not_found "Snippet or requested version not found")) in
      elim (select_by_short_id B d short_id) [
        | none ↦ missing
        | some x ↦ elim (B.version_row d x.id (wanted version x)) [
          | none ↦ missing
          | some v ↦ show_version x v user now d
        ]
      ]

  -- At most `attempts` reads; the sleep between them changes nothing.
  unfoldable pub redis_get_with_retry : ℕ → String → B.Cache → Option B.Payload × B.Cache
  redis_get_with_retry zero key c = (none, c)
  redis_get_with_retry (suc attempts) key c =
      let (reply, c') = B.redis_get key c in
      elim reply [ answer raw ↦ (raw, c') | raised ↦ redis_get_with_retry attempts key c' ]

module _ (B : Backend) (R : JobStore) where
  -- `if snippet.current_version.visibility == VisibilityType.PUBLIC`, and the write
  unfoldable pub store_public : Settings → String → SnippetResponse → World B R → World B R
  store_public settings key r w =
      if is_private r.current_version.visibility
      then w
      else (let (reply, c') =
            B.redis_setex key settings.cache_ttl_seconds (B.serialize r) w.cache in
          elim reply [
            | answer _ ↦ record w { cache = c' }
            | raised ↦ record w { cache = c'; metrics = count_error w.metrics }
          ])

  -- What follows once the cache has given nothing.
  unfoldable pub view_uncached :
      Settings
      → String
      → Option ℕ
      → Option User
      → ℕ
      → World B R
      → Result SnippetResponse × World B R
  unfolding store_public
  view_uncached settings short_id version user now w =
      elim (snippet_out_view B short_id version user now w.db) [
        | err e ↦ (err e, w)
        | ok r ↦ (ok r, store_public settings (cache_key short_id version) r w)
      ]

  unfoldable pub get_snippet_cached :
      Settings
      → String
      → Option ℕ
      → Option User
      → ℕ
      → World B R
      → Result SnippetResponse × World B R
  get_snippet_cached settings short_id version user now w =
      let (raw, c') = redis_get_with_retry B 2 (cache_key short_id version) w.cache in
      let read = record w { cache = c' } in
      let miss =
        view_uncached settings short_id version user now
          (record read { metrics = count_miss w.metrics }) in
      elim raw [
        | none ↦ miss
        | some payload ↦
            if B.is_truthy payload
            then (elim (B.deserialize payload) [
              | some r ↦ (ok r, record read { metrics = count_hit w.metrics })
              | none ↦
                  view_uncached settings short_id version user now
                    (record read { metrics = count_error (count_hit w.metrics) })
            ])
            else miss
      ]

-- What PostgreSQL's Integer, the type of the column of versions, holds of the numbers from 0.
abbrev pub is_integer : Option ℕ → Bool
is_integer none = true
is_integer (some n) = ltb n 2147483648

module _ (B : Backend) (R : JobStore) where
  -- `get_snippet_cached` for a version that no Integer holds: the cache is read, and the statement of
  -- `snippet_out_view` ends in DBAPIError.
  unfoldable pub get_beyond_integer :
      String → Option ℕ → World B R → Result SnippetResponse × World B R
  get_beyond_integer short_id version w =
      let (raw, c') = redis_get_with_retry B 2 (cache_key short_id version) w.cache in
      let read = record w { cache = c' } in
      let miss : Result SnippetResponse × World B R =
        (err database, record read { metrics = count_miss w.metrics }) in
      elim raw [
        | none ↦ miss
        | some payload ↦
            if B.is_truthy payload
            then (elim (B.deserialize payload) [
              | some r ↦ (ok r, record read { metrics = count_hit w.metrics })
              | none ↦ (err database, record read { metrics = count_error (count_hit w.metrics) })
            ])
            else miss
      ]
