-- ===== src/Snippets/Delete.antt =====
-- `delete_snippet` and `snippet_out_url`. Deleting marks the row: app/db/soft_delete.py.
use swiftpaste.Prelude.{ℕ, zero, ◌+◌, ◌*◌, String, Option, none, some, str_append}
use Prim.Native.Nat.{◌/◌}
use swiftpaste.Prelude.Int.{pos}
use swiftpaste.Prelude.Text.{decimal}
use swiftpaste.Core.Config.{Settings}
use swiftpaste.Core.Errors.{Result, ok, err, app, database}
use swiftpaste.Jobs.Store.{JobStore, snippet_fields}
use swiftpaste.Jobs.Queue.{enqueue}
use swiftpaste.Models.{Snippet, SnippetVersion, User, SnippetOut, SnippetOutResponse, mark_deleted}
use swiftpaste.Snippets.Backend.{Backend}
use swiftpaste.Snippets.Common.{World, snippet_not_found, select_owned}

-- `current_version.content if current_version else ""`, and how an f-string writes it.
abbrev pub content_text : Option SnippetVersion → String
content_text none = ""
content_text (some v) = elim v.content [ none ↦ "None" | some content ↦ content ]

-- `version or snippet.version_counter`
abbrev pub version_or_latest : Option ℕ → Snippet → ℕ
version_or_latest none x = x.version_counter
version_or_latest (some zero) x = x.version_counter
version_or_latest (some n) x = n

-- `payload.ttl_seconds or settings.DEFAULT_SHARE_TTL_SECONDS`
abbrev pub ttl_or_default : Option ℕ → ℕ → ℕ
ttl_or_default none default = default
ttl_or_default (some zero) default = default
ttl_or_default (some n) default = n

-- `compute_expires_at`
abbrev pub compute_expires_at : ℕ → ℕ → ℕ
compute_expires_at now ttl_seconds = now + ttl_seconds * 1000

-- `f"snippet:{short_id}:{version}"`
abbrev pub expiry_key : String → ℕ → String
expiry_key short_id version =
    str_append "snippet:" (str_append short_id (str_append ":" (decimal version)))

abbrev pub share_url : Settings → String → ℕ → String
share_url settings short_id version =
    str_append settings.frontend_base_url
      (str_append "/view/" (str_append short_id (str_append "?v=" (decimal version))))

module _ (B : Backend) (R : JobStore) where
  unfoldable pub delete_snippet :
      Settings → String → ℕ → String → User → World B R → Result (Unit {0}) × World B R
  delete_snippet settings uuid now id user w = elim (select_owned B w.db id user) [
    | none ↦ (err (app (snippet_not_found "Snippet not found")), w)
    | some x ↦
        let content = content_text (B.version_row w.db x.id x.version_counter) in
        let text = str_append x.title (str_append " " content) in
        let d = B.update_snippet_row x.id (mark_deleted now) w.db in
        let jobs' =
          enqueue R settings uuid now "remove_snippet_index" (snippet_fields x.id x.short_id text) 0
            (pos 3) w.jobs in
        (ok tt, record w { db = d; jobs = jobs' })
  ]

  unfoldable pub snippet_out_url :
      Settings
      → ℕ
      → String
      → Option ℕ
      → SnippetOut
      → User
      → World B R
      → Result SnippetOutResponse × World B R
  snippet_out_url settings now id version payload user w = elim (select_owned B w.db id user) [
    | none ↦ (err (app (snippet_not_found "Snippet not found or you don't have access")), w)
    | some x ↦
        let n = version_or_latest version x in
        elim (B.version_row w.db id n) [
          | none ↦ (err (app (snippet_not_found "Requested snippet version not found")), w)
          | some v ↦
              let ttl = ttl_or_default payload.ttl_seconds settings.default_share_ttl_seconds in
              let expires_at = compute_expires_at now ttl in
              let d = B.update_expiry id n expires_at w.db in
              let e =
                B.expiry_zadd (expiry_key x.short_id v.version) (expires_at / 1000) w.expiry in
              (
                ok (record {
                  share_url = share_url settings x.short_id n;
                  expires_at = expires_at;
                }),
                record w { db = d; expiry = e },
              )
        ]
  ]

  -- `snippet_out_url` for a version that no Integer holds: the statement for the version ends in
  -- DBAPIError.
  unfoldable pub share_beyond_integer :
      String → User → World B R → Result SnippetOutResponse × World B R
  share_beyond_integer id user w = elim (select_owned B w.db id user) [
    | none ↦ (err (app (snippet_not_found "Snippet not found or you don't have access")), w)
    | some x ↦ (err database, w)
  ]
