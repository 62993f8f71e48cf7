-- ===== src/Snippets/Create.antt =====
-- `create_snippet`. The short ids that `generate_short_id` draws, the UUIDs and the clock are arguments.
use swiftpaste.Prelude.{ℕ, String, Bool, none, some, List, [], ◌∷◌, str_append, if◌then◌else◌, ◌||◌}
use swiftpaste.Prelude.Int.{pos}
use swiftpaste.Prelude.Text.{contains}
use swiftpaste.Core.Config.{Settings}
use swiftpaste.Core.Errors.{AppError, Result, ok, err, app, database}
use swiftpaste.Jobs.Store.{JobStore, snippet_fields}
use swiftpaste.Jobs.Queue.{enqueue}
use swiftpaste.Models.{Snippet, SnippetVersion, User, SnippetCreate, SnippetResponse}
use swiftpaste.Snippets.Backend.{Backend, inserted, refused}
use swiftpaste.Snippets.Common.{World, with_content}

abbrev pub short_id_generation_failed : AppError
short_id_generation_failed = record {
  code = "SHORT_ID_GENERATION_FAILED";
  message = "Could not generate a unique short_id";
  status_code = 500;
  details = none;
}

-- `"short_id" in error_text or "ck_snippets_short_id_len" in error_text`
unfoldable pub is_short_id_error : String → Bool
is_short_id_error error_text =
    contains error_text "short_id" || contains error_text "ck_snippets_short_id_len"

-- What one attempt draws: the id of the row and its short id.
pub record Draw : Type 0 where
  pub id : String
  pub short_id : String

-- `Snippet(**snippet_data, short_id=...)` with the column defaults.
abbrev pub new_snippet : SnippetCreate → User → ℕ → Draw → Snippet
new_snippet payload user now draw = record {
  id = draw.id;
  short_id = draw.short_id;
  title = payload.title;
  author_id = user.id;
  created_at = now;
  version_counter = 1;
  views = 0;
  deleted_at = none;
}

abbrev pub first_version : SnippetCreate → Snippet → SnippetVersion
first_version payload x = record {
  snippet_id = x.id;
  version = 1;
  content = some payload.content;
  visibility = payload.visibility;
  expires_at = none;
}

-- One attempt: the rows are there, or IntegrityError with its text. The rollback keeps the old rows.
pub data Attempt (Db : Type 0) : Type 0 where
  committed : Db → Attempt Db
  integrity_error : String → Attempt Db

module _ (B : Backend) where
  unfoldable pub insert_rows : SnippetCreate → Snippet → B.Db → Attempt B.Db
  insert_rows payload x d = elim (B.insert_snippet x d) [
    | refused e ↦ integrity_error e
    | inserted d₁ ↦ elim (B.insert_version (first_version payload x) d₁) [
      | refused e ↦ integrity_error e
      | inserted d₂ ↦ committed d₂
    ]
  ]

module _ (B : Backend) (R : JobStore) where
  -- After the commit: the index job, which raises where Redis does, and the response.
  unfoldable pub created_response :
      Settings
      → String
      → ℕ
      → SnippetCreate
      → Snippet
      → World B R
      → Result SnippetResponse × World B R
  created_response settings uuid now payload x w =
      let text = str_append x.title (str_append " " payload.content) in
      let jobs' =
        enqueue R settings uuid now "index_snippet" (snippet_fields x.id x.short_id text) 0 (pos 3)
          w.jobs in
      elim (R.raises w.jobs) [
        | some e ↦ (err e, w)
        | none ↦ (
          ok (with_content x (first_version payload x) (B.author w.db x.author_id) payload.content),
          record w { jobs = jobs' },
        )
      ]

  -- One round for each draw.
  unfoldable pub create_loop :
      Settings
      → String
      → ℕ
      → SnippetCreate
      → User
      → List Draw
      → World B R
      → Result SnippetResponse × World B R
  unfolding insert_rows
  create_loop settings uuid now payload user [] w = (err (app short_id_generation_failed), w)
  create_loop settings uuid now payload user (draw ∷ draws) w =
      let x = new_snippet payload user now draw in
      let again = create_loop settings uuid now payload user draws w in
      elim (insert_rows B payload x w.db) [
        | committed d ↦ created_response settings uuid now payload x (record w { db = d })
        | integrity_error e ↦ if is_short_id_error e then again else (err database, w)
      ]

  -- `for _ in range(2)`
  unfoldable pub create_snippet :
      Settings
      → String
      → ℕ
      → Draw
      → Draw
      → SnippetCreate
      → User
      → World B R
      → Result SnippetResponse × World B R
  unfolding create_loop
  create_snippet settings uuid now first second payload user w =
      create_loop settings uuid now payload user (first ∷ second ∷ []) w
