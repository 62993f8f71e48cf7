-- ===== src/Snippets/Common.antt =====
-- What the operations of app/services/snippet_service.py share: the world that they act on, the select
-- statements, the errors and the response.
use swiftpaste.Prelude.{
  ℕ, suc, String, Bool, true, false, ◌&&◌, Option, none, some, str_eq, str_append, if◌then◌else◌,
}
use swiftpaste.Prelude.Text.{decimal}
use swiftpaste.Core.Errors.{AppError, Result, ok, err, other}
use swiftpaste.Jobs.Store.{JobStore}
use swiftpaste.Models.{Snippet, SnippetVersion, User, UserMeta, SnippetResponse}
use swiftpaste.Snippets.Backend.{Backend}

-- The counters of app/metrics that the service moves.
pub record Metrics : Type 0 where
  pub cache_hit : ℕ
  pub cache_miss : ℕ
  pub cache_error : ℕ
  pub version_creations : ℕ

abbrev pub count_hit : Metrics → Metrics
count_hit m = record m { cache_hit = suc m.cache_hit }

abbrev pub count_miss : Metrics → Metrics
count_miss m = record m { cache_miss = suc m.cache_miss }

abbrev pub count_error : Metrics → Metrics
count_error m = record m { cache_error = suc m.cache_error }

abbrev pub count_creation : Metrics → Metrics
count_creation m = record m { version_creations = suc m.version_creations }

pub record World (B : Backend) (R : JobStore) : Type 0 where
  pub db : B.Db
  pub cache : B.Cache
  pub expiry : B.Expiry
  pub jobs : R.Store
  pub metrics : Metrics

-- `_cache_key`
unfoldable pub cache_key : String → Option ℕ → String
cache_key short_id version =
    let version_str : String = elim version [ none ↦ "latest" | some n ↦ decimal n ] in
    str_append "snippet:" (str_append short_id (str_append ":v" version_str))

abbrev pub snippet_not_found : String → AppError
snippet_not_found message = record {
  code = "SNIPPET_NOT_FOUND";
  message = message;
  status_code = 404;
  details = none;
}

-- The criterion that app/db/soft_delete.py adds to each select of snippets.
abbrev pub is_live : Snippet → Bool
is_live x = elim x.deleted_at [ none ↦ true | some _ ↦ false ]

abbrev pub keep_if : (Snippet → Bool) → Option Snippet → Option Snippet
keep_if p none = none
keep_if p (some x) = if p x then some x else none

-- `select(Snippet).where(Snippet.id == id, Snippet.author_id == user.id)`
abbrev pub select_owned : (B : Backend) → B.Db → String → User → Option Snippet
select_owned B d id user = keep_if (λ x. is_live x && str_eq x.author_id user.id) (B.by_id d id)

-- `select(Snippet).where(Snippet.short_id == short_id)`
abbrev pub select_by_short_id : (B : Backend) → B.Db → String → Option Snippet
select_by_short_id B d short_id = keep_if is_live (B.by_short_id d short_id)

-- The response model takes no null content.
abbrev pub with_content : Snippet → SnippetVersion → UserMeta → String → SnippetResponse
with_content x v author content = record {
  id = x.id;
  short_id = x.short_id;
  title = x.title;
  author = author;
  created_at = x.created_at;
  views = x.views;
  latest_version = x.version_counter;
  current_version = record {
    version = v.version;
    content = content;
    visibility = v.visibility;
    expires_at = v.expires_at;
    view = x.views;
  };
}

abbrev pub response : Snippet → SnippetVersion → UserMeta → Result SnippetResponse
response x v author = elim v.content [
  | none ↦ err (other "ValidationError")
  | some content ↦ ok (with_content x v author content)
]
