-- ===== src/Models.antt =====
-- app/models and app/schemas: the rows of the tables and the bodies of requests and responses. A UUID is
-- its text, a point in time is its number of milliseconds.
use swiftpaste.Prelude.{ℕ, suc, String, Option, none, some}

pub data VisibilityType : Type 0 where
  private public : VisibilityType

pub record User : Type 0 where
  pub id : String

pub record UserMeta : Type 0 where
  pub id : String
  pub email : String
  pub username : String

-- `snippets`
pub record Snippet : Type 0 where
  pub id : String
  pub short_id : String
  pub title : String
  pub author_id : String
  pub created_at : ℕ
  pub version_counter : ℕ
  pub views : ℕ
  pub deleted_at : Option ℕ

-- `snippet_versions`, by the unique pair of snippet and version; `content` may be NULL.
pub record SnippetVersion : Type 0 where
  pub snippet_id : String
  pub version : ℕ
  pub content : Option String
  pub visibility : VisibilityType
  pub expires_at : Option ℕ

-- The column default of `visibility`.
abbrev pub default_visibility : VisibilityType
default_visibility = public

pub record SnippetCreate : Type 0 where
  pub title : String
  pub content : String
  pub visibility : VisibilityType

-- Both fields are required, and both may be null.
pub record SnippetUpdate : Type 0 where
  pub title : Option String
  pub content : Option String

-- The dict that `update_snippet` reads: a key is absent (`none`), null (`some none`) or has a value.
pub record UpdateData : Type 0 where
  pub title : Option (Option String)
  pub content : Option (Option String)
  pub visibility : Option (Option VisibilityType)

-- `payload.model_dump(exclude_unset=True)`: the schema has no field `visibility`.
unfoldable pub model_dump : SnippetUpdate → UpdateData
model_dump payload = record {
  title = some payload.title;
  content = some payload.content;
  visibility = none;
}

-- `data.get(key)`
abbrev pub get {ℓ} : {A : Type ℓ} → Option (Option A) → Option A
get none = none
get (some v) = v

pub record SnippetVersionResponse : Type 0 where
  pub version : ℕ
  pub content : String
  pub visibility : VisibilityType
  pub expires_at : Option ℕ
  pub view : ℕ

pub record SnippetResponse : Type 0 where
  pub id : String
  pub short_id : String
  pub title : String
  pub author : UserMeta
  pub created_at : ℕ
  pub views : ℕ
  pub latest_version : ℕ
  pub current_version : SnippetVersionResponse

pub record SnippetOut : Type 0 where
  pub ttl_seconds : Option ℕ

pub record SnippetOutResponse : Type 0 where
  pub share_url : String
  pub expires_at : ℕ

-- The SET clauses of the updates of a snippet row.
pub data SnippetChange : Type 0 where
  count_version : SnippetChange
  set_title : String → SnippetChange
  mark_deleted : ℕ → SnippetChange
  set_views : ℕ → SnippetChange

-- `if obj.deleted_at is None: obj.deleted_at = now`
abbrev pub deleted_since : Option ℕ → ℕ → ℕ
deleted_since none now = now
deleted_since (some t) now = t

abbrev pub change : SnippetChange → Snippet → Snippet
change count_version x = record x { version_counter = suc x.version_counter }
change (set_title title) x = record x { title = title }
change (mark_deleted now) x = record x { deleted_at = some (deleted_since x.deleted_at now) }
change (set_views views) x = record x { views = views }
