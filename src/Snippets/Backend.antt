-- ===== src/Snippets/Backend.antt =====
-- What the snippet service relies on of PostgreSQL behind a SQLAlchemy session, of Redis, and of the
-- JSON of pydantic. A `Db` is what the session sees; keeping an earlier `Db` is a rollback.
use mathlib.Core.Option
use swiftpaste.Prelude.{
  ℕ, String, ◌≡◌, ◌⊎◌, Bool, true, ◌&&◌, Option, none, some, ◌==◌, str_eq, if◌then◌else◌,
}
use swiftpaste.Models.{
  VisibilityType, Snippet, SnippetVersion, UserMeta, SnippetChange, change, SnippetResponse,
}

-- A flush that inserts: the constraints hold, or IntegrityError with its text in lower case.
pub data Inserted (Db : Type 0) : Type 0 where
  inserted : Db → Inserted Db
  refused : String → Inserted Db

-- A call of Redis: it answers or raises.
pub data Reply (A : Type 0) : Type 0 where
  answer : A → Reply A
  raised : Reply A

abbrev pub set_expiry : ℕ → SnippetVersion → SnippetVersion
set_expiry t v = record v { expires_at = some t }

pub record Backend : Type 1 where
  pub Db : Type 0
  -- rows by their unique keys, those that are marked deleted too
  pub by_id : Db → String → Option Snippet
  pub by_short_id : Db → String → Option Snippet
  pub version_row : Db → String → ℕ → Option SnippetVersion
  pub author : Db → String → UserMeta
  -- a row is found under its own key
  pub id-by_id : (d : Db) (i : String) {x : Snippet} → by_id d i ≡ some x → x.id ≡ i
  pub insert_snippet : Snippet → Db → Inserted Db
  pub insert_version : SnippetVersion → Db → Inserted Db
  pub update_snippet_row : String → SnippetChange → Db → Db
  pub update_expiry : String → ℕ → ℕ → Db → Db
  -- a column with a default takes it where the attribute is None, and keeps a value
  pub insert_default : Option VisibilityType → VisibilityType → VisibilityType
  pub insert_default-none : (d : VisibilityType) → insert_default none d ≡ d
  pub insert_default-some : (v d : VisibilityType) → insert_default (some v) d ≡ v
  pub by_id-update_snippet_row :
      (i : String) (c : SnippetChange) (d : Db) (j : String)
      → by_id (update_snippet_row i c d) j
        ≡ (if str_eq i j then Option.map (change c) (by_id d j) else by_id d j)
  pub by_short_id-update_snippet_row :
      (i : String) (c : SnippetChange) (d : Db) (k : String)
      → by_short_id (update_snippet_row i c d) k
        ≡ Option.map (λ x. if str_eq i x.id then change c x else x) (by_short_id d k)
  pub version_row-update_snippet_row :
      (i : String) (c : SnippetChange) (d : Db) (j : String) (n : ℕ)
      → version_row (update_snippet_row i c d) j n ≡ version_row d j n
  pub by_id-update_expiry :
      (i : String) (n t : ℕ) (d : Db) (j : String) → by_id (update_expiry i n t d) j ≡ by_id d j
  pub by_short_id-update_expiry :
      (i : String) (n t : ℕ) (d : Db) (k : String)
      → by_short_id (update_expiry i n t d) k ≡ by_short_id d k
  pub version_row-update_expiry :
      (i : String) (n t : ℕ) (d : Db) (j : String) (m : ℕ)
      → version_row (update_expiry i n t d) j m ≡ (
          if str_eq i j && n == m
          then Option.map (set_expiry t) (version_row d j m)
          else version_row d j m)
  pub by_id-insert_version :
      (v : SnippetVersion) (d : Db) {d' : Db} (j : String)
      → insert_version v d ≡ inserted d'
      → by_id d' j ≡ by_id d j
  pub by_short_id-insert_version :
      (v : SnippetVersion) (d : Db) {d' : Db} (k : String)
      → insert_version v d ≡ inserted d'
      → by_short_id d' k ≡ by_short_id d k
  pub version_row-insert_version :
      (v : SnippetVersion) (d : Db) {d' : Db} (j : String) (n : ℕ)
      → insert_version v d ≡ inserted d'
      → version_row d' j n
        ≡ (if str_eq v.snippet_id j && v.version == n then some v else version_row d j n)
  -- the pair of snippet and version is unique, and its snippet is there
  pub insert_version-inserted :
      (v : SnippetVersion) (d : Db) {x : Snippet}
      → by_id d v.snippet_id ≡ some x
      → version_row d v.snippet_id v.version ≡ none
      → (d' : Db) × (insert_version v d ≡ inserted d')
  pub by_id-insert_snippet :
      (x : Snippet) (d : Db) {d' : Db} (j : String)
      → insert_snippet x d ≡ inserted d'
      → by_id d' j ≡ (if str_eq x.id j then some x else by_id d j)
  pub by_short_id-insert_snippet :
      (x : Snippet) (d : Db) {d' : Db} (k : String)
      → insert_snippet x d ≡ inserted d'
      → by_short_id d' k ≡ (if str_eq x.short_id k then some x else by_short_id d k)
  pub version_row-insert_snippet :
      (x : Snippet) (d : Db) {d' : Db} (j : String) (n : ℕ)
      → insert_snippet x d ≡ inserted d'
      → version_row d' j n ≡ version_row d j n
  -- primary key and unique short id
  pub insert_snippet-fresh :
      (x : Snippet) (d : Db) {d' : Db}
      → insert_snippet x d ≡ inserted d'
      → (by_id d x.id ≡ none) × (by_short_id d x.short_id ≡ none)
  -- the string keys of Redis
  pub Cache : Type 0
  pub Payload : Type 0
  pub cached : Cache → String → Option Payload
  pub redis_get : String → Cache → Reply (Option Payload) × Cache
  pub redis_setex : String → ℕ → Payload → Cache → Reply (Unit {0}) × Cache
  pub redis_get-answer :
      (k : String) (c : Cache) {v : Option Payload} → (redis_get k c).0 ≡ answer v → v ≡ cached c k
  pub cached-redis_get :
      (k : String) (c : Cache) (j : String) → cached (redis_get k c).1 j ≡ cached c j
  pub cached-redis_setex :
      (k : String) (ttl : ℕ) (p : Payload) (c : Cache) (j : String)
      → (redis_setex k ttl p c).0 ≡ answer tt
      → cached (redis_setex k ttl p c).1 j ≡ (if str_eq k j then some p else cached c j)
  -- also where it raises, the write has been made whole or not at all
  pub redis_setex-either :
      (k : String) (ttl : ℕ) (p : Payload) (c : Cache) (j : String)
      → (cached (redis_setex k ttl p c).1 j ≡ cached c j)
        ⊎ (cached (redis_setex k ttl p c).1 j ≡ some p)
  -- `_serialize_payload` of `model_dump`, and `model_validate` of `_deserialize_payload`; `none` raises
  pub serialize : SnippetResponse → Payload
  pub deserialize : Payload → Option SnippetResponse
  pub deserialize-serialize : (r : SnippetResponse) → deserialize (serialize r) ≡ some r
  pub is_truthy : Payload → Bool
  pub is_truthy-serialize : (r : SnippetResponse) → is_truthy (serialize r) ≡ true
  -- the sorted set `snippets:expiry`
  pub Expiry : Type 0
  pub expiry_score : Expiry → String → Option ℕ
  pub expiry_zadd : String → ℕ → Expiry → Expiry
  pub expiry_score-expiry_zadd :
      (k : String) (n : ℕ) (e : Expiry) (j : String)
      → expiry_score (expiry_zadd k n e) j ≡ (if str_eq k j then some n else expiry_score e j)
